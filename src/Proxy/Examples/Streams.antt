-- ===== src/Proxy/Examples/Streams.antt =====
-- A stream whose model is restored, and a request that the second hop serves.

use aikey_proxy.Proxy.SseModel.Lines.{process_complete_lines-IsFinal}
use aikey_proxy.Prelude.{
  arith, List, String, [], eqb, false, if◌then◌else◌, none, refl, some, true, ℕ, ◌+◌, ◌∷◌, ◌≡◌,
}
use aikey_proxy.Proxy.SseModel.{
  fresh_rewriter, Rewriter, process_lines, split_line, Bytes, Json, new_rewriter,
  process_complete_lines, reads, rewrite_model_line,
}
use aikey_proxy.Proxy.SseModel.Reads.{Served, reads-scan}
use aikey_proxy.Proxy.CooldownDecision.{Evidence, failover_eligible_response}
use aikey_proxy.Proxy.BindingCooldown.{new_binding_cooldown}
use aikey_proxy.Proxy.Chain.{ResolvedRoute}
use aikey_proxy.Proxy.Chain.Serve.{
  chain_skip_response, ChainPolicy, Hop, chain_attempt_eligible, is_available, is_over, serve_hops,
  served,
}
use aikey_proxy.Proxy.Chain.Serve.First.{First, fresh, serve_hops-First}

abbrev json : Json
json = record {
  type_of = λ payload. "message_start";
  has_model = λ payload. true;
  set_model = λ payload model. some (123 ∷ 109 ∷ 125 ∷ []);
}

-- "data: {}\n\nx", cut inside the line
abbrev cut : List Bytes
cut = (100 ∷ 97 ∷ 116 ∷ []) ∷ (97 ∷ 58 ∷ 32 ∷ 123 ∷ 125 ∷ 10 ∷ 10 ∷ []) ∷ (120 ∷ []) ∷ []

-- Small reads give the rewritten line, its blank line and the start of the next.
small_reads :
    (reads json (4 ∷ 6 ∷ 1 ∷ 8 ∷ []) false (fresh_rewriter "m") cut).0
    ≡ 100 ∷ 97 ∷ 116 ∷ 97 ∷ 58 ∷ 32 ∷ 123 ∷ 109 ∷ 125 ∷ 10 ∷ 10 ∷ 120 ∷ []
unfolding reads fresh_rewriter rewrite_model_line process_complete_lines
small_reads = refl

reads-scan_example : Served json "m" (4 ∷ 6 ∷ 1 ∷ []) 7 false cut (new_rewriter "m")
reads-scan_example = reads-scan json "m" (4 ∷ 6 ∷ 1 ∷ []) 7 false cut

-- Two lines and the start of a third.
abbrev buffered : Rewriter
buffered = record (fresh_rewriter "m") { buf = 97 ∷ 10 ∷ 98 ∷ 10 ∷ 99 ∷ [] }

process_complete_lines-IsFinal_example :
    (process_lines json 9 buffered ≡ process_complete_lines json buffered)
    × (split_line (process_complete_lines json buffered).buf ≡ none)
unfolding fresh_rewriter
process_complete_lines-IsFinal_example =
    process_complete_lines-IsFinal json 9 buffered (omega arith)

abbrev route : String → ResolvedRoute
route id = record {
  provider_code = "p";
  credential_id = "c";
  binding_id = id;
  virtual_key_id = "v";
  protocol_type = "anthropic";
  priority = 1;
  route_group_id = "g";
  route_group_name = "group";
  oauth_group_id = "";
  group_accounts = "";
}

abbrev plain : Evidence
plain = record {
  rate_limit_signal = false;
  codex_reset = 0;
  anthropic_window_reset = 0;
  retry_after = 0;
  node_egress_error = false;
}

-- The first hop fails with 503, the second one answers.
abbrev hop : ℕ → Hop
hop i = record {
  at = i;
  has_key = true;
  has_provider = true;
  has_address = true;
  answer = record { status = if eqb i 0 then 503 else 200; evidence = plain; error_source = "" };
  after = i + 1;
}

abbrev policy : ChainPolicy
policy = record {
  idle_gap = 1000;
  max_stickiness = 0;
  binding_cooldown = 1000;
  chain_total_budget = 0;
}

second_serves :
    (serve_hops policy 0 "a" hop 0 (route "a" ∷ route "b" ∷ []) (fresh new_binding_cooldown none)).0
    ≡ served (route "b") 1
unfolding serve_hops chain_attempt_eligible chain_skip_response failover_eligible_response
    is_available is_over
second_serves = refl

serve_hops-First_example :
    First policy 0 "a" hop
      (route "a" ∷ route "b" ∷ [])
      (serve_hops policy 0 "a" hop 0 (route "a" ∷ route "b" ∷ []) (fresh new_binding_cooldown none))
serve_hops-First_example =
    serve_hops-First policy 0 "a" hop (route "a" ∷ route "b" ∷ []) new_binding_cooldown none
