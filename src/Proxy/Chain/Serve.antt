-- ===== src/Proxy/Chain/Serve.antt =====
-- `serveManagedChain` of internal/proxy/chain_serve.go: one request walks down the candidate chain.
--
-- `Hop` is what happens at one turn of the loop and is not decided there: the clock, whether the
-- credential, the provider and the upstream's address are found, and the response of the attempt
-- (`serveRouteWithObserver`). Times are in nanoseconds, those of the policy in milliseconds. Logs,
-- metrics and the text of the response are left out.
pub mod First
use aikey_proxy.Proxy.CooldownDecision.{Evidence, failover_eligible_response}
use aikey_proxy.Proxy.BindingCooldown.{BindingCooldown, millisecond, note, note_success}
use aikey_proxy.Proxy.Chain.{CandidateChain, ResolvedRoute, exhausted_code, hop_key}
use aikey_proxy.Proxy.Chain.Order.{order_candidates}
use aikey_proxy.Proxy.Chain.Activity.{Entry, StickDecision, note_served, observe}
use aikey_proxy.Prelude.{
  Bool, List, Option, String, [], eqb, false, if◌then◌else◌, leb, ltb, none, not, some, suc, true,
  ◌&&◌, ◌*◌, ◌+◌, ◌==◌, ◌||◌, ◌∷◌, ℕ,
}

-- The answer of an attempt, with the error code of its header.
pub record HopAnswer : Type 0 where
  pub status : ℕ
  pub evidence : Evidence
  pub error_source : String

pub record Hop : Type 0 where
  pub at : ℕ
  pub has_key : Bool
  pub has_provider : Bool
  pub has_address : Bool
  pub answer : HopAnswer
  pub after : ℕ

unfoldable pub chain_skip_response : HopAnswer → Bool
chain_skip_response a = eqb a.status 400 && a.error_source == "MODEL_MAPPING_NOT_FOUND"

unfoldable pub chain_attempt_eligible : HopAnswer → Bool
chain_attempt_eligible a = failover_eligible_response a.status a.evidence || chain_skip_response a

http_status_reason : ℕ → String
http_status_reason status =
    if eqb status 401
    then "UPSTREAM_UNAUTHORIZED"
    else if eqb status 429
    then "UPSTREAM_RATE_LIMITED"
    else if leb 500 status
    then "UPSTREAM_SERVER_ERROR"
    else "UPSTREAM_ERROR"

-- The stores that the loop writes, and its variables.
pub record Walk : Type 0 where
  pub cooldown : BindingCooldown
  pub activity : Option Entry
  pub attempts : ℕ
  pub last_captured : Option ℕ
  pub last_reason : String
  pub last_provider : String
  pub switches : ℕ

-- The hop that served, with its place in the order; no time is left before the hop; or no hop is left.
pub data Outcome : Type 0 where
  served : ResolvedRoute → ℕ → Outcome
  budget_exceeded : ℕ → Outcome
  spent : Outcome

pub record ChainPolicy : Type 0 where
  pub idle_gap : ℕ
  pub max_stickiness : ℕ
  pub binding_cooldown : ℕ
  pub chain_total_budget : ℕ

unfoldable pub is_over : ChainPolicy → ℕ → Hop → Bool
is_over policy start h =
    ltb 0 policy.chain_total_budget && ltb (start + policy.chain_total_budget * millisecond) h.at

unfoldable pub is_available : Hop → Bool
is_available h = h.has_key && h.has_provider && h.has_address

not_empty : List ResolvedRoute → Bool
not_empty [] = false
not_empty (c ∷ cs) = true

-- A failed attempt: the next hop, if there is one, is switched to.
switched : ResolvedRoute → List ResolvedRoute → Walk → Walk
unfolding not_empty
switched c more s = record s {
  last_provider = c.provider_code;
  switches = s.switches + (if not_empty more then 1 else 0);
}

failed_with : HopAnswer → Walk → Walk
unfolding http_status_reason
failed_with a s = record s {
  last_captured = some a.status;
  last_reason = if a.error_source == "" then http_status_reason a.status else a.error_source;
}

module _ (policy : ChainPolicy) (start : ℕ) (primary_id : String) (hop : ℕ → Hop) where
  serves : ℕ → ResolvedRoute → Walk → Walk
  serves i c s = record s {
    cooldown = note_success s.cooldown (hop_key c);
    activity =
        some
          (note_served s.activity (hop_key c) (hop_key c == primary_id || eqb i 0) (hop i).after);
  }

  cools : ℕ → ResolvedRoute → Walk → Walk
  cools i c s =
      let a = (hop i).answer in
      record s {
        cooldown =
            (note s.cooldown (hop_key c) a.status a.evidence policy.binding_cooldown
              (hop i).after).0;
      }

  -- What is known after an attempt whose response was captured.
  did_not_serve : ℕ → ResolvedRoute → List ResolvedRoute → Walk → Walk
  unfolding switched failed_with cools
  did_not_serve i c more s =
      let a = (hop i).answer in
      switched c more (if chain_skip_response a then s else failed_with a (cools i c s))

  -- A turn of the loop: the outcome, or the variables for the next turn.
  turn : ℕ → ResolvedRoute → List ResolvedRoute → Walk → Option Outcome × Walk
  unfolding serves did_not_serve
  turn i c more s =
      if ltb 0 i && is_over policy start (hop i)
      then (some (budget_exceeded i), s)
      else if not (is_available (hop i))
      then (none, s)
      else let tried = record s { attempts = s.attempts + 1 } in
        if chain_attempt_eligible (hop i).answer
        then (none, did_not_serve i c more tried)
        else (some (served c i), serves i c tried)

  go_on : (Walk → Outcome × Walk) → Option Outcome × Walk → Outcome × Walk
  go_on next (none, s) = next s
  go_on next (some o, s) = (o, s)

  unfoldable pub serve_hops : ℕ → List ResolvedRoute → Walk → Outcome × Walk
  unfolding go_on turn
  serve_hops i [] s = (spent, s)
  serve_hops i (c ∷ cs) s = go_on (λ s'. serve_hops (suc i) cs s') (turn i c cs s)

-- What the client gets: a hop's own response, or a status with a code.
pub data ChainAnswer : Type 0 where
  unreadable_body : ChainAnswer
  from_hop : ResolvedRoute → ℕ → ChainAnswer
  refused : ℕ → String → ChainAnswer

or_bad_gateway : Option ℕ → ℕ
or_bad_gateway none = 502
or_bad_gateway (some status) = status

answered : CandidateChain → Outcome × Walk → ChainAnswer × Walk
unfolding or_bad_gateway
answered chain (served c i, s) = (from_hop c i, s)
answered chain (budget_exceeded i, s) = (refused 504 "UPSTREAM_FALLBACK_BUDGET_EXCEEDED", s)
answered chain (spent, s) = (refused (or_bad_gateway s.last_captured) (exhausted_code chain), s)

-- The key of the first candidate, which the callers see to.
primary_key : List ResolvedRoute → String
primary_key [] = ""
primary_key (c ∷ cs) = hop_key c

observed :
    ChainPolicy
    → CandidateChain
    → ℕ
    → ℕ
    → (ℕ → Hop)
    → BindingCooldown
    → Entry × StickDecision
    → Outcome × Walk
unfolding primary_key
observed policy chain start now hop cooldown (e, stick) =
    serve_hops policy start (primary_key chain.candidates) hop 0
      (order_candidates chain.candidates stick.stick_to cooldown now)
      (record {
        cooldown = cooldown;
        activity = some e;
        attempts = 0;
        last_captured = none;
        last_reason = "";
        last_provider = "";
        switches = 0;
      })

pub serve_managed_chain :
    ChainPolicy
    → CandidateChain
    → Bool
    → ℕ
    → ℕ
    → (ℕ → Hop)
    → BindingCooldown
    → Option Entry
    → ChainAnswer × BindingCooldown × Option Entry
unfolding answered observed
serve_managed_chain policy chain readable start now hop cooldown activity =
    if not readable
    then (unreadable_body, cooldown, activity)
    else let (answer, s) = answered chain (
        observed policy chain start now hop cooldown (
          observe activity (policy.idle_gap * millisecond) (policy.max_stickiness * millisecond)
            now)) in
      (answer, s.cooldown, s.activity)
