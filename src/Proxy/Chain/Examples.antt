-- ===== src/Proxy/Chain/Examples.antt =====
-- A key with three upstreams, two of them rows of one account pool.
use aikey_proxy.Proxy.BindingCooldown.{BindingCooldown}
use aikey_proxy.Prelude.{
  not, ◌&&◌, ℕ, ◌-◌, ◌<◌, String, Bool, true, false, Option, none, some, List, [], ◌∷◌, ◌++◌, ◌≡◌,
  ◌≢◌, refl, arith, ◌==◌, ok, empty_map,
}
use aikey_proxy.Prelude.Maps.{insert}
use aikey_proxy.Prelude.Sort.{filter, sort_stable, insert_sorted}
use aikey_proxy.Proxy.Chain.{
  duplicate_from, mark_seen, collapse_on, put, put_pool, better, pool_candidate_rank, has_accounts,
  ResolvedRoute, ProviderBinding, CandidateChain, collapse_oauth_groups, duplicate_priority,
}
use aikey_proxy.Proxy.Chain.Pools.{pool_rows, best_row, pool-collapse_oauth_groups}
use aikey_proxy.Proxy.Chain.Order.{is_cooling_hop, is_sticky, order_candidates, order-bands}
use aikey_proxy.Proxy.Chain.Select.{
  pinned_chain, after_pin, whole_chain, after_filter, after_duplicate, ordered_chain, chain_from,
  for_protocol,
}
use aikey_proxy.Proxy.Chain.Select.Outcome.{Orders, chain-Orders}
use aikey_proxy.Proxy.Chain.Select.Total.{IsSafe, chain_from-IsSafe}
use aikey_proxy.Proxy.Chain.Activity.{
  reselects, note_served, or_zero, zero_entry, step, Entry, observe, requested, served, run,
  last_let_go, stick_bounded,
}

abbrev route : String → ℕ → String → String → ResolvedRoute
route provider priority group pool = record {
  provider_code = provider;
  credential_id = provider;
  binding_id = "";
  virtual_key_id = "vk";
  protocol_type = "anthropic";
  priority = priority;
  route_group_id = group;
  route_group_name = group;
  oauth_group_id = pool;
  group_accounts = "";
}

-- Every row has one account; the codes are compared as they are.
abbrev one_account : String → Option ℕ
one_account text = some 1

abbrev same_text : String → String → Bool
same_text a b = a == b

abbrev rows : List ResolvedRoute
rows = route "y" 2 "g" "" ∷ route "x" 1 "g" "" ∷ route "" 1 "" "pool" ∷ route "z" 1 "" "pool" ∷ []

pool-collapse_oauth_groups_example :
    pool_rows "pool" (collapse_oauth_groups one_account rows)
    ≡ best_row one_account (pool_rows "pool" rows)
pool-collapse_oauth_groups_example = pool-collapse_oauth_groups one_account rows "pool" refl

abbrev pin : ProviderBinding
pin = record {
  provider_code = "y";
  protocol_type = "";
  key_source_type = "team";
  key_source_ref = "vk";
  route_group_id = "g";
}

abbrev cooled : BindingCooldown
cooled = insert "vk|x" 50 empty_map

order-bands_example :
    order_candidates rows "vk|y" cooled 9
    ≡ filter (is_sticky "vk|y" cooled 9) rows
      ++ (filter
            (λ c. not (is_sticky "vk|y" cooled 9 c) && not (is_cooling_hop "vk|y" cooled 9 c))
            rows
          ++ filter
              (λ c. not (is_sticky "vk|y" cooled 9 c) && is_cooling_hop "vk|y" cooled 9 c)
              rows)
order-bands_example = order-bands "vk|y" cooled 9 rows

abbrev selected : CandidateChain
selected = record {
  candidates = route "x" 1 "g" "" ∷ route "z" 1 "" "pool" ∷ route "y" 2 "g" "" ∷ [];
  pinned = false;
  grouped = true;
  group_id = "g";
  group_name = "g";
}

selects :
    chain_from one_account same_text (some (route "x" 1 "g" "")) rows none "anthropic" ≡ ok selected
unfolding chain_from pinned_chain after_pin whole_chain after_filter for_protocol after_duplicate
    duplicate_priority duplicate_from mark_seen collapse_oauth_groups collapse_on put put_pool
    better pool_candidate_rank has_accounts sort_stable insert_sorted ordered_chain
selects = refl

chain-Orders_example :
    Orders
      (collapse_oauth_groups one_account (for_protocol one_account same_text "anthropic" rows))
      selected
chain-Orders_example =
    chain-Orders one_account same_text (route "x" 1 "g" "") (route "y" 2 "g" "")
      (route "x" 1 "g" "" ∷ route "" 1 "" "pool" ∷ route "z" 1 "" "pool" ∷ []) "anthropic" selected
      selects

no_clash_found : duplicate_priority rows ≡ none
unfolding duplicate_priority duplicate_from mark_seen
no_clash_found = refl

-- The fallback served at time 2, within a gap of 10 and a limit of 50.
abbrev fallen_back : Entry
fallen_back = record { last_request_at = 2; last_probe_at = 1; current_binding_id = "vk|y" }

falls_back : run 10 50 none ((1, requested) ∷ (2, served "vk|y" false) ∷ []) ≡ some fallen_back
unfolding run step observe note_served or_zero zero_entry
falls_back = refl

sticks : (observe (some fallen_back) 10 50 7).1.stick_to ≢ ""
unfolding observe reselects
sticks h = cc

stick_bounded_example :
    (7 - last_let_go 10 50 none ((1, requested) ∷ (2, served "vk|y" false) ∷ []) 0 < 50)
    × (7 - 2 < 10)
stick_bounded_example =
    stick_bounded 10 50 ((2, served "vk|y" false) ∷ []) 1 7 fallen_back falls_back sticks
      (omega arith)

chain_from-IsSafe_example :
    IsSafe (chain_from one_account same_text (some (route "x" 1 "g" "")) rows (some pin) "gemini")
chain_from-IsSafe_example =
    chain_from-IsSafe one_account same_text (some (route "x" 1 "g" "")) rows (some pin) "gemini"
