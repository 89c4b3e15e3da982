-- ===== src/Proxy/Examples/Cooldowns.antt =====
-- Accounts and bindings that cool down.
use aikey_proxy.Prelude.{
  ℕ, ◌+◌, ◌*◌, ◌≤◌, ◌<◌, String, true, false, none, some, List, [], ◌∷◌, ◌≡◌, ◌⊎◌, refl, arith,
  ◌==◌, ◌&&◌, ◌||◌, not, ltb, empty_map,
}
use aikey_proxy.Prelude.Maps.{insert}
use aikey_proxy.Proxy.PathHealth.{second}
use aikey_proxy.Proxy.PoolCooldown.Windows.{
  WindowStatusSample, empty_sample, merge_window_status_sample, merge_keeps,
}
use aikey_proxy.Proxy.PoolCooldown.{
  skip_set_for, tier_cooldown_key, Store, new_store, no_state, is_cooling, skip_set,
  mark_with_state_and_windows, note_server_error_with_state, note_success, server_err_cooldown,
}
use aikey_proxy.Proxy.PoolCooldown.Keeps.{marks_tier, Op, succeeds, marks, prunes, skip-mark}
use aikey_proxy.Proxy.PoolCooldown.Streak.{third_error_cools}
use aikey_proxy.Proxy.PoolCooldown.Persist.{
  persistence_snapshot, hydrate, is_cooling_seconds, skip-hydrate,
}
use aikey_proxy.Proxy.CooldownDecision.{
  rate_limit_duration, Evidence, cooldown_decision_with_temporary_fallback, cooldown_max,
  decision_bounds,
}
use aikey_proxy.Proxy.BindingCooldown.{note, AfterNote, cooling-note}

abbrev cooling_store : Store
cooling_store = record new_store {
  until = insert "a" (100 * second) empty_map;
  tier_until = insert "a|opus" (200 * second) empty_map;
}

abbrev calls : List (ℕ × Op)
calls =
    (1, succeeds "a")
    ∷ (2, marks "a" 50 no_state empty_sample)
    ∷ (3, marks_tier "a" "opus" 70)
    ∷ (4, prunes true)
    ∷ []

-- The account is free at 150 seconds, its tier is not.
cools : skip_set_for cooling_store (some "opus") (150 * second) "a" ≡ true
unfolding skip_set_for skip_set tier_cooldown_key
cools = refl

skip-mark_example :
    skip_set (mark_with_state_and_windows cooling_store "b" 90 no_state empty_sample 10) 60 "b"
    ≡ (skip_set cooling_store 60 "b" || (not ("b" == "") && ltb 10 90 && ("b" == "b" && ltb 60 90)))
skip-mark_example = skip-mark cooling_store "b" 90 no_state empty_sample 10 60 "b"

third_error_cools_example :
    let first = note_server_error_with_state (note_success cooling_store "b") "b" no_state 1 in
    let second_one = note_server_error_with_state first.0 "b" no_state 2 in
    let third = note_server_error_with_state second_one.0 "b" no_state 3 in
    (first.1 ≡ none)
    × (second_one.1 ≡ none)
    × (third.1 ≡ some (3 + server_err_cooldown))
    × (skip_set second_one.0 40 "b" ≡ skip_set cooling_store 40 "b")
    × (skip_set third.0 40 "b"
        ≡ (skip_set cooling_store 40 "b" || "b" == "b" && ltb 40 (3 + server_err_cooldown)))
third_error_cools_example =
    third_error_cools cooling_store "b" no_state no_state no_state 1 2 3 40 "b" refl

skip-hydrate_example :
    let loaded = hydrate (some (persistence_snapshot cooling_store 5)) 7 in
    (skip_set loaded 60 "a" ≡ (not ("a" == "") && is_cooling_seconds (cooling_store.until "a") 60))
    × (is_cooling (loaded.tier_until "a|opus") 60
        ≡ (not ("a|opus" == "") && is_cooling_seconds (cooling_store.tier_until "a|opus") 60))
skip-hydrate_example = skip-hydrate cooling_store 5 7 60 "a" "a|opus" (omega arith) (omega arith)

abbrev sample : String → ℕ → WindowStatusSample
sample status reset_at = record empty_sample {
  credential_id = "a";
  window_status = status;
  window_reset_at = reset_at;
}

merge_keeps_example :
    let merged = merge_window_status_sample (sample "warning" 100) (sample "exhausted" 90) in
    (merged.credential_id ≡ "a")
    × ((sample "warning" 100).credential_id ≡ (sample "exhausted" 90).credential_id
        → ("a" == "") ≡ false
        → (100 ≤ merged.window_reset_at) × (0 ≤ merged.window_7d_reset_at))
    × (("a" == "") ≡ false → merge_window_status_sample merged (sample "exhausted" 90) ≡ merged)
merge_keeps_example = merge_keeps (sample "warning" 100) (sample "exhausted" 90)

abbrev limited : Evidence
limited = record {
  rate_limit_signal = true;
  codex_reset = 0;
  anthropic_window_reset = 0;
  retry_after = 30 * second;
  node_egress_error = false;
}

decision_value :
    cooldown_decision_with_temporary_fallback 429 limited 9 (5 * second) ≡ some (9 + 30 * second)
unfolding cooldown_decision_with_temporary_fallback rate_limit_duration
decision_value = refl

decision_bounds_example :
    (9 < 9 + 30 * second)
    × ((9 + 30 * second ≤ 9 + cooldown_max)
        ⊎ ((◌≡◌ {A = ℕ} 429 429)
            × (limited.codex_reset ≡ 0)
            × (9 + 30 * second ≡ 9 + limited.anthropic_window_reset)))
decision_bounds_example =
    decision_bounds 429 limited 9 (5 * second) (9 + 30 * second) decision_value

cooling-note_example :
    let r = note (insert "x" 50 empty_map) "y" 429 limited 60000 9 in
    AfterNote r.1 r.0 (insert "x" 50 empty_map) "y" 60000 9 20
cooling-note_example = cooling-note (insert "x" 50 empty_map) "y" 429 limited 60000 9 20
