-- ===== src/Quota/Examples.antt =====
-- Concrete quota checks and counters, over whole amounts.
use aikey_proxy.Prelude.{
  List, if◌then◌else◌, ◌+◌, ◌||◌, Bool-cases, subst, ℕ, String, true, false, none, some, [], ◌∷◌,
  ◌≡◌, refl, arith, inl, inr, ◌⊎◌, ◌==◌, empty_map, sym, eq_iff,
}
use aikey_proxy.Prelude.Maps.{insert}
use aikey_proxy.Prelude.Results.{some-injective, some-ne-none}
use aikey_proxy.Quota.Amount.{whole}
use aikey_proxy.Quota.Counter.{
  LocalUsageRow, at, found_or_new, write_local_usage, Cell, Counter, counter_key, get, used_of,
  accrue, set_baseline, increment_rows, seed_local_increments, new_counter,
}
use aikey_proxy.Quota.Counter.Monotone.{IsNonneg, Reconciled, get-set_baseline, get-accrue}
use aikey_proxy.Quota.Counter.Restart.{IsKeyed, increment_at, seed-write_local_usage}
use aikey_proxy.Quota.Snapshot.{
  Rule, Subject, Snapshot, subjects_for_seat, listed, group_subjects, metric_tokens, metric_usd,
  budget_stale, replace_all,
}
use aikey_proxy.Quota.Snapshot.Lookup.{seat_subjects, subjects-replace_all}
use aikey_proxy.Quota.Buckets.{
  Calendar, period_key, add_limit, subject_limits, add_limits, add_subjects, buckets_for_seat,
  token_buckets_for_seat, usd_buckets_for_seat,
}
use aikey_proxy.Quota.Enforcer.{
  Enforcer, Violation, check, check_wired, check_live, check_tokens, check_usd, source_used,
  counter_usd_source,
}
use aikey_proxy.Quota.Enforcer.Check.{Hit, Limited, check_blocks}

abbrev one_day : Calendar
one_day = record { day = λ now. "2026-11-25"; week = λ now. "2026-W48"; month = λ now. "2026-11" }

abbrev tokens_rule : Rule whole
tokens_rule = record { metric = "tokens"; period = "daily"; limit_amount = 100 }

abbrev usd_rule : Rule whole
usd_rule = record { metric = "usd"; period = "monthly"; limit_amount = 5 }

abbrev seat_subject : Subject whole
seat_subject = record {
  subject_id = "s1";
  subject_kind = "seat";
  members = [];
  rules = tokens_rule ∷ [];
  baselines = [];
}

abbrev group_subject : Subject whole
group_subject = record {
  subject_id = "g1";
  subject_kind = "group";
  members = "s1" ∷ [];
  rules = usd_rule ∷ [];
  baselines = [];
}

abbrev rule_set : Snapshot whole
rule_set = record {
  last_reachable_at = some 0;
  subjects = insert "s1" seat_subject (insert "g1" group_subject empty_map);
  seat_to_groups = insert "s1" ("g1" ∷ []) empty_map;
  price_summary = none;
}

abbrev cell : ℕ → Cell whole
cell used = record {
  subject_id = "s1";
  metric = "tokens";
  period_key = "daily:2026-11-25";
  baseline = 70;
  increment = used;
}

abbrev used_tokens : ℕ → Counter whole
used_tokens used = insert "s1|tokens|daily:2026-11-25" (cell used) empty_map

abbrev enforcer : ℕ → Enforcer whole
enforcer used = record {
  snapshot = some rule_set;
  counter = some (used_tokens used);
  usd_source = some counter_usd_source;
  enabled = true;
  budget_mode = true;
  max_staleness = 50;
}

passes : (check whole one_day (enforcer 20) "s1" 40).1 ≡ none
unfolding check check_wired check_live check_tokens check_usd source_used get used_of counter_key
    token_buckets_for_seat usd_buckets_for_seat buckets_for_seat add_subjects add_limits add_limit
    subject_limits period_key subjects_for_seat listed group_subjects budget_stale
passes = refl

abbrev over : Violation whole
over = record {
  metric = "tokens";
  subject_id = "s1";
  period = "daily";
  period_key = "daily:2026-11-25";
  limit = 100;
  used = 110;
  fail_closed_stale = false;
}

blocks : (check whole one_day (enforcer 40) "s1" 40).1 ≡ some over
unfolding check check_wired check_live check_tokens check_usd source_used get used_of counter_key
    token_buckets_for_seat usd_buckets_for_seat buckets_for_seat add_subjects add_limits add_limit
    subject_limits period_key subjects_for_seat listed group_subjects budget_stale
blocks = refl

check_blocks_example :
    ((over.metric ≡ metric_tokens)
      × Hit whole
          (Limited whole one_day
            (enforcer 40)
            rule_set
            (used_tokens 40)
            "s1"
            40
            refl
            refl
            refl
            refl
            metric_tokens)
          (λ sid pk. get whole (used_tokens 40) sid metric_tokens pk)
          over)
    ⊎ ((over.metric ≡ metric_usd)
        × (Hit whole
              (Limited whole one_day
                (enforcer 40)
                rule_set
                (used_tokens 40)
                "s1"
                40
                refl
                refl
                refl
                refl
                metric_usd)
              (source_used whole (used_tokens 40) (some counter_usd_source))
              over
            ⊎ ((over.fail_closed_stale ≡ true) × (budget_stale whole rule_set 40 50 ≡ true))))
check_blocks_example =
    check_blocks whole one_day (enforcer 40) rule_set (used_tokens 40) "s1" 40 refl refl refl refl
      over blocks

cells-IsNonneg : IsNonneg whole (used_tokens 20)
cells-IsNonneg = record { cells = λ k x e. ground arith }

whole_usage : whole.exact (get whole (used_tokens 20) "s1" "tokens" "daily:2026-11-25") ≡ true
unfolding get used_of counter_key
whole_usage = refl

whole_baseline :
    whole.exact (at whole (used_tokens 20) "s1" "tokens" "daily:2026-11-25").baseline ≡ true
unfolding at found_or_new counter_key
whole_baseline = refl

whole_increment :
    whole.exact (at whole (used_tokens 20) "s1" "tokens" "daily:2026-11-25").increment ≡ true
unfolding at found_or_new counter_key
whole_increment = refl

whole_sum :
    whole.exact (whole.add (get whole (used_tokens 20) "s1" "tokens" "daily:2026-11-25") 7) ≡ true
unfolding get used_of counter_key
whole_sum = refl

get-set_baseline_example :
    Reconciled whole (get whole (used_tokens 20) "s1" "tokens" "daily:2026-11-25") 80 (
      get whole
        (set_baseline whole (used_tokens 20) "s1" "tokens" "daily:2026-11-25" 80)
        "s1"
        "tokens"
        "daily:2026-11-25")
    × ((s t p : String)
        → (counter_key "s1" "tokens" "daily:2026-11-25" == counter_key s t p) ≡ false
        → get whole (set_baseline whole (used_tokens 20) "s1" "tokens" "daily:2026-11-25" 80) s t p
          ≡ get whole (used_tokens 20) s t p)
    × IsNonneg whole (set_baseline whole (used_tokens 20) "s1" "tokens" "daily:2026-11-25" 80)
get-set_baseline_example =
    get-set_baseline whole (used_tokens 20) "s1" "tokens" "daily:2026-11-25" cells-IsNonneg 80
      whole_usage refl

get-accrue_example :
    let r = accrue whole (used_tokens 20) "s1" "tokens" "daily:2026-11-25" 7 in
    let used = get whole (used_tokens 20) "s1" "tokens" "daily:2026-11-25" in
    (get whole r.0 "s1" "tokens" "daily:2026-11-25" ≡ used + 7)
    × (r.1 ≡ used + 7)
    × (whole.le (get whole (used_tokens 20) "s1" "tokens" "daily:2026-11-25") r.1 ≡ true)
    × ((s t p : String)
        → (counter_key "s1" "tokens" "daily:2026-11-25" == counter_key s t p) ≡ false
        → get whole r.0 s t p ≡ get whole (used_tokens 20) s t p)
    × IsNonneg whole r.0
get-accrue_example =
    get-accrue whole (used_tokens 20) "s1" "tokens" "daily:2026-11-25" cells-IsNonneg 7 refl
      whole_baseline whole_increment refl whole_sum

cells-IsKeyed : IsKeyed whole (used_tokens 20)
unfolding counter_key
cells-IsKeyed = record {
  keys = λ k x e. elim (Bool-cases ("s1|tokens|daily:2026-11-25" == k)) [
    | inl q ↦
        subst (λ y. counter_key y.subject_id y.metric y.period_key ≡ k) (some-injective (rw q at e))
          ((eq_iff "s1|tokens|daily:2026-11-25" k).0 q)
    | inr q ↦ absurd (some-ne-none (sym (rw q at e)))
  ];
}

-- An older row of the same bucket.
abbrev stored : List (LocalUsageRow whole)
stored =
    record { subject_id = "s1"; metric = "tokens"; period_key = "daily:2026-11-25"; increment = 5 }
    ∷ []

seed-write_local_usage_example :
    increment_at whole
      (seed_local_increments whole (new_counter whole) (
        write_local_usage whole false
          (increment_rows whole (used_tokens 20) ("s1|tokens|daily:2026-11-25" ∷ []))
          stored))
      "s1|tokens|daily:2026-11-25"
    ≡ (if false || whole.same (increment_at whole (used_tokens 20) "s1|tokens|daily:2026-11-25") 0
        then increment_at whole
            (seed_local_increments whole (new_counter whole) stored)
            "s1|tokens|daily:2026-11-25"
        else increment_at whole (used_tokens 20) "s1|tokens|daily:2026-11-25")
seed-write_local_usage_example =
    seed-write_local_usage whole (used_tokens 20) cells-IsKeyed ("s1|tokens|daily:2026-11-25" ∷ [])
      stored false "s1|tokens|daily:2026-11-25" (inl refl)

subjects-replace_all_example :
    subjects_for_seat whole (replace_all whole rule_set (group_subject ∷ seat_subject ∷ [])) "s1"
    ≡ seat_subjects whole (group_subject ∷ seat_subject ∷ []) "s1"
subjects-replace_all_example =
    subjects-replace_all whole rule_set (group_subject ∷ seat_subject ∷ []) "s1"
