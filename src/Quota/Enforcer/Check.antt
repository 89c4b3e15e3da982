-- ===== src/Quota/Enforcer/Check.antt =====
-- What it means that `Check` lets a request pass or blocks it: the rules that apply and their limits,
-- and a block on a stale baseline in budget mode.
use aikey_proxy.Prelude.{
  sym, ℕ, String, Bool, true, false, Option, some, List, [], ◌∷◌, ◌≡◌, refl, subst, ◌⊎◌, inl, inr,
  ◌==◌, ◌&&◌, Bool-cases,
}
use aikey_proxy.Prelude.Results.{some-injective, some-ne-none}
use aikey_proxy.Prelude.Lists.{All}
use aikey_proxy.Quota.Amount.{Amount}
use aikey_proxy.Quota.Counter.{Counter, get}
use aikey_proxy.Quota.Snapshot.{
  Snapshot, subjects_for_seat, budget_stale, metric_tokens, metric_usd,
}
use aikey_proxy.Quota.Buckets.{
  Calendar, TokenBucket, Limit, token_buckets_for_seat, usd_buckets_for_seat,
}
use aikey_proxy.Quota.Buckets.Strictest.{Applies}
use aikey_proxy.Quota.Buckets.Attained.{buckets-All}
use aikey_proxy.Quota.Enforcer.{
  Enforcer, Violation, source_used, check_tokens, check_usd, check_live, check_wired, check,
}

module _ (m : Amount) where
  open m use {Carrier, zero, le, le_trans}

  -- The usage under the key of a limit reaches the limit.
  abbrev pub reaches : (String → String → Carrier) → Limit m → Bool
  reaches used k = le k.amount (used k.subject_id k.period_key)

  module _ (P : String → String → Carrier → Type 0) where
    -- What a violation in the token loop shows, and one in the usd loop.
    abbrev pub Hit : (String → String → Carrier) → Violation m → Type 0
    Hit used v =
        P v.subject_id v.period_key v.limit
        × (v.used ≡ used v.subject_id v.period_key)
        × (le v.limit v.used ≡ true)

    tokens-Hit :
        (c : Counter m) (bs : List (TokenBucket m)) (next : Option (Violation m)) (v : Violation m)
        → All (λ b. P b.subject_id b.period_key b.limit) bs
        → check_tokens m c bs next ≡ some v
        → ((v.metric ≡ metric_tokens) × Hit (λ s p. get m c s metric_tokens p) v) ⊎ (next ≡ some v)
    unfolding check_tokens
    tokens-Hit c [] next v a h = inr h
    tokens-Hit c (b ∷ bs) next v a h =
        elim (Bool-cases (le b.limit (get m c b.subject_id metric_tokens b.period_key))) [
          | inl over ↦ inl (
              subst (λ w. (w.metric ≡ metric_tokens) × Hit (λ s p. get m c s metric_tokens p) w)
                (some-injective (rw over at h)) (refl, (a.0, refl, over)))
          | inr under ↦ tokens-Hit c bs next v a.1 (rw under at h)
        ]

    usd-Hit :
        (used : String → String → Carrier) (stale : Bool) (bs : List (TokenBucket m))
        (v : Violation m)
        → All (λ b. P b.subject_id b.period_key b.limit) bs
        → check_usd m used stale bs ≡ some v
        → (v.metric ≡ metric_usd) × (Hit used v ⊎ ((v.fail_closed_stale ≡ true) × (stale ≡ true)))
    unfolding check_usd
    usd-Hit used stale [] v a h = absurd (some-ne-none (sym h))
    usd-Hit used stale (b ∷ bs) v a h =
        elim (Bool-cases (le b.limit (used b.subject_id b.period_key))) [
          | inl over ↦
              subst
                (λ w.
                  (w.metric ≡ metric_usd)
                  × (Hit used w ⊎ ((w.fail_closed_stale ≡ true) × (stale ≡ true))))
                (some-injective (rw over at h)) (refl, inl (a.0, refl, over))
          | inr under ↦ elim (Bool-cases stale) [
            | inl old ↦
                subst
                  (λ w.
                    (w.metric ≡ metric_usd)
                    × (Hit used w ⊎ ((w.fail_closed_stale ≡ true) × (stale ≡ true))))
                  (some-injective (rw (under, old) at h)) (refl, inr (refl, old))
            | inr fresh ↦ usd-Hit used stale bs v a.1 (rw (under, fresh) at h)
          ]
        ]

  module _ (cal : Calendar) (e : Enforcer m) (s : Snapshot m) (c : Counter m) (seat : String)
      (now : ℕ) (snapshot_eq : e.snapshot ≡ some s) (counter_eq : e.counter ≡ some c)
      (on : e.enabled ≡ true) (named : (seat == "") ≡ false) where
    abbrev pub usd_used : String → String → Carrier
    usd_used = source_used m c e.usd_source

    abbrev pub tokens_used : String → String → Carrier
    tokens_used sid pk = get m c sid metric_tokens pk

    abbrev pub stale : Bool
    stale = e.budget_mode && budget_stale m s now e.max_staleness

    abbrev pub RuleOf : String → Limit m → Type 0
    RuleOf metric k = Applies m cal now metric k (subjects_for_seat m s seat)

    -- An applicable rule with this subject, window and limit.
    abbrev pub Limited : String → String → String → Carrier → Type 0
    Limited metric sid pk limit =
        (k : Limit m) × RuleOf metric k
        × (k.subject_id ≡ sid)
        × (k.period_key ≡ pk)
        × (k.amount ≡ limit)

    check_opened : check m cal e seat now ≡ check_live m cal e s c seat now
    unfolding check check_wired
    check_opened = rw (snapshot_eq, counter_eq, on, named)

    -- With an enabled enforcer that has a rule set and a counter, and a seat that is named: if `Check` blocks, then the violation names a rule that applies to the seat: a token rule or a usd rule whose recorded usage reaches its limit, or, only in budget mode with a stale baseline, a block marked as failing closed.
    pub check_blocks :
        (v : Violation m)
        → (check m cal e seat now).1 ≡ some v
        → ((v.metric ≡ metric_tokens) × Hit (Limited metric_tokens) tokens_used v)
          ⊎ ((v.metric ≡ metric_usd)
              × (Hit (Limited metric_usd) usd_used v
                  ⊎ ((v.fail_closed_stale ≡ true) × (stale ≡ true))))
    unfolding check_live token_buckets_for_seat usd_buckets_for_seat
    check_blocks v h =
        elim (tokens-Hit (Limited metric_tokens) c (token_buckets_for_seat m cal s seat now) _ v
          (buckets-All m (Limited metric_tokens) cal now metric_tokens s seat
            (λ k r. (k, r, refl, refl, refl)))
          (rw check_opened at h)) [
            | inl hit ↦ inl hit
            | inr h' ↦ inr (
                usd-Hit (Limited metric_usd) usd_used stale (usd_buckets_for_seat m cal s seat now)
                  v
                  (buckets-All m (Limited metric_usd) cal now metric_usd s seat
                    (λ k r. (k, r, refl, refl, refl)))
                  h')
          ]
