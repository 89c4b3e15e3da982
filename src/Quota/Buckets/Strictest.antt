-- ===== src/Quota/Buckets/Strictest.antt =====
-- The buckets of a seat hold, for every rule that applies, a limit that is at least as strict.
use aikey_proxy.Prelude.{
  ℕ, String, true, false, List, [], ◌∷◌, ◌≡◌, ◌⊎◌, inl, inr, ◌==◌, ◌||◌, not, eq_iff, if◌then◌else◌,
  Bool-cases,
}
use aikey_proxy.Prelude.Lists.{Any}
use text.Mathlib.TextPositions.{eq_refl}
use aikey_proxy.Quota.Amount.{Amount}
use aikey_proxy.Quota.Snapshot.{Rule, Subject, Snapshot, subjects_for_seat}
use aikey_proxy.Quota.Buckets.{
  Calendar, period_key, TokenBucket, Limit, same_bucket, add_limit, subject_limits, add_limits,
  add_subjects, buckets_for_seat,
}

module _ (m : Amount) where
  open m use {Carrier, zero, le, le_refl, le_trans, le_total}

  -- A bucket of the limit's key is at most the limit.
  abbrev pub Covered : Limit m → List (TokenBucket m) → Type 0
  Covered l [] = ⊥
  Covered l (b ∷ bs) = ((same_bucket m l b ≡ true) × (le b.limit l.amount ≡ true)) ⊎ Covered l bs

  Covered-here :
      (l : Limit m) (b : TokenBucket m) (bs : List (TokenBucket m))
      → same_bucket m l b ≡ true
      → Covered l ((if le b.limit l.amount then b else record b { limit = l.amount }) ∷ bs)
  Covered-here l b bs e = elim (Bool-cases (le b.limit l.amount)) [
    | inl strict ↦ rw strict (inl (e, strict))
    | inr loose ↦ rw loose (inl (e, le_refl l.amount))
  ]

  Covered-tighter :
      (k : Limit m) (b : TokenBucket m) (bs : List (TokenBucket m)) (a : Carrier)
      → Covered k (b ∷ bs)
      → Covered k ((if le b.limit a then b else record b { limit = a }) ∷ bs)
  Covered-tighter k b bs a h = elim (Bool-cases (le b.limit a)) [
    | inl strict ↦ rw strict h
    | inr loose ↦ rw loose (tightened h loose)
  ]
    where
      tightened :
          Covered k (b ∷ bs) → le b.limit a ≡ false → Covered k (record b { limit = a } ∷ bs)
      tightened (inl (e, q)) loose =
          inl (e, le_trans a b.limit k.amount (le_total b.limit a loose) q)
      tightened (inr r) loose = inr r

  Covered-add : (l : Limit m) (out : List (TokenBucket m)) → Covered l (add_limit m l out)
  unfolding add_limit
  Covered-add l [] = inl (rw (eq_refl l.subject_id) (eq_refl l.period_key), le_refl l.amount)
  Covered-add l (b ∷ bs) = elim (Bool-cases (same_bucket m l b)) [
    | inl e ↦ rw e (Covered-here l b bs e)
    | inr e ↦ rw e (inr (Covered-add l bs))
  ]

  Covered-keep :
      (k l : Limit m) (out : List (TokenBucket m)) → Covered k out → Covered k (add_limit m l out)
  unfolding add_limit
  Covered-keep k l [] h = elim h [ ]
  Covered-keep k l (b ∷ bs) (inl h) = elim (Bool-cases (same_bucket m l b)) [
    | inl e ↦ rw e (Covered-tighter k b bs l.amount (inl h))
    | inr e ↦ rw e (inl h)
  ]
  Covered-keep k l (b ∷ bs) (inr h) = elim (Bool-cases (same_bucket m l b)) [
    | inl e ↦ rw e (inr h)
    | inr e ↦ rw e (inr (Covered-keep k l bs h))
  ]

  Covered-keep_all :
      (k : Limit m) (ls : List (Limit m)) (out : List (TokenBucket m))
      → Covered k out
      → Covered k (add_limits m ls out)
  unfolding add_limits
  Covered-keep_all k [] out h = h
  Covered-keep_all k (l ∷ ls) out h =
      Covered-keep_all k ls (add_limit m l out) (Covered-keep k l out h)

  Covered-add_all :
      (k : Limit m) (ls : List (Limit m)) (out : List (TokenBucket m))
      → Any (λ l. k ≡ l) ls
      → Covered k (add_limits m ls out)
  unfolding add_limits
  Covered-add_all k [] out h = elim h [ ]
  Covered-add_all k (l ∷ ls) out (inl e) =
      Covered-keep_all k ls (add_limit m l out) (rw e (Covered-add l out))
  Covered-add_all k (l ∷ ls) out (inr h) = Covered-add_all k ls (add_limit m l out) h

  module _ (cal : Calendar) (now : ℕ) (metric : String) where
    abbrev pub limit_of : String → Rule m → Limit m
    limit_of sid r = record {
      subject_id = sid;
      period = r.period;
      period_key = period_key cal r.period now;
      amount = r.limit_amount;
    }

    -- A rule of the metric with a positive limit.
    abbrev pub Active : Rule m → Type 0
    Active r = (r.metric ≡ metric) × (le r.limit_amount zero ≡ false)

    -- `k` is the limit that some active rule of some subject sets.
    abbrev pub Applies : Limit m → List (Subject m) → Type 0
    Applies k subs =
        Any (λ sub. Any (λ r. Active r × (k ≡ limit_of sub.subject_id r)) sub.rules) subs

    limits_complete :
        (k : Limit m) (sid : String) (rs : List (Rule m))
        → Any (λ r. Active r × (k ≡ limit_of sid r)) rs
        → Any (λ l. k ≡ l) (subject_limits m cal now metric sid rs)
    unfolding subject_limits
    limits_complete k sid [] h = elim h [ ]
    limits_complete k sid (r ∷ rs) (inl ((e, pos), q)) =
        rw ((eq_iff r.metric metric).1 e, pos) (inl q)
    limits_complete k sid (r ∷ rs) (inr h) =
        elim (Bool-cases (not (r.metric == metric) || le r.limit_amount zero)) [
          | inl skip ↦ rw skip (limits_complete k sid rs h)
          | inr used ↦ rw used (inr (limits_complete k sid rs h))
        ]

    Covered-keep_subjects :
        (k : Limit m) (subs : List (Subject m)) (out : List (TokenBucket m))
        → Covered k out
        → Covered k (add_subjects m cal now metric subs out)
    unfolding add_subjects
    Covered-keep_subjects k [] out h = h
    Covered-keep_subjects k (sub ∷ subs) out h =
        Covered-keep_subjects k subs _
          (Covered-keep_all k (subject_limits m cal now metric sub.subject_id sub.rules) out h)

    Covered-subjects :
        (k : Limit m) (subs : List (Subject m)) (out : List (TokenBucket m))
        → Applies k subs
        → Covered k (add_subjects m cal now metric subs out)
    unfolding add_subjects
    Covered-subjects k [] out h = elim h [ ]
    Covered-subjects k (sub ∷ subs) out (inl h) = Covered-keep_subjects k subs _ (
        Covered-add_all k (subject_limits m cal now metric sub.subject_id sub.rules) out
          (limits_complete k sub.subject_id sub.rules h))
    Covered-subjects k (sub ∷ subs) out (inr h) = Covered-subjects k subs _ h

    pub Covered-buckets :
        (s : Snapshot m) (seat : String) (k : Limit m)
        → Applies k (subjects_for_seat m s seat)
        → Covered k (buckets_for_seat m cal s seat now metric)
    unfolding buckets_for_seat
    Covered-buckets s seat k h = Covered-subjects k (subjects_for_seat m s seat) [] h
