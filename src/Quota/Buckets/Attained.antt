-- ===== src/Quota/Buckets/Attained.antt =====
-- Every bucket of a seat has the limit of a rule that applies.
use aikey_proxy.Prelude.{
  ℕ, String, true, List, [], ◌∷◌, ◌≡◌, refl, subst, inl, inr, arith, ◌==◌, ◌||◌, not, eq_iff,
  if◌then◌else◌, Bool-cases,
}
use aikey_proxy.Prelude.Lists.{Any, All}
use aikey_proxy.Quota.Amount.{Amount}
use aikey_proxy.Quota.Snapshot.{Rule, Subject, Snapshot, subjects_for_seat}
use aikey_proxy.Quota.Buckets.{
  Calendar, TokenBucket, Limit, same_bucket, add_limit, subject_limits, add_limits, add_subjects,
  buckets_for_seat,
}
use aikey_proxy.Quota.Buckets.Strictest.{limit_of, Active, Applies}

module _ (m : Amount) (P : String → String → m.Carrier → Type 0) where
  open m use {Carrier, zero, le}

  abbrev OfBucket : TokenBucket m → Type 0
  OfBucket b = P b.subject_id b.period_key b.limit

  abbrev OfLimit : Limit m → Type 0
  OfLimit l = P l.subject_id l.period_key l.amount

  tightened :
      (l : Limit m) (b : TokenBucket m)
      → same_bucket m l b ≡ true
      → OfLimit l
      → OfBucket b
      → OfBucket (if le b.limit l.amount then b else record b { limit = l.amount })
  tightened l b e hl hb = elim (Bool-cases (le b.limit l.amount)) [
    | inl strict ↦ rw strict hb
    | inr loose ↦ rw loose (
        subst (λ s. P s b.period_key l.amount)
          (ground (arith, eq_iff l.subject_id b.subject_id, eq_iff l.period_key b.period_key))
          (subst (λ p. P l.subject_id p l.amount)
            (ground (arith, eq_iff l.subject_id b.subject_id, eq_iff l.period_key b.period_key))
            hl))
  ]

  add-All :
      (l : Limit m) (out : List (TokenBucket m))
      → OfLimit l
      → All OfBucket out
      → All OfBucket (add_limit m l out)
  unfolding add_limit
  add-All l [] hl h = (hl, tt)
  add-All l (b ∷ bs) hl h = elim (Bool-cases (same_bucket m l b)) [
    | inl e ↦ rw e (tightened l b e hl h.0, h.1)
    | inr e ↦ rw e (h.0, add-All l bs hl h.1)
  ]

  add_limits-All :
      (ls : List (Limit m)) (out : List (TokenBucket m))
      → All OfLimit ls
      → All OfBucket out
      → All OfBucket (add_limits m ls out)
  unfolding add_limits
  add_limits-All [] out hl h = h
  add_limits-All (l ∷ ls) out hl h =
      add_limits-All ls (add_limit m l out) hl.1 (add-All l out hl.0 h)

  module _ (cal : Calendar) (now : ℕ) (metric : String) where
    limits_sound :
        (sid : String) (rs : List (Rule m))
        → ((k : Limit m)
            → Any (λ r. Active m cal now metric r × (k ≡ limit_of m cal now metric sid r)) rs
            → OfLimit k)
        → All OfLimit (subject_limits m cal now metric sid rs)
    unfolding subject_limits
    limits_sound sid [] h = tt
    limits_sound sid (r ∷ rs) h =
        elim (Bool-cases (not (r.metric == metric) || le r.limit_amount zero)) [
          | inl skip ↦ rw skip (limits_sound sid rs (λ k a. h k (inr a)))
          | inr used ↦ rw used (
            h (limit_of m cal now metric sid r)
                (inl ((ground (arith, eq_iff r.metric metric), ground arith), refl)),
            limits_sound sid rs (λ k a. h k (inr a)),
          )
        ]

    subjects_sound :
        (subs : List (Subject m)) (out : List (TokenBucket m))
        → ((k : Limit m) → Applies m cal now metric k subs → OfLimit k)
        → All OfBucket out
        → All OfBucket (add_subjects m cal now metric subs out)
    unfolding add_subjects
    subjects_sound [] out h a = a
    subjects_sound (sub ∷ subs) out h a =
        subjects_sound subs _ (λ k q. h k (inr q))
          (add_limits-All (subject_limits m cal now metric sub.subject_id sub.rules) out
            (limits_sound sub.subject_id sub.rules (λ k q. h k (inl q))) a)

    pub buckets-All :
        (s : Snapshot m) (seat : String)
        → ((k : Limit m) → Applies m cal now metric k (subjects_for_seat m s seat) → OfLimit k)
        → All OfBucket (buckets_for_seat m cal s seat now metric)
    unfolding buckets_for_seat
    buckets-All s seat h = subjects_sound (subjects_for_seat m s seat) [] h tt
