-- ===== src/Quota/Counter/Monotone.antt =====
-- The usage of a bucket never falls within its period, and a new baseline counts nothing twice.
use aikey_proxy.Prelude.{
  ap, sym, ◌∙◌, String, true, false, some, ◌≡◌, ◌⊎◌, inl, inr, refl, subst, arith, ◌==◌, eq_iff,
  Bool-cases, Option-cases,
}
use aikey_proxy.Prelude.Maps.{insert, insert_self}
use aikey_proxy.Quota.Amount.{Amount}
use aikey_proxy.Quota.Counter.{
  Cell, Counter, counter_key, at, found_or_new, total, used_of, get, accrue, reconcile,
  set_baseline,
}

module _ (m : Amount) where
  open m use {
    Carrier, zero, add, sub, le, same, le_refl, le_trans, le_total, same_sound, add_zero, le_add,
    add_mono, add_sub, sub_nonneg, exact, add_assoc,
  }

  -- Local increments are not negative.
  pub record IsNonneg (c : Counter m) : Type 0 where
    pub cells : (k : String) (x : Cell m) → c k ≡ some x → le zero x.increment ≡ true

  at-nonneg :
      (c : Counter m) (s t p : String) → IsNonneg c → le zero (at m c s t p).increment ≡ true
  unfolding at
  at-nonneg c s t p v = elim (Option-cases (c (counter_key s t p))) [
    | inl e ↦ rw (e, found_or_new) (le_refl zero)
    | inr (x, e) ↦ rw (e, found_or_new) (v.cells (counter_key s t p) x e)
  ]

  -- A cell that is made on demand counts nothing.
  get-at : (c : Counter m) (s t p : String) → get m c s t p ≡ total m (at m c s t p)
  unfolding get at
  get-at c s t p = elim (Option-cases (c (counter_key s t p))) [
    | inl e ↦ rw (e, found_or_new, used_of, add_zero zero)
    | inr (x, e) ↦ rw (e, found_or_new, used_of)
  ]

  insert-IsNonneg :
      (c : Counter m) (k : String) (x : Cell m)
      → IsNonneg c
      → le zero x.increment ≡ true
      → IsNonneg (insert k x c)
  insert-IsNonneg c k x v h = record { cells = λ j y e. ground (arith, eq_iff k j, v.cells j y) }

  -- The three outcomes of a new baseline.
  abbrev pub Reconciled : Carrier → Carrier → Carrier → Type 0
  Reconciled old baseline new =
      (le old new ≡ true) × (le baseline new ≡ true) × ((new ≡ old) ⊎ (new ≡ baseline))

  reconcile-total :
      (x : Cell m) (b : Carrier)
      → exact (total m x) ≡ true
      → exact b ≡ true
      → le zero x.increment ≡ true
      → Reconciled (total m x) b (total m (reconcile m x b))
        × (le zero (reconcile m x b).increment ≡ true)
  unfolding reconcile
  reconcile-total x b w wb h = elim (Bool-cases (same x.baseline b)) [
    | inl e ↦ rw e (
      (
        le_refl _,
        subst (λ y. le y (total m x) ≡ true) (same_sound x.baseline b e)
            (le_add x.baseline x.increment h),
        inl refl,
      ),
      h,
    )
    | inr e ↦ elim (Bool-cases (le (total m x) b)) [
      | inl covers ↦
          rw (e, covers)
            ((rw add_zero covers, rw add_zero (le_refl b), inr (add_zero b)), le_refl zero)
      | inr short ↦
          let kept : add b (sub (total m x) b) ≡ total m x =
            add_sub (total m x) b w wb (le_total _ _ short) in
          rw (e, short)
            (
              (rw kept (le_refl _), rw kept (le_total _ _ short), inl kept),
              sub_nonneg _ _ (le_total _ _ short),
            )
    ]
  ]

  module _ (c : Counter m) (s t p : String) (v : IsNonneg c) where
    -- If no local increment is negative, and the usage of the bucket and the server baseline are whole numbers below 2 ^ 53 (as token counts are), then adopting the baseline never lowers the usage of its bucket and never leaves it below the baseline; the new usage is the old one or the baseline, so nothing is counted twice. The other buckets keep their usage, and no local increment becomes negative.
    pub get-set_baseline :
        (b : Carrier)
        → exact (get m c s t p) ≡ true
        → exact b ≡ true
        → Reconciled (get m c s t p) b (get m (set_baseline m c s t p b) s t p)
          × ((s' t' p' : String)
              → (counter_key s t p == counter_key s' t' p') ≡ false
              → get m (set_baseline m c s t p b) s' t' p' ≡ get m c s' t' p')
          × IsNonneg (set_baseline m c s t p b)
    unfolding set_baseline
    get-set_baseline b w wb =
        let found =
          reconcile-total (at m c s t p) b
            (subst (λ (a : Carrier). exact a ≡ true) (get-at c s t p) w) wb (at-nonneg c s t p v) in
        (
          rw get-at (unfold get used_of in rw insert_self found.0),
          λ s' t' p' e. unfold get in rw e,
          insert-IsNonneg c (counter_key s t p) _ v found.1,
        )

    -- If no local increment is negative, and the two parts of the usage of the bucket, the accrued amount and their sum are whole numbers below 2 ^ 53 (as token counts are), then an accrual raises the usage of its bucket by exactly the amount, and the total that is returned is the new usage. The other buckets keep their usage, and no local increment becomes negative.
    pub get-accrue :
        (delta : Carrier)
        → le zero delta ≡ true
        → exact (at m c s t p).baseline ≡ true
        → exact (at m c s t p).increment ≡ true
        → exact delta ≡ true
        → exact (add (get m c s t p) delta) ≡ true
        → (get m (accrue m c s t p delta).0 s t p ≡ add (get m c s t p) delta)
          × ((accrue m c s t p delta).1 ≡ add (get m c s t p) delta)
          × (le (get m c s t p) (accrue m c s t p delta).1 ≡ true)
          × ((s' t' p' : String)
              → (counter_key s t p == counter_key s' t' p') ≡ false
              → get m (accrue m c s t p delta).0 s' t' p' ≡ get m c s' t' p')
          × IsNonneg (accrue m c s t p delta).0
    unfolding accrue
    get-accrue delta h wb wi wd whole_sum =
        let x = at m c s t p in
        let grows : le x.increment (add x.increment delta) ≡ true = le_add x.increment delta h in
        let saved : get m (accrue m c s t p delta).0 s t p ≡ (accrue m c s t p delta).1 =
          unfold get used_of in rw insert_self refl in
        let sums : add x.baseline (add x.increment delta) ≡ add (get m c s t p) delta =
          add_assoc x.baseline x.increment delta wb wi wd
            (subst (λ (a : Carrier). exact (add a delta) ≡ true) (get-at c s t p) whole_sum)
          ∙ ap (λ (a : Carrier). add a delta) (sym (get-at c s t p)) in
        (
          saved ∙ sums,
          sums,
          rw get-at (add_mono x.increment (add x.increment delta) x.baseline grows),
          λ s' t' p' e. unfold get in rw e,
          insert-IsNonneg c (counter_key s t p) _ v
              (le_trans zero x.increment (add x.increment delta) (at-nonneg c s t p v) grows),
        )
