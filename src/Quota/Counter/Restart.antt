-- ===== src/Quota/Counter/Restart.antt =====
-- What the write-behind flush and the seeding at the next start make of the local increments.
use aikey_proxy.Prelude.{
  Bool, false, subst, true, ◌||◌, String, Option, none, some, List, [], ◌∷◌, ◌≡◌, ap, ◌⊎◌, inl, inr,
  refl, ◌∙◌, arith, ◌==◌, if◌then◌else◌, eq_iff, Bool-cases,
}
use aikey_proxy.Quota.Amount.{Amount}
use aikey_proxy.Quota.Counter.{
  same_row, upsert, upserts, write_local_usage, Cell, Counter, LocalUsageRow, counter_key,
  new_counter, row_of, rows_with, increment_rows, seed_increment, seed_local_increments,
}

module _ (m : Amount) where
  open m use {Carrier, zero, same, same_zero}

  -- A cell stands under the key of its parts.
  pub record IsKeyed (c : Counter m) : Type 0 where
    pub keys :
        (k : String) (x : Cell m)
        → c k ≡ some x
        → counter_key x.subject_id x.metric x.period_key ≡ k

  -- The local increment under a key.
  increment_of : Option (Cell m) → Carrier
  increment_of none = zero
  increment_of (some x) = x.increment

  pub increment_at : Counter m → String → Carrier
  unfolding increment_of
  increment_at c k = increment_of (c k)

  abbrev pub Has : String → List String → Type 0
  Has k [] = ⊥
  Has k (j ∷ js) = (j ≡ k) ⊎ Has k js

  row_key : LocalUsageRow m → String
  row_key r = counter_key r.subject_id r.metric r.period_key

  -- The increment that a list of rows leaves under a key: the last row wins.
  seeded : List (LocalUsageRow m) → String → Carrier → Carrier
  seeded [] k a = a
  seeded (r ∷ rs) k a = seeded rs k (if row_key r == k then r.increment else a)

  increment-seed :
      (c : Counter m) (r : LocalUsageRow m) (k : String)
      → increment_at (seed_increment m c r.subject_id r.metric r.period_key r.increment) k
        ≡ (if row_key r == k then r.increment else increment_at c k)
  unfolding increment_at seed_increment row_key
  increment-seed c r k = ground arith

  increment-seed_local :
      (c : Counter m) (rs : List (LocalUsageRow m)) (k : String)
      → increment_at (seed_local_increments m c rs) k ≡ seeded rs k (increment_at c k)
  unfolding seed_local_increments seeded
  increment-seed_local c [] k = refl
  increment-seed_local c (r ∷ rs) k =
      increment-seed_local (seed_increment m c r.subject_id r.metric r.period_key r.increment) rs k
      ∙ ap (seeded rs k) (increment-seed c r k)

  row_key-same : (r q : LocalUsageRow m) → same_row m r q ≡ true → row_key r ≡ row_key q
  unfolding same_row row_key
  row_key-same r q h =
      let parts : (r.subject_id ≡ q.subject_id)
          × (r.metric ≡ q.metric)
          × (r.period_key ≡ q.period_key) =
        (
          ground (arith, h, eq_iff r.subject_id q.subject_id),
          ground (arith, h, eq_iff r.metric q.metric),
          ground (arith, h, eq_iff r.period_key q.period_key),
        ) in
      rw (parts.0, parts.1, parts.2) refl

  -- A row that is replaced has the key of the new one.
  replaced :
      (r q : LocalUsageRow m) (k : String) (a : Carrier) (rest : List (LocalUsageRow m))
      → row_key r ≡ row_key q
      → (if row_key r == k then r.increment else seeded rest k a) ≡ (
          if row_key r == k
          then r.increment
          else seeded rest k (if row_key q == k then q.increment else a))
  replaced r q k a rest e = elim (Bool-cases (row_key r == k)) [
    | inl h ↦ rw h refl
    | inr h ↦ rw (h, subst (λ (x : String). (x == k) ≡ false) e h) refl
  ]

  seeded-upsert :
      (r : LocalUsageRow m) (table : List (LocalUsageRow m)) (k : String) (a : Carrier)
      → seeded (upsert m r table) k a ≡ (if row_key r == k then r.increment else seeded table k a)
  unfolding upsert seeded
  seeded-upsert r [] k a = refl
  seeded-upsert r (q ∷ qs) k a = elim (Bool-cases (same_row m r q)) [
    | inl e ↦ rw e (seeded-upsert r qs k a ∙ replaced r q k a qs (row_key-same r q e))
    | inr e ↦ rw e (seeded-upsert r qs k (if row_key q == k then q.increment else a))
  ]

  seeded-upserts :
      (rows table : List (LocalUsageRow m)) (k : String) (a : Carrier)
      → seeded (upserts m rows table) k a ≡ seeded rows k (seeded table k a)
  unfolding upserts seeded
  seeded-upserts [] table k a = refl
  seeded-upserts (r ∷ rs) table k a =
      seeded-upserts rs (upsert m r table) k a ∙ ap (seeded rs k) (seeded-upsert r table k a)

  -- What a flush makes of the increment under the key of a cell.
  flushed : Option (Cell m) → Carrier → Carrier
  flushed none a = a
  flushed (some x) a = if same x.increment zero then a else x.increment

  flushed_twice : (o : Option (Cell m)) (a : Carrier) → flushed o (flushed o a) ≡ flushed o a
  unfolding flushed
  flushed_twice none a = refl
  flushed_twice (some x) a = elim (Bool-cases (same x.increment zero)) [
    | inl e ↦ rw e refl
    | inr e ↦ rw e refl
  ]

  flushed-increment :
      (o : Option (Cell m)) (a : Carrier)
      → flushed o a ≡ (if same (increment_of o) zero then a else increment_of o)
  unfolding flushed increment_of
  flushed-increment none a = rw same_zero refl
  flushed-increment (some x) a = refl

  module _ (c : Counter m) (v : IsKeyed c) where
    seeded-rows_with :
        (j k : String) (o : Option (Cell m)) (rest : List (LocalUsageRow m)) (a : Carrier)
        → c j ≡ o
        → seeded (rows_with m o rest) k a ≡ seeded rest k (if j == k then flushed o a else a)
    unfolding rows_with seeded row_key row_of flushed
    seeded-rows_with j k none rest a e = elim (Bool-cases (j == k)) [
      | inl q ↦ rw q refl
      | inr q ↦ rw q refl
    ]
    seeded-rows_with j k (some x) rest a e = elim (Bool-cases (same x.increment zero)) [
      | inr something ↦ rw something (
          ap (λ (key : String). seeded rest k (if key == k then x.increment else a)) (v.keys j x e))
      | inl nothing ↦ elim (Bool-cases (j == k)) [
        | inl q ↦ rw (nothing, q) refl
        | inr q ↦ rw (nothing, q) refl
      ]
    ]

    one_key :
        (j k : String) (js : List String) (a : Carrier)
        → seeded (increment_rows m c (j ∷ js)) k a
          ≡ seeded (increment_rows m c js) k (if j == k then flushed (c k) a else a)
    unfolding increment_rows
    one_key j k js a =
        seeded-rows_with j k (c j) (increment_rows m c js) a refl
        ∙ ap (seeded (increment_rows m c js) k) (elim (Bool-cases (j == k)) [
          | inl q ↦ rw (q, (eq_iff j k).0 q) refl
          | inr q ↦ rw q refl
        ])

    seeded_again :
        (ks : List String) (k : String) (a : Carrier)
        → seeded (increment_rows m c ks) k (flushed (c k) a) ≡ flushed (c k) a
    seeded_again [] k a = unfold increment_rows seeded in refl
    seeded_again (j ∷ js) k a =
        one_key j k js (flushed (c k) a)
        ∙ ap (seeded (increment_rows m c js) k) (elim (Bool-cases (j == k)) [
          | inl q ↦ rw q (flushed_twice (c k) a)
          | inr q ↦ rw q refl
        ])
        ∙ seeded_again js k a

    seeded_once :
        (ks : List String) (k : String) (a : Carrier)
        → Has k ks
        → seeded (increment_rows m c ks) k a ≡ flushed (c k) a
    seeded_once [] k a h = absurd h
    seeded_once (j ∷ js) k a (inl q) =
        one_key j k js a
        ∙ ap (seeded (increment_rows m c js) k) (rw ((eq_iff j k).1 q) refl)
        ∙ seeded_again js k a
    seeded_once (j ∷ js) k a (inr h) = elim (Bool-cases (j == k)) [
      | inl q ↦
          one_key j k js a ∙ ap (seeded (increment_rows m c js) k) (rw q refl) ∙ seeded_again js k a
      | inr q ↦
          one_key j k js a
          ∙ ap (seeded (increment_rows m c js) k) (rw q refl)
          ∙ seeded_once js k a h
    ]

    -- If the cells of a counter stand under their keys, then after its increments are flushed to the table and a new counter is seeded from that, the increment under each key that the flush walked, in whatever order it walked them, is restored if it is not zero. An increment of zero is not flushed: there, and at every key if the flush fails, the new counter has what the table held before.
    pub seed-write_local_usage :
        (ks : List String) (table : List (LocalUsageRow m)) (fails : Bool) (k : String)
        → Has k ks
        → increment_at
            (seed_local_increments m
              (new_counter m)
              (write_local_usage m fails (increment_rows m c ks) table))
            k
          ≡ (if fails || same (increment_at c k) zero
              then increment_at (seed_local_increments m (new_counter m) table) k
              else increment_at c k)
    unfolding write_local_usage
    seed-write_local_usage ks table true k h = refl
    seed-write_local_usage ks table false k h =
        let before = increment-seed_local (new_counter m) table k in
        increment-seed_local (new_counter m) (upserts m (increment_rows m c ks) table) k
        ∙ seeded-upserts (increment_rows m c ks) table k (increment_at (new_counter m) k)
        ∙ seeded_once ks k (seeded table k (increment_at (new_counter m) k)) h
        ∙ flushed-increment (c k) (seeded table k (increment_at (new_counter m) k))
        ∙ (unfold increment_at in rw before refl)
