-- ===== src/Events/Reporter/Reconcile/Classify.antt =====
-- How the missing numbers of one answer are sorted.

use aikey_proxy.Prelude.Sort.{filter}
use aikey_proxy.Prelude.{
  ap, not, Bool, Bool-cases, List, [], arith, false, inl, inr, leb, leb→le, ltb, refl, true, ℕ,
  ◌&&◌, ◌+◌, ◌<◌, ◌∷◌, ◌≡◌, ◌≤◌,
}
use aikey_proxy.Prelude.Lists.{All, length}
use aikey_proxy.Events.Reporter.Reconcile.{Window, classify, classify_seq, terminal_resend_attempts}

abbrev pub Owed : ℕ → ℕ → Type 0
Owed owed_floor seq = (0 < owed_floor) × (seq ≤ owed_floor)

abbrev pub Sorted : ℕ → (ℕ → Bool) → (ℕ → ℕ) → Window → Type 0
Sorted owed_floor wal tracked v =
    All (λ seq. Owed owed_floor seq) v.held_back
    × All (λ seq. ¬ Owed owed_floor seq × (wal seq ≡ false)) v.not_in_wal
    × All (λ seq. ¬ Owed owed_floor seq × (wal seq ≡ true) × (3 ≤ tracked seq)) v.gave_up
    × All (λ seq. ¬ Owed owed_floor seq × (wal seq ≡ true) × (tracked seq < 3)) v.in_wal

abbrev pub size : Window → ℕ
size v = length v.held_back + length v.not_in_wal + length v.gave_up + length v.in_wal

classify_seq-Sorted :
    (owed_floor : ℕ) (wal : ℕ → Bool) (tracked : ℕ → ℕ) (seq : ℕ) (v : Window)
    → Sorted owed_floor wal tracked v
    → Sorted owed_floor wal tracked (classify_seq owed_floor wal tracked seq v)
      × (size (classify_seq owed_floor wal tracked seq v) ≡ size v + 1)
unfolding classify_seq
classify_seq-Sorted owed_floor wal tracked seq v (a, b, c, d) =
    elim (Bool-cases (ltb 0 owed_floor && leb seq owed_floor)) [
      | inl held ↦ rw held (((ground (arith, held), a), b, c, d), omega arith)
      | inr free ↦
          let above : ¬ Owed owed_floor seq = λ h. absurd (ground (arith, free, h.0, h.1)) in
          elim (Bool-cases (wal seq)) [
            | inr lost ↦ rw (free, lost) ((a, ((above, lost), b), c, d), omega arith)
            | inl there ↦ elim (Bool-cases (leb terminal_resend_attempts (tracked seq))) [
              | inl often ↦
                  rw (free, there, often)
                    ((a, b, ((above, there, leb→le 3 (tracked seq) often), c), d), omega arith)
              | inr seldom ↦
                  rw (free, there, seldom)
                    ((a, b, c, ((above, there, ground (arith, seldom)), d)), omega arith)
            ]
          ]
    ]

pub classify-Sorted :
    (owed_floor : ℕ) (wal : ℕ → Bool) (tracked : ℕ → ℕ) (missing : List ℕ)
    → Sorted owed_floor wal tracked (classify owed_floor wal tracked missing)
      × (size (classify owed_floor wal tracked missing) ≡ length missing)
unfolding classify
classify-Sorted owed_floor wal tracked [] = (_, refl)
classify-Sorted owed_floor wal tracked (seq ∷ missing) =
    let ih = classify-Sorted owed_floor wal tracked missing in
    let one =
      classify_seq-Sorted owed_floor wal tracked seq (classify owed_floor wal tracked missing)
        ih.0 in
    (one.0, omega (arith, one.1, ih.1))

few_of : (n : ℕ) → leb 3 n ≡ true → ltb n 3 ≡ false
few_of n h = ground arith

seldom_of : (n : ℕ) → leb 3 n ≡ false → ltb n 3 ≡ true
seldom_of n h = ground arith

abbrev pub is_owed : ℕ → ℕ → Bool
is_owed owed_floor seq = ltb 0 owed_floor && leb seq owed_floor

-- The four lists in terms of the missing numbers.
abbrev pub Partitions : ℕ → (ℕ → Bool) → (ℕ → ℕ) → List ℕ → Window → Type 0
Partitions owed_floor wal tracked missing v =
    (v.held_back ≡ filter (is_owed owed_floor) missing)
    × (v.not_in_wal ≡ filter (λ s. not (is_owed owed_floor s) && not (wal s)) missing)
    × (v.gave_up ≡ filter (λ s. not (is_owed owed_floor s) && wal s && leb 3 (tracked s)) missing)
    × (v.in_wal ≡ filter (λ s. not (is_owed owed_floor s) && wal s && ltb (tracked s) 3) missing)

four_lists :
    (owed_floor : ℕ) (wal : ℕ → Bool) (tracked : ℕ → ℕ) (missing : List ℕ)
    → Partitions owed_floor wal tracked missing (classify owed_floor wal tracked missing)
unfolding classify classify_seq
four_lists owed_floor wal tracked [] = (refl, refl, refl, refl)
four_lists owed_floor wal tracked (seq ∷ missing) =
    let ih = four_lists owed_floor wal tracked missing in
    elim (Bool-cases (is_owed owed_floor seq)) [
      | inl held ↦ rw held (ap (λ (l : List ℕ). seq ∷ l) ih.0, ih.1, ih.2, ih.3)
      | inr free ↦ elim (Bool-cases (wal seq)) [
        | inr gone ↦ rw (free, gone) (ih.0, ap (λ (l : List ℕ). seq ∷ l) ih.1, ih.2, ih.3)
        | inl there ↦ elim (Bool-cases (leb 3 (tracked seq))) [
          | inl often ↦
              rw (free, there, often, few_of (tracked seq) often)
                (ih.0, ih.1, ap (λ (l : List ℕ). seq ∷ l) ih.2, ih.3)
          | inr seldom ↦
              rw (free, there, seldom, seldom_of (tracked seq) seldom)
                (ih.0, ih.1, ih.2, ap (λ (l : List ℕ). seq ∷ l) ih.3)
        ]
      ]
    ]

-- The missing numbers of an answer, in their order, fall into four lists, however the log reads: those at or below the owed floor of the lane are held back; above it, those that the log did not show are confirmed as lost, those that it showed and whose resend was delivered three times or more are given up, and those that it showed and whose resend was not are sent again. No number is lost or is in two lists.
pub classify-Partitions :
    (owed_floor : ℕ) (wal : ℕ → Bool) (tracked : ℕ → ℕ) (missing : List ℕ)
    → Partitions owed_floor wal tracked missing (classify owed_floor wal tracked missing)
      × (size (classify owed_floor wal tracked missing) ≡ length missing)
classify-Partitions owed_floor wal tracked missing =
    (four_lists owed_floor wal tracked missing, (classify-Sorted owed_floor wal tracked missing).1)
