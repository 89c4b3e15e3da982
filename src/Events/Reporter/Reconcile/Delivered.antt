-- ===== src/Events/Reporter/Reconcile/Delivered.antt =====
-- The numbers that a reconciliation may report as lost, and what is counted for them.

use aikey_proxy.Prelude.Results.{some-ne-none}
use aikey_proxy.Prelude.{
  Option, none, sym, true, ◌||◌, ◌∙◌, ◌≢◌, Bool, Bool-cases, List, String, [], arith, eqb, false,
  if◌then◌else◌, inl, inr, leb, ltb, refl, some, ℕ, ◌&&◌, ◌++◌, ◌+◌, ◌∷◌, ◌≡◌, ◌≤◌, ◌⊎◌,
}
use aikey_proxy.Prelude.Lists.{All, All-map, Any}
use aikey_proxy.Events.Wal.{
  Reads, WalEntry, WalFile, parsed, read_lines, read_wal_file, read_all_wal,
}
use aikey_proxy.Events.Reporter.{Reporter, World}
use aikey_proxy.Events.Reporter.Reconcile.{
  ReconcileResult, Window, classify, classify_seq, count_delivered, pruned_budget,
  terminal_resend_attempts, wal_seq_set,
}

-- How often a number is among those that were delivered.
abbrev pub deliveries : List ℕ → ℕ → ℕ
deliveries [] seq = 0
deliveries (d ∷ rest) seq = deliveries rest seq + (if eqb d seq then 1 else 0)

pub deliveries-append :
    (new old : List ℕ) (seq : ℕ)
    → deliveries (new ++ old) seq ≡ deliveries new seq + deliveries old seq
deliveries-append [] old seq = omega arith
deliveries-append (d ∷ rest) old seq = omega (arith, deliveries-append rest old seq)

pub count_delivered_lem :
    (delivered : List ℕ) (tracked : ℕ → ℕ) (seq : ℕ)
    → count_delivered delivered tracked seq ≡ tracked seq + deliveries delivered seq
unfolding count_delivered
count_delivered_lem [] tracked seq = omega arith
count_delivered_lem (d ∷ delivered) tracked seq =
    omega (arith, count_delivered_lem delivered tracked seq)

own_members :
    (xs ys : List ℕ)
    → All (λ s. Any (λ m. s ≡ m) ys) xs
    → (x : ℕ) → All (λ s. Any (λ m. s ≡ m) (x ∷ ys)) (x ∷ xs)
own_members xs ys h x = (inl refl, All-map (λ s m. inr m) xs h)

pub all_members : (xs : List ℕ) → All (λ s. Any (λ m. s ≡ m) xs) xs
all_members [] = _
all_members (x ∷ xs) = own_members xs xs (all_members xs) x

classify_seq-All :
    (P : ℕ → Type 0) (owed_floor : ℕ) (wal : ℕ → Bool) (tracked : ℕ → ℕ) (seq : ℕ) (v : Window)
    → P seq
    → All P v.not_in_wal × All P v.gave_up
    → All P (classify_seq owed_floor wal tracked seq v).not_in_wal
      × All P (classify_seq owed_floor wal tracked seq v).gave_up
unfolding classify_seq
classify_seq-All P owed_floor wal tracked seq v p (a, b) =
    elim (Bool-cases (ltb 0 owed_floor && leb seq owed_floor)) [
      | inl held ↦ rw held (a, b)
      | inr free ↦ elim (Bool-cases (wal seq)) [
        | inr lost ↦ rw (free, lost) ((p, a), b)
        | inl there ↦ elim (Bool-cases (leb terminal_resend_attempts (tracked seq))) [
          | inl often ↦ rw (free, there, often) (a, (p, b))
          | inr seldom ↦ rw (free, there, seldom) (a, b)
        ]
      ]
    ]

pub classify-All :
    (P : ℕ → Type 0) (owed_floor : ℕ) (wal : ℕ → Bool) (tracked : ℕ → ℕ) (missing : List ℕ)
    → All P missing
    → All P (classify owed_floor wal tracked missing).not_in_wal
      × All P (classify owed_floor wal tracked missing).gave_up
unfolding classify
classify-All P owed_floor wal tracked [] h = (_, _)
classify-All P owed_floor wal tracked (seq ∷ missing) h =
    classify_seq-All P owed_floor wal tracked seq (classify owed_floor wal tracked missing) h.0
      (classify-All P owed_floor wal tracked missing h.1)

pub All-both {ℓ κ} :
    {A : Type 0} (P : A → Type ℓ) (Q : A → Type κ) (xs : List A)
    → All P xs
    → All Q xs
    → All (λ x. P x × Q x) xs
All-both P Q [] h k = _
All-both P Q (x ∷ xs) h k = ((h.0, k.0), All-both P Q xs h.1 k.1)

or_false_both : (a b : Bool) → a || b ≡ false → (a ≡ false) × (b ≡ false)
or_false_both true b h = cc
or_false_both false b h = (refl, h)

wal_seq_set-append :
    (source : String) (seq : ℕ) (xs ys : List WalEntry)
    → wal_seq_set (xs ++ ys) source seq ≡ (wal_seq_set xs source seq || wal_seq_set ys source seq)
unfolding wal_seq_set
wal_seq_set-append source seq [] ys = refl
wal_seq_set-append source seq (x ∷ xs) ys = rw (wal_seq_set-append source seq xs ys) (ground arith)

-- Each file of the log could not be read to its end or has no entry with the number.
abbrev pub Unseen : Reads → List WalFile → String → ℕ → Type 0
Unseen reads files source seq =
    All (λ (f : WalFile). (reads f.hour ≢ none) ⊎ (wal_seq_set (parsed f.lines) source seq ≡ false))
      files

read_file-Unseen :
    (o : Option ℕ) (f : WalFile) (source : String) (seq : ℕ)
    → wal_seq_set (read_lines o f.lines).0 source seq ≡ false
    → (o ≢ none) ⊎ (wal_seq_set (parsed f.lines) source seq ≡ false)
unfolding read_lines
read_file-Unseen none f source seq h = inr h
read_file-Unseen (some n) f source seq h = inl (λ e. some-ne-none e)

pub read_all_wal-Unseen :
    (reads : Reads) (files : List WalFile) (source : String) (seq : ℕ)
    → wal_seq_set (read_all_wal reads files) source seq ≡ false
    → Unseen reads files source seq
unfolding read_all_wal read_wal_file
read_all_wal-Unseen reads [] source seq h = _
read_all_wal-Unseen reads (f ∷ files) source seq h =
    let both =
      or_false_both (wal_seq_set (read_lines (reads f.hour) f.lines).0 source seq)
        (wal_seq_set (read_all_wal reads files) source seq)
        (sym (
            wal_seq_set-append source seq (read_lines (reads f.hour) f.lines).0
              (read_all_wal reads files))
          ∙ h) in
    (
      read_file-Unseen (reads f.hour) f source seq both.0,
      read_all_wal-Unseen reads files source seq both.1,
    )

module _ (w : World) (source : String) (r0 : Reporter) where
  -- A collector said that the number is missing; and a look at the log found it in no file that could be read to its end, or its resend was delivered three times.
  abbrev pub Lost : List ℕ → ℕ → Type 0
  Lost delivered seq =
      ((t : ℕ) × (missing : List ℕ) × (truncated : Bool) × (w.gaps t ≡ some (missing, truncated))
        × Any (λ m. seq ≡ m) missing)
      × (((t : ℕ) × Unseen (w.log_reads t) (w.log t) source seq)
          ⊎ (3 ≤ r0.resend_delivered source seq + deliveries delivered seq))

  abbrev pub Accounted : Reporter → ReconcileResult → Type 0
  Accounted r res =
      (r.source_id ≡ r0.source_id)
      × ((seq : ℕ)
          → r.resend_delivered source seq
            ≤ r0.resend_delivered source seq + deliveries res.delivered seq)
      × All (λ p. Lost res.delivered p.1) res.posted

  pub Lost-more : (new old : List ℕ) (seq : ℕ) → Lost old seq → Lost (new ++ old) seq
  Lost-more new old seq (m, inl gone) = (m, inl gone)
  Lost-more new old seq (m, inr thrice) = (m, inr (omega (arith, deliveries-append new old seq)))

  pub le_of_budget :
      (missing : List ℕ) (r : Reporter) (res : ReconcileResult) (seq : ℕ)
      → Accounted r res
      → 3 ≤ pruned_budget missing (r.resend_delivered source) seq
      → 3 ≤ r0.resend_delivered source seq + deliveries res.delivered seq
  unfolding pruned_budget
  le_of_budget missing r res seq acc h = ground (arith, acc.1 seq)

  pub pruned_le :
      (missing : List ℕ) (tracked : ℕ → ℕ) (seq : ℕ)
      → pruned_budget missing tracked seq ≤ tracked seq
  unfolding pruned_budget
  pruned_le missing tracked seq = ground arith
