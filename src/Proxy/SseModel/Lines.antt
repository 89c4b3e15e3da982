-- ===== src/Proxy/SseModel/Lines.antt =====
-- The loop over the lines of the buffer ends with no complete line left.

use aikey_proxy.Prelude.{
  sym, Bool-cases, Option, [], arith, eqb, inl, inr, none, refl, some, suc, zero, ℕ, ◌<◌, ◌∷◌, ◌≡◌,
  ◌≤◌,
}
use aikey_proxy.Prelude.Lists.{length}
use aikey_proxy.Proxy.SseModel.{
  process_complete_lines, Bytes, Json, Rewriter, emit_line, go_on, newline, prepend, process_line,
  process_lines, rewrite_model_line, split_line,
}

Shorter : Option (Bytes × Bytes) → ℕ → Type 0
Shorter none n = Unit
Shorter (some (line, rest)) n = length rest < n

prepend-Shorter :
    (b : ℕ) (o : Option (Bytes × Bytes)) (n : ℕ) → Shorter o n → Shorter (prepend b o) (suc n)
unfolding Shorter prepend
prepend-Shorter b none n h = _
prepend-Shorter b (some (line, rest)) n h = omega arith

split_line-Shorter : (bytes : Bytes) → Shorter (split_line bytes) (length bytes)
unfolding split_line Shorter
split_line-Shorter [] = _
split_line-Shorter (b ∷ bytes) = elim (Bool-cases (eqb b newline)) [
  | inl e ↦ rw e (omega arith)
  | inr e ↦ rw e (prepend-Shorter b (split_line bytes) (length bytes) (split_line-Shorter bytes))
]

Shorter-le : (o : Option (Bytes × Bytes)) (m n : ℕ) → m ≤ suc n → Shorter o m → Shorter o (suc n)
unfolding Shorter
Shorter-le none m n h s = _
Shorter-le (some (line, rest)) m n h s = omega arith

no_bytes : (bytes : Bytes) → length bytes ≤ 0 → split_line bytes ≡ none
unfolding split_line
no_bytes [] h = refl
no_bytes (b ∷ bytes) h = absurd (omega arith)

module _ (json : Json) where
  go_on-split :
      (next : Rewriter → Rewriter) (n : ℕ) (r : Rewriter) (o : Option (Bytes × Bytes))
      → split_line r.buf ≡ o
      → Shorter o (suc n)
      → ((q : Rewriter) → length q.buf ≤ n → split_line (next q).buf ≡ none)
      → split_line (go_on json next r (process_line json r o)).buf ≡ none
  unfolding go_on process_line emit_line Shorter
  go_on-split next n r none e s ih = e
  go_on-split next n r (some (line, rest)) e s ih =
      ih (emit_line json r rest (rewrite_model_line json r.client_model r.done line)) (omega arith)

  -- As many rounds as the buffer has bytes are enough.
  pub process_lines-split :
      (n : ℕ) (r : Rewriter) → length r.buf ≤ n → split_line (process_lines json n r).buf ≡ none
  unfolding process_lines
  process_lines-split zero r h = no_bytes r.buf h
  process_lines-split (suc n) r h =
      go_on-split (λ q. process_lines json n q) n r (split_line r.buf) refl
        (Shorter-le (split_line r.buf) (length r.buf) n h (split_line-Shorter r.buf))
        (λ q k. process_lines-split n q k)

  process_lines-none : (n : ℕ) (r : Rewriter) → split_line r.buf ≡ none → process_lines json n r ≡ r
  unfolding process_lines go_on process_line
  process_lines-none zero r e = refl
  process_lines-none (suc n) r e = rw e refl

  go_on-same :
      (f g : Rewriter → Rewriter) (r : Rewriter) (o : Option (Bytes × Bytes))
      → Shorter o (length r.buf)
      → ((q : Rewriter) → length q.buf < length r.buf → f q ≡ g q)
      → go_on json f r (process_line json r o) ≡ go_on json g r (process_line json r o)
  unfolding go_on process_line emit_line Shorter
  go_on-same f g r none s ih = refl
  go_on-same f g r (some (line, rest)) s ih =
      ih (emit_line json r rest (rewrite_model_line json r.client_model r.done line)) s

  process_lines-same :
      (m n : ℕ) (r : Rewriter)
      → length r.buf ≤ m
      → length r.buf ≤ n
      → process_lines json m r ≡ process_lines json n r
  unfolding process_lines
  process_lines-same zero n r h k = sym (process_lines-none n r (no_bytes r.buf h))
  process_lines-same (suc m) zero r h k = process_lines-none (suc m) r (no_bytes r.buf k)
  process_lines-same (suc m) (suc n) r h k =
      go_on-same (λ q. process_lines json m q) (λ q. process_lines json n q) r (split_line r.buf)
        (split_line-Shorter r.buf) (λ q l. process_lines-same m n q (omega arith) (omega arith))

  -- The loop over the lines of a buffer ends within as many rounds as the buffer has bytes: it leaves no complete line in the buffer, and any greater number of rounds gives the same rewriter.
  pub process_complete_lines-IsFinal :
      (n : ℕ) (r : Rewriter)
      → length r.buf ≤ n
      → (process_lines json n r ≡ process_complete_lines json r)
        × (split_line (process_complete_lines json r).buf ≡ none)
  unfolding process_complete_lines
  process_complete_lines-IsFinal n r h = (
    process_lines-same n (length r.buf) r h (omega arith),
    process_lines-split (length r.buf) r (omega arith),
  )
