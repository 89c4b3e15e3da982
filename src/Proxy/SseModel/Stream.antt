-- ===== src/Proxy/SseModel/Stream.antt =====
-- The bytes that a client reads do not depend on how the stream is cut into chunks and reads.
use aikey_proxy.Prelude.{
  ap, suc, sym, true, zero, Bool, Bool-cases, Option, String, [], eqb, false, if◌then◌else◌, inl,
  inr, none, refl, some, ℕ, ◌++◌, ◌∙◌, ◌∷◌, ◌≡◌,
}
use aikey_proxy.Proxy.SseModel.{
  prepend, process_lines, Bytes, Json, Rewriter, emit_line, go_on, newline, process_line,
  rewrite_model_line, split_line,
}
use mathlib.Core.List.{append_assoc, append-nil}

module _ (json : Json) (model : String) where
  -- The rewritten text of a stream that arrives whole, after the start of a line.
  unfoldable pub scan : Bool → Bytes → Bytes → Bytes
  scan done line [] = line
  scan done line (b ∷ bytes) =
      let whole = rewrite_model_line json model done (line ++ (b ∷ [])) in
      let next = whole.0 ++ scan whole.1 [] bytes in
      let same = scan done (line ++ (b ∷ [])) bytes in if eqb b newline then next else same

  scan-newline :
      (done : Bool) (line : Bytes) (b : ℕ) (bytes : Bytes)
      → eqb b newline ≡ true
      → scan done line (b ∷ bytes)
        ≡ (rewrite_model_line json model done (line ++ (b ∷ []))).0
          ++ scan (rewrite_model_line json model done (line ++ (b ∷ []))).1 [] bytes
  unfolding scan
  scan-newline done line b bytes e = rw e refl

  scan_other :
      (done : Bool) (line : Bytes) (b : ℕ) (bytes : Bytes)
      → eqb b newline ≡ false
      → scan done line (b ∷ bytes) ≡ scan done (line ++ (b ∷ [])) bytes
  unfolding scan
  scan_other done line b bytes e = rw e refl

  -- How a search for the end of the line splits the work of `scan`.
  abbrev pub SplitScan : Option (Bytes × Bytes) → Bool → Bytes → Bytes → Bytes → Type 0
  SplitScan none done line bytes more =
      scan done line (bytes ++ more) ≡ scan done (line ++ bytes) more
  SplitScan (some (first, rest)) done line bytes more =
      scan done line (bytes ++ more)
      ≡ (rewrite_model_line json model done (line ++ first)).0
        ++ scan (rewrite_model_line json model done (line ++ first)).1 [] (rest ++ more)

  map_split :
      (o : Option (Bytes × Bytes)) (done : Bool) (line : Bytes) (b : ℕ) (bytes more : Bytes)
      → eqb b newline ≡ false
      → SplitScan o done (line ++ (b ∷ [])) bytes more
      → SplitScan (prepend b o) done line (b ∷ bytes) more
  unfolding prepend
  map_split none done line b bytes more e h =
      scan_other done line b (bytes ++ more) e
      ∙ h
      ∙ ap (λ (l : Bytes). scan done l more) (append_assoc line (b ∷ []) bytes)
  map_split (some (first, rest)) done line b bytes more e h =
      rw (scan_other done line b (bytes ++ more) e, ← append_assoc line (b ∷ []) first) h

  pub split_scan :
      (done : Bool) (line bytes more : Bytes) → SplitScan (split_line bytes) done line bytes more
  unfolding split_line
  split_scan done line [] more = ap (λ (l : Bytes). scan done l more) (sym (append-nil line))
  split_scan done line (b ∷ bytes) more = elim (Bool-cases (eqb b newline)) [
    | inl e ↦ rw e (scan-newline done line b (bytes ++ more) e)
    | inr e ↦ rw e (
        map_split (split_line bytes) done line b bytes more e
          (split_scan done (line ++ (b ∷ [])) bytes more))
  ]

  -- What the client will still get, when these bytes are still to come.
  unfoldable pub pending : Rewriter → Bytes → Bytes
  pending r more = r.out ++ scan r.done [] (r.buf ++ more)

  abbrev pub Keeps : Rewriter → Rewriter → Bytes → Type 0
  Keeps r r' more =
      (pending r' more ≡ pending r more) × (r'.client_model ≡ model) × (r'.eof_seen ≡ r.eof_seen)

  emit_line-Keeps :
      (r : Rewriter) (line rest more : Bytes)
      → r.client_model ≡ model
      → SplitScan (some (line, rest)) r.done [] r.buf more
      → let q = emit_line json r rest (rewrite_model_line json r.client_model r.done line) in
        Keeps r q more
  unfolding emit_line pending
  emit_line-Keeps r line rest more own h =
      rw own (append_assoc r.out _ _ ∙ ap (λ (b : Bytes). r.out ++ b) (sym h), refl, refl)

  go_on-Keeps :
      (next : Rewriter → Rewriter) (r : Rewriter) (o : Option (Bytes × Bytes)) (more : Bytes)
      → r.client_model ≡ model
      → SplitScan o r.done [] r.buf more
      → ((q : Rewriter) → q.client_model ≡ model → Keeps q (next q) more)
      → Keeps r (go_on json next r (process_line json r o)) more
  unfolding go_on process_line
  go_on-Keeps next r none more own h ih = (refl, own, refl)
  go_on-Keeps next r (some (line, rest)) more own h ih =
      let q = emit_line json r rest (rewrite_model_line json r.client_model r.done line) in
      let e = emit_line-Keeps r line rest more own h in
      let k = ih q e.1 in (k.0 ∙ e.0, k.1, k.2 ∙ e.2)

  pub process_lines-Keeps :
      (n : ℕ) (r : Rewriter) (more : Bytes)
      → r.client_model ≡ model
      → Keeps r (process_lines json n r) more
  unfolding process_lines
  process_lines-Keeps zero r more own = (refl, own, refl)
  process_lines-Keeps (suc n) r more own =
      go_on-Keeps (λ q. process_lines json n q) r (split_line r.buf) more own
        (split_scan r.done [] r.buf more) (λ q h. process_lines-Keeps n q more h)
