-- ===== src/Proxy/SseModel/Reads.antt =====
-- What a client reads, over any chunks and reads.
use aikey_proxy.Prelude.{
  eq_iff, some, ◌==◌, ◌≢◌, not, ◌||◌, Bool, Bool-cases, List, Option, String, [], ap, arith, false,
  inl, inr, none, refl, subst, suc, sym, true, zero, ℕ, ◌++◌, ◌<◌, ◌∙◌, ◌∷◌, ◌≡◌, ◌⊎◌,
}
use aikey_proxy.Prelude.Lists.{length}
use aikey_proxy.Proxy.SseModel.{
  filled, fresh_rewriter, new_rewriter, reads, Bytes, Json, Reading, Rewriter, drained, ended, feed,
  fill, is_empty, process_complete_lines, read, split_line, take_bytes,
}
use aikey_proxy.Proxy.SseModel.Stream.{SplitScan, pending, process_lines-Keeps, scan, split_scan}
use aikey_proxy.Proxy.SseModel.Lines.{process_lines-split}
use mathlib.Core.List.{append_assoc, append-nil}

abbrev pub joined : List Bytes → Bytes
joined [] = []
joined (chunk ∷ chunks) = chunk ++ joined chunks

take_bytes_lem :
    (json : Json) (n : ℕ) (bytes : Bytes)
    → (take_bytes json n bytes).0 ++ (take_bytes json n bytes).1 ≡ bytes
unfolding take_bytes
take_bytes_lem json zero bytes = refl
take_bytes_lem json (suc n) [] = refl
take_bytes_lem json (suc n) (b ∷ bytes) = ap (λ (l : Bytes). b ∷ l) (take_bytes_lem json n bytes)

all_of : (given : Bytes) {left whole : Bytes} → left ≡ [] → given ++ left ≡ whole → given ≡ whole
all_of given e h = sym (append-nil given) ∙ ap (λ (l : Bytes). given ++ l) (sym e) ∙ h

take_bytes_some :
    (json : Json) (n : ℕ) (b : ℕ) (bytes : Bytes)
    → 0 < length (take_bytes json (suc n) (b ∷ bytes)).0
unfolding take_bytes
take_bytes_some json n b bytes = omega arith

module _ (json : Json) (model : String) where
  -- No complete line waits, and nothing is left after the end.
  abbrev Ready : Rewriter → List Bytes → Type 0
  Ready r chunks =
      (r.client_model ≡ model)
      × (split_line r.buf ≡ none)
      × (r.eof_seen ≡ true → (r.buf ≡ []) × (chunks ≡ []))

  no_line :
      (bytes : Bytes)
      → split_line bytes ≡ none
      → (done : Bool) → scan json model done [] bytes ≡ bytes
  unfolding scan
  no_line bytes e done =
      let s = split_scan json model done [] bytes [] in
      ap (λ (l : Bytes). scan json model done [] l) (sym (append-nil bytes))
      ∙ subst (λ (o : Option (Bytes × Bytes)). SplitScan json model o done [] bytes []) e s

  feed-Keeps :
      (chunk more : Bytes) (r : Rewriter)
      → r.client_model ≡ model
      → (pending json model (feed json chunk r) more ≡ pending json model r (chunk ++ more))
        × ((feed json chunk r).client_model ≡ model)
        × ((feed json chunk r).eof_seen ≡ r.eof_seen)
        × (split_line (feed json chunk r).buf ≡ none)
  unfolding feed process_complete_lines pending
  feed-Keeps chunk more r own =
      let q : Rewriter = record r { buf = r.buf ++ chunk } in
      let k = process_lines-Keeps json model (length q.buf) q more own in
      (
        k.0
            ∙ ap (λ (l : Bytes). r.out ++ scan json model r.done [] l)
                (append_assoc r.buf chunk more),
        k.1,
        k.2,
        process_lines-split json (length q.buf) q (omega arith),
      )

  abbrev Filled : Rewriter → List Bytes → Rewriter × List Bytes → Type 0
  Filled r chunks (r', chunks') =
      (pending json model r' (joined chunks') ≡ pending json model r (joined chunks))
      × Ready r' chunks'
      × (is_empty json r'.out ≡ true → r'.eof_seen ≡ true)

  ended-Filled : (fails : Bool) (r : Rewriter) → Ready r [] → Filled r [] (ended json fails r, [])
  unfolding ended pending split_line scan
  ended-Filled fails r ready = (
    append-nil (r.out ++ r.buf)
        ∙ ap (λ (l : Bytes). r.out ++ l)
            (sym (
              ap (λ (l : Bytes). scan json model r.done [] l) (append-nil r.buf)
              ∙ no_line r.buf ready.1 r.done)),
    (ready.0, refl, λ _. (refl, refl)),
    λ _. refl,
  )

  fill-Filled :
      (chunks : List Bytes) (fails : Bool) (r : Rewriter)
      → Ready r chunks
      → r.eof_seen ≡ false
      → Filled r chunks (fill json chunks fails r)
  unfolding fill
  fill-Filled [] fails r ready open_still = ended-Filled fails r ready
  fill-Filled (chunk ∷ chunks) fails r ready open_still =
      let q = feed json chunk r in
      let k = feed-Keeps chunk (joined chunks) r ready.0 in
      let still : q.eof_seen ≡ false = k.2 ∙ open_still in
      let ready' : Ready q chunks = (k.1, k.3, λ ends. cc) in
      elim (Bool-cases (is_empty json q.out)) [
        | inl e ↦
            let rest = fill-Filled chunks fails q ready' still in
            rw e (rest.0 ∙ k.0, rest.1, rest.2)
        | inr e ↦ rw e (k.0, ready', λ empty. cc)
      ]

  -- A read, its bytes first.
  abbrev Good : ℕ → Rewriter → List Bytes → Reading json → Type 0
  Good n r chunks one =
      (one.given ++ pending json model one.rewriter (joined one.chunks)
        ≡ pending json model r (joined chunks))
      × Ready one.rewriter one.chunks
      × (((one.end ≡ true) × (pending json model r (joined chunks) ≡ []))
          ⊎ ((n ≡ 0) ⊎ (0 < length one.given)))

  progress_of :
      (n : ℕ) (out more : Bytes)
      → (is_empty json out ≡ true → more ≡ [])
      → ((is_empty json out ≡ true) × (out ++ more ≡ []))
        ⊎ ((n ≡ 0) ⊎ (0 < length (take_bytes json n out).0))
  unfolding is_empty
  progress_of n [] more h = inl (refl, h refl)
  progress_of zero (b ∷ out) more h = inr (inl refl)
  progress_of (suc n) (b ∷ out) more h = inr (inr (take_bytes_some json n b out))

  nothing_left :
      (r : Rewriter) (chunks : List Bytes)
      → Ready r chunks
      → r.eof_seen ≡ true
      → scan json model r.done [] (r.buf ++ joined chunks) ≡ []
  unfolding scan
  nothing_left r chunks ready e = let gone = ready.2 e in rw (gone.0, gone.1) refl

  drained-Good :
      (n : ℕ) (r : Rewriter) (chunks : List Bytes)
      → Ready r chunks
      → (is_empty json r.out ≡ true → r.eof_seen ≡ true)
      → Good n r chunks (drained json n r chunks)
  unfolding drained pending
  drained-Good n r chunks ready ends = (
    sym (append_assoc (take_bytes json n r.out).0 (take_bytes json n r.out).1 _)
        ∙ ap (λ (l : Bytes). l ++ scan json model r.done [] (r.buf ++ joined chunks))
            (take_bytes_lem json n r.out),
    ready,
    progress_of n r.out (scan json model r.done [] (r.buf ++ joined chunks))
        (λ e. nothing_left r chunks ready (ends e)),
  )

  filled-Good :
      (n : ℕ) (r : Rewriter) (chunks : List Bytes) (x : Rewriter × List Bytes)
      → Filled r chunks x
      → Good n r chunks (filled json n x)
  unfolding filled
  filled-Good n r chunks (r', chunks') (same, ready, ends) =
      let g = drained-Good n r' chunks' ready ends in
      (
        g.0 ∙ same,
        g.1,
        elim g.2 [
          | inl (end, nothing) ↦ inl (end, sym same ∙ nothing)
          | inr some_bytes ↦ inr some_bytes
        ],
      )

  read-Good :
      (n : ℕ) (fails : Bool) (r : Rewriter) (chunks : List Bytes)
      → Ready r chunks
      → Good n r chunks (read json n fails r chunks)
  unfolding read
  read-Good n fails r chunks ready = elim (Bool-cases (not (is_empty json r.out) || r.eof_seen)) [
    | inl e ↦ rw e (drained-Good n r chunks ready (λ empty. ground (arith, e, empty)))
    | inr e ↦ rw e (
        filled-Good n r chunks (fill json chunks fails r)
          (fill-Filled chunks fails r ready (ground (arith, e))))
  ]

  reads-Good :
      (ns : List ℕ) (fails : Bool) (r : Rewriter) (chunks : List Bytes)
      → Ready r chunks
      → let x = reads json ns fails r chunks in
        (x.0 ++ pending json model x.1 (joined x.2) ≡ pending json model r (joined chunks))
        × Ready x.1 x.2
  unfolding reads
  reads-Good [] fails r chunks ready = (refl, ready)
  reads-Good (n ∷ ns) fails r chunks ready =
      let one = read json n fails r chunks in
      let g = read-Good n fails r chunks ready in
      let later = reads-Good ns fails one.rewriter one.chunks g.1 in
      let rest = reads json ns fails one.rewriter one.chunks in
      (
        append_assoc one.given rest.0 (pending json model rest.1 (joined rest.2))
            ∙ ap (λ (l : Bytes). one.given ++ l) later.0
            ∙ g.0,
        later.1,
      )

  -- Nothing lost and progress, from a rewriter on.
  abbrev Delivers : List ℕ → ℕ → Bool → List Bytes → Rewriter → Type 0
  Delivers ns n fails chunks start =
      let x = reads json ns fails start chunks in
      let one = read json (suc n) fails x.1 x.2 in
      let whole = scan json model false [] (joined chunks) in
      (x.0 ++ pending json model x.1 (joined x.2) ≡ whole)
      × (((one.end ≡ true) × (x.0 ≡ whole)) ⊎ (0 < length one.given))

  fresh-Delivers :
      (ns : List ℕ) (n : ℕ) (fails : Bool) (chunks : List Bytes)
      → Delivers ns n fails chunks (fresh_rewriter model)
  unfolding fresh_rewriter split_line pending
  fresh-Delivers ns n fails chunks =
      let start = fresh_rewriter model in
      let g = reads-Good ns fails start chunks (refl, refl, λ e. cc) in
      let x = reads json ns fails start chunks in
      let one = read-Good (suc n) fails x.1 x.2 g.1 in
      (
        g.0,
        elim one.2 [
          | inl (end, nothing) ↦ inl (end, all_of x.0 nothing g.0)
          | inr (inl zero_size) ↦ absurd (omega arith)
          | inr (inr some_bytes) ↦ inr some_bytes
        ],
      )

  -- What a client gets of the body: the stream itself, exactly if there is no client model, or the reads of a rewriter.
  abbrev pub Served : List ℕ → ℕ → Bool → List Bytes → Option Rewriter → Type 0
  Served ns n fails chunks none = model ≡ ""
  Served ns n fails chunks (some start) = (model ≢ "") × Delivers ns n fails chunks start

  -- Without a client model the body of the upstream is handed back as it is. With one, however the upstream cuts the stream into chunks, whatever sizes the client reads in, and whether the upstream ends by EOF or an error: what the client has read so far, followed by what is still to come, is the stream rewritten line by line as if it had arrived whole; and the next read of at least one byte delivers a byte, or reports the end, and then all of it was delivered.
  pub reads-scan :
      (ns : List ℕ) (n : ℕ) (fails : Bool) (chunks : List Bytes)
      → Served ns n fails chunks (new_rewriter model)
  unfolding new_rewriter
  reads-scan ns n fails chunks = elim (Bool-cases (model == "")) [
    | inl e ↦ rw e ((eq_iff model "").0 e)
    | inr e ↦
        rw e (λ same. ground (arith, e, same, eq_iff model ""), fresh-Delivers ns n fails chunks)
  ]
