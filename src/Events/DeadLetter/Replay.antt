-- ===== src/Events/DeadLetter/Replay.antt =====
-- A replay of the queue loses no line.

-- The line is an entry that its destination took, in a pass that was not canceled.
use aikey_proxy.Prelude.{
  if◌then◌else◌, Bool, Bool-cases, List, [], arith, false, inl, inr, none, not, refl, some, subst,
  sym, true, ℕ, ◌++◌, ◌+◌, ◌==◌, ◌||◌, ◌∙◌, ◌∷◌, ◌≡◌, ◌⊎◌,
}
use aikey_proxy.Prelude.Lists.{All, All-members, Any, length, length-append}
use aikey_proxy.Events.DeadLetter.{
  deliverable_count, replayed, still_failing, DeadLetterEntry, Delivery, Kind, Line, Replayed,
  Replaying, WriteFaults, absent, blank, compliance, entry, first_route, holds, malformed,
  no_replay, replay_dead_letter, replay_kind, replay_line, replay_lines, scanned, unreadable, usage,
}
use aikey_proxy.Events.Reporter.{Reporter, url_for_route_source}

abbrev pub Delivered : (ℕ → Delivery) → Line → Type 0
Delivered world blank = ⊥
Delivered world (malformed text) = ⊥
Delivered world (entry e) = (n : ℕ) × ((world n).canceled ≡ false) × ((world n).delivers e ≡ true)

-- A line that is not blank was delivered, or it stays.
abbrev Accounts : (ℕ → Delivery) → Line → Replaying → Replaying → Type 0
Accounts world line p q =
    ((q.keep_lines ≡ p.keep_lines)
      × (q.result.entries_scanned ≡ p.result.entries_scanned + 1)
      × (q.result.entries_replayed_ok ≡ p.result.entries_replayed_ok + 1)
      × Delivered world line)
    ⊎ ((q.keep_lines ≡ p.keep_lines ++ (line ∷ []))
        × (q.result.entries_scanned ≡ p.result.entries_scanned + 1)
        × (q.result.entries_replayed_ok ≡ p.result.entries_replayed_ok))

delivered_of : (a b : Bool) → a || not b ≡ false → b ≡ true
delivered_of true b h = cc
delivered_of false true h = refl
delivered_of false false h = cc

only : (l line : Line) → Any (λ m. l ≡ m) (line ∷ []) → l ≡ line
only l line (inl here) = here
only l line (inr never) = absurd never

Any-left : (l : Line) (xs ys : List Line) → Any (λ m. l ≡ m) xs → Any (λ m. l ≡ m) (xs ++ ys)
Any-left l [] ys m = absurd m
Any-left l (x ∷ xs) ys (inl here) = inl here
Any-left l (x ∷ xs) ys (inr later) = inr (Any-left l xs ys later)

Any-right : (l : Line) (xs ys : List Line) → Any (λ m. l ≡ m) ys → Any (λ m. l ≡ m) (xs ++ ys)
Any-right l [] ys m = m
Any-right l (x ∷ xs) ys m = inr (Any-right l xs ys m)

module _ (r : Reporter) (world : ℕ → Delivery) where
  if-Accounts :
      (line : Line) (p x y : Replaying) (b : Bool)
      → (b ≡ true → Accounts world line p x)
      → (b ≡ false → Accounts world line p y)
      → Accounts world line p (if b then x else y)
  if-Accounts line p x y true h k = h refl
  if-Accounts line p x y false h k = k refl

  replay_kind-Accounts :
      (k : Kind) (e : DeadLetterEntry) (n : ℕ) (p : Replaying)
      → (world n).canceled ≡ false
      → Accounts world (entry e) p (replay_kind k r e (world n) (scanned p))
  unfolding replay_kind scanned
  replay_kind-Accounts compliance e n p going =
      if-Accounts (entry e) p (replayed (length e.payloads) (scanned p))
        (still_failing e (length e.payloads) (scanned p)) ((world n).delivers e)
        (λ taken. inl (refl, refl, refl, (n, going, taken))) (λ bad. inr (refl, refl, refl))
  replay_kind-Accounts usage e n p going =
      let no_route = url_for_route_source r (first_route e.events) == "" in
      if-Accounts (entry e) p (still_failing e (length e.events) (scanned p))
        (replayed (length e.events) (scanned p))
        (no_route || (world n).marshal_fails || not ((world n).delivers e))
        (λ bad. inr (refl, refl, refl))
        (λ good. inl (
          refl,
          refl,
          refl,
          (
            n,
            going,
            delivered_of (no_route || (world n).marshal_fails) ((world n).delivers e) good,
          ),
        ))

  replay_line-Accounts :
      (line : Line) (p : Replaying)
      → ((line ≡ blank) × (replay_line r world line p ≡ p))
        ⊎ Accounts world line p (replay_line r world line p)
  unfolding replay_line
  replay_line-Accounts blank p = inl (refl, refl)
  replay_line-Accounts (malformed text) p = inr (inr (refl, refl, refl))
  replay_line-Accounts (entry e) p =
      let n = p.result.entries_scanned in
      inr (
        if-Accounts (entry e) p (still_failing e (deliverable_count e) (scanned p))
          (replay_kind e.kind r e (world n) (scanned p)) (world n).canceled
          (λ stop. inr (refl, refl, refl)) (λ going. replay_kind-Accounts e.kind e n p going))

  -- The lines that are kept grow at their end, and each new line is kept or delivered.
  abbrev Conserves : List Line → Replaying → Replaying → Type 0
  Conserves lines p q =
      ((line : Line) → Any (λ l. line ≡ l) p.keep_lines → Any (λ l. line ≡ l) q.keep_lines)
      × ((line : Line)
          → Any (λ l. line ≡ l) lines
          → (line ≡ blank) ⊎ (Any (λ l. line ≡ l) q.keep_lines ⊎ Delivered world line))
      × (length q.keep_lines + q.result.entries_replayed_ok + p.result.entries_scanned
          ≡ length p.keep_lines + p.result.entries_replayed_ok + q.result.entries_scanned)

  one_line :
      (line : Line) (p : Replaying) (q : Replaying)
      → ((line ≡ blank) × (q ≡ p)) ⊎ Accounts world line p q
      → Conserves (line ∷ []) p q
  one_line line p q (inl (empty, same)) =
      (λ l m. rw same m, λ l m. inl (only l line m ∙ empty), rw same refl)
  one_line line p q (inr (inl (kept, n, more, sent))) = (
    λ l m. rw kept m,
    λ l m. inr (inr (subst (λ (x : Line). Delivered world x) (sym (only l line m)) sent)),
    rw kept (omega (arith, n, more)),
  )
  one_line line p q (inr (inr (kept, n, more))) = (
    λ l m. rw kept (Any-left l p.keep_lines (line ∷ []) m),
    λ l m. inr (inl (rw kept (Any-right l p.keep_lines (line ∷ []) m))),
    rw kept (omega (arith, n, more, length-append p.keep_lines (line ∷ []))),
  )

  replay_lines-Conserves :
      (lines : List Line) (p : Replaying) → Conserves lines p (replay_lines r world lines p)
  unfolding replay_lines
  replay_lines-Conserves [] p = (λ l m. m, λ l m. absurd m, refl)
  replay_lines-Conserves (line ∷ lines) p =
      let q = replay_line r world line p in
      let one = one_line line p q (replay_line-Accounts line p) in
      let rest = replay_lines-Conserves lines q in
      (
        λ l m. rest.0 l (one.0 l m),
        λ l m. elim m [
          | inr later ↦ rest.1 l later
          | inl here ↦ elim (one.1 l (inl here)) [
            | inl empty ↦ inl empty
            | inr (inl kept) ↦ inr (inl (rest.0 l kept))
            | inr (inr sent) ↦ inr (inr sent)
          ]
        ],
        omega (arith, one.2, rest.2),
      )

  -- What the file holds afterwards.
  abbrev pub Safe : List Line → Replayed → Type 0
  Safe lines (res, some e, file) = file ≡ holds lines
  Safe lines (res, none, absent) = ⊥
  Safe lines (res, none, unreadable) = ⊥
  Safe lines (res, none, holds kept) =
      All (λ (line : Line). (line ≡ blank) ⊎ (Any (λ l. line ≡ l) kept ⊎ Delivered world line))
        lines
      × (length kept + res.entries_replayed_ok ≡ res.entries_scanned)

  -- A replay of the dead letters that fails to write or to rename leaves the file as it was. Otherwise every line of the file that is not blank is still in it, unless it is an entry which its destination took while the context had not ended; and the lines kept and the entries delivered are as many as those scanned.
  pub replay_dead_letter-Safe :
      (faults : WriteFaults) (lines : List Line)
      → Safe lines (replay_dead_letter r world faults (holds lines))
  unfolding replay_dead_letter
  replay_dead_letter-Safe faults lines = elim (Bool-cases faults.write) [
    | inl e ↦ rw e refl
    | inr e ↦ elim (Bool-cases faults.rename) [
      | inl f ↦ rw (e, f) refl
      | inr f ↦
          let c = replay_lines-Conserves lines (record { result = no_replay; keep_lines = [] }) in
          rw (e, f)
            (
              All-members
                  (λ (line : Line).
                    (line ≡ blank)
                    ⊎ (Any (λ l. line ≡ l)
                          (replay_lines r world lines
                            (record { result = no_replay; keep_lines = [] })).keep_lines
                        ⊎ Delivered world line))
                  lines c.1,
              omega (arith, c.2),
            )
    ]
  ]
