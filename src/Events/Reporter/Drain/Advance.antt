-- ===== src/Events/Reporter/Drain/Advance.antt =====
-- The cursors only advance, and the confirmed marks are what the collectors reported.
use aikey_proxy.Prelude.{
  ℕ, ◌≡◌, refl, ap, sym, ◌∙◌, String, true, List, [], ◌∷◌, ◌≤◌, arith, Bool-cases, ◌⊎◌, inl, inr,
  ltb, ◌==◌, eq_iff,
}
use aikey_proxy.Prelude.Lists.{Any}
use aikey_proxy.Events.Wal.{Event}
use aikey_proxy.Events.Reporter.{
  Reporter, World, Answer, marshal_failed, uploaded, upload_failed, Marks, GroupResult, raise,
  confirm_all,
}
use aikey_proxy.Events.Reporter.Cursors.{config, Cursors, cursors, Settled}

-- An answer reports a mark for a source.
abbrev pub Told : String → ℕ → Answer → Type 0
Told source c marshal_failed = ⊥
Told source c (uploaded contiguous) = Any (λ p. (p.0 ≡ source) × (p.1 ≡ c)) contiguous
Told source c (upload_failed status) = ⊥

abbrev pub Reported : World → String → ℕ → Type 0
Reported w source c = (t : ℕ) × Told source c (w.answer t)

raise_cases :
    (k : String) (c : ℕ) (m : Marks) (s : String)
    → (raise k c m s ≡ m s) ⊎ ((k ≡ s) × (c ≡ raise k c m s))
raise_cases k c m s = elim (Bool-cases (ltb (m k) c)) [
  | inl e ↦ elim (Bool-cases (k == s)) [
    | inl q ↦ rw (e, q) (inr ((eq_iff k s).0 q, refl))
    | inr q ↦ rw (e, q) (inl refl)
  ]
  | inr e ↦ rw e (inl refl)
]

pub le-raise : (k : String) (c : ℕ) (m : Marks) (s : String) → m s ≤ raise k c m s
le-raise k c m s = elim (Bool-cases (k == s)) [
  | inl q ↦ rw ((eq_iff k s).0 q) (ground (arith, eq_iff s s))
  | inr q ↦ ground (arith, q)
]

pub raised : (k : String) (c : ℕ) (m : Marks) → c ≤ raise k c m k
raised k c m = ground (arith, eq_iff k k)

confirm_all_cases :
    (cs : List (String × ℕ)) (m : Marks) (s : String)
    → (confirm_all cs m s ≡ m s) ⊎ Any (λ p. (p.0 ≡ s) × (p.1 ≡ confirm_all cs m s)) cs
unfolding confirm_all
confirm_all_cases [] m s = inl refl
confirm_all_cases ((k, c) ∷ cs) m s = elim (confirm_all_cases cs (raise k c m) s) [
  | inr told ↦ inr (inr told)
  | inl kept ↦ elim (raise_cases k c m s) [
    | inl same ↦ inl (kept ∙ same)
    | inr told ↦ inr (inl (told.0, told.1 ∙ sym kept))
  ]
]

-- What a step may do to the cursors.
abbrev pub Advances : World → Reporter → Reporter → Type 0
Advances w a b =
    ((s : String) → a.sent_seq s ≤ b.sent_seq s)
    × ((i : String) → a.seen_v1 i ≡ true → b.seen_v1 i ≡ true)
    × ((s : String) → (b.confirmed_seq s ≡ a.confirmed_seq s) ⊎ Reported w s (b.confirmed_seq s))
    × (config b ≡ config a)

module _ (w : World) where
  pub stays-Advances : (a : Reporter) → Advances w a a
  stays-Advances a = (λ s. omega arith, λ i h. h, λ s. inl refl, refl)

  pub trans-Advances : (a b c : Reporter) → Advances w a b → Advances w b c → Advances w a c
  trans-Advances a b c p q = (
    λ s. omega (arith, p.0 s, q.0 s),
    λ i h. q.1 i (p.1 i h),
    λ s. elim (q.2 s) [
      | inr told ↦ inr told
      | inl same ↦ elim (p.2 s) [
        | inl old ↦ inl (same ∙ old)
        | inr (t, told) ↦ inr (t, rw same told)
      ]
    ],
    q.3 ∙ p.3,
  )

  -- The sent marks, the confirmed ones, the events seen and the batch size decide.
  pub same-Advances : (a b : Reporter) → cursors b ≡ cursors a → Advances w a b
  same-Advances a b e = (
    λ s. rw (ap (λ (c : Cursors). c.0) e) (omega arith),
    λ i h. rw (ap (λ (c : Cursors). c.2) e) h,
    λ s. inl (ap (λ (c : Cursors). c.1 s) e),
    ap (λ (c : Cursors). c.5) e,
  )

  pub Settled-Advances :
      (batch : List Event) (t : ℕ) (a : Answer) (r : Reporter) (x : Reporter × GroupResult)
      → w.answer t ≡ a
      → Settled batch a (cursors r) x
      → Advances w r x.0
  Settled-Advances batch t marshal_failed r (r', res) e s = same-Advances r r' s.1
  Settled-Advances batch t (uploaded cs) r (r', res) e s = (
    λ i. rw (ap (λ (c : Cursors). c.0) s.1) (omega arith),
    λ i h. rw (ap (λ (c : Cursors). c.2) s.1) h,
    λ i. rw (ap (λ (c : Cursors). c.1) s.1) (elim (confirm_all_cases cs r.confirmed_seq i) [
      | inl same ↦ inl same
      | inr told ↦ inr (t, rw e told)
    ]),
    ap (λ (c : Cursors). c.5) s.1,
  )
  Settled-Advances batch t (upload_failed status) r (r', res) e (inl s) = (
    λ i. rw (ap (λ (c : Cursors). c.0) s.2) (omega arith),
    λ i h. rw (ap (λ (c : Cursors). c.2) s.2) h,
    λ i. inl (ap (λ (c : Cursors). c.1 i) s.2),
    ap (λ (c : Cursors). c.5) s.2,
  )
  Settled-Advances batch t (upload_failed status) r (r', res) e (inr s) = (
    λ i. rw (ap (λ (c : Cursors). c.0) s.2) (omega arith),
    λ i h. rw (ap (λ (c : Cursors). c.2) s.2) h,
    λ i. inl (ap (λ (c : Cursors). c.1 i) s.2),
    ap (λ (c : Cursors). c.5) s.2,
  )
