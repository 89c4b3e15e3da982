-- ===== src/Vkeys/Pick/Complete.antt =====
-- The pick serves whenever some account of the group can.
use aikey_proxy.Prelude.{
  ap, ℕ, String, Bool, true, List, [], ◌∷◌, map, ◌≡◌, ◌≢◌, ◌↔◌, inl, inr, ◌==◌, not, eq_iff,
  Bool-cases,
}
use aikey_proxy.Prelude.Lists.{Any}
use aikey_proxy.Vkeys.Pick.{
  GroupAccountRef, Account, Materials, PickOutcome, pick_none, pick_ok, pick_needs_login, gate,
  in_set, scan, scan_override, pick_routed_account, account_of,
}
use aikey_proxy.Vkeys.Pick.Sound.{outcome_cases, gate_ok, pick-Agrees, Agrees}

abbrev pub HasAccount : String → List Account → Type 0
HasAccount k = Any (λ a. a.account_id ≡ k)

HasAccount-refs :
    (refs : List GroupAccountRef) (k : String)
    → in_set refs k ≡ true
    → HasAccount k (map account_of refs)
unfolding in_set account_of
HasAccount-refs [] k h = cc
HasAccount-refs (r ∷ rs) k h = elim (Bool-cases (r.account_id == k)) [
  | inl e ↦ inl ((eq_iff r.account_id k).0 e)
  | inr e ↦ inr (HasAccount-refs rs k (rw e at h))
]

later :
    {k : String} (a : Account) (rest : List Account)
    → HasAccount k (a ∷ rest)
    → a.account_id ≢ k
    → HasAccount k rest
later a rest (inl q) n = absurd (n q)
later a rest (inr h) n = h

module _ (refs : List GroupAccountRef) (material : Materials) (skip : String → Bool) (now : ℕ) where
  other_account :
      {o : PickOutcome} (j k : String)
      → gate refs material skip now j ≡ o
      → o ≢ pick_ok
      → gate refs material skip now k ≡ pick_ok
      → j ≢ k
  other_account j k e n ok q = n (cc (ap (gate refs material skip now) q))

  scan_serves :
      (ordered : List Account) (p k : String)
      → HasAccount k ordered
      → gate refs material skip now k ≡ pick_ok
      → (scan refs material skip now ordered p).1 ≡ pick_ok
  unfolding scan
  scan_serves [] p k h ok = elim h [ ]
  scan_serves (a ∷ rest) p k h ok =
      elim (outcome_cases (gate refs material skip now a.account_id)) [
        | inl e ↦ rw e
        | inr (inl e) ↦
            rw e (
              scan_serves rest _ k (later a rest h (other_account a.account_id k e (λ x. cc) ok))
                ok)
        | inr (inr e) ↦
            rw e (
              scan_serves rest p k (later a rest h (other_account a.account_id k e (λ x. cc) ok))
                ok)
      ]

  override_serves :
      (ordered : List Account) (o k : String)
      → HasAccount k ordered
      → gate refs material skip now k ≡ pick_ok
      → (scan_override refs material skip now ordered o (gate refs material skip now o)).1 ≡ pick_ok
  unfolding scan_override
  override_serves ordered o k h ok = elim (outcome_cases (gate refs material skip now o)) [
    | inl e ↦ rw e
    | inr (inl e) ↦ rw e (scan_serves ordered o k h ok)
    | inr (inr e) ↦ rw e (scan_serves ordered "" k h ok)
  ]

pick_serves :
    (rank : String → List Account → List Account)
    → ((seat k : String) (xs : List Account) → HasAccount k xs → HasAccount k (rank seat xs))
    → (seat : String) (refs : List GroupAccountRef) (material : Materials) (override : String)
      (skip : String → Bool) (now : ℕ) (k : String)
    → gate refs material skip now k ≡ pick_ok
    → (pick_routed_account rank seat refs material override skip now).1 ≡ pick_ok
unfolding pick_routed_account in_set
pick_serves rank ranks seat [] material override skip now k ok =
    cc (gate_ok [] material skip now k ok).0
pick_serves rank ranks seat (r ∷ rs) material override skip now k ok =
    let refs = r ∷ rs in
    let there = ranks seat k _ (HasAccount-refs refs k (gate_ok refs material skip now k ok).0) in
    elim (Bool-cases (not (override == ""))) [
      | inl e ↦ rw e (override_serves refs material skip now _ override k there ok)
      | inr e ↦ rw e (scan_serves refs material skip now _ "" k there ok)
    ]

module _ (rank : String → List Account → List Account)
    (ranks : (seat k : String) (xs : List Account)
      → HasAccount k xs
      → HasAccount k (rank seat xs)) where
  -- If the ranking loses no account, then the pick finds an account to serve exactly when some account of the group passes the gate.
  pub pick_serves_iff :
      (seat : String) (refs : List GroupAccountRef) (material : Materials) (override : String)
      (skip : String → Bool) (now : ℕ)
      → ((pick_routed_account rank seat refs material override skip now).1 ≡ pick_ok)
        ↔ ((k : String) × (gate refs material skip now k ≡ pick_ok))
  pick_serves_iff seat refs material override skip now = (
    λ e. (
      (pick_routed_account rank seat refs material override skip now).0,
      served _ (pick-Agrees rank seat refs material override skip now) e,
    ),
    λ w. pick_serves rank ranks seat refs material override skip now w.0 w.1,
  )
    where
      served :
          (r : String × PickOutcome)
          → Agrees refs material skip now r
          → r.1 ≡ pick_ok
          → gate refs material skip now r.0 ≡ pick_ok
      served (k, pick_ok) a e = a
      served (k, pick_needs_login) a e = cc
      served (k, pick_none) a e = cc
