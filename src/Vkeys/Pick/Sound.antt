-- ===== src/Vkeys/Pick/Sound.antt =====
-- What the pick returns is what the gate says of it.
use aikey_proxy.Prelude.{
  ℕ, String, Bool, true, false, List, [], ◌∷◌, ◌≡◌, ◌≢◌, refl, ◌⊎◌, inl, inr, arith, ◌==◌, not,
  if◌then◌else◌, eq_iff, Bool-cases,
}
use aikey_proxy.Vkeys.Pick.{
  GroupAccountRef, Account, Materials, PickOutcome, pick_none, pick_ok, pick_needs_login, gate,
  finish, scan, scan_override, pick_routed_account, in_set, is_blind, gate_material, material_of,
}

pub outcome_cases : (p : PickOutcome) → (p ≡ pick_ok) ⊎ ((p ≡ pick_needs_login) ⊎ (p ≡ pick_none))
outcome_cases pick_ok = inl refl
outcome_cases pick_needs_login = inr (inl refl)
outcome_cases pick_none = inr (inr refl)

module _ (refs : List GroupAccountRef) (material : Materials) (skip : String → Bool) (now : ℕ) where
  -- An account that is returned to serve passes the gate, one that is returned for a login needs one, and otherwise no account is named.
  abbrev pub Agrees : String × PickOutcome → Type 0
  Agrees (k, pick_ok) = gate refs material skip now k ≡ pick_ok
  Agrees (k, pick_needs_login) = (gate refs material skip now k ≡ pick_needs_login) × (k ≢ "")
  Agrees (k, pick_none) = k ≡ ""

  abbrev Pending : String → Type 0
  Pending p = (p ≡ "") ⊎ (gate refs material skip now p ≡ pick_needs_login)

  named : (p : String) → (p == "") ≡ false → p ≢ ""
  named p e q = ground (arith, eq_iff p "")

  Pending-real :
      (p : String)
      → Pending p
      → (p == "") ≡ false
      → (gate refs material skip now p ≡ pick_needs_login) × (p ≢ "")
  Pending-real p (inl q) e = absurd (named p e q)
  Pending-real p (inr q) e = (q, named p e)

  finish-Agrees : (p : String) → Pending p → Agrees (finish refs material skip now p)
  unfolding finish
  finish-Agrees p h = elim (Bool-cases (p == "")) [
    | inl e ↦ rw e
    | inr e ↦ rw e (Pending-real p h e)
  ]

  first-Pending :
      (k p : String)
      → gate refs material skip now k ≡ pick_needs_login
      → Pending p
      → Pending (if p == "" then k else p)
  first-Pending k p e h = elim (Bool-cases (p == "")) [ inl q ↦ rw q (inr e) | inr q ↦ rw q h ]

  scan-Agrees :
      (ordered : List Account) (p : String)
      → Pending p
      → Agrees (scan refs material skip now ordered p)
  unfolding scan
  scan-Agrees [] p h = finish-Agrees p h
  scan-Agrees (a ∷ rest) p h = elim (outcome_cases (gate refs material skip now a.account_id)) [
    | inl e ↦ rw e e
    | inr (inl e) ↦
        rw e (
          scan-Agrees rest (if p == "" then a.account_id else p) (first-Pending a.account_id p e h))
    | inr (inr e) ↦ rw e (scan-Agrees rest p h)
  ]

  override-Agrees :
      (ordered : List Account) (o : String)
      → Agrees (scan_override refs material skip now ordered o (gate refs material skip now o))
  unfolding scan_override
  override-Agrees ordered o = elim (outcome_cases (gate refs material skip now o)) [
    | inl e ↦ rw e e
    | inr (inl e) ↦ rw e (scan-Agrees ordered o (inr e))
    | inr (inr e) ↦ rw e (scan-Agrees ordered "" (inl refl))
  ]

-- An account that is picked to serve passes the gate; one that is picked for a login is found by the gate to need one, and its id is not empty; and otherwise no account is named. This holds for every ranking and every routing override.
pub pick-Agrees :
    (rank : String → List Account → List Account) (seat : String) (refs : List GroupAccountRef)
    (material : Materials) (override : String) (skip : String → Bool) (now : ℕ)
    → Agrees refs material skip now (pick_routed_account rank seat refs material override skip now)
unfolding pick_routed_account
pick-Agrees rank seat [] material override skip now = refl
pick-Agrees rank seat (r ∷ rs) material override skip now =
    elim (Bool-cases (not (override == ""))) [
      | inl e ↦ rw e (override-Agrees (r ∷ rs) material skip now _ override)
      | inr e ↦ rw e (scan-Agrees (r ∷ rs) material skip now _ "" (inl refl))
    ]

-- Passing the gate, spelled out.
pub gate_ok :
    (refs : List GroupAccountRef) (material : Materials) (skip : String → Bool) (now : ℕ)
    (k : String)
    → gate refs material skip now k ≡ pick_ok
    → (in_set refs k ≡ true)
      × (skip k ≡ false)
      × ((is_blind material ≡ true) ⊎ (gate_material (material_of k material) now ≡ pick_ok))
unfolding gate
gate_ok refs material skip now k h = ground arith
