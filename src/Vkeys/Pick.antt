-- ===== src/Vkeys/Pick.antt =====
-- `PickRoutedAccount` of internal/vkeys/routed_pick.go: the account of a group that serves a seat.
--
-- The ranking is that of the package seatassign, which is not part of the repository: it is the
-- parameter `rank`.
pub mod Sound
pub mod Complete
use aikey_proxy.Prelude.{
  ℕ, String, Bool, true, false, Option, none, some, List, [], ◌∷◌, map, ◌==◌, ◌&&◌, ◌||◌, not,
  if◌then◌else◌,
}
use aikey_proxy.Prelude.Words.{ℤ}
use aikey_proxy.Vkeys.Material.{GroupRuntimeAccount, material_usable}

pub record GroupAccountRef : Type 0 where
  pub account_id : String
  pub priority : ℤ

-- `seatassign.Account`
pub record Account : Type 0 where
  pub account_id : String
  pub priority : ℤ

pub data PickOutcome : Type 0 where
  pick_none pick_ok pick_needs_login : PickOutcome

-- A map that is walked by its size too: the entries, of which the first with a key counts.
abbrev pub Materials : Type 0
Materials = List (String × GroupRuntimeAccount)

unfoldable pub material_of : String → Materials → Option GroupRuntimeAccount
material_of k [] = none
material_of k ((j, mat) ∷ rest) = if j == k then some mat else material_of k rest

unfoldable pub in_set : List GroupAccountRef → String → Bool
in_set [] k = false
in_set (r ∷ rs) k = r.account_id == k || in_set rs k

unfoldable pub is_blind : Materials → Bool
is_blind [] = true
is_blind (e ∷ es) = false

unfoldable pub gate_material : Option GroupRuntimeAccount → ℕ → PickOutcome
unfolding material_usable
gate_material none now_unix = pick_none
gate_material (some mat) now_unix =
    if mat.needs_login
    then pick_needs_login
    else if not (material_usable mat now_unix)
    then pick_none
    else pick_ok

account_of : GroupAccountRef → Account
account_of r = record { account_id = r.account_id; priority = r.priority }

module _ (refs : List GroupAccountRef) (material : Materials) (skip : String → Bool)
    (now_unix : ℕ) where
  unfoldable pub gate : String → PickOutcome
  unfolding is_blind gate_material
  gate account_id =
      if not (in_set refs account_id) || skip account_id
      then pick_none
      else if is_blind material
      then pick_ok
      else gate_material (material_of account_id material) now_unix

  finish : String → String × PickOutcome
  finish pending_login =
      if not (pending_login == "") then (pending_login, pick_needs_login) else ("", pick_none)

  -- The loop over the ranked accounts; a round has the gate's outcome and the rounds that follow.
  unfoldable pub scan_step :
      Account → PickOutcome → (String → String × PickOutcome) → String → String × PickOutcome
  scan_step a pick_ok rest pending_login = (a.account_id, pick_ok)
  scan_step a pick_needs_login rest pending_login =
      rest (if pending_login == "" then a.account_id else pending_login)
  scan_step a pick_none rest pending_login = rest pending_login

  unfoldable pub scan : List Account → String → String × PickOutcome
  unfolding finish scan_step
  scan [] pending_login = finish pending_login
  scan (a ∷ rest) pending_login = scan_step a (gate a.account_id) (scan rest) pending_login

  -- The account that a routing override names goes first.
  unfoldable pub scan_override : List Account → String → PickOutcome → String × PickOutcome
  unfolding scan
  scan_override ordered override pick_ok = (override, pick_ok)
  scan_override ordered override pick_needs_login = scan ordered override
  scan_override ordered override pick_none = scan ordered ""

unfoldable pub pick_routed_account :
    (String → List Account → List Account)
    → String
    → List GroupAccountRef
    → Materials
    → String
    → (String → Bool)
    → ℕ
    → String × PickOutcome
unfolding scan_override account_of
pick_routed_account rank seat_id [] material override skip now_unix = ("", pick_none)
pick_routed_account rank seat_id (r ∷ rs) material override skip now_unix =
    let refs = r ∷ rs in
    let ordered = rank seat_id (map account_of refs) in
    if not (override == "")
    then scan_override refs material skip now_unix ordered override
        (gate refs material skip now_unix override)
    else scan refs material skip now_unix ordered ""
