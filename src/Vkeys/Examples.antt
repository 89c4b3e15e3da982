-- ===== src/Vkeys/Examples.antt =====
-- A concrete group of two accounts.
use aikey_proxy.Prelude.{String, true, false, none, some, List, [], ◌∷◌, ◌≡◌, ◌↔◌, refl}
use aikey_proxy.Prelude.Words.{pos}
use aikey_proxy.Vkeys.Material.{
  GroupRuntimeAccount, window_exhausted, resets_after, exhausted_window_blocks_at,
  material_window_blocked_at,
}
use aikey_proxy.Vkeys.Pick.{GroupAccountRef, Account, Materials, pick_ok, gate, pick_routed_account}
use aikey_proxy.Vkeys.Pick.Sound.{Agrees, pick-Agrees}
use aikey_proxy.Vkeys.Pick.Complete.{pick_serves_iff}

abbrev exhausted : GroupRuntimeAccount
exhausted = record {
  credential_type = "oauth";
  needs_login = false;
  expires_at = 0;
  window_status = "exhausted";
  window_reset_at = some 900;
  window_7d_status = "";
  window_7d_reset_at = none;
}

abbrev fresh : GroupRuntimeAccount
fresh = record exhausted { window_status = "" }

abbrev members : List GroupAccountRef
members =
    record { account_id = "a"; priority = pos 1 }
    ∷ record { account_id = "b"; priority = pos 2 }
    ∷ []

abbrev materials : Materials
materials = ("a", exhausted) ∷ ("b", fresh) ∷ []

-- The order of the list.
abbrev as_listed : String → List Account → List Account
as_listed seat xs = xs

exhausted_blocks : material_window_blocked_at exhausted 800 ≡ true
unfolding material_window_blocked_at exhausted_window_blocks_at window_exhausted resets_after
exhausted_blocks = refl

pick-Agrees_example :
    Agrees members materials
      (λ k. false)
      800
      (pick_routed_account as_listed "s1" members materials "a" (λ k. false) 800)
pick-Agrees_example = pick-Agrees as_listed "s1" members materials "a" (λ k. false) 800

pick_serves_iff_example :
    ((pick_routed_account as_listed "s1" members materials "a" (λ k. false) 800).1 ≡ pick_ok)
    ↔ ((k : String) × (gate members materials (λ k. false) 800 k ≡ pick_ok))
pick_serves_iff_example =
    pick_serves_iff as_listed (λ seat k xs h. h) "s1" members materials "a" (λ k. false) 800
