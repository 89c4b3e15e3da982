-- ===== src/Prelude/Maps.antt =====
-- A Go map with string keys, as the function that a lookup computes.
use Prim.Native.String.{String}
use mathlib.Core.Path.{◌≡◌}
use mathlib.Core.Option.{Option, none, some}
use text.Mathlib.Text.{◌==◌}
use text.Mathlib.TextPositions.{eq_refl}
use aikey_proxy.Prelude.Tests.{if◌then◌else◌}

abbrev pub Map {ℓ} : Type ℓ → Type ℓ
Map V = String → Option V

module _ {ℓ} {V : Type ℓ} where
  abbrev pub empty_map : Map V
  empty_map k = none

  -- m[k] = v
  abbrev pub insert : String → V → Map V → Map V
  insert k v m j = if k == j then some v else m j

  -- delete(m, k)
  abbrev pub erase : String → Map V → Map V
  erase k m j = if k == j then none else m j

  pub insert_self : (k : String) (v : V) (m : Map V) → insert k v m k ≡ some v
  insert_self k v m = simp eq_refl

  pub erase_self : (k : String) (m : Map V) → erase k m k ≡ none
  erase_self k m = simp eq_refl
