-- ===== src/Prelude/Results.antt =====
-- The result of a Go function that may return an error.
use mathlib.Core.Path.{◌≡◌}
use mathlib.Core.Option.{none, some}

pub data Result {ℓ} (E A : Type ℓ) : Type ℓ where
  ok : A → Result E A
  err : E → Result E A

pub ok-injective {ℓ} : {E A : Type ℓ} {a b : A} → ◌≡◌ {A = Result E A} (ok a) (ok b) → a ≡ b
ok-injective h = cc

pub some-injective {ℓ} : {A : Type ℓ} {a b : A} → some a ≡ some b → a ≡ b
some-injective h = cc

pub some-ne-none {ℓ} : {A : Type ℓ} {a : A} → some a ≡ none → ⊥
some-ne-none h = cc

pub err-ne-ok {ℓ} : {E A : Type ℓ} {e : E} {a : A} → ◌≡◌ {A = Result E A} (err e) (ok a) → ⊥
err-ne-ok h = cc
