-- ===== src/Prelude/Sort.antt =====
-- Go's sort.SliceStable, as the insertion sort that it is equal to on a strict weak order, with
-- what it does to a list that is sorted by a numeric key.
use Prim.Native.Nat.{ℕ, ◌≤◌}
use mathlib.Core.Path.{◌≡◌, refl, ap, ◌∙◌}
use mathlib.Core.Logic.{inl, inr}
use mathlib.Core.Bool.{Bool, true, false}
use mathlib.Core.List.{List, [], ◌∷◌, ◌++◌}
use native.Mathlib.Omega.{arith}
use aikey_proxy.Prelude.Tests.{ltb, eqb, if◌then◌else◌, Bool-cases, ltb→lt}
use aikey_proxy.Prelude.Lists.{All}

module _ {ℓ} {A : Type ℓ} (less : A → A → Bool) where
  unfoldable pub insert_sorted : A → List A → List A
  insert_sorted x [] = x ∷ []
  insert_sorted x (y ∷ ys) =
      let rest = insert_sorted x ys in if less y x then y ∷ rest else x ∷ y ∷ ys

  unfoldable pub sort_stable : List A → List A
  unfolding insert_sorted
  sort_stable [] = []
  sort_stable (x ∷ xs) = insert_sorted x (sort_stable xs)

  -- An entry passes the ones before it and stops at the first that is not.
  pub insert-split :
      (x : A) (ys zs : List A)
      → All (λ y. less y x ≡ true) ys
      → All (λ z. less z x ≡ false) zs
      → insert_sorted x (ys ++ zs) ≡ ys ++ x ∷ zs
  unfolding insert_sorted
  insert-split x [] [] h k = refl
  insert-split x [] (z ∷ zs) h k = rw (k.0) refl
  insert-split x (y ∷ ys) zs h k = rw (h.0, insert-split x ys zs h.1 k) refl

-- The entries that pass a test.
abbrev pub filter {ℓ} : {A : Type ℓ} → (A → Bool) → List A → List A
filter p [] = []
filter p (x ∷ xs) = let rest = filter p xs in if p x then x ∷ rest else rest

not_below : (a b : ℕ) → ltb a b ≡ false → b ≤ a
not_below a b h = ground arith

module _ {ℓ} {A : Type ℓ} (key : A → ℕ) where
  abbrev pub below : A → A → Bool
  below a b = ltb (key a) (key b)

  -- No entry has a smaller key than one before it.
  abbrev pub IsSorted : List A → Type ℓ
  IsSorted [] = Unit
  IsSorted (x ∷ xs) = All (λ y. key x ≤ key y) xs × IsSorted xs

  All-insert {κ} :
      (P : A → Type κ) (x : A) (ys : List A) → P x → All P ys → All P (insert_sorted below x ys)
  unfolding insert_sorted
  All-insert P x [] h k = (h, k)
  All-insert P x (y ∷ ys) h k = elim (Bool-cases (below y x)) [
    | inl e ↦ rw e (k.0, All-insert P x ys h k.1)
    | inr e ↦ rw e (h, k)
  ]

  pub All-sort {κ} : (P : A → Type κ) (xs : List A) → All P xs → All P (sort_stable below xs)
  unfolding sort_stable
  All-sort P [] h = h
  All-sort P (x ∷ xs) h = All-insert P x (sort_stable below xs) h.0 (All-sort P xs h.1)

  above :
      (a b : A) (ys : List A)
      → key a ≤ key b
      → All (λ y. key b ≤ key y) ys
      → All (λ y. key a ≤ key y) ys
  above a b [] h k = _
  above a b (y ∷ ys) h k = (omega (arith, h, k.0), above a b ys h k.1)

  insert-IsSorted : (x : A) (ys : List A) → IsSorted ys → IsSorted (insert_sorted below x ys)
  unfolding insert_sorted
  insert-IsSorted x [] h = _
  insert-IsSorted x (y ∷ ys) h = elim (Bool-cases (below y x)) [
    | inl e ↦ rw e (
      All-insert (λ z. key y ≤ key z) x ys (omega (arith, ltb→lt (key y) (key x) e)) h.0,
      insert-IsSorted x ys h.1,
    )
    | inr e ↦
        rw e ((not_below (key y) (key x) e, above x y ys (not_below (key y) (key x) e) h.0), h)
  ]

  pub sort-IsSorted : (xs : List A) → IsSorted (sort_stable below xs)
  unfolding sort_stable
  sort-IsSorted [] = _
  sort-IsSorted (x ∷ xs) = insert-IsSorted x (sort_stable below xs) (sort-IsSorted xs)

  -- Sorting keeps the entries of each key, in their order.
  insert_at_key :
      (k : ℕ) (x : A) (ys : List A)
      → filter (λ y. eqb (key y) k) (insert_sorted below x ys)
        ≡ filter (λ y. eqb (key y) k) (x ∷ ys)
  unfolding insert_sorted
  insert_at_key k x [] = refl
  insert_at_key k x (y ∷ ys) = ground (arith, insert_at_key k x ys)

  pub sort_at_key :
      (k : ℕ) (xs : List A)
      → filter (λ y. eqb (key y) k) (sort_stable below xs) ≡ filter (λ y. eqb (key y) k) xs
  unfolding sort_stable
  sort_at_key k [] = refl
  sort_at_key k (x ∷ xs) =
      insert_at_key k x (sort_stable below xs)
      ∙ ap (λ rest. if eqb (key x) k then x ∷ rest else rest) (sort_at_key k xs)
