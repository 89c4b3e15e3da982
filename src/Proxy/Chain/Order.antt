-- ===== src/Proxy/Chain/Order.antt =====
-- `orderCandidates` of internal/proxy/chain_serve.go: the try order of one request.
use mathlib.Core.List.{append_assoc}
use aikey_proxy.Prelude.{
  ◌⊎◌, sym, ℕ, ◌+◌, ◌<◌, ◌≤◌, String, Bool, true, false, List, [], ◌∷◌, ◌++◌, map, ◌==◌, ◌&&◌, not,
  ltb, eqb, ◌≡◌, refl, ap, ◌∙◌, inl, inr, arith, if◌then◌else◌, Bool-cases,
}
use aikey_proxy.Prelude.Lists.{All, All-map, All-append}
use aikey_proxy.Prelude.Sort.{sort_stable, insert_sorted, insert-split, filter}
use aikey_proxy.Proxy.BindingCooldown.{BindingCooldown, cooling}
use aikey_proxy.Proxy.Chain.{ResolvedRoute, hop_key}

pub record Banded : Type 0 where
  pub route : ResolvedRoute
  pub band : ℕ
  pub idx : ℕ

-- 0 sticky, 1 available, 2 cooling
unfoldable pub band_of : String → BindingCooldown → ℕ → ResolvedRoute → ℕ
unfolding hop_key
band_of stick_to cooldown now c =
    if not (stick_to == "") && hop_key c == stick_to
    then 0
    else if cooling cooldown (hop_key c) now
    then 2
    else 1

-- out[i].band < out[j].band, or out[i].idx < out[j].idx in one band
less : Banded → Banded → Bool
less a b = if eqb a.band b.band then ltb a.idx b.idx else ltb a.band b.band

banded_from : String → BindingCooldown → ℕ → ℕ → List ResolvedRoute → List Banded
unfolding band_of
banded_from stick_to cooldown now i [] = []
banded_from stick_to cooldown now i (c ∷ cs) =
    record { route = c; band = band_of stick_to cooldown now c; idx = i }
    ∷ banded_from stick_to cooldown now (i + 1) cs

pub order_candidates : List ResolvedRoute → String → BindingCooldown → ℕ → List ResolvedRoute
unfolding banded_from less
order_candidates candidates stick_to cooldown now =
    map (λ b. b.route) (sort_stable less (banded_from stick_to cooldown now 0 candidates))

module _ (stick_to : String) (cooldown : BindingCooldown) (now : ℕ) where
  -- The candidates of one band, in their order.
  in_band : ℕ → List ResolvedRoute → List ResolvedRoute
  in_band k = filter (λ c. eqb (band_of stick_to cooldown now c) k)

  abbrev banded_in : ℕ → List Banded → List Banded
  banded_in k = filter (λ b. eqb b.band k)

  abbrev From : ℕ → List Banded → Type 0
  From i bs = All (λ b. i ≤ b.idx) bs

  -- An entry of a band that comes after a place.
  abbrev Within : ℕ → ℕ → Banded → Type 0
  Within k i b = (b.band ≡ k) × (i ≤ b.idx)

  eqb-eq : (a b : ℕ) → eqb a b ≡ true → a ≡ b
  eqb-eq a b h = ground arith

  banded_in-All : (k i : ℕ) (bs : List Banded) → From i bs → All (Within k i) (banded_in k bs)
  banded_in-All k i [] h = _
  banded_in-All k i (b ∷ bs) h = elim (Bool-cases (eqb b.band k)) [
    | inl e ↦ rw e ((eqb-eq b.band k e, h.0), banded_in-All k i bs h.1)
    | inr e ↦ rw e (banded_in-All k i bs h.1)
  ]

  from_lem :
      (j i : ℕ) (cs : List ResolvedRoute) → j ≤ i → From j (banded_from stick_to cooldown now i cs)
  unfolding banded_from
  from_lem j i [] h = _
  from_lem j i (c ∷ cs) h = (h, from_lem j (i + 1) cs (omega (arith, h)))

  passes :
      (x : Banded) (k i : ℕ) (bs : List Banded)
      → k < x.band
      → All (Within k i) bs
      → All (λ b. less b x ≡ true) bs
  unfolding less
  passes x k i bs h = All-map (λ b w. ground (arith, h, w.0)) bs

  stops :
      (x : Banded) (k i : ℕ) (bs : List Banded)
      → x.band ≤ k
      → x.idx < i
      → All (Within k i) bs
      → All (λ b. less b x ≡ false) bs
  unfolding less
  stops x k i bs h g = All-map (λ b w. ground (arith, h, g, w.0, w.1)) bs

  abbrev bands : List Banded → List Banded
  bands bs = banded_in 0 bs ++ (banded_in 1 bs ++ banded_in 2 bs)

  band_cases :
      (c : ResolvedRoute) → let k = band_of stick_to cooldown now c in (k ≡ 0) ⊎ ((k ≡ 1) ⊎ (k ≡ 2))
  unfolding band_of
  band_cases c = ground arith

  bands-0 :
      (x : Banded) (bs : List Banded)
      → x.band ≡ 0
      → bands (x ∷ bs) ≡ x ∷ (banded_in 0 bs ++ (banded_in 1 bs ++ banded_in 2 bs))
  bands-0 x bs e = simp e refl

  bands-1 :
      (x : Banded) (bs : List Banded)
      → x.band ≡ 1
      → bands (x ∷ bs) ≡ banded_in 0 bs ++ x ∷ (banded_in 1 bs ++ banded_in 2 bs)
  bands-1 x bs e = simp e refl

  bands-2 :
      (x : Banded) (bs : List Banded)
      → x.band ≡ 2
      → bands (x ∷ bs) ≡ banded_in 0 bs ++ (banded_in 1 bs ++ x ∷ banded_in 2 bs)
  bands-2 x bs e = simp e refl

  insert-bands :
      (x : Banded) (i : ℕ) (bs : List Banded)
      → x.idx < i
      → From i bs
      → (x.band ≡ 0) ⊎ ((x.band ≡ 1) ⊎ (x.band ≡ 2))
      → insert_sorted less x (bands bs) ≡ bands (x ∷ bs)
  insert-bands x i bs h f cases =
      let in0 = banded_in-All 0 i bs f in
      let in1 = banded_in-All 1 i bs f in
      let in2 = banded_in-All 2 i bs f in
      let pass1 = passes x 0 i (banded_in 0 bs) in
      let stop1 = λ (g : x.band ≤ 1). stops x 1 i (banded_in 1 bs) g h in1 in
      let stop2 = λ (g : x.band ≤ 2). stops x 2 i (banded_in 2 bs) g h in2 in
      elim cases [
        | inl e ↦
            insert-split less x [] (banded_in 0 bs ++ (banded_in 1 bs ++ banded_in 2 bs)) _ (
              All-append (λ b. less b x ≡ false) (banded_in 0 bs) (banded_in 1 bs ++ banded_in 2 bs)
                (stops x 0 i (banded_in 0 bs) (omega (arith, e)) h in0)
                (All-append (λ b. less b x ≡ false) (banded_in 1 bs) (banded_in 2 bs)
                  (stop1 (omega (arith, e))) (stop2 (omega (arith, e)))))
            ∙ sym (bands-0 x bs e)
        | inr (inl e) ↦
            insert-split less x (banded_in 0 bs) (banded_in 1 bs ++ banded_in 2 bs)
              (pass1 (omega (arith, e)) in0)
              (All-append (λ b. less b x ≡ false) (banded_in 1 bs) (banded_in 2 bs)
                (stop1 (omega (arith, e))) (stop2 (omega (arith, e))))
            ∙ sym (bands-1 x bs e)
        | inr (inr e) ↦
            ap (insert_sorted less x)
              (sym (append_assoc (banded_in 0 bs) (banded_in 1 bs) (banded_in 2 bs)))
            ∙ insert-split less x (banded_in 0 bs ++ banded_in 1 bs) (banded_in 2 bs)
                (All-append (λ b. less b x ≡ true) (banded_in 0 bs) (banded_in 1 bs)
                  (pass1 (omega (arith, e)) in0)
                  (passes x 1 i (banded_in 1 bs) (omega (arith, e)) in1))
                (stop2 (omega (arith, e)))
            ∙ append_assoc (banded_in 0 bs) (banded_in 1 bs) (x ∷ banded_in 2 bs)
            ∙ sym (bands-2 x bs e)
      ]

  sort-bands :
      (i : ℕ) (cs : List ResolvedRoute)
      → sort_stable less (banded_from stick_to cooldown now i cs)
        ≡ bands (banded_from stick_to cooldown now i cs)
  unfolding banded_from sort_stable
  sort-bands i [] = refl
  sort-bands i (c ∷ cs) =
      let x : Banded = record { route = c; band = band_of stick_to cooldown now c; idx = i } in
      ap (insert_sorted less x) (sort-bands (i + 1) cs)
      ∙ insert-bands x (i + 1) (banded_from stick_to cooldown now (i + 1) cs) (omega arith)
          (from_lem (i + 1) (i + 1) cs (omega arith)) (band_cases c)

  route-banded_in :
      (k i : ℕ) (cs : List ResolvedRoute)
      → map (λ b. b.route) (banded_in k (banded_from stick_to cooldown now i cs)) ≡ in_band k cs
  unfolding banded_from in_band
  route-banded_in k i [] = refl
  route-banded_in k i (c ∷ cs) = elim (Bool-cases (eqb (band_of stick_to cooldown now c) k)) [
    | inl e ↦ rw e (ap (λ rest. c ∷ rest) (route-banded_in k (i + 1) cs))
    | inr e ↦ rw e (route-banded_in k (i + 1) cs)
  ]

  map-append-route :
      (xs ys : List Banded)
      → map (λ b. b.route) (xs ++ ys) ≡ map (λ b. b.route) xs ++ map (λ b. b.route) ys
  map-append-route [] ys = refl
  map-append-route (x ∷ xs) ys = ap (λ rest. x.route ∷ rest) (map-append-route xs ys)

  -- The conversation stands on the hop of the candidate.
  abbrev pub is_sticky : ResolvedRoute → Bool
  is_sticky c = not (stick_to == "") && hop_key c == stick_to

  abbrev pub is_cooling_hop : ResolvedRoute → Bool
  is_cooling_hop c = cooling cooldown (hop_key c) now

  filter-same :
      (p q : ResolvedRoute → Bool) (cs : List ResolvedRoute)
      → ((c : ResolvedRoute) → p c ≡ q c)
      → filter p cs ≡ filter q cs
  filter-same p q [] h = refl
  filter-same p q (c ∷ cs) h = rw (h c, filter-same p q cs h) refl

  sticky_lem : (c : ResolvedRoute) → eqb (band_of stick_to cooldown now c) 0 ≡ is_sticky c
  unfolding band_of
  sticky_lem c = ground arith

  available_lem :
      (c : ResolvedRoute)
      → eqb (band_of stick_to cooldown now c) 1 ≡ (not (is_sticky c) && not (is_cooling_hop c))
  unfolding band_of
  available_lem c = ground arith

  cooling_lem :
      (c : ResolvedRoute)
      → eqb (band_of stick_to cooldown now c) 2 ≡ (not (is_sticky c) && is_cooling_hop c)
  unfolding band_of
  cooling_lem c = ground arith

  in_band_order :
      (cs : List ResolvedRoute)
      → order_candidates cs stick_to cooldown now ≡ in_band 0 cs ++ (in_band 1 cs ++ in_band 2 cs)
  unfolding order_candidates
  in_band_order cs =
      let bs = banded_from stick_to cooldown now 0 cs in
      ap (map (λ b. b.route)) (sort-bands 0 cs)
      ∙ map-append-route (banded_in 0 bs) (banded_in 1 bs ++ banded_in 2 bs)
      ∙ rw
          (
            map-append-route (banded_in 1 bs) (banded_in 2 bs),
            route-banded_in 0 0 cs,
            route-banded_in 1 0 cs,
            route-banded_in 2 0 cs,
          )
          refl

  -- The try order is the candidate of the hop on which the conversation stands, if any, also while that is cooling; then the other candidates that are not cooling; then those that are, each in the order of the chain. No candidate is dropped or repeated.
  pub order-bands :
      (cs : List ResolvedRoute)
      → order_candidates cs stick_to cooldown now
        ≡ filter is_sticky cs
          ++ (filter (λ c. not (is_sticky c) && not (is_cooling_hop c)) cs
              ++ filter (λ c. not (is_sticky c) && is_cooling_hop c) cs)
  unfolding in_band
  order-bands cs =
      in_band_order cs
      ∙ rw
          (
            filter-same (λ c. eqb (band_of stick_to cooldown now c) 0) is_sticky cs sticky_lem,
            filter-same (λ c. eqb (band_of stick_to cooldown now c) 1)
                (λ c. not (is_sticky c) && not (is_cooling_hop c)) cs available_lem,
            filter-same (λ c. eqb (band_of stick_to cooldown now c) 2)
                (λ c. not (is_sticky c) && is_cooling_hop c) cs cooling_lem,
          )
          refl
