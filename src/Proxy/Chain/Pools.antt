-- ===== src/Proxy/Chain/Pools.antt =====
-- `collapseOauthGroups` keeps the best row of each account pool, and every other candidate.
use mathlib.Core.List.{append-nil}
use aikey_proxy.Prelude.{
  ℕ, String, Bool, true, false, Option, List, [], ◌∷◌, ◌++◌, ◌==◌, ◌≡◌, refl, ap, ◌∙◌, sym, inl,
  inr, eq_iff, arith, if◌then◌else◌, Bool-cases, subst,
}
use aikey_proxy.Prelude.Sort.{filter}
use aikey_proxy.Proxy.Chain.{
  ResolvedRoute, better, put_pool, put, collapse_on, collapse_oauth_groups,
}
use text.Mathlib.TextPositions.{eq_refl}

abbrev pub pool_rows : String → List ResolvedRoute → List ResolvedRoute
pool_rows g = filter (λ r. r.oauth_group_id == g)

filter-append :
    {A : Type 0} (p : A → Bool) (xs ys : List A) → filter p (xs ++ ys) ≡ filter p xs ++ filter p ys
filter-append p [] ys = refl
filter-append p (x ∷ xs) ys = elim (Bool-cases (p x)) [
  | inl e ↦ rw (e) (ap (λ zs. x ∷ zs) (filter-append p xs ys))
  | inr e ↦ rw (e) (filter-append p xs ys)
]

module _ (raw_messages : String → Option ℕ) where
  -- The first row of the highest rank.
  pub best_from : ResolvedRoute → List ResolvedRoute → ResolvedRoute
  unfolding better
  best_from at [] = at
  best_from at (c ∷ cs) = best_from (better raw_messages at c) cs

  pub best_row : List ResolvedRoute → List ResolvedRoute
  unfolding best_from
  best_row [] = []
  best_row (c ∷ cs) = best_from c cs ∷ []

  -- What a pool's row becomes when another row of the pool comes.
  met : List ResolvedRoute → List ResolvedRoute → List ResolvedRoute
  unfolding best_row best_from
  met [] cs = best_row cs
  met (r ∷ rs) cs = best_from r cs ∷ rs

  offer : ResolvedRoute → List ResolvedRoute → List ResolvedRoute
  unfolding better
  offer c [] = c ∷ []
  offer c (r ∷ rs) = better raw_messages r c ∷ rs

  better-group :
      (r c : ResolvedRoute) (g : String)
      → r.oauth_group_id ≡ g
      → c.oauth_group_id ≡ g
      → (better raw_messages r c).oauth_group_id ≡ g
  unfolding better
  better-group r c g h k = ground arith

  better-here :
      (c r : ResolvedRoute)
      → (r.oauth_group_id == c.oauth_group_id) ≡ true
      → ((better raw_messages r c).oauth_group_id == c.oauth_group_id) ≡ true
  better-here c r e = (eq_iff _ _).1 (better-group r c c.oauth_group_id ((eq_iff _ _).0 e) refl)

  better-other :
      (r c : ResolvedRoute) (g : String)
      → (r.oauth_group_id == c.oauth_group_id) ≡ true
      → (c.oauth_group_id == g) ≡ false
      → ((better raw_messages r c).oauth_group_id == g) ≡ false
  better-other r c g e h =
      rw (better-group r c c.oauth_group_id ((eq_iff r.oauth_group_id c.oauth_group_id).0 e) refl) h

  met-nil : (rows : List ResolvedRoute) → met rows [] ≡ rows
  unfolding met best_row best_from
  met-nil [] = refl
  met-nil (r ∷ rs) = refl

  met-offer :
      (c : ResolvedRoute) (rows cs : List ResolvedRoute) → met (offer c rows) cs ≡ met rows (c ∷ cs)
  unfolding met offer best_row best_from
  met-offer c [] cs = refl
  met-offer c (r ∷ rs) cs = refl

  unnamed_lem : (a g : String) → a ≡ g → (g == "") ≡ false → (a == "") ≡ false
  unnamed_lem a g p h = rw p h

  -- A row of the pool g offers itself to the pool's rows, a row of another pool leaves them.
  pool-put_pool :
      (c : ResolvedRoute) (out : List ResolvedRoute)
      → pool_rows c.oauth_group_id (put_pool raw_messages c out)
        ≡ offer c (pool_rows c.oauth_group_id out)
  unfolding put_pool offer
  pool-put_pool c [] = rw (eq_refl c.oauth_group_id) refl
  pool-put_pool c (r ∷ out) = elim (Bool-cases (r.oauth_group_id == c.oauth_group_id)) [
    | inl e ↦ rw (e, better-here c r e) refl
    | inr e ↦ rw (e, e) (pool-put_pool c out)
  ]

  other-put_pool :
      (c : ResolvedRoute) (g : String) (out : List ResolvedRoute)
      → (c.oauth_group_id == g) ≡ false
      → pool_rows g (put_pool raw_messages c out) ≡ pool_rows g out
  unfolding put_pool
  other-put_pool c g [] h = rw h refl
  other-put_pool c g (r ∷ out) h = elim (Bool-cases (r.oauth_group_id == c.oauth_group_id)) [
    | inl e ↦ rw (e, better-other r c g e h, (eq_iff r.oauth_group_id c.oauth_group_id).0 e, h) refl
    | inr e ↦
        rw (e)
          (ap (λ rest. if r.oauth_group_id == g then r ∷ rest else rest) (other-put_pool c g out h))
  ]

  pool-put :
      (c : ResolvedRoute) (g : String) (out : List ResolvedRoute)
      → (g == "") ≡ false
      → pool_rows g (put raw_messages c out)
        ≡ (if c.oauth_group_id == g then offer c (pool_rows g out) else pool_rows g out)
  unfolding put
  pool-put c g out h = elim (Bool-cases (c.oauth_group_id == g)) [
    | inl k ↦
        let p = (eq_iff c.oauth_group_id g).0 k in
        rw (k, unnamed_lem c.oauth_group_id g p h)
          (subst (λ x. pool_rows x (put_pool raw_messages c out) ≡ offer c (pool_rows x out)) p
            (pool-put_pool c out))
    | inr k ↦ elim (Bool-cases (c.oauth_group_id == "")) [
      | inl e ↦
          rw (k, e, filter-append (λ r. r.oauth_group_id == g) out (c ∷ []), k)
            (append-nil (pool_rows g out))
      | inr e ↦ rw (k, e) (other-put_pool c g out k)
    ]
  ]

  pool-collapse_on :
      (cs out : List ResolvedRoute) (g : String)
      → (g == "") ≡ false
      → pool_rows g (collapse_on raw_messages cs out) ≡ met (pool_rows g out) (pool_rows g cs)
  unfolding collapse_on
  pool-collapse_on [] out g h = sym (met-nil (pool_rows g out))
  pool-collapse_on (c ∷ cs) out g h =
      pool-collapse_on cs (put raw_messages c out) g h
      ∙ rw (pool-put c g out h) (elim (Bool-cases (c.oauth_group_id == g)) [
        | inl k ↦ rw k (met-offer c (pool_rows g out) (pool_rows g cs))
        | inr k ↦ rw k refl
      ])

  -- Of the rows of an account pool, the collapse keeps one, the first among those of the highest rank, and none if there was none.
  pub pool-collapse_oauth_groups :
      (cs : List ResolvedRoute) (g : String)
      → (g == "") ≡ false
      → pool_rows g (collapse_oauth_groups raw_messages cs) ≡ best_row (pool_rows g cs)
  unfolding collapse_oauth_groups best_row met
  pool-collapse_oauth_groups cs g h = pool-collapse_on cs [] g h
