-- ===== src/Proxy/Chain/Select/Total.antt =====
-- `chainFrom` never takes the head of an empty list.
use aikey_proxy.Prelude.{
  ℕ, String, Bool, Option, none, some, List, [], ◌∷◌, ◌==◌, ◌≢◌, inl, inr, Bool-cases, Result, err,
}
use aikey_proxy.Prelude.Sort.{sort_stable, insert_sorted, below}
use aikey_proxy.Proxy.Chain.{
  ResolvedRoute, ProviderBinding, CandidateChain, ChainError, out_of_range, priority_key, put,
  put_pool, collapse_on, collapse_oauth_groups,
}
use aikey_proxy.Proxy.Chain.Select.{
  ordered_chain, after_duplicate, after_filter, whole_chain, chain_from, for_protocol, pinned_chain,
  after_pin,
}

abbrev HasHead : List ResolvedRoute → Type 0
HasHead [] = ⊥
HasHead (r ∷ rs) = Unit

HasHead-insert :
    (r : ResolvedRoute) (rs : List ResolvedRoute)
    → HasHead (insert_sorted (below priority_key) r rs)
unfolding insert_sorted
HasHead-insert r [] = tt
HasHead-insert r (s ∷ ss) = elim (Bool-cases (below priority_key s r)) [
  | inl e ↦ rw e tt
  | inr e ↦ rw e tt
]

HasHead-sort :
    (rs : List ResolvedRoute) → HasHead rs → HasHead (sort_stable (below priority_key) rs)
unfolding sort_stable
HasHead-sort [] h = elim h [ ]
HasHead-sort (r ∷ rs) h = HasHead-insert r (sort_stable (below priority_key) rs)

-- The panic of an empty list.
abbrev pub IsSafe : Result ChainError CandidateChain → Type 0
IsSafe r = r ≢ err out_of_range

ordered-IsSafe : (rs : List ResolvedRoute) → HasHead rs → IsSafe (ordered_chain rs)
unfolding ordered_chain
ordered-IsSafe [] h = elim h [ ]
ordered-IsSafe (r ∷ rs) h = λ e. cc

module _ (raw_messages : String → Option ℕ) (equal_fold : String → String → Bool) where
  HasHead-put : (c : ResolvedRoute) (out : List ResolvedRoute) → HasHead (put raw_messages c out)
  unfolding put put_pool
  HasHead-put c [] = elim (Bool-cases (c.oauth_group_id == "")) [
    | inl e ↦ rw e tt
    | inr e ↦ rw e tt
  ]
  HasHead-put c (r ∷ out) = elim (Bool-cases (c.oauth_group_id == "")) [
    | inl e ↦ rw e tt
    | inr e ↦ elim (Bool-cases (r.oauth_group_id == c.oauth_group_id)) [
      | inl k ↦ rw (e, k) tt
      | inr k ↦ rw (e, k) tt
    ]
  ]

  HasHead-collapse_on :
      (cs out : List ResolvedRoute) → HasHead out → HasHead (collapse_on raw_messages cs out)
  unfolding collapse_on
  HasHead-collapse_on [] out h = h
  HasHead-collapse_on (c ∷ cs) out h =
      HasHead-collapse_on cs (put raw_messages c out) (HasHead-put c out)

  after_duplicate-IsSafe :
      (o : Option ℕ) (cs : List ResolvedRoute)
      → HasHead cs
      → IsSafe (after_duplicate raw_messages equal_fold o cs)
  unfolding after_duplicate
  after_duplicate-IsSafe none cs h = ordered-IsSafe _ (HasHead-sort cs h)
  after_duplicate-IsSafe (some dup) cs h = λ e. cc

  after_filter-IsSafe :
      (requested : String) (cs : List ResolvedRoute)
      → IsSafe (after_filter raw_messages equal_fold requested cs)
  unfolding after_filter collapse_oauth_groups collapse_on
  after_filter-IsSafe requested [] = λ e. cc
  after_filter-IsSafe requested (c ∷ cs) =
      after_duplicate-IsSafe _ _ (HasHead-collapse_on cs (put raw_messages c []) (HasHead-put c []))

  after_pin-IsSafe :
      (o : Option CandidateChain) (requested : String) (bs : List ResolvedRoute)
      → IsSafe (after_pin raw_messages equal_fold o requested bs)
  unfolding after_pin whole_chain
  after_pin-IsSafe none requested bs =
      after_filter-IsSafe requested (for_protocol raw_messages equal_fold requested bs)
  after_pin-IsSafe (some chain) requested bs = λ e. cc

  -- Whatever the route, its bindings, the pin and the protocol, the selection of a chain never reads the first entry of an empty list of candidates, which would stop the request's goroutine with a panic.
  pub chain_from-IsSafe :
      (route : Option ResolvedRoute) (bs : List ResolvedRoute) (pin : Option ProviderBinding)
      (requested : String)
      → IsSafe (chain_from raw_messages equal_fold route bs pin requested)
  unfolding chain_from
  chain_from-IsSafe none bs pin requested = λ e. cc
  chain_from-IsSafe (some route) [] pin requested = λ e. cc
  chain_from-IsSafe (some route) (b ∷ bs) pin requested =
      after_pin-IsSafe (pinned_chain raw_messages equal_fold route pin (b ∷ bs)) requested (b ∷ bs)
