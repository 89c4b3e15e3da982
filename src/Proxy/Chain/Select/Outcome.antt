-- ===== src/Proxy/Chain/Select/Outcome.antt =====
-- What `chainFrom` selects: an ordered chain, or the one hop that a pin asks for.
use aikey_proxy.Prelude.{
  ℕ, String, Bool, false, Option, none, some, List, [], ◌∷◌, eqb, ◌≡◌, ap, subst, sym, ◌∙◌, inl,
  inr, Option-cases, ok,
}
use aikey_proxy.Prelude.Results.{ok-injective, err-ne-ok}
use aikey_proxy.Prelude.Sort.{sort_stable, filter, below, IsSorted, sort-IsSorted, sort_at_key}
use aikey_proxy.Proxy.Chain.{
  ResolvedRoute, CandidateChain, priority_key, duplicate_priority, collapse_oauth_groups,
}
use aikey_proxy.Proxy.Chain.Clash.{IsUnambiguous, duplicate_none}
use aikey_proxy.Proxy.Chain.Select.{
  ordered_chain, after_duplicate, after_filter, whole_chain, chain_from, for_protocol, pinned_chain,
  after_pin,
}

-- The candidates at one place of the order.
abbrev pub at_priority : ℕ → List ResolvedRoute → List ResolvedRoute
at_priority k = filter (λ r. eqb (priority_key r) k)

-- A chain that orders the given candidates: by priority, those of one priority as they came.
abbrev pub Orders : List ResolvedRoute → CandidateChain → Type 0
Orders cs chain =
    IsSorted priority_key chain.candidates
    × ((k : ℕ) → at_priority k chain.candidates ≡ at_priority k cs)
    × IsUnambiguous cs
    × (chain.pinned ≡ false)

module _ (raw_messages : String → Option ℕ) (equal_fold : String → String → Bool) where
  ordered-candidates :
      (cs : List ResolvedRoute) (chain : CandidateChain)
      → ordered_chain cs ≡ ok chain
      → (chain.candidates ≡ cs) × (chain.pinned ≡ false)
  unfolding ordered_chain
  ordered-candidates [] chain h = cc
  ordered-candidates (r ∷ rs) chain h =
      let p = ok-injective h in (ap (λ c. c.candidates) (sym p), ap (λ c. c.pinned) (sym p))

  after_duplicate-Orders :
      (cs : List ResolvedRoute) (chain : CandidateChain)
      → after_duplicate raw_messages equal_fold (duplicate_priority cs) cs ≡ ok chain
      → Orders cs chain
  unfolding after_duplicate
  after_duplicate-Orders cs chain h = elim (Option-cases (duplicate_priority cs)) [
    | inl e ↦
        let found =
          ordered-candidates (sort_stable (below priority_key) cs) chain
            (sym (ap (λ o. after_duplicate raw_messages equal_fold o cs) e) ∙ h) in
        (
          subst (λ c. IsSorted priority_key c) (sym (found.0)) (sort-IsSorted priority_key cs),
          (λ k. ap (at_priority k) (found.0) ∙ sort_at_key priority_key k cs),
          duplicate_none cs e,
          found.1,
        )
    | inr (p, e) ↦
        absurd (err-ne-ok (sym (ap (λ o. after_duplicate raw_messages equal_fold o cs) e) ∙ h))
  ]

  pub after_filter-Orders :
      (requested : String) (cs : List ResolvedRoute) (chain : CandidateChain)
      → after_filter raw_messages equal_fold requested cs ≡ ok chain
      → Orders (collapse_oauth_groups raw_messages cs) chain
  unfolding after_filter
  after_filter-Orders requested [] chain h = absurd (err-ne-ok h)
  after_filter-Orders requested (c ∷ cs) chain h =
      after_duplicate-Orders (collapse_oauth_groups raw_messages (c ∷ cs)) chain h

  -- A request without a pin over a list of bindings, if it gets a chain, gets the candidates of its protocol, with each account pool collapsed to one hop: in the order of their signed priorities, those of one priority in the order they came, and no two members of one route group share a priority.
  pub chain-Orders :
      (route b : ResolvedRoute) (bs : List ResolvedRoute) (requested : String)
      (chain : CandidateChain)
      → chain_from raw_messages equal_fold (some route) (b ∷ bs) none requested ≡ ok chain
      → Orders
          (collapse_oauth_groups raw_messages
            (for_protocol raw_messages equal_fold requested (b ∷ bs)))
          chain
  unfolding chain_from pinned_chain after_pin whole_chain
  chain-Orders route b bs requested chain h =
      after_filter-Orders requested (for_protocol raw_messages equal_fold requested (b ∷ bs)) chain
        h
