-- ===== src/Proxy/Chain/Select.antt =====
-- `chainFrom` of internal/proxy/candidate_chain.go.
pub mod Outcome
pub mod Pin
pub mod Total
use aikey_proxy.Prelude.{
  ℕ, String, Bool, true, false, Option, none, some, List, [], ◌∷◌, ◌==◌, ◌&&◌, ◌||◌, not,
  if◌then◌else◌, Result, ok, err,
}
use aikey_proxy.Prelude.Sort.{sort_stable, filter, below}
use aikey_proxy.Proxy.Chain.{
  ResolvedRoute, ProviderBinding, CandidateChain, ChainError, no_route, out_of_range, no_binding,
  ambiguous, PinScope, legacy, group, member, derive_pin_scope, duplicate_priority,
  group_id_at_priority, priority_key, collapse_oauth_groups,
}

-- A chain of one hop, for a route without bindings.
pub single : ResolvedRoute → CandidateChain
single route = record {
  candidates = route ∷ [];
  pinned = false;
  grouped = not (route.route_group_id == "");
  group_id = route.route_group_id;
  group_name = route.route_group_name;
}

unfoldable pub pinned_hop : ResolvedRoute → CandidateChain
pinned_hop candidate = record {
  candidates = candidate ∷ [];
  pinned = true;
  grouped = not (candidate.route_group_id == "");
  group_id = candidate.route_group_id;
  group_name = candidate.route_group_name;
}

pub legacy_hop : ResolvedRoute → CandidateChain
legacy_hop candidate = record {
  candidates = candidate ∷ [];
  pinned = true;
  grouped = false;
  group_id = "";
  group_name = "";
}

unfoldable pub ordered_chain : List ResolvedRoute → Result ChainError CandidateChain
ordered_chain [] = err out_of_range
ordered_chain (r ∷ rs) = ok (record {
  candidates = r ∷ rs;
  pinned = false;
  grouped = not (r.route_group_id == "");
  group_id = r.route_group_id;
  group_name = r.route_group_name;
})

unfoldable pub pin_applies : ProviderBinding → ResolvedRoute → Bool
pin_applies pin route =
    (pin.key_source_type == "team" || pin.key_source_type == "managed_virtual_key")
    && pin.key_source_ref == route.virtual_key_id

module _ (raw_messages : String → Option ℕ) (equal_fold : String → String → Bool) where
  unfoldable pub matches : ProviderBinding → ResolvedRoute → Bool
  matches binding candidate =
      equal_fold candidate.provider_code binding.provider_code
      && (binding.protocol_type == "" || equal_fold candidate.protocol_type binding.protocol_type)

  -- The first candidate that a binding names.
  unfoldable pub first_match : ProviderBinding → List ResolvedRoute → Option ResolvedRoute
  unfolding matches
  first_match binding [] = none
  first_match binding (c ∷ cs) =
      let rest = first_match binding cs in if matches binding c then some c else rest

  member_chain : Option ResolvedRoute → Option CandidateChain
  unfolding pinned_hop
  member_chain none = none
  member_chain (some candidate) = some (pinned_hop candidate)

  legacy_chain : Option ResolvedRoute → Option CandidateChain
  unfolding legacy_hop
  legacy_chain none = none
  legacy_chain (some candidate) =
      if candidate.route_group_id == "" then some (legacy_hop candidate) else none

  -- The chain of one hop that a pin asks for, by its scope.
  scoped_chain : PinScope → ProviderBinding → List ResolvedRoute → Option CandidateChain
  unfolding first_match member_chain legacy_chain
  scoped_chain member binding bindings = member_chain (first_match binding bindings)
  scoped_chain legacy binding bindings = legacy_chain (first_match binding bindings)
  scoped_chain group binding bindings = none

  unfoldable pub pinned_chain :
      ResolvedRoute → Option ProviderBinding → List ResolvedRoute → Option CandidateChain
  unfolding pin_applies scoped_chain derive_pin_scope
  pinned_chain route none bindings = none
  pinned_chain route (some pin) bindings =
      if pin_applies pin route
      then scoped_chain (derive_pin_scope pin.route_group_id pin.provider_code) pin bindings
      else none

  unfoldable pub for_protocol : String → List ResolvedRoute → List ResolvedRoute
  for_protocol requested = filter (λ c. requested == "" || equal_fold c.protocol_type requested)

  unfoldable pub after_duplicate : Option ℕ → List ResolvedRoute → Result ChainError CandidateChain
  unfolding ordered_chain group_id_at_priority
  after_duplicate none candidates = ordered_chain (sort_stable (below priority_key) candidates)
  after_duplicate (some dup) candidates = err (ambiguous (group_id_at_priority candidates dup) dup)

  unfoldable pub after_filter : String → List ResolvedRoute → Result ChainError CandidateChain
  unfolding after_duplicate duplicate_priority collapse_oauth_groups
  after_filter requested [] = err (no_binding requested)
  after_filter requested (c ∷ cs) =
      let candidates = collapse_oauth_groups raw_messages (c ∷ cs) in
      after_duplicate (duplicate_priority candidates) candidates

  unfoldable pub whole_chain : String → List ResolvedRoute → Result ChainError CandidateChain
  unfolding after_filter for_protocol
  whole_chain requested bindings = after_filter requested (for_protocol requested bindings)

  unfoldable pub after_pin :
      Option CandidateChain → String → List ResolvedRoute → Result ChainError CandidateChain
  unfolding whole_chain
  after_pin none requested bindings = whole_chain requested bindings
  after_pin (some chain) requested bindings = ok chain

  unfoldable pub chain_from :
      Option ResolvedRoute
      → List ResolvedRoute
      → Option ProviderBinding
      → String
      → Result ChainError CandidateChain
  unfolding single pinned_chain after_pin
  chain_from none bindings pin requested = err no_route
  chain_from (some route) [] pin requested = ok (single route)
  chain_from (some route) (b ∷ bs) pin requested =
      after_pin (pinned_chain route pin (b ∷ bs)) requested (b ∷ bs)
