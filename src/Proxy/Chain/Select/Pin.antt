-- ===== src/Proxy/Chain/Select/Pin.antt =====
-- What a pinned chain is.

use aikey_proxy.Prelude.{Bool, List, Option, String, [], false, none, some, true, ℕ, ◌∷◌, ◌≡◌, ◌⊎◌}
use aikey_proxy.Prelude.Lists.{Any}
use aikey_proxy.Proxy.Chain.{
  CandidateChain, PinScope, ProviderBinding, ResolvedRoute, can_failover, derive_pin_scope, legacy,
  member,
}
use aikey_proxy.Proxy.Chain.Select.{pin_applies}

module _ (raw_messages : String → Option ℕ) (equal_fold : String → String → Bool) where
  -- The candidate is one of the bindings, and the pin names its provider and its protocol, if it names one.
  abbrev pub Named : ProviderBinding → ResolvedRoute → List ResolvedRoute → Type 0
  Named pin hop bindings =
      Any (λ c. hop ≡ c) bindings
      × (equal_fold hop.provider_code pin.provider_code ≡ true)
      × ((pin.protocol_type ≡ "") ⊎ (equal_fold hop.protocol_type pin.protocol_type ≡ true))

  -- One hop that the pin names: of any group for a pin with a group, of none for one without.
  abbrev pub Restricted :
      Option ProviderBinding → ResolvedRoute → List ResolvedRoute → CandidateChain → Type 0
  Restricted none route bindings chain = ⊥
  Restricted (some pin) route bindings chain =
      (pin_applies pin route ≡ true)
      × (can_failover chain ≡ false)
      × ((hop : ResolvedRoute) × (chain.candidates ≡ hop ∷ [])
          × Named pin hop bindings
          × ((derive_pin_scope pin.route_group_id pin.provider_code ≡ member)
              ⊎ ((derive_pin_scope pin.route_group_id pin.provider_code ≡ legacy)
                  × (hop.route_group_id ≡ ""))))

  -- The hop that a scope gives.
  abbrev Scoped : PinScope → ProviderBinding → List ResolvedRoute → CandidateChain → Type 0
  Scoped k pin bindings chain =
      (can_failover chain ≡ false)
      × ((hop : ResolvedRoute) × (chain.candidates ≡ hop ∷ [])
          × Named pin hop bindings
          × ((k ≡ member) ⊎ ((k ≡ legacy) × (hop.route_group_id ≡ ""))))
