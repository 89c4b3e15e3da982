-- ===== src/Proxy/Chain.antt =====
-- The try-list of a request: `candidateChain` and its helpers of internal/proxy/candidate_chain.go,
-- and `PinScope` of internal/proxy/pin_scope.go.
--
-- A `ResolvedRoute` has the fields that selection reads; its `Bindings` are handed over beside it.
-- `Priority` is the bit pattern of the int64. `raw_messages` counts the entries of
-- the array that json.Unmarshal makes of `GroupAccounts`, if it makes one, and `equal_fold` is
-- strings.EqualFold. The logger and the pointers' identity are left out.
pub mod Select
pub mod Pools
pub mod Clash
pub mod Order
pub mod Activity
pub mod Serve
mod Examples
use Prim.Native.String.{◌++◌ as text_append}
use aikey_proxy.Prelude.{
  ◌++◌, ℕ, ◌+◌, ◌<◌, String, Bool, true, false, Option, none, some, List, [], ◌∷◌, ◌==◌, ◌&&◌, ◌||◌,
  not, ltb, eqb, if◌then◌else◌,
}
use aikey_proxy.Prelude.Words.{slt64, add64, sign_bound}
use aikey_proxy.Prelude.Lists.{length}

pub record ResolvedRoute : Type 0 where
  pub provider_code : String
  pub credential_id : String
  pub binding_id : String
  pub virtual_key_id : String
  pub protocol_type : String
  pub priority : ℕ
  pub route_group_id : String
  pub route_group_name : String
  pub oauth_group_id : String
  pub group_accounts : String

pub record ProviderBinding : Type 0 where
  pub provider_code : String
  pub protocol_type : String
  pub key_source_type : String
  pub key_source_ref : String
  pub route_group_id : String

pub record CandidateChain : Type 0 where
  pub candidates : List ResolvedRoute
  pub pinned : Bool
  pub grouped : Bool
  pub group_id : String
  pub group_name : String

-- `out_of_range` stands for the panic of `ordered[0]` on an empty list.
pub data ChainError : Type 0 where
  no_route out_of_range : ChainError
  no_binding : String → ChainError
  ambiguous : String → ℕ → ChainError

pub data PinScope : Type 0 where
  legacy group member : PinScope

unfoldable pub derive_pin_scope : String → String → PinScope
derive_pin_scope route_group_id binding_provider_code =
    if route_group_id == "" then legacy else if binding_provider_code == "" then group else member

unfoldable pub can_failover : CandidateChain → Bool
can_failover c = not c.pinned && c.grouped && ltb 1 (length c.candidates)

pub exhausted_code : CandidateChain → String
exhausted_code c =
    if c.grouped && eqb (length c.candidates) 1
    then "UPSTREAM_FALLBACK_UNCONFIGURED"
    else "UPSTREAM_FALLBACK_EXHAUSTED"

unfoldable pub hop_key : ResolvedRoute → String
hop_key r =
    if not (r.binding_id == "")
    then r.binding_id
    else if r.credential_id == "" && r.virtual_key_id == ""
    then ""
    else text_append r.virtual_key_id (text_append "|" r.credential_id)

-- Whether two candidates are members of one route group at one priority.
abbrev pub clashes : ResolvedRoute → ResolvedRoute → Bool
clashes a b =
    not (a.route_group_id == "")
    && (a.route_group_id == b.route_group_id && eqb a.priority b.priority)

-- `seen` tells which pairs of a group and a priority came before.
abbrev Seen : Type 0
Seen = String → ℕ → Bool

mark_seen : ResolvedRoute → Seen → Seen
mark_seen c seen g p = c.route_group_id == g && eqb c.priority p || seen g p

duplicate_from : List ResolvedRoute → Seen → Option ℕ
unfolding mark_seen
duplicate_from [] seen = none
duplicate_from (c ∷ cs) seen =
    let rest = duplicate_from cs (if c.route_group_id == "" then seen else mark_seen c seen) in
    if c.route_group_id == ""
    then rest
    else if seen c.route_group_id c.priority
    then some c.priority
    else rest

pub duplicate_priority : List ResolvedRoute → Option ℕ
unfolding duplicate_from
duplicate_priority cs = if ltb (length cs) 2 then none else duplicate_from cs (λ g p. false)

pub group_id_at_priority : List ResolvedRoute → ℕ → String
group_id_at_priority [] priority = ""
group_id_at_priority (c ∷ cs) priority =
    let rest = group_id_at_priority cs priority in
    if not (c.route_group_id == "") && eqb c.priority priority then c.route_group_id else rest

-- The order of the signed priorities, as one of numbers.
abbrev pub priority_key : ResolvedRoute → ℕ
priority_key r = add64 r.priority sign_bound

has_accounts : Option ℕ → ℕ
has_accounts none = 0
has_accounts (some n) = if ltb 0 n then 1 else 0

module _ (raw_messages : String → Option ℕ) where
  pub pool_candidate_rank : ResolvedRoute → ℕ
  unfolding has_accounts
  pool_candidate_rank r =
      (if r.provider_code == "" then 0 else 1) + has_accounts (raw_messages r.group_accounts)

  pub better : ResolvedRoute → ResolvedRoute → ResolvedRoute
  better at c = if ltb (pool_candidate_rank at) (pool_candidate_rank c) then c else at

  -- `best` holds the place of a pool's row in `out`: here the row is found by its pool.
  put_pool : ResolvedRoute → List ResolvedRoute → List ResolvedRoute
  put_pool c [] = c ∷ []
  put_pool c (r ∷ out) =
      let rest = put_pool c out in
      if r.oauth_group_id == c.oauth_group_id then better r c ∷ out else r ∷ rest

  put : ResolvedRoute → List ResolvedRoute → List ResolvedRoute
  unfolding put_pool
  put c out = if c.oauth_group_id == "" then out ++ c ∷ [] else put_pool c out

  collapse_on : List ResolvedRoute → List ResolvedRoute → List ResolvedRoute
  unfolding put
  collapse_on [] out = out
  collapse_on (c ∷ cs) out = collapse_on cs (put c out)

  pub collapse_oauth_groups : List ResolvedRoute → List ResolvedRoute
  unfolding collapse_on
  collapse_oauth_groups cs = collapse_on cs []
