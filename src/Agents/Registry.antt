-- ===== src/Agents/Registry.antt =====
-- `InMemoryAgentRegistry` (src/core/agents/registry.py).
use agent_roles.Common.{
  String, Bool, true, false, ◌&&◌, Option, none, some, List, [], ◌∷◌, ◌++◌, Result, ok, err,
  value_error, type_error, ◌>>=◌, ◌>>◌, raise_if, elem, all_of, any_of, not, text_lt, ◌=ₛ◌,
  if◌then◌else◌,
}
use agent_roles.Common.Dict.{Dict, get, put, keys, contains}
use agent_roles.Scheduler.{sorted}
use agent_roles.Versions.{VersionKey, version_key, numbers_lt, latest_version}
use agent_roles.Agents.Models.{AgentStatus, AgentDescriptor, AgentQuery, split_agent_ref}

abbrev pub AgentRegistry : Type 0
AgentRegistry = Dict (Dict AgentDescriptor)

abbrev pub versions_of : AgentRegistry → String → Dict AgentDescriptor
versions_of r agent_id = elim (get r agent_id) [ none ↦ [] | some versions ↦ versions ]

-- `register`
unfoldable pub register : AgentDescriptor → AgentRegistry → Result AgentRegistry
register d r = do
  raise_if (contains (versions_of r d.agent_id) d.agent_version) value_error
  ok (put r d.agent_id (put (versions_of r d.agent_id) d.agent_version d))

-- `get_default`
unfoldable pub get_default : AgentRegistry → String → Result (Option AgentDescriptor)
get_default r agent_id = latest_version (versions_of r agent_id)

-- `get`
unfoldable pub get_agent : AgentRegistry → String → Option String → Result (Option AgentDescriptor)
get_agent r agent_id (some version) = ok (get (versions_of r agent_id) version)
get_agent r agent_id none = get_default r agent_id

-- `resolve`
unfoldable pub resolve : AgentRegistry → String → Result (Option AgentDescriptor)
resolve r agent_ref = do parts ← split_agent_ref agent_ref; get_agent r parts.0 parts.1

abbrev status_eq : AgentStatus → AgentStatus → Bool
status_eq AgentStatus.active AgentStatus.active = true
status_eq AgentStatus.deprecated AgentStatus.deprecated = true
status_eq AgentStatus.disabled AgentStatus.disabled = true
status_eq _ _ = false

abbrev given : {A : Type 0} → Option A → (A → Bool) → Bool
given none test = true
given (some a) test = test a

abbrev same_domain : Option String → String → Bool
same_domain none q = false
same_domain (some d) q = d =ₛ q

-- The tests of the loop of `list`.
unfoldable pub fits_query : AgentQuery → AgentDescriptor → Bool
fits_query q d =
    given q.domain (same_domain d.domain)
    && (given q.role (λ role. d.role =ₛ role)
        && (given q.status (status_eq d.status)
            && (given q.tool_ref (λ ref. elem ref d.tool_refs)
                && (given q.memory_scope (λ scope. elem scope d.memory_scopes)
                    && (all_of (λ t. elem t d.tags) q.tags
                        && all_of (λ c. elem c d.capabilities) q.capabilities)))))

abbrev is_word : VersionKey → Bool
is_word (VersionKey.word s) = true
is_word (VersionKey.numbers ns) = false

-- `<` of two keys of one kind.
abbrev alike_lt : VersionKey → VersionKey → Bool
alike_lt (VersionKey.numbers ms) (VersionKey.numbers ns) = numbers_lt ms ns
alike_lt (VersionKey.word s) (VersionKey.word t) = text_lt s t
alike_lt _ _ = false

-- `sorted(versions, key=_version_sort_key)`: keys of both kinds cannot be sorted without comparing
-- two of different kinds, which raises.
unfoldable pub sorted_versions : List String → Result (List String)
sorted_versions versions =
    if any_of (λ v. is_word (version_key v)) versions
      && any_of (λ v. not (is_word (version_key v))) versions
    then err type_error
    else ok (sorted (λ v u. alike_lt (version_key v) (version_key u)) versions)

-- The inner loop of `list`.
unfoldable pub listed_versions :
    AgentQuery → Dict AgentDescriptor → List String → List AgentDescriptor
listed_versions q versions [] = []
listed_versions q versions (v ∷ vs) =
    let rest = listed_versions q versions vs in
    elim (get versions v) [ none ↦ rest | some d ↦ if fits_query q d then d ∷ rest else rest ]

-- The outer loop of `list`.
unfoldable pub listed_agents :
    AgentQuery → AgentRegistry → List String → Result (List AgentDescriptor)
listed_agents q r [] = ok []
listed_agents q r (id ∷ ids) = do
  order ← sorted_versions (keys (versions_of r id))
  rest ← listed_agents q r ids
  ok (listed_versions q (versions_of r id) order ++ rest)

-- `list`
unfoldable pub list_agents : AgentQuery → AgentRegistry → Result (List AgentDescriptor)
list_agents q r = listed_agents q r (sorted text_lt (keys r))
