-- ===== src/Versions/Latest.antt =====
-- Which version the registries of agents and of workflows return where none is asked for
-- (src/core/agents/registry.py, src/core/workflow/registry.py).
use agent_roles.Common.{
  String, ◌≡◌, refl, sym, ◌∙◌, true, Option, none, some, [], ◌∷◌, Result, ok, err, ◌>>=◌, arith,
  Option-cases, inl, inr,
}
use agent_roles.Common.Dict.{Dict, get, keys, contains, elem-keys}
use agent_roles.Versions.{version_key, version_key_lt, greatest, latest_version}
use agent_roles.Versions.Greatest.{NotBelow, IsGreatest, greatest-IsGreatest}
use agent_roles.Agents.Registry.{AgentRegistry, versions_of, get_default}
use agent_roles.Workflow.Registry.{WorkflowProvider, definitions_of, get_definition}

module _ {V : Type 0} where
  -- What is returned of some versions: nothing exactly if there are none; one of them that no other
  -- is above; or an error, where two of them have no order.
  abbrev pub IsLatest : Dict V → Result (Option V) → Type 0
  IsLatest versions (ok none) = versions ≡ []
  IsLatest versions (ok (some a)) =
      (v : String) × (get versions v ≡ some a)
      × ((u : String) → contains versions u ≡ true → NotBelow v u)
  IsLatest versions (err e) =
      (u : String) × (v : String) × (contains versions u ≡ true)
      × (contains versions v ≡ true)
      × (version_key_lt (version_key u) (version_key v) ≡ err e)

  picked :
      (versions : Dict V) (x : Result String)
      → IsGreatest (keys versions) x
      → IsLatest versions (x >>= λ m. ok (get versions m))
  picked versions (err e) (u, v, h, k, c) =
      (u, v, sym (elem-keys versions u) ∙ h, sym (elem-keys versions v) ∙ k, c)
  picked versions (ok m) (there, above) = elim (Option-cases (get versions m)) [
    | inl missing ↦ absurd (ground (arith, elem-keys versions m))
    | inr (a, found) ↦ rw found (m, found, λ u h. above u (elem-keys versions u ∙ h))
  ]

  latest_version-IsLatest : (versions : Dict V) → IsLatest versions (latest_version versions)
  unfolding latest_version
  latest_version-IsLatest [] = refl
  latest_version-IsLatest ((v, a) ∷ versions) =
      picked ((v, a) ∷ versions) (greatest v (keys versions))
        (greatest-IsGreatest v (keys versions))

-- Without a version asked for, each of the two registries returns one that is registered and that
-- no registered version is above, by their numbers or by their text. It returns none exactly if
-- there is no version, and raises only if two of the versions cannot be compared.
pub default_versions_unsurpassed :
    (r : AgentRegistry) (p : WorkflowProvider) (id : String)
    → IsLatest (versions_of r id) (get_default r id)
      × IsLatest (definitions_of p id) (get_definition p id none)
unfolding get_default get_definition
default_versions_unsurpassed r p id =
    (latest_version-IsLatest (versions_of r id), latest_version-IsLatest (definitions_of p id))
