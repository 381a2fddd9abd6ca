-- ===== src/Tests/Memory.antt =====
-- Memory with a scope that is out of reach.
use agent_roles.Common.{String, ◌≡◌, refl, inl, some, [], ◌∷◌, ok}
use agent_roles.Value.{ℤ, Value, Fields, end}
use agent_roles.Tools.Static.{StaticPolicyEngine, static_engine}
use agent_roles.Memory.Policy.{MemoryProvider, scope_of, retrieve, write, summarize}
use agent_roles.Memory.Policy.Barring.{Refuses, barred_scope_refused}
use agent_roles.Tests.Data.{services}
use agent_roles.Tests.Tools.{context, strict}

-- Memory that forgets everything.
abbrev forgetful : MemoryProvider String
forgetful = record {
  retrieve = λ query scope top_k c w. (ok [], w);
  write = λ item c w. (ok "memory", w);
  summarize = λ scope c w. (ok end, w);
}

abbrev repr : Value → String
repr v = "<object>"

abbrev secretive : StaticPolicyEngine
secretive = record strict { deny_side_effect_targets = "secrets" ∷ [] }

barred_scope_refused_example :
    ((query : String) (top_k : ℤ)
      → Refuses (
          retrieve forgetful repr services
            (some (static_engine secretive services))
            query
            "secrets"
            top_k
            (some context)))
    × Refuses (
        summarize forgetful repr services
          (some (static_engine secretive services))
          "secrets"
          (some context))
    × ((item : Fields)
        → scope_of repr item ≡ "secrets"
        → Refuses (
            write forgetful repr services
              (some (static_engine secretive services))
              item
              (some context)))
barred_scope_refused_example =
    barred_scope_refused forgetful repr secretive services context "secrets" (inl refl)
