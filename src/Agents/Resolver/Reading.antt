-- ===== src/Agents/Resolver/Reading.antt =====
-- What the runtime reads of the bindings of a run when it executes a node (`_read_agent_binding` of
-- src/core/runtime/runtime_service.py) is what the registry resolves the node to.
use agent_roles.Common.{
  String, ◌≡◌, refl, sym, ap, ◌∙◌, subst, true, Option, none, some, [], ◌∷◌, ok, key_error,
  value_error, ◌>>=◌, >>=-eq-ok, ok-injective, arith, ◌=ₛ◌, Bool-cases, inl, inr, require, or_raise,
}
use agent_roles.Common.Dict.{Dict, get, values, get-empty}
use agent_roles.Value.{Value, fget}
use agent_roles.State.Models.{ReducedSnapshot}
use agent_roles.Workflow.Models.{NodeSpec, WorkflowDefinition, CompiledWorkflow}
use agent_roles.Workflow.Compiler.{compile_definition}
use agent_roles.Agents.Bindings.{
  checked_bindings, ResolvedAgentBinding, ResolvedWorkflowBindings, binding_valid, checked_binding,
  to_map, bindings_map, to_extension_map, from_map-to_map,
}
use agent_roles.Agents.Registry.{AgentRegistry, resolve}
use agent_roles.Agents.Resolver.{
  is_agent_node, bound_to, bind_agent, resolve_node_binding, bind_nodes, resolve_bindings,
}
use agent_roles.Workflow.Compiler.Nodes.{compile_definition-IsKeyed}
use agent_roles.Agents.Resolver.Bound.{bind_nodes-found}
use agent_roles.Runtime.Nodes.{read_agent_binding, dict_in, read_payload, payload_at}

abbrev written : Option ResolvedAgentBinding → Option Value
written none = none
written (some b) = some (Value.dict (to_map b))

fget-bindings_map :
    (bs : Dict ResolvedAgentBinding) (k : String) → fget (bindings_map bs) k ≡ written (get bs k)
unfolding bindings_map fget get
fget-bindings_map [] k = refl
fget-bindings_map ((j, b) ∷ bs) k = elim (Bool-cases (j =ₛ k)) [
  | inl same ↦ rw same refl
  | inr other ↦ rw other (fget-bindings_map bs k)
]

abbrev IsSound : Option ResolvedAgentBinding → Type 0
IsSound none = Unit
IsSound (some b) = binding_valid b ≡ true

checked_binding-valid :
    (x b : ResolvedAgentBinding) → checked_binding x ≡ ok b → binding_valid b ≡ true
unfolding checked_binding
checked_binding-valid x b h = elim (Bool-cases (binding_valid x)) [
  | inl valid ↦
      subst (λ y. binding_valid y ≡ true) (ok-injective (let k : ok x ≡ ok b = rw valid at h in k))
        valid
  | inr refused ↦ absurd (ground arith)
]

read_payload-written :
    (o : Option ResolvedAgentBinding) → IsSound o → read_payload (dict_in (written o)) ≡ ok o
read_payload-written none v = refl
read_payload-written (some b) v = rw (read_payload, from_map-to_map b v) refl

module _ (r : AgentRegistry) where
  bind_agent-valid :
      (n : NodeSpec) (agent_ref : String) (b : ResolvedAgentBinding)
      → bind_agent r n agent_ref ≡ ok b
      → binding_valid b ≡ true
  unfolding bind_agent checked_binding
  bind_agent-valid n agent_ref b h =
      let (_, _, h₁) = >>=-eq-ok (require (is_agent_node n.node_type) value_error) _ h in
      let (found, _, h₂) = >>=-eq-ok (resolve r agent_ref) _ h₁ in
      let (d, _, h₃) = >>=-eq-ok (or_raise found key_error) _ h₂ in
      checked_binding-valid (bound_to n.node_id agent_ref d) b h₃

  resolve_node_binding-IsSound :
      (n : NodeSpec) (o : Option ResolvedAgentBinding) → resolve_node_binding r n ≡ ok o → IsSound o
  unfolding resolve_node_binding
  resolve_node_binding-IsSound n o h = by_ref n.agent_ref h
    where
      by_ref :
          (ref : Option String)
          → (elim ref [
            | none ↦ ok none
            | some agent_ref ↦ bind_agent r n agent_ref >>= λ b. ok (some b)
          ])
            ≡ ok o
          → IsSound o
      by_ref none e = subst IsSound (ok-injective e) tt
      by_ref (some agent_ref) e =
          let (b, first, rest) = >>=-eq-ok (bind_agent r n agent_ref) _ e in
          subst IsSound (ok-injective rest) (bind_agent-valid n agent_ref b first)

  -- The binding that is read for a node of the workflow.
  read_bound :
      (s : ReducedSnapshot) (b : ResolvedWorkflowBindings) (k : String)
      → fget s.run_state.extensions "agent_bindings" ≡ some (Value.dict (to_extension_map b))
      → IsSound (get b.agent_bindings_by_node k)
      → read_agent_binding s k ≡ ok (get b.agent_bindings_by_node k)
  unfolding read_agent_binding to_extension_map fget
  read_bound s b k h v =
      ap (λ o. read_payload (payload_at o k)) h
      ∙ ap (λ o. read_payload (dict_in o)) (fget-bindings_map b.agent_bindings_by_node k)
      ∙ read_payload-written (get b.agent_bindings_by_node k) v

  checked_bindings_lem :
      (x b : ResolvedWorkflowBindings)
      → checked_bindings x ≡ ok b
      → x.agent_bindings_by_node ≡ b.agent_bindings_by_node
  unfolding checked_bindings
  checked_bindings_lem x b h = ground arith

  bound_nodes :
      (w : CompiledWorkflow) (b : ResolvedWorkflowBindings)
      → resolve_bindings r w ≡ ok b
      → bind_nodes r (values w.node_map) [] ≡ ok b.agent_bindings_by_node
  unfolding resolve_bindings
  bound_nodes w b h =
      let (bindings, first, rest) = >>=-eq-ok (bind_nodes r (values w.node_map) []) _ h in
      first ∙ ap ok (checked_bindings_lem _ b rest)

  -- For a workflow that compiles, and whose bindings the registry resolves: once the bindings are
  -- in the extensions of a run, a node of the workflow reads there the binding that the registry
  -- resolves it to, and none if it names no agent.
  pub read_agent_binding-resolve_node_binding :
      (d : WorkflowDefinition) (w : CompiledWorkflow) (b : ResolvedWorkflowBindings)
      (s : ReducedSnapshot) (k : String) (n : NodeSpec)
      → compile_definition d ≡ ok w
      → resolve_bindings r w ≡ ok b
      → fget s.run_state.extensions "agent_bindings" ≡ some (Value.dict (to_extension_map b))
      → get w.node_map k ≡ some n
      → read_agent_binding s k ≡ resolve_node_binding r n
  read_agent_binding-resolve_node_binding d w b s k n c h e g =
      let keyed = compile_definition-IsKeyed d w c in
      let found : resolve_node_binding r n ≡ ok (get b.agent_bindings_by_node k) =
        bind_nodes-found r w.node_map [] b.agent_bindings_by_node k n keyed.own keyed.unique g
          (get-empty k) (bound_nodes w b h) in
      read_bound s b k e (resolve_node_binding-IsSound n (get b.agent_bindings_by_node k) found)
      ∙ sym found
