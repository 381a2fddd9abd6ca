-- ===== src/Agents/Resolver/Bound.antt =====
-- What the nodes of a run are bound to (src/core/agents/resolver.py), and what the runtime reads of
-- it when it executes them (`_read_agent_binding` of src/core/runtime/runtime_service.py).
use agent_roles.Common.{
  String, ◌≡◌, refl, sym, ap, ◌∙◌, subst, Bool, true, false, Option, none, some, [], ◌∷◌, ok,
  >>=-eq-ok, ok-injective, arith, elem, is_unique, ◌=ₛ◌, eq_iff, Bool-cases, inl, inr,
  if◌then◌else◌,
}
use agent_roles.Common.Dict.{Dict, get, keys, values, get-put}
use agent_roles.Stores.State.Laws.{OwnKeys}
use agent_roles.Workflow.Models.{NodeSpec}
use agent_roles.Workflow.Compiler.Nodes.{id_of_node}
use agent_roles.Agents.Bindings.{ResolvedAgentBinding}
use agent_roles.Agents.Registry.{AgentRegistry}
use agent_roles.Agents.Resolver.{resolve_node_binding, with_binding, bind_nodes}

-- `x or y` of a binding that may be missing.
abbrev either :
    Option ResolvedAgentBinding → Option ResolvedAgentBinding → Option ResolvedAgentBinding
either none b = b
either (some a) b = some a

get-with_binding :
    (id : String) (o : Option ResolvedAgentBinding) (bs : Dict ResolvedAgentBinding) (k : String)
    → get (with_binding id o bs) k ≡ (if id =ₛ k then either o (get bs k) else get bs k)
get-with_binding id none bs k = ground arith
get-with_binding id (some b) bs k = get-put bs id b k

either-none :
    (t : Bool) (o : Option ResolvedAgentBinding)
    → (if t then either o none else none) ≡ (if t then o else none)
either-none true none = refl
either-none true (some b) = refl
either-none false o = refl

if_true : {t : Bool} → t ≡ true → (o : Option ResolvedAgentBinding) → (if t then o else none) ≡ o
if_true e o = rw e refl

if_false :
    {t : Bool} → t ≡ false → (o : Option ResolvedAgentBinding) → (if t then o else none) ≡ none
if_false e o = rw e refl

module _ (r : AgentRegistry) where
  -- Nodes of other names leave a binding alone.
  bind_nodes-absent :
      (d : Dict NodeSpec) (bs cs : Dict ResolvedAgentBinding) (k : String)
      → OwnKeys id_of_node d
      → elem k (keys d) ≡ false
      → bind_nodes r (values d) bs ≡ ok cs
      → get cs k ≡ get bs k
  unfolding bind_nodes
  bind_nodes-absent [] bs cs k o e h = ap (λ d. get d k) (sym (ok-injective h))
  bind_nodes-absent ((j, n) ∷ d) bs cs k o e h =
      let (b, _, rest) = >>=-eq-ok (resolve_node_binding r n) _ h in
      bind_nodes-absent d (with_binding n.node_id b bs) cs k o.1 (ground arith) rest
      ∙ get-with_binding n.node_id b bs k
      ∙ (rw o.0 (ground arith))

  -- A node of the map is bound to what it resolves to.
  pub bind_nodes-found :
      (d : Dict NodeSpec) (bs cs : Dict ResolvedAgentBinding) (k : String) (n : NodeSpec)
      → OwnKeys id_of_node d
      → is_unique (keys d) ≡ true
      → get d k ≡ some n
      → get bs k ≡ none
      → bind_nodes r (values d) bs ≡ ok cs
      → resolve_node_binding r n ≡ ok (get cs k)
  unfolding bind_nodes get
  bind_nodes-found [] bs cs k n o u g e h = absurd (ground arith)
  bind_nodes-found ((j, m) ∷ d) bs cs k n o u g e h =
      let (b, first, rest) = >>=-eq-ok (resolve_node_binding r m) _ h in
      let there : get (with_binding m.node_id b bs) k ≡ (if j =ₛ k then b else none) =
        get-with_binding m.node_id b bs k ∙ rw (o.0, e) (either-none (j =ₛ k) b) in
      elim (Bool-cases (j =ₛ k)) [
        | inl same ↦
            let alike : m ≡ n = ground arith in
            let kept =
              bind_nodes-absent d (with_binding m.node_id b bs) cs k o.1
                (ground (arith, eq_iff j k)) rest in
            subst (λ x. resolve_node_binding r x ≡ ok (get cs k)) alike
              (first ∙ ap ok (sym (kept ∙ there ∙ if_true same b)))
        | inr other ↦
            bind_nodes-found d (with_binding m.node_id b bs) cs k n o.1 (ground arith)
              (ground arith) (there ∙ if_false other b) rest
      ]
