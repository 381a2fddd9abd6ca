-- ===== src/Executors/Flow/Merging.antt =====
-- What a merge node collects (src/core/executors/basic.py).
use agent_roles.Common.{
  ℕ, suc, ◌+◌, ◌≤◌, String, ◌≡◌, ◌∙◌, ◌⊎◌, inl, inr, refl, sym, ap, Option, none, some, List, [],
  ◌∷◌, length, Result, ok, err, value_error, ◌>>=◌, >>=-eq-ok, ok-injective, some-injective, arith,
  ◌=ₛ◌, Bool-cases,
}
use agent_roles.Common.Dict.{get}
use agent_roles.Value.{pos, Value, Items, nil, cons, Fields, end, field, fget, fput, fsize}
use agent_roles.State.Models.{NodeState, ArtifactRecord, ReducedSnapshot}
use agent_roles.Workflow.Models.{EdgeSpec, MergeMode, MergeStrategySpec}
use agent_roles.Selector.Paths.{optional_text, extract_path}
use agent_roles.Runtime.Context.{ExecutionContext, NodeExecutionResult}
use agent_roles.Executors.Flow.{
  upstream_payload, payload_of, and_then, item_values, merge_items, edges_or_none, key_items,
  str_of, keyed_result, merge_keyed, merge_by, execute_merge,
}

-- The node that an edge comes from is on file, and so is the artifact that its output names.
abbrev pub Delivers : ReducedSnapshot → EdgeSpec → ArtifactRecord → Type 0
Delivers s e a =
    (n : NodeState) × (id : String) × (get s.node_states e.from_node_id ≡ some n)
    × (n.output_artifact_id ≡ some id)
    × (get s.artifacts id ≡ some a)

-- What an artifact hands on: what it has inline, or else a note of where it is.
abbrev pub Content : ArtifactRecord → Fields → Type 0
Content a d =
    (a.payload_inline ≡ some d)
    ⊎ ((a.payload_inline ≡ none)
        × (d
            ≡ field "payload_ref" (optional_text a.payload_ref) (
                field "summary" (optional_text a.summary)
                  (field "artifact_type" (Value.text a.artifact_type) end))))

-- The items that some edges deliver, in their order, and how many they are.
pub data Collected (s : ReducedSnapshot) : List EdgeSpec → ℕ → Items → Type 0 where
  nothing : Collected s [] 0 nil
  item :
      {e : EdgeSpec} {es : List EdgeSpec} {n : ℕ} {vs : Items} (a : ArtifactRecord) (d : Fields)
      → Delivers s e a
      → Content a d
      → Collected s es n vs
      → Collected s (e ∷ es) (suc n) (
          cons
            (Value.dict
              (field "node_id" (Value.text e.from_node_id) (field "payload" (Value.dict d) end)))
            vs)
  no_item :
      {e : EdgeSpec} {es : List EdgeSpec} {n : ℕ} {vs : Items}
      → ((a : ArtifactRecord) → ¬ (Delivers s e a))
      → Collected s es n vs
      → Collected s (e ∷ es) n vs

payload_of-Content : (a : ArtifactRecord) → Content a (payload_of a)
payload_of-Content a = inline a.payload_inline refl
  where
    inline :
        (o : Option Fields)
        → a.payload_inline ≡ o
        → Content a (elim o as (λ _. Fields) [
          | some d ↦ d
          | none ↦ field "payload_ref" (optional_text a.payload_ref) (
              field "summary"
                (optional_text a.summary)
                (field "artifact_type" (Value.text a.artifact_type) end))
        ])
    inline (some d) e = inl e
    inline none e = inr (e, refl)

module _ (s : ReducedSnapshot) (e : EdgeSpec) where
  abbrev Upstream : Option Fields → Type 0
  Upstream none = (a : ArtifactRecord) → ¬ (Delivers s e a)
  Upstream (some d) = (a : ArtifactRecord) × Delivers s e a × Content a d

  of_artifact :
      (n : NodeState) (id : String) (o : Option ArtifactRecord)
      → get s.node_states e.from_node_id ≡ some n
      → n.output_artifact_id ≡ some id
      → get s.artifacts id ≡ o
      → Upstream (and_then o (λ a. some (payload_of a)))
  of_artifact n id (some a) h k l = (a, (n, id, h, k, l), payload_of-Content a)
  of_artifact n id none h k l = λ a (m, i, p, q, r).
      let same : m ≡ n = some-injective (sym p ∙ h) in
      let named : i ≡ id = some-injective (sym q ∙ ap (λ x. x.output_artifact_id) same ∙ k) in
      absurd (ground (arith, sym (ap (get s.artifacts) named) ∙ r, l))

  of_output :
      (n : NodeState) (o : Option String)
      → get s.node_states e.from_node_id ≡ some n
      → n.output_artifact_id ≡ o
      → Upstream (and_then o (λ id. and_then (get s.artifacts id) (λ a. some (payload_of a))))
  of_output n (some id) h k = of_artifact n id (get s.artifacts id) h k refl
  of_output n none h k = λ a (m, i, p, q, r).
      let same : m ≡ n = some-injective (sym p ∙ h) in
      absurd (ground (arith, sym (ap (λ x. x.output_artifact_id) same) ∙ q, k))

  of_node :
      (o : Option NodeState)
      → get s.node_states e.from_node_id ≡ o
      → Upstream (
          and_then o (λ n.
            and_then n.output_artifact_id
              (λ id. and_then (get s.artifacts id) (λ a. some (payload_of a)))))
  of_node (some n) h = of_output n n.output_artifact_id h refl
  of_node none h = λ a (m, i, p, q, r). absurd (ground (arith, p, h))

  upstream_payload-Upstream : Upstream (upstream_payload s e)
  unfolding upstream_payload
  upstream_payload-Upstream = of_node (get s.node_states e.from_node_id) refl

  item_or_none :
      (o : Option Fields) (es : List EdgeSpec) (rest : List (String × Fields))
      → Upstream o
      → Collected s es (length rest) (item_values rest)
      → let xs : List (String × Fields) = elim o [
        | none ↦ rest
        | some d ↦ (e.from_node_id, d) ∷ rest
      ] in
        Collected s (e ∷ es) (length xs) (item_values xs)
  item_or_none none es rest u c = no_item u c
  item_or_none (some d) es rest (a, u, k) c = item a d u k c

merge_items-Collected :
    (s : ReducedSnapshot) (es : List EdgeSpec)
    → Collected s es (length (merge_items s es)) (item_values (merge_items s es))
unfolding merge_items
merge_items-Collected s [] = nothing
merge_items-Collected s (e ∷ es) =
    item_or_none s e (upstream_payload s e) es (merge_items s es) (upstream_payload-Upstream s e)
      (merge_items-Collected s es)

fsize-fput : (d : Fields) (k : String) (v : Value) → fsize (fput d k v) ≤ suc (fsize d)
unfolding fsize fput
fsize-fput end k v = omega arith
fsize-fput (field j w d) k v = ground (arith, fsize-fput d k v)

fsize-end : fsize end ≡ 0
unfolding fsize
fsize-end = refl

module _ (repr : Value → String) where
  fsize-key_items :
      (key_field : String) (xs : List (String × Fields)) (merged after : Fields)
      → key_items repr key_field xs merged ≡ ok after
      → fsize after ≤ length xs + fsize merged
  unfolding key_items
  fsize-key_items key_field [] merged after h = omega (arith, ap fsize (ok-injective h))
  fsize-key_items key_field ((id, d) ∷ xs) merged after h =
      let (key, e, rest) = >>=-eq-ok (extract_path (Value.dict d) (some key_field)) _ h in
      omega (
        arith,
        fsize-fput merged (str_of repr key) (Value.dict d),
        fsize-key_items key_field xs (fput merged (str_of repr key) (Value.dict d)) after rest,
      )

  -- The count that a result reports.
  abbrev pub Reports : NodeExecutionResult → ℕ → Type 0
  Reports r n = (d : Fields) × (r.output ≡ some d) × (fget d "count" ≡ some (Value.int (pos n)))

  -- What a result makes of the items that some edges deliver: a list of them all, or else a count
  -- that is no larger than theirs.
  abbrev pub Merges : MergeMode → ReducedSnapshot → List EdgeSpec → NodeExecutionResult → Type 0
  Merges mode s es r =
      (n : ℕ) × (vs : Items) × Collected s es n vs
      × (mode ≡ MergeMode.collect_list
          → r.output ≡ some (field "items" (Value.arr vs) (field "count" (Value.int (pos n)) end)))
      × ((count : ℕ) × Reports r count × (count ≤ n))

  merge_keyed-Reports :
      (key_field : Option String) (items : List (String × Fields)) (r : NodeExecutionResult)
      → merge_keyed repr key_field items ≡ ok r
      → (n : ℕ) × Reports r n × (n ≤ length items)
  unfolding merge_keyed fget
  merge_keyed-Reports none items r h = absurd (ground arith)
  merge_keyed-Reports (some key_field) items r h = elim (Bool-cases (key_field =ₛ "")) [
    | inl empty ↦
        let k : ◌≡◌ {A = Result NodeExecutionResult} (err value_error) (ok r) = rw empty at h in
        absurd (ground arith)
    | inr filled ↦
        let k : (key_items repr key_field items end >>= λ merged. ok (keyed_result repr merged))
            ≡ ok r =
          rw filled at h in
        let (merged, e, q) = >>=-eq-ok (key_items repr key_field items end) _ k in
        (
          fsize merged,
          (_, ap (λ x. x.output) (sym (ok-injective q)), refl),
          omega (arith, fsize-key_items key_field items end merged e, fsize-end),
        )
  ]

  merge_by-Merges :
      (mode : MergeMode) (key_field : Option String) (s : ReducedSnapshot) (es : List EdgeSpec)
      (r : NodeExecutionResult)
      → merge_by repr mode key_field (merge_items s es) ≡ ok r
      → Merges mode s es r
  unfolding merge_by fget
  merge_by-Merges MergeMode.collect_list key_field s es r h = (
    length (merge_items s es),
    item_values (merge_items s es),
    merge_items-Collected s es,
    λ _. ap (λ x. x.output) (sym (ok-injective h)),
    (length (merge_items s es), (_, ap (λ x. x.output) (sym (ok-injective h)), refl), omega arith),
  )
  merge_by-Merges MergeMode.keyed_map key_field s es r h = (
    length (merge_items s es),
    item_values (merge_items s es),
    merge_items-Collected s es,
    λ e. absurd (ground arith),
    merge_keyed-Reports key_field (merge_items s es) r h,
  )
  merge_by-Merges MergeMode.custom_ref key_field s es r h = absurd (ground arith)

  -- A merge node that returns has collected an item for each incoming edge whose source node is on
  -- file with an output whose artifact is on file: the source's name and what the artifact hands
  -- on, in the order of the edges. Where the strategy makes a list, the output is that list and its
  -- length; and always the count that is reported is at most the number of the items.
  pub execute_merge-Merges :
      (c : ExecutionContext) (strategy : MergeStrategySpec) (s : ReducedSnapshot)
      (r : NodeExecutionResult)
      → execute_merge repr c strategy s ≡ ok r
      → Merges strategy.mode s
          (edges_or_none (get c.workflow.incoming_edges c.node_state.node_id))
          r
  unfolding execute_merge
  execute_merge-Merges c strategy s r h =
      merge_by-Merges strategy.mode strategy.key_field s
        (edges_or_none (get c.workflow.incoming_edges c.node_state.node_id)) r h
