-- ===== src/Stores/State/Laws.antt =====
-- Dicts whose keys are the identifiers of their records, and what saving and collecting does to
-- them (src/core/stores/memory_state_store.py).
use agent_roles.Common.{
  String, ◌≡◌, refl, sym, ap, ◌∙◌, true, ◌&&◌, Option, none, some, List, [], ◌∷◌, ◌=ₛ◌,
  if◌then◌else◌, is_unique, arith, eq_iff, eq_refl, Bool-cases, inl, inr,
}
use agent_roles.Common.Dict.{
  Dict, get, put, keys, values, get-put, elem-keys, put_unique, get-empty,
}
use agent_roles.State.Models.{NodeState}
use agent_roles.Stores.State.{
  NodeDict, get_node, put_node, save_node_state, save_nodes, save_all, nodes_of_run, collect,
}

-- `a or b` of two optional values.
abbrev pub or_else : {V : Type 0} → Option V → Option V → Option V
or_else none b = b
or_else (some a) b = some a

-- A value, if it belongs to a run.
abbrev pub if_of_run : {V : Type 0} → (V → String) → String → Option V → Option V
if_of_run run r none = none
if_of_run run r (some v) = if run v =ₛ r then some v else none

module _ {V : Type 0} (id : V → String) where
  abbrev pub OwnKeys : Dict V → Type 0
  OwnKeys [] = Unit
  OwnKeys ((k, v) ∷ d) = (id v ≡ k) × OwnKeys d

  -- Every key is its record's identifier, and no key comes twice.
  pub record IsKeyed (d : Dict V) : Type 0 where
    pub own : OwnKeys d
    pub unique : is_unique (keys d) ≡ true

  pub put-OwnKeys : (d : Dict V) (v : V) → OwnKeys d → OwnKeys (put d (id v) v)
  unfolding put
  put-OwnKeys [] v o = (refl, tt)
  put-OwnKeys ((j, w) ∷ d) v o = elim (Bool-cases (j =ₛ id v)) [
    | inl same ↦ rw same (sym ((eq_iff j (id v)).0 same), o.1)
    | inr other ↦ rw other (o.0, put-OwnKeys d v o.1)
  ]

  -- A record that is found has the key as its identifier.
  pub OwnKeys-found : (d : Dict V) (k : String) (v : V) → OwnKeys d → get d k ≡ some v → id v ≡ k
  unfolding get
  OwnKeys-found [] k v o h = absurd (ground arith)
  OwnKeys-found ((j, w) ∷ d) k v o h = elim (Bool-cases (j =ₛ k)) [
    | inl same ↦ let e : w ≡ v = ground arith in ap id (sym e) ∙ o.0 ∙ (eq_iff j k).0 same
    | inr other ↦ OwnKeys-found d k v o.1 (ground arith)
  ]

  pub put-IsKeyed : (d : Dict V) (v : V) → IsKeyed d → IsKeyed (put d (id v) v)
  put-IsKeyed d v h = record {
    own = put-OwnKeys d v h.own;
    unique = put_unique d (id v) v h.unique;
  }

  pub save_all-IsKeyed : (vs : List V) (d : Dict V) → IsKeyed d → IsKeyed (save_all id vs d)
  unfolding save_all
  save_all-IsKeyed [] d h = h
  save_all-IsKeyed (v ∷ vs) d h = save_all-IsKeyed vs (put d (id v) v) (put-IsKeyed d v h)

  get-save_all-own :
      (d : Dict V) (old : Dict V) (k : String)
      → OwnKeys d
      → is_unique (keys d) ≡ true
      → get (save_all id (values d) old) k ≡ or_else (get d k) (get old k)
  unfolding save_all get
  get-save_all-own [] old k o u = refl
  get-save_all-own ((j, v) ∷ d) old k o u = ground (
    arith,
    get-save_all-own d (put old (id v) v) k o.1,
    get-put old (id v) v k,
    elem-keys d j,
    eq_iff j k,
    o.0,
  )

  -- Saving the records of a dict under their identifiers puts them in place of what was there.
  pub get-save_all :
      (d : Dict V) (old : Dict V) (k : String)
      → IsKeyed d
      → get (save_all id (values d) old) k ≡ or_else (get d k) (get old k)
  get-save_all d old k h = get-save_all-own d old k h.own h.unique

  get-collect-own :
      (run : V → String) (r : String) (d acc : Dict V) (k : String)
      → OwnKeys d
      → is_unique (keys d) ≡ true
      → get (collect id run r (values d) acc) k ≡ or_else (if_of_run run r (get d k)) (get acc k)
  unfolding collect get
  get-collect-own run r [] acc k o u = refl
  get-collect-own run r ((j, v) ∷ d) acc k o u = ground (
    arith,
    get-collect-own run r d (put acc (id v) v) k o.1,
    get-collect-own run r d acc k o.1,
    get-put acc (id v) v k,
    elem-keys d j,
    eq_iff j k,
    o.0,
  )

  -- Collecting finds the records of the run, and no others.
  pub get-collect :
      (run : V → String) (r : String) (d : Dict V) (k : String)
      → IsKeyed d
      → get (collect id run r (values d) []) k ≡ if_of_run run r (get d k)
  get-collect run r d k h =
      ground (arith, get-collect-own run r d [] k h.own h.unique, get-empty {V = V} k)

abbrev pub OfRun : String → Dict NodeState → Type 0
OfRun r [] = Unit
OfRun r ((k, n) ∷ d) = (n.run_id ≡ r) × OfRun r d

get_node-put_node :
    (d : NodeDict) (r n : String) (v : NodeState) (r' n' : String)
    → get_node (put_node d r n v) r' n'
      ≡ (if (r =ₛ r') && (n =ₛ n') then some v else get_node d r' n')
unfolding get_node put_node
get_node-put_node [] r n v r' n' = refl
get_node-put_node ((i, m, w) ∷ d) r n v r' n' = ground (
  arith,
  get_node-put_node d r n v r' n',
  eq_iff r r',
  eq_iff n n',
  eq_iff i r,
  eq_iff m n,
  eq_iff i r',
  eq_iff m n',
)

pub get-nodes_of_run :
    (r : String) (d : NodeDict) (k : String) → get (nodes_of_run r d) k ≡ get_node d r k
unfolding nodes_of_run get_node get
get-nodes_of_run r [] k = refl
get-nodes_of_run r ((i, m, w) ∷ d) k = ground (arith, get-nodes_of_run r d k)

get_node-save_nodes-own :
    (r : String) (d : Dict NodeState) (old : NodeDict) (k : String)
    → OwnKeys (λ n. n.node_id) d
    → is_unique (keys d) ≡ true
    → OfRun r d
    → get_node (save_nodes (values d) old) r k ≡ or_else (get d k) (get_node old r k)
unfolding save_nodes save_node_state get
get_node-save_nodes-own r [] old k o u q = refl
get_node-save_nodes-own r ((j, n) ∷ d) old k o u q = ground (
  arith,
  get_node-save_nodes-own r d (put_node old n.run_id n.node_id n) k o.1,
  get_node-put_node old n.run_id n.node_id n r k,
  elem-keys d j,
  eq_iff j k,
  eq_refl r,
  o.0,
  q.0,
)

-- The nodes of a run that are saved are found in place of what was there.
pub get_node-save_nodes :
    (r : String) (d : Dict NodeState) (old : NodeDict) (k : String)
    → IsKeyed (λ n. n.node_id) d
    → OfRun r d
    → get_node (save_nodes (values d) old) r k ≡ or_else (get d k) (get_node old r k)
get_node-save_nodes r d old k h q = get_node-save_nodes-own r d old k h.own h.unique q
