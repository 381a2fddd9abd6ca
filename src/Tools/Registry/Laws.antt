-- ===== src/Tools/Registry/Laws.antt =====
-- What the registry of tools holds and lists (src/core/tools/registry.py).
use agent_roles.Common.{
  String, ◌≡◌, ◌↔◌, ◌⊎◌, inl, inr, refl, sym, ap, ◌∙◌, subst, true, Option, none, some, List, [],
  ◌∷◌, Result, ok, err, arith, elem, text_lt, ◌=ₛ◌, eq_iff, Bool-cases, Occurs, if◌then◌else◌,
  is_some,
}
use agent_roles.Common.Dict.{get, keys, get-put, elem-keys}
use agent_roles.Scheduler.{sorted}
use agent_roles.Scheduler.Order.{elem-sorted}
use agent_roles.Stores.State.Laws.{OwnKeys, put-OwnKeys, OwnKeys-found}
use agent_roles.Tools.Models.{ToolDescriptor, ToolQuery}
use agent_roles.Tools.Registry.Meeting.{Meets, matches_iff}
use agent_roles.Tools.Registry.{ToolRegistry, register, matches, listed, list_tools}

-- What a registry stands for: which descriptor a reference has.
abbrev pub View : Type 0
View = String → Option ToolDescriptor

abbrev pub view : ToolRegistry → View
view r = get r

-- A view with one more descriptor.
abbrev pub extended : View → ToolDescriptor → View
extended v d ref = if d.tool_ref =ₛ ref then some d else v ref

-- Every descriptor is filed under its reference.
abbrev pub IsFiled : ToolRegistry → Type 0
IsFiled r = OwnKeys (λ d. d.tool_ref) r

abbrev pub Registers : ToolDescriptor → ToolRegistry → Result ToolRegistry → Type 0
Registers d r (ok after) =
    (view r d.tool_ref ≡ none)
    × ((ref : String) → view after ref ≡ extended (view r) d ref)
    × (IsFiled r → IsFiled after)
Registers d r (err _) = (old : ToolDescriptor) × (view r d.tool_ref ≡ some old)

-- A descriptor is registered exactly when its reference is free: the registry then holds it and
-- what it held, filed by reference if it was. Else nothing is registered.
pub register-Registers : (d : ToolDescriptor) (r : ToolRegistry) → Registers d r (register d r)
unfolding register
register-Registers d r = from (get r d.tool_ref) refl
  where
    from : (o : Option ToolDescriptor) → get r d.tool_ref ≡ o → Registers d r (register d r)
    from none e = rw e (e, λ ref. get-put r d.tool_ref d ref, put-OwnKeys (λ d. d.tool_ref) r d)
    from (some old) e = rw e (old, e)

module _ (q : ToolQuery) (r : ToolRegistry) (d : ToolDescriptor) where
  -- What the loop does with the descriptor of a reference.
  abbrev with_first : Option ToolDescriptor → List ToolDescriptor → List ToolDescriptor
  with_first o rest = elim o [ none ↦ rest | some x ↦ if matches q x then x ∷ rest else rest ]

  first_or_rest :
      (o : Option ToolDescriptor) (rest : List ToolDescriptor)
      → Occurs d (with_first o rest)
      → ((o ≡ some d) × (matches q d ≡ true)) ⊎ Occurs d rest
  first_or_rest none rest h = inr h
  first_or_rest (some x) rest h = elim (Bool-cases (matches q x)) [
    | inl yes_ ↦ elim (let k : (x ≡ d) ⊎ Occurs d rest = rw yes_ at h in k) [
      | inl e ↦ inl (ap some e, subst (λ y. matches q y ≡ true) e yes_)
      | inr later ↦ inr later
    ]
    | inr no_ ↦ inr (let k : Occurs d rest = rw no_ at h in k)
  ]

  first-Occurs :
      (rest : List ToolDescriptor) → matches q d ≡ true → Occurs d (with_first (some d) rest)
  first-Occurs rest m = rw m (inl refl)

  rest-Occurs :
      (o : Option ToolDescriptor) (rest : List ToolDescriptor)
      → Occurs d rest
      → Occurs d (with_first o rest)
  rest-Occurs none rest h = h
  rest-Occurs (some x) rest h = elim (Bool-cases (matches q x)) [
    | inl yes_ ↦ rw yes_ (inr h)
    | inr no_ ↦ rw no_ h
  ]

  found-Occurs :
      (refs : List String)
      → elem d.tool_ref refs ≡ true
      → get r d.tool_ref ≡ some d
      → matches q d ≡ true
      → Occurs d (listed q r refs)
  unfolding listed
  found-Occurs [] e h m = absurd (ground arith)
  found-Occurs (ref ∷ refs) e h m = elim (Bool-cases (ref =ₛ d.tool_ref)) [
    | inl same ↦
        subst (λ o. Occurs d (with_first o (listed q r refs)))
          (sym (ap (get r) ((eq_iff ref d.tool_ref).0 same) ∙ h)) (first-Occurs (listed q r refs) m)
    | inr other ↦ rest-Occurs (get r ref) (listed q r refs) (found-Occurs refs (ground arith) h m)
  ]

  Occurs-found :
      (refs : List String)
      → Occurs d (listed q r refs)
      → (ref : String) × (get r ref ≡ some d) × (matches q d ≡ true)
  unfolding listed
  Occurs-found [] h = absurd h
  Occurs-found (ref ∷ refs) h = elim (first_or_rest (get r ref) (listed q r refs) h) [
    | inl found ↦ (ref, found.0, found.1)
    | inr later ↦ Occurs-found refs later
  ]

  -- A query of a registry that is filed by reference lists exactly the descriptors on file that
  -- meet it, which have the transport, the kind of side effect, the mode of approval and the
  -- provider that it names, and every tag that it lists: no other, and none is left out.
  pub list_tools_iff :
      IsFiled r → Occurs d (list_tools q r) ↔ ((view r d.tool_ref ≡ some d) × Meets q d)
  unfolding list_tools
  list_tools_iff filed = (
    λ o.
        let (ref, found, m) = Occurs-found (sorted text_lt (keys r)) o in
        (
          subst (λ k. get r k ≡ some d) (sym (OwnKeys-found (λ x. x.tool_ref) r ref d filed found))
              found,
          (matches_iff q d).0 m,
        ),
    λ h.
        found-Occurs (sorted text_lt (keys r))
          (elem-sorted text_lt d.tool_ref (keys r) ∙ elem-keys r d.tool_ref ∙ ap is_some h.0) h.0
          ((matches_iff q d).1 h.1),
  )
