-- ===== src/Executors/Basic/Answers.antt =====
-- The latest answer that a node has had (src/core/executors/basic.py).
use agent_roles.Common.{
  String, ◌≡◌, ◌≢◌, inl, inr, ◌≤◌, refl, sym, ap, ◌∙◌, subst, Bool, true, false, Option, none, some,
  List, [], ◌∷◌, Occurs, All, All-Occurs, keep-Occurs, keep, Occurs-keep, some-injective, arith,
  ltb, eq_iff, eq_refl, is_some, not, ◌&&◌, if◌then◌else◌,
}
use agent_roles.Common.Dict.{values}
use agent_roles.Value.{Fields}
use agent_roles.State.Models.{InterruptStatus, InterruptRecord, ReducedSnapshot}
use agent_roles.Selector.Inputs.{is_for_node, latest_of, latest_match}
use agent_roles.Executors.Basic.{is_open, is_answered, latest_resolved}

-- An interrupt of a list than which none is later.
abbrev pub IsLatest : InterruptRecord → List InterruptRecord → Type 0
IsLatest i is = Occurs i is × All (λ j. j.created_at ≤ i.created_at) is

latest_of-IsLatest :
    (is : List InterruptRecord) (i : InterruptRecord) → IsLatest (latest_of i is) (i ∷ is)
latest_of-IsLatest [] i = (inl refl, (omega arith, tt))
latest_of-IsLatest (j ∷ is) i =
    by_test (ltb i.created_at j.created_at) refl (latest_of-IsLatest is j) (latest_of-IsLatest is i)
  where
    second :
        {l : InterruptRecord}
        → IsLatest l (j ∷ is)
        → i.created_at ≤ j.created_at
        → IsLatest l (i ∷ (j ∷ is))
    second (o, a) h = (inr o, (omega arith, a))

    first :
        {l : InterruptRecord}
        → IsLatest l (i ∷ is)
        → j.created_at ≤ i.created_at
        → IsLatest l (i ∷ (j ∷ is))
    first (inl e, a) h = (inl e, (a.0, (omega arith, a.1)))
    first (inr o, a) h = (inr (inr o), (a.0, (omega arith, a.1)))

    by_test :
        (b : Bool)
        → ltb i.created_at j.created_at ≡ b
        → IsLatest (latest_of j is) (j ∷ is)
        → IsLatest (latest_of i is) (i ∷ is)
        → IsLatest (latest_of (if b then j else i) is) (i ∷ (j ∷ is))
    by_test true e h k = second h (ground arith)
    by_test false e h k = first k (ground arith)

latest_match-IsLatest :
    (is : List InterruptRecord) (i : InterruptRecord) → latest_match is ≡ some i → IsLatest i is
latest_match-IsLatest [] i h = absurd (ground arith)
latest_match-IsLatest (j ∷ is) i h =
    subst (λ l. IsLatest l (j ∷ is)) (some-injective h) (latest_of-IsLatest is j)

no_match : (is : List InterruptRecord) → latest_match is ≡ none → is ≡ []
no_match [] h = refl
no_match (j ∷ is) h = absurd (ground arith)

-- An interrupt names a node, is no longer open, and carries an answer.
abbrev pub Answers : String → InterruptRecord → Fields → Type 0
Answers node_id i payload =
    (i.node_id ≡ some node_id)
    × (i.status ≢ InterruptStatus.open_status)
    × (i.resolution_payload ≡ some payload)

unopened : (i : InterruptStatus) → i ≢ InterruptStatus.open_status → is_open i ≡ false
unopened InterruptStatus.open_status n = absurd (n refl)
unopened InterruptStatus.resolved n = refl
unopened InterruptStatus.cancelled n = refl

settled : (i : InterruptStatus) → is_open i ≡ false → i ≢ InterruptStatus.open_status
settled i e h = absurd (ground (arith, e, ap is_open h))

is_answered-Answers :
    (node_id : String) (i : InterruptRecord)
    → is_answered node_id i ≡ true
    → (payload : Fields) × Answers node_id i payload
is_answered-Answers node_id i h = payload_of i.node_id i.resolution_payload refl refl h
  where
    payload_of :
        (n : Option String) (o : Option Fields)
        → i.node_id ≡ n
        → i.resolution_payload ≡ o
        → (is_for_node n node_id && (is_some o && not (is_open i.status))) ≡ true
        → (payload : Fields) × Answers node_id i payload
    payload_of none o e k t = absurd (ground arith)
    payload_of (some n) none e k t = absurd (ground arith)
    payload_of (some n) (some p) e k t =
        (p, (e ∙ ap some ((eq_iff n node_id).0 (ground arith)), settled i.status (ground arith), k))

Answers-is_answered :
    (node_id : String) (i : InterruptRecord) (payload : Fields)
    → Answers node_id i payload
    → is_answered node_id i ≡ true
Answers-is_answered node_id i payload (n, o, p) =
    subst
      (λ x.
        (is_for_node x node_id && (is_some i.resolution_payload && not (is_open i.status))) ≡ true)
      (sym n)
      (subst
        (λ x. (is_for_node (some node_id) node_id && (is_some x && not (is_open i.status))) ≡ true)
        (sym p) (ground (arith, eq_refl node_id, unopened i.status o)))

-- An interrupt of a snapshot answers for the node, and no other that does so is later.
abbrev pub IsAnswer : String → ReducedSnapshot → InterruptRecord → Fields → Type 0
IsAnswer node_id s i payload =
    Occurs i (values s.interrupts)
    × Answers node_id i payload
    × ((j : InterruptRecord) (other : Fields)
        → Occurs j (values s.interrupts)
        → Answers node_id j other
        → j.created_at ≤ i.created_at)

pub latest_resolved-IsAnswer :
    (node_id : String) (s : ReducedSnapshot) (i : InterruptRecord)
    → latest_resolved node_id s ≡ some i
    → (payload : Fields) × IsAnswer node_id s i payload
unfolding latest_resolved
latest_resolved-IsAnswer node_id s i h =
    let all = values s.interrupts in
    let (o, a) = latest_match-IsLatest (keep (is_answered node_id) all) i h in
    let (there, answered) = Occurs-keep (is_answered node_id) i all o in
    let (payload, answers) = is_answered-Answers node_id i answered in
    (
      payload,
      (
        there,
        answers,
        λ j other k b.
            All-Occurs (λ x. x.created_at ≤ i.created_at) (keep (is_answered node_id) all) j a
              (keep-Occurs (is_answered node_id) j all k (Answers-is_answered node_id j other b)),
      ),
    )

pub none_answered :
    (node_id : String) (s : ReducedSnapshot) (j : InterruptRecord) (payload : Fields)
    → latest_resolved node_id s ≡ none
    → Occurs j (values s.interrupts)
    → ¬ (Answers node_id j payload)
unfolding latest_resolved
none_answered node_id s j payload h o b =
    subst (Occurs j) (no_match (keep (is_answered node_id) (values s.interrupts)) h) (
      keep-Occurs (is_answered node_id) j (values s.interrupts) o
        (Answers-is_answered node_id j payload b))
