-- ===== src/Ax.antt =====
-- The accessibility tree of crates/native/src/ax.rs: `build_tree` with `walk_children`, and
-- `redact_form_control_values`, with `AxNode` and `AxSnapshot` of crates/core/src/ports.rs. A backend
-- node id is the 64-bit word of the i64. `previous_refs` is a list of entries in the order in which
-- the map is iterated. The walk takes fuel for its depth, and is none without. The probe of a live
-- node, which asks the browser, is a function on the state of the world.

pub mod Trees
pub mod Walks
pub mod Captures
pub mod Redaction
pub mod Frames
mod Tests
use stapler_mcp.Common.{
  ℕ, zero, suc, ◌+◌, Bool, true, false, not, ◌&&◌, ◌||◌, Option, none, some, List, [], ◌∷◌, ◌++◌,
  if◌then◌else◌, leb, ltb, ◌==◌, Text, text, text_eq, show_nat, select, Assoc, lookup, insert,
  Result, ok, err,
}
use stapler_mcp.Crawler.{get_or}

abbrev pub max_frame_depth : ℕ
max_frame_depth = 5

abbrev pub max_snapshot_nodes : ℕ
max_snapshot_nodes = 500

abbrev pub root_ref : Text
root_ref = text "root"

abbrev pub redacted_placeholder : Text
redacted_placeholder = text "[REDACTED]"

pub record RawAxNode : Type 0 where
  pub node_id : Text
  pub parent_id : Option Text
  pub ignored : Bool
  pub role : Option Text
  pub name : Option Text
  pub value : Option Text
  pub backend_node_id : Option ℕ
  pub oopif : Bool

pub record ResolvedRef : Type 0 where
  pub backend_node_id : ℕ
  pub role : Text
  pub is_oopif : Bool

-- `node node_ref role name value children`.
mutual
  pub data AxNode : Type 0 where
    node : Text → Text → Text → Option Text → AxNodes → AxNode

  pub data AxNodes : Type 0 where
    nil : AxNodes
    cons : AxNode → AxNodes → AxNodes

pub record AxSnapshot : Type 0 where
  pub root : AxNode
  pub url : Text
  pub truncated : Bool
  pub navigated_from : Option Text

pub record AxCapture : Type 0 where
  pub snapshot : AxSnapshot
  pub refs : Assoc ResolvedRef

-- `Vec::append`.
unfoldable pub append : AxNodes → AxNodes → AxNodes
append nil ns = ns
append (cons n ms) ns = cons n (append ms ns)

-- The variables that the walk changes.
pub record Walk : Type 0 where
  pub next_ref_id : ℕ
  pub refs : Assoc ResolvedRef
  pub count : ℕ
  pub truncated : Bool

-- `previous_by_backend_id.get`: the last entry with this backend id that is not of another process.
unfoldable pub previous_ref : Assoc ResolvedRef → ℕ → Option Text
previous_ref [] id = none
previous_ref ((r, resolved) ∷ previous) id = elim (previous_ref previous id) [
  | some later ↦ some later
  | none ↦ if not resolved.is_oopif && resolved.backend_node_id == id then some r else none
]

abbrev pub reusable : Assoc ResolvedRef → RawAxNode → Option Text
reusable previous child = elim child.backend_node_id [
  | none ↦ none
  | some id ↦ if child.oopif then none else previous_ref previous id
]

abbrev pub ref_name : ℕ → Text
ref_name n = text "e" ++ show_nat n

-- The reference of a node, and the counter after it.
unfoldable pub assign_ref : Assoc ResolvedRef → RawAxNode → ℕ → Text × ℕ
assign_ref previous child n = elim (reusable previous child) [
  | some existing ↦ (existing, n)
  | none ↦ (ref_name n, n + 1)
]

abbrev pub record_ref : Text → RawAxNode → Assoc ResolvedRef → Assoc ResolvedRef
record_ref node_ref child refs = elim child.backend_node_id [
  | none ↦ refs
  | some id ↦
      insert node_ref
        (record { backend_node_id = id; role = get_or child.role []; is_oopif = child.oopif }) refs
]

-- From `let reusable` to the push of the node.
unfoldable pub keep_child : Assoc ResolvedRef → RawAxNode → AxNodes → Walk → AxNodes × Walk
keep_child previous child grandchildren st =
    let (node_ref, next) = assign_ref previous child st.next_ref_id in
    (
      cons (node node_ref (get_or child.role []) (get_or child.name []) child.value grandchildren)
          nil,
      record st { next_ref_id = next; refs = record_ref node_ref child st.refs },
    )

-- `by_parent.get(&Some(id))`.
abbrev pub is_child : Text → RawAxNode → Bool
is_child id n = elim n.parent_id [ none ↦ false | some p ↦ text_eq p id ]

unfoldable pub children_of : List RawAxNode → Text → List RawAxNode
children_of nodes id = select (is_child id) nodes

-- One round of the loop: what the child adds to the output.
unfoldable pub visit_child :
    Assoc ResolvedRef
    → (Text → Walk → Option (AxNodes × Walk))
    → RawAxNode
    → Walk
    → Option (AxNodes × Walk)
visit_child previous descend child st =
    if child.ignored
    then descend child.node_id st
    else if leb max_snapshot_nodes st.count
    then some (nil, record st { truncated = true })
    else elim (descend child.node_id (record st { count = st.count + 1 })) [
      | none ↦ none
      | some (grandchildren, st') ↦ some (keep_child previous child grandchildren st')
    ]

unfoldable pub walk_list :
    Assoc ResolvedRef
    → (Text → Walk → Option (AxNodes × Walk))
    → List RawAxNode
    → Walk
    → Option (AxNodes × Walk)
walk_list previous descend [] st = some (nil, st)
walk_list previous descend (child ∷ children) st = elim (visit_child previous descend child st) [
  | none ↦ none
  | some (added, st₁) ↦ elim (walk_list previous descend children st₁) [
    | none ↦ none
    | some (out, st₂) ↦ some (append added out, st₂)
  ]
]

unfoldable pub walk_children :
    List RawAxNode → Assoc ResolvedRef → ℕ → Text → Walk → Option (AxNodes × Walk)
walk_children nodes previous zero parent st = none
walk_children nodes previous (suc fuel) parent st =
    walk_list previous (walk_children nodes previous fuel) (children_of nodes parent) st

abbrev pub find_root : List RawAxNode → Option RawAxNode
find_root [] = none
find_root (n ∷ nodes) =
    let rest = find_root nodes in elim n.parent_id [ none ↦ some n | some p ↦ rest ]

abbrev pub start_walk : ℕ → Walk
start_walk next_ref_id = record {
  next_ref_id = next_ref_id;
  refs = [];
  count = 0;
  truncated = false;
}

-- The capture, and the counter after it.
abbrev pub capture_of : Option RawAxNode → AxNodes → Walk → Text → AxCapture × ℕ
capture_of root children st url = (
  record {
    snapshot = record {
      root = elim root [
        | none ↦ node root_ref [] [] none children
        | some r ↦ node root_ref (get_or r.role []) (get_or r.name []) r.value children
      ];
      url = url;
      truncated = st.truncated;
      navigated_from = none;
    };
    refs = st.refs;
  },
  st.next_ref_id,
)

unfoldable pub build_tree :
    ℕ → List RawAxNode → ℕ → Text → Assoc ResolvedRef → Option (AxCapture × ℕ)
build_tree fuel nodes next_ref_id url previous = elim (find_root nodes) [
  | none ↦ some (capture_of none nil (start_walk next_ref_id) url)
  | some r ↦ elim (walk_children nodes previous fuel r.node_id (start_walk next_ref_id)) [
    | none ↦ none
    | some (children, st) ↦ some (capture_of (some r) children st url)
  ]
]

abbrev pub is_form_control_role : Text → Bool
is_form_control_role role =
    text_eq role (text "textbox")
    || text_eq role (text "searchbox")
    || text_eq role (text "combobox")

-- The type of `RedactionProbe::probe`.
abbrev pub Probe : Type 0 → Type 0
Probe W = W → ℕ → Result (Unit {0}) Bool × W

-- `!matches!(result, Ok(false))`.
abbrev pub says_redact : Result (Unit {0}) Bool → Bool
says_redact (ok b) = b
says_redact (err _) = true

module _ {W : Type 0} (probe : Probe W) where
  -- The test on a reference: of another process, or by the probe.
  abbrev pub must_redact : W → ResolvedRef → Bool × W
  must_redact w resolved =
      let (answer, w') = probe w resolved.backend_node_id in
      if resolved.is_oopif then (true, w) else (says_redact answer, w')

  -- What becomes of the value of a node.
  unfoldable pub redact_value : Assoc ResolvedRef → W → Text → Text → Option Text → Option Text × W
  redact_value refs w node_ref role value =
      if is_form_control_role role
      then elim (lookup node_ref refs) [
        | none ↦ (value, w)
        | some resolved ↦
            let (redact, w') = must_redact w resolved in
            (if redact then some redacted_placeholder else value, w')
      ]
      else (value, w)

  unfoldable mutual
    pub redact_form_control_values : Assoc ResolvedRef → W → AxNode → AxNode × W
    redact_form_control_values refs w (node node_ref role name value children) =
        let (kept, w₁) = redact_value refs w node_ref role value in
        let (inner, w₂) = redact_children refs w₁ children in
        (node node_ref role name kept inner, w₂)

    pub redact_children : Assoc ResolvedRef → W → AxNodes → AxNodes × W
    redact_children refs w nil = (nil, w)
    redact_children refs w (cons n ns) =
        let (n', w₁) = redact_form_control_values refs w n in
        let (ns', w₂) = redact_children refs w₁ ns in (cons n' ns', w₂)

  -- `capture_snapshot` from the raw nodes on.
  unfoldable pub redact_capture : W → AxCapture → AxCapture × W
  redact_capture w capture =
      let (root, w') = redact_form_control_values capture.refs w capture.snapshot.root in
      (record capture { snapshot = record capture.snapshot { root = root } }, w')
