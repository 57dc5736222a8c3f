-- ===== src/Ax/Frames.antt =====
-- `fetch_frame_tree` of crates/native/src/ax.rs: the tree of a frame, with the trees of the frames in
-- it spliced in. The calls of the DevTools protocol are functions on the state of the world, and the
-- JSON value of an `AxValue` is a parameter. The first argument counts the levels that may still be
-- entered: it is MAX_FRAME_DEPTH less the depth.
use stapler_mcp.Common.{
  ℕ, zero, suc, ◌≡◌, ◌⊎◌, refl, sym, ap, ◌∙◌, inl, inr, Bool, true, false, Option, none, some, List,
  [], ◌∷◌, ◌++◌, map, if◌then◌else◌, Text, text, text_eq, Result, ok, err, Result-cases,
}
use mathlib.Core.List.{append-nil, append_assoc}
use stapler_mcp.Ports.{PortError}
use stapler_mcp.Crawler.{get_or}
use stapler_mcp.Ax.{RawAxNode, max_frame_depth}

-- `accessibility::AxNode` of the protocol, its values of a type `V`.
pub record CdpNode (V : Type 0) : Type 0 where
  pub node_id : Text
  pub parent_id : Option Text
  pub ignored : Bool
  pub role : Option (Option V)
  pub name : Option (Option V)
  pub value : Option (Option V)
  pub backend_dom_node_id : Option ℕ

pub record FrameLib (V W : Type 0) : Type 0 where
  -- `serde_json::Value::as_str` and `to_string`.
  pub as_str : V → Option Text
  pub show : V → Text
  -- `Accessibility.getFullAXTree` for a frame, in a session.
  pub get_full_ax_tree : W → Option Text → Option Text → Result PortError (List (CdpNode V)) × W
  -- `DOM.describeNode`, with the frame id of the node.
  pub describe_frame : W → Option Text → ℕ → Result PortError (Option Text) × W
  -- `OopifHub::attach`.
  pub attach : W → Text → Result PortError Text × W

-- The first node without a parent gets one.
unfoldable pub set_root_parent : Text → List RawAxNode → List RawAxNode
set_root_parent id [] = []
set_root_parent id (n ∷ ns) =
    let rest = set_root_parent id ns in
    elim n.parent_id [ none ↦ record n { parent_id = some id } ∷ ns | some p ↦ n ∷ rest ]

-- The nodes with the role of an iframe that have a backend node.
unfoldable pub iframe_nodes : List RawAxNode → List (Text × ℕ)
iframe_nodes [] = []
iframe_nodes (n ∷ ns) =
    let rest = iframe_nodes ns in
    elim n.role [
      | none ↦ rest
      | some role ↦
          if text_eq role (text "Iframe")
          then elim n.backend_node_id [ none ↦ rest | some b ↦ (n.node_id, b) ∷ rest ]
          else rest
    ]

module _ {V W : Type 0} (lib : FrameLib V W) where
  unfoldable pub ax_value_to_string : Option V → Option Text
  ax_value_to_string none = none
  ax_value_to_string (some v) = some (get_or (lib.as_str v) (lib.show v))

  abbrev pub text_of : Option (Option V) → Option Text
  text_of none = none
  text_of (some v) = ax_value_to_string v

  abbrev pub frame_key : Option Text → Option Text → Text
  frame_key session frame = get_or session [] ++ (text "/" ++ get_or frame [])

  abbrev pub prefix : Option Text → Option Text → Text → Text
  prefix session frame id = frame_key session frame ++ (text ":" ++ id)

  abbrev pub prefix_parent : Option Text → Option Text → Option Text → Option Text
  prefix_parent session frame none = none
  prefix_parent session frame (some p) = some (prefix session frame p)

  abbrev pub is_attached : Option Text → Bool
  is_attached none = false
  is_attached (some s) = true

  unfoldable pub raw_node : Option Text → Option Text → CdpNode V → RawAxNode
  raw_node session frame n = record {
    node_id = prefix session frame n.node_id;
    parent_id = prefix_parent session frame n.parent_id;
    ignored = n.ignored;
    role = text_of n.role;
    name = text_of n.name;
    value = text_of n.value;
    backend_node_id = n.backend_dom_node_id;
    oopif = is_attached session;
  }

  -- The type of the fetch of one level deeper.
  abbrev pub Fetch : Type 0
  Fetch = W → Option Text → Option Text → Result PortError (List RawAxNode) × W

  unfoldable pub fetch_oopif_tree : Fetch → W → Text → Result PortError (List RawAxNode) × W
  fetch_oopif_tree fetch w child_frame_id =
      let (attached, w') = lib.attach w child_frame_id in
      elim attached [ err e ↦ (err e, w') | ok session ↦ fetch w' (some session) none ]

  -- In the same process, or else by a session of its own; none where both fail.
  unfoldable pub fetch_child : Fetch → W → Option Text → Text → Option (List RawAxNode) × W
  fetch_child fetch w session child_frame_id =
      let (same_process, w₁) = fetch w session (some child_frame_id) in
      let (oopif, w₂) = fetch_oopif_tree fetch w₁ child_frame_id in
      elim same_process [
        | ok nodes ↦ (some nodes, w₁)
        | err e ↦ elim oopif [ ok nodes ↦ (some nodes, w₂) | err e' ↦ (none, w₂) ]
      ]

  -- What one iframe adds.
  unfoldable pub splice_frame : Fetch → W → Option Text → Text × ℕ → List RawAxNode × W
  splice_frame fetch w session (iframe_node_id, backend_id) =
      let (described, w₁) = lib.describe_frame w session backend_id in
      elim described [
        | err e ↦ ([], w₁)
        | ok none ↦ ([], w₁)
        | ok (some child_frame_id) ↦
            let (child, w₂) = fetch_child fetch w₁ session child_frame_id in
            elim child [ none ↦ ([], w₂) | some nodes ↦ (set_root_parent iframe_node_id nodes, w₂) ]
      ]

  unfoldable pub splice_frames :
      Fetch → W → Option Text → List (Text × ℕ) → List RawAxNode → List RawAxNode × W
  splice_frames fetch w session [] raw = (raw, w)
  splice_frames fetch w session (iframe ∷ iframes) raw =
      let (added, w') = splice_frame fetch w session iframe in
      splice_frames fetch w' session iframes (raw ++ added)

  unfoldable pub fetch_frame_tree : ℕ → Fetch
  fetch_frame_tree zero w session frame =
      let (resp, w') = lib.get_full_ax_tree w session frame in
      elim resp [ err e ↦ (err e, w') | ok nodes ↦ (ok (map (raw_node session frame) nodes), w') ]
  fetch_frame_tree (suc left) w session frame =
      let (resp, w') = lib.get_full_ax_tree w session frame in
      elim resp [
        | err e ↦ (err e, w')
        | ok nodes ↦
            let raw = map (raw_node session frame) nodes in
            let (spliced, w'') =
              splice_frames (fetch_frame_tree left) w' session (iframe_nodes raw) raw in
            (ok spliced, w'')
      ]

  -- The page's main frame is at depth 0.
  abbrev pub fetch_page_tree : W → Option Text → Result PortError (List RawAxNode) × W
  fetch_page_tree w frame = fetch_frame_tree max_frame_depth w none frame

  splice_frames_prefix :
      (fetch : Fetch) (session : Option Text) (iframes : List (Text × ℕ)) (w : W)
      (raw : List RawAxNode)
      → (more : List RawAxNode) × ((splice_frames fetch w session iframes raw).0 ≡ raw ++ more)
  unfolding splice_frames
  splice_frames_prefix fetch session [] w raw = ([], sym (append-nil _))
  splice_frames_prefix fetch session (iframe ∷ iframes) w raw =
      let (added, w') = splice_frame fetch w session iframe in
      let (more, e) = splice_frames_prefix fetch session iframes w' (raw ++ added) in
      (added ++ more, e ∙ append_assoc raw added more)

  -- The fetch of a frame fails only where the call for its own tree fails; otherwise its nodes come
  -- first, whatever happens to the frames in it, before other nodes.
  pub fetch_frame_tree_own :
      (left : ℕ) (w : W) (session frame : Option Text)
      → ((e : PortError) × (((lib.get_full_ax_tree w session frame).0 ≡ err e)
            × ((fetch_frame_tree left w session frame).0 ≡ err e)))
        ⊎ ((nodes : List (CdpNode V)) × ((more : List RawAxNode) × (((lib.get_full_ax_tree w session
                    frame).0
                  ≡ ok nodes)
                × ((fetch_frame_tree left w session frame).0
                    ≡ ok (map (raw_node session frame) nodes ++ more)))))
  unfolding fetch_frame_tree
  fetch_frame_tree_own zero w session frame =
      elim (Result-cases (lib.get_full_ax_tree w session frame).0) [
        | inr (e, f) ↦ inl (e, (f, rw (f, fetch_frame_tree) refl))
        | inl (nodes, f) ↦
            inr (nodes, ([], (f, rw (f, fetch_frame_tree) (ap ok (sym (append-nil _))))))
      ]
  fetch_frame_tree_own (suc left) w session frame =
      elim (Result-cases (lib.get_full_ax_tree w session frame).0) [
        | inr (e, f) ↦ inl (e, (f, rw (f, fetch_frame_tree) refl))
        | inl (nodes, f) ↦
            let raw = map (raw_node session frame) nodes in
            let (more, e) =
              splice_frames_prefix (fetch_frame_tree left) session (iframe_nodes raw)
                (lib.get_full_ax_tree w session frame).1 raw in
            inr (nodes, (more, (f, rw (f, fetch_frame_tree) (ap ok e))))
      ]
