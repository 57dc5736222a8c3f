-- ===== src/Ax/Tests.antt =====
-- A page with a password field in an ignored group, for crates/native/src/ax.rs.
use stapler_mcp.Common.{
  ℕ, suc, ◌≤◌, ◌≡◌, ◌⊎◌, refl, Bool, true, false, Option, none, some, List, [], ◌∷◌, ◌++◌, map,
  arith, ◌==◌, Text, text, text_eq, show_nat, length, insert, lookup, Assoc, ok, err,
}
use stapler_mcp.Ports.{PortError}
use stapler_mcp.Ax.{
  RawAxNode, ResolvedRef, AxNodes, node, nil, cons, append, AxCapture, Probe, build_tree,
  walk_children, walk_list, visit_child, children_of, keep_child, assign_ref, redact_capture,
  redact_form_control_values, redact_value, previous_ref, root_ref,
}
use stapler_mcp.Ax.Trees.{size, AllNodes}
use stapler_mcp.Ax.Captures.{nodes_below, IsReusedOrNew, build_tree_bounded, build_tree_refs}
use stapler_mcp.Ax.Frames.{CdpNode, FrameLib, raw_node, fetch_frame_tree, fetch_frame_tree_own}

abbrev raw : Text → Option Text → Bool → Text → Option ℕ → RawAxNode
raw id parent ignored role backend = record {
  node_id = id;
  parent_id = parent;
  ignored = ignored;
  role = some role;
  name = none;
  value = some (text "hunter2");
  backend_node_id = backend;
  oopif = false;
}

-- The id of a child is longer than that of its parent.
abbrev page : List RawAxNode
page =
    raw (text "r") none false (text "document") none
    ∷ raw (text "rg") (some (text "r")) true (text "group") (some 5)
    ∷ raw (text "rgp") (some (text "rg")) false (text "textbox") (some 7)
    ∷ raw (text "rb") (some (text "r")) false (text "button") (some 8)
    ∷ []

-- The button was seen before.
abbrev before : Assoc ResolvedRef
before = (text "e3", record { backend_node_id = 8; role = text "button"; is_oopif = false }) ∷ []

abbrev tree : AxNodes
tree =
    cons (node (text "e4") (text "textbox") [] (some (text "hunter2")) nil)
      (cons (node (text "e3") (text "button") [] (some (text "hunter2")) nil) nil)

abbrev shown : AxCapture
shown = record {
  snapshot = record {
    root = node root_ref (text "document") [] (some (text "hunter2")) tree;
    url = text "https://a.test/";
    truncated = false;
    navigated_from = none;
  };
  refs =
      (text "e4", record { backend_node_id = 7; role = text "textbox"; is_oopif = false })
      ∷ (text "e3", record { backend_node_id = 8; role = text "button"; is_oopif = false })
      ∷ [];
}

built : build_tree 4 page 4 (text "https://a.test/") before ≡ some (shown, 5)
unfolding build_tree walk_children walk_list visit_child children_of keep_child assign_ref append
    previous_ref insert text_eq show_nat
built = refl

build_tree_bounded_example :
    (capture : AxCapture) × ((next' : ℕ) × ((build_tree 4 page 4 (text "https://a.test/") before
          ≡ some (capture, next'))
        × (size (nodes_below capture.snapshot.root) ≤ 500)
        × ((capture.snapshot.truncated ≡ false)
            ⊎ (size (nodes_below capture.snapshot.root) ≡ 500))))
build_tree_bounded_example =
    build_tree_bounded page before length 3 (omega arith) (omega arith) 4 (text "https://a.test/")

build_tree_refs_example :
    (capture : AxCapture) × ((next' : ℕ) × ((build_tree 4 page 4 (text "https://a.test/") before
          ≡ some (capture, next'))
        × (4 ≤ next')
        × AllNodes (IsReusedOrNew page before 4 next') (nodes_below capture.snapshot.root)))
build_tree_refs_example =
    build_tree_refs page before length 3 (omega arith) (omega arith) 4 (text "https://a.test/")

-- The browser calls every node safe but the seventh.
abbrev seventh : Probe ℕ
seventh n id = (ok (id == 7), suc n)

redacted :
    nodes_below (redact_capture seventh 0 shown).0.snapshot.root
    ≡ cons
        (node (text "e4") (text "textbox") [] (some (text "[REDACTED]")) nil)
        (cons (node (text "e3") (text "button") [] (some (text "hunter2")) nil) nil)
unfolding redact_capture redact_form_control_values redact_value lookup text_eq
redacted = refl

-- Every frame is one iframe node, which shows another frame.
abbrev nested : FrameLib Text ℕ
nested = record {
  as_str = λ v. some v;
  show = λ v. v;
  get_full_ax_tree = λ n session frame. (
    ok (
        record {
          node_id = text "1";
          parent_id = none;
          ignored = false;
          role = some (some (text "Iframe"));
          name = none;
          value = none;
          backend_dom_node_id = some 1;
        }
        ∷ []),
    suc n,
  );
  describe_frame = λ n session id. (ok (some (text "f")), n);
  attach = λ n frame. (ok (text "s"), n);
}

fetch_frame_tree_own_example :
    ((e : PortError) × (((nested.get_full_ax_tree 0 none none).0 ≡ err e)
        × ((fetch_frame_tree nested 2 0 none none).0 ≡ err e)))
    ⊎ ((nodes : List (CdpNode Text)) × ((more : List RawAxNode) × (((nested.get_full_ax_tree 0 none
                none).0
              ≡ ok nodes)
            × ((fetch_frame_tree nested 2 0 none none).0
                ≡ ok (map (raw_node nested none none) nodes ++ more)))))
fetch_frame_tree_own_example = fetch_frame_tree_own nested 2 0 none none
