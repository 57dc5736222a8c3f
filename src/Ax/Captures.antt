-- ===== src/Ax/Captures.antt =====
-- What `build_tree` of crates/native/src/ax.rs gives: how many nodes, and which references.
use stapler_mcp.Common.{
  ℕ, suc, ◌≤◌, ◌<◌, ◌≡◌, ◌≢◌, ◌⊎◌, refl, ◌∙◌, inl, inr, false, none, some, List, arith,
  Option-cases, Text, show_nat-injective, All, IsIn, Option, Assoc,
}
use stapler_mcp.Ax.{
  RawAxNode, ResolvedRef, AxNode, AxNodes, node, nil, AxCapture, Walk, ref_name, find_root,
  start_walk, capture_of, build_tree,
}
use stapler_mcp.Ax.Trees.{size, AllNodes, AllNodes-map_of}
use stapler_mcp.Ax.Walks.{
  IsShown, HadRef, IsKnown, Grew, RanksAbove, walk_children-Grew, find_root-below,
}

abbrev pub nodes_below : AxNode → AxNodes
nodes_below (node r o n v children) = children

-- The node is one of those of the browser, shown as it is; and its reference is one that the previous
-- capture had for it, or a new one: made in this capture, from a counter that no reference of an
-- earlier value of the counter has.
abbrev pub IsReusedOrNew :
    List RawAxNode → Assoc ResolvedRef → ℕ → ℕ → Text → Text → Text → Option Text → Type 0
IsReusedOrNew nodes previous lo hi r o n v =
    (child : RawAxNode) × (IsIn child nodes
      × (IsShown nodes previous child o n v
          × (HadRef nodes previous child r
              ⊎ (((k : ℕ) × ((k < hi) × (r ≡ ref_name k))) × ((j : ℕ) → j < lo → r ≢ ref_name j)))))

IsKnown-IsReusedOrNew :
    (nodes : List RawAxNode) (previous : Assoc ResolvedRef) (lo hi : ℕ) (r o n : Text)
    (v : Option Text)
    → IsKnown nodes previous lo hi r o n v
    → IsReusedOrNew nodes previous lo hi r o n v
IsKnown-IsReusedOrNew nodes previous lo hi r o n v (child, (i, (shown, inl reused))) =
    (child, (i, (shown, inl reused)))
IsKnown-IsReusedOrNew nodes previous lo hi r o n v (child, (i, (shown, inr (k, (low, high, e))))) =
    (
      child,
      (
        i,
        (
          shown,
          inr ((k, (high, e)), λ j old same. absurd (differ j old (ground (arith, e, same)))),
        ),
      ),
    )
  where
    differ : (j : ℕ) → j < lo → ref_name j ≡ ref_name k → ⊥
    differ j old same =
        let j_k : j ≡ k = show_nat-injective j k (ground (arith, same)) in omega arith

module _ (nodes : List RawAxNode) (previous : Assoc ResolvedRef) (rank : Text → ℕ) (bound : ℕ)
    (below : All (λ n. rank n.node_id ≤ bound) nodes) (grows : All (RanksAbove rank) nodes)
    (next : ℕ) (url : Text) where
  -- A capture, and the walk that made it.
  abbrev Captured : AxCapture → ℕ → Type 0
  Captured capture next' =
      (build_tree (suc bound) nodes next url previous ≡ some (capture, next'))
      × ((st : Walk) × (Grew nodes previous (start_walk next) st (nodes_below capture.snapshot.root)
            × (capture.snapshot.truncated ≡ st.truncated)
            × (next' ≡ st.next_ref_id)))

  build_tree_captures : (capture : AxCapture) × ((next' : ℕ) × Captured capture next')
  unfolding build_tree size
  build_tree_captures = elim (Option-cases (find_root nodes)) [
    | inl e ↦ (
      (capture_of none nil (start_walk next) url).0,
      (
        next,
        (
          rw (e, build_tree) refl,
          (
            start_walk next,
            (
              record {
                counted = omega arith;
                capped = omega arith;
                counter = omega arith;
                known = tt;
                flagged = inl refl;
              },
              refl,
              refl,
            ),
          ),
        ),
      ),
    )
    | inr (r, e) ↦
        let low = find_root-below nodes previous rank bound below grows nodes below e in
        let (out, (st, (walked, g))) =
          walk_children-Grew nodes previous rank bound below grows (suc bound) r.node_id low
            (omega arith) (start_walk next) in
        (
          (capture_of (some r) out st url).0,
          (st.next_ref_id, (rw (e, walked, build_tree) refl, (st, (g, refl, refl)))),
        )
  ]

  -- Where the parents of the nodes make no cycle, so that some rank below the fuel grows from parent
  -- to child, the tree is built; it has at most 500 nodes below the root, and when it is flagged as
  -- truncated it has exactly 500.
  pub build_tree_bounded :
      (capture : AxCapture) × ((next' : ℕ) × ((build_tree (suc bound) nodes next url previous
            ≡ some (capture, next'))
          × (size (nodes_below capture.snapshot.root) ≤ 500)
          × ((capture.snapshot.truncated ≡ false)
              ⊎ (size (nodes_below capture.snapshot.root) ≡ 500))))
  build_tree_bounded =
      let (capture, (next', (built, (st, (g, flag, counter))))) = build_tree_captures in
      let bounded : size (nodes_below capture.snapshot.root) ≤ 500 =
        omega (arith, g.counted, g.capped) in
      (
        capture,
        (
          next',
          (
            built,
            bounded,
            elim g.flagged [
              | inl same ↦ inl (flag ∙ same)
              | inr full ↦ inr (omega (arith, g.counted, bounded))
            ],
          ),
        ),
      )

  -- Under the same condition, every node of the tree below the root shows one of the nodes that the
  -- browser gave, with its role, name and value; and its reference is one that the previous capture
  -- had for a node with the same backend id, where both are of the page's own process, or it is made
  -- from a counter below the new one and differs from every reference that an earlier counter made.
  pub build_tree_refs :
      (capture : AxCapture) × ((next' : ℕ) × ((build_tree (suc bound) nodes next url previous
            ≡ some (capture, next'))
          × (next ≤ next')
          × AllNodes (IsReusedOrNew nodes previous next next') (nodes_below capture.snapshot.root)))
  build_tree_refs =
      let (capture, (next', (built, (st, (g, flag, counter))))) = build_tree_captures in
      (
        capture,
        (
          next',
          (
            built,
            omega (arith, g.counter, counter),
            rw counter (
                AllNodes-map_of (IsKnown-IsReusedOrNew nodes previous next st.next_ref_id) _
                  g.known),
          ),
        ),
      )
