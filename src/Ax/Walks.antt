-- ===== src/Ax/Walks.antt =====
-- The walk of `walk_children` of crates/native/src/ax.rs: it ends on a forest, its size is bounded,
-- and its references are those of before or new.
use stapler_mcp.Common.{
  ℕ, zero, suc, ◌+◌, ◌≤◌, ◌<◌, ◌≡◌, ◌⊎◌, refl, subst, ◌∙◌, inl, inr, true, false, Option, none,
  some, List, [], ◌∷◌, arith, leb, max, Bool-cases, Option-cases, Text, text_eq_iff, select, All,
  All-map_of, IsIn, Assoc, ap,
}
use stapler_mcp.Ax.{
  max_snapshot_nodes, RawAxNode, ResolvedRef, AxNodes, nil, append, Walk, previous_ref, reusable,
  ref_name, assign_ref, keep_child, is_child, children_of, visit_child, walk_list, walk_children,
  find_root,
}
use stapler_mcp.Crawler.{get_or}
use stapler_mcp.Ax.Trees.{size, AllNodes, size-append, AllNodes-append, AllNodes-map_of}

module _ (nodes : List RawAxNode) (previous : Assoc ResolvedRef) where
  -- The role, the name and the value are those of the node of the browser.
  abbrev pub IsShown : RawAxNode → Text → Text → Option Text → Type 0
  IsShown child o n v = (get_or child.role [] ≡ o) × (get_or child.name [] ≡ n) × (child.value ≡ v)

  -- The previous capture has the reference for the same node: one with the same backend id, where both
  -- are of the page's own process.
  abbrev pub HadRef : RawAxNode → Text → Type 0
  HadRef child r =
      (id : ℕ) × ((resolved : ResolvedRef) × ((child.backend_node_id ≡ some id)
          × (child.oopif ≡ false)
          × IsIn (r, resolved) previous
          × (resolved.backend_node_id ≡ id)
          × (resolved.is_oopif ≡ false)))

  -- A reference that the node had in the previous capture, or one that was made in a range of the
  -- counter.
  abbrev pub IsRefOf : ℕ → ℕ → RawAxNode → Text → Type 0
  IsRefOf lo hi child r = HadRef child r ⊎ ((k : ℕ) × ((lo ≤ k) × (k < hi) × (r ≡ ref_name k)))

  abbrev pub IsKnown : ℕ → ℕ → Text → Text → Text → Option Text → Type 0
  IsKnown lo hi r o n v =
      (child : RawAxNode) × (IsIn child nodes × (IsShown child o n v × IsRefOf lo hi child r))

  -- What a part of the walk adds.
  pub record Grew (st st' : Walk) (out : AxNodes) : Type 0 where
    pub counted : st'.count ≡ st.count + size out
    pub capped : st'.count ≤ max max_snapshot_nodes st.count
    pub counter : st.next_ref_id ≤ st'.next_ref_id
    pub known : AllNodes (IsKnown st.next_ref_id st'.next_ref_id) out
    pub flagged : (st'.truncated ≡ st.truncated) ⊎ (max_snapshot_nodes ≤ st'.count)

  IsRefOf-widen :
      (lo hi lo' hi' : ℕ)
      → lo' ≤ lo
      → hi ≤ hi'
      → (child : RawAxNode) (r : Text) → IsRefOf lo hi child r
      → IsRefOf lo' hi' child r
  IsRefOf-widen lo hi lo' hi' l h child r (inl p) = inl p
  IsRefOf-widen lo hi lo' hi' l h child r (inr (k, (a, b, e))) =
      inr (k, (omega arith, omega arith, e))

  IsKnown-widen :
      (lo hi lo' hi' : ℕ)
      → lo' ≤ lo
      → hi ≤ hi'
      → (r o n : Text) (v : Option Text) → IsKnown lo hi r o n v
      → IsKnown lo' hi' r o n v
  IsKnown-widen lo hi lo' hi' l h r o n v (child, (i, (shown, known))) =
      (child, (i, (shown, IsRefOf-widen lo hi lo' hi' l h child r known)))

  Grew-append :
      (st st₁ st₂ : Walk) (added out : AxNodes)
      → Grew st st₁ added
      → Grew st₁ st₂ out
      → Grew st st₂ (append added out)
  Grew-append st st₁ st₂ added out g h = record {
    counted = omega (arith, g.counted, h.counted, size-append added out);
    capped = ground (arith, g.capped, h.capped);
    counter = omega (arith, g.counter, h.counter);
    known =
        AllNodes-append (IsKnown st.next_ref_id st₂.next_ref_id) added out
          (AllNodes-map_of (IsKnown-widen _ _ _ _ (omega arith) h.counter) added g.known)
          (AllNodes-map_of (IsKnown-widen _ _ _ _ g.counter (omega arith)) out h.known);
    flagged = elim h.flagged [
      | inr full ↦ inr full
      | inl same ↦ elim g.flagged [
        | inl before ↦ inl (same ∙ before)
        | inr full ↦ inr (omega (arith, h.counted))
      ]
    ];
  }

  previous_ref_found :
      (refs : Assoc ResolvedRef) (id : ℕ) (r : Text)
      → previous_ref refs id ≡ some r
      → (resolved : ResolvedRef) × (IsIn (r, resolved) refs
          × (resolved.backend_node_id ≡ id)
          × (resolved.is_oopif ≡ false))
  unfolding previous_ref
  previous_ref_found [] id r e = absurd cc
  previous_ref_found ((s, resolved) ∷ refs) id r e = elim (Option-cases (previous_ref refs id)) [
    | inr (t, later) ↦
        let (found, (i, same, own)) =
          previous_ref_found refs id r (later ∙ (rw (later, previous_ref) at e)) in
        (found, (inr i, same, own))
    | inl no_later ↦ (
      resolved,
      (
        inl (ap (λ (x : Text). (x, resolved)) (ground (arith, no_later))),
        ground (arith, no_later),
        ground (arith, no_later),
      ),
    )
  ]

  reused : (child : RawAxNode) (r : Text) → reusable previous child ≡ some r → HadRef child r
  reused child r e = elim (Option-cases child.backend_node_id) [
    | inl none_id ↦ absurd (cc (rw (none_id) at e))
    | inr (id, given) ↦ elim (Bool-cases child.oopif) [
      | inl other_process ↦ absurd (cc (rw (given, other_process) at e))
      | inr same_process ↦
          let (resolved, (i, same, own)) =
            previous_ref_found previous id r (rw (given, same_process) at e) in
          (id, (resolved, (given, same_process, i, same, own)))
    ]
  ]

  assign_ref-IsRefOf :
      (child : RawAxNode) (n : ℕ)
      → (n ≤ (assign_ref previous child n).1)
        × IsRefOf n (assign_ref previous child n).1 child (assign_ref previous child n).0
  unfolding assign_ref
  assign_ref-IsRefOf child n = elim (Option-cases (reusable previous child)) [
    | inl e ↦ rw (e, assign_ref) (omega arith, inr (n, (omega arith, omega arith, refl)))
    | inr (r, e) ↦ rw (e, assign_ref) (omega arith, inl (reused child r e))
  ]

  keep_child-Grew :
      (child : RawAxNode) (st st' : Walk) (grandchildren : AxNodes)
      → IsIn child nodes
      → st.count < max_snapshot_nodes
      → Grew (record st { count = st.count + 1 }) st' grandchildren
      → Grew st
          (keep_child previous child grandchildren st').1
          (keep_child previous child grandchildren st').0
  unfolding keep_child size
  keep_child-Grew child st st' gc given small g =
      let (up, own) = assign_ref-IsRefOf child st'.next_ref_id in
      record {
        counted = omega (arith, g.counted);
        capped = ground (arith, g.capped);
        counter = omega (arith, up, g.counter);
        known = (
          (
            child,
            (
              given,
              ((refl, refl, refl), IsRefOf-widen _ _ _ _ g.counter (omega arith) child _ own),
            ),
          ),
          (AllNodes-map_of (IsKnown-widen _ _ _ _ (omega arith) up) gc g.known, tt),
        );
        flagged = g.flagged;
      }

  -- What the descent into a node gives.
  abbrev Descends : (Text → Walk → Option (AxNodes × Walk)) → RawAxNode → Type 0
  Descends descend child =
      (st : Walk)
      → (out : AxNodes) × ((st' : Walk) × ((descend child.node_id st ≡ some (out, st'))
            × Grew st st' out))

  visit_child-Grew :
      (descend : Text → Walk → Option (AxNodes × Walk)) (child : RawAxNode) (st : Walk)
      → IsIn child nodes
      → Descends descend child
      → (out : AxNodes) × ((st' : Walk) × ((visit_child previous descend child st ≡ some (out, st'))
            × Grew st st' out))
  unfolding visit_child size keep_child assign_ref
  visit_child-Grew descend child st given h = elim (Bool-cases child.ignored) [
    | inl ignored ↦
        let (out, (st', (e, g))) = h st in (out, (st', (rw (ignored, visit_child) e, g)))
    | inr shown ↦ elim (Bool-cases (leb max_snapshot_nodes st.count)) [
      | inl full ↦ (
        nil,
        (
          record st { truncated = true },
          (
            rw (shown, full, visit_child) refl,
            record {
              counted = omega arith;
              capped = ground arith;
              counter = omega arith;
              known = tt;
              flagged = inr (ground (arith, full));
            },
          ),
        ),
      )
      | inr room ↦
          let (out, (st', (e, g))) = h (record st { count = st.count + 1 }) in
          (
            (keep_child previous child out st').0,
            (
              (keep_child previous child out st').1,
              (
                rw (shown, room, e, visit_child) refl,
                keep_child-Grew child st st' out given (ground (arith, room)) g,
              ),
            ),
          )
    ]
  ]

  walk_list-Grew :
      (descend : Text → Walk → Option (AxNodes × Walk)) (children : List RawAxNode) (st : Walk)
      → All (λ n. IsIn n nodes × Descends descend n) children
      → (out : AxNodes) × ((st' : Walk) × ((walk_list previous descend children st
              ≡ some (out, st'))
            × Grew st st' out))
  unfolding walk_list size
  walk_list-Grew descend [] st h = (
    nil,
    (
      st,
      (
        refl,
        record {
          counted = omega arith;
          capped = ground arith;
          counter = omega arith;
          known = tt;
          flagged = inl refl;
        },
      ),
    ),
  )
  walk_list-Grew descend (child ∷ children) st ((i, d), h) =
      let (added, (st₁, (e₁, g₁))) = visit_child-Grew descend child st i d in
      let (out, (st₂, (e₂, g₂))) = walk_list-Grew descend children st₁ h in
      (
        append added out,
        (st₂, (rw (e₁, e₂, walk_list) refl, Grew-append st st₁ st₂ added out g₁ g₂)),
      )

-- Where the ranks of nodes grow from parent to child.
abbrev pub RanksAbove : (Text → ℕ) → RawAxNode → Type 0
RanksAbove rank n = elim n.parent_id [ none ↦ Unit {0} | some p ↦ rank p < rank n.node_id ]

module _ (nodes : List RawAxNode) (previous : Assoc ResolvedRef) (rank : Text → ℕ) (bound : ℕ)
    (below : All (λ n. rank n.node_id ≤ bound) nodes) (grows : All (RanksAbove rank) nodes) where
  child-ranks :
      (parent : Text) (n : RawAxNode)
      → RanksAbove rank n
      → is_child parent n ≡ true
      → rank parent < rank n.node_id
  child-ranks parent n g child = elim (Option-cases n.parent_id) [
    | inl top ↦ absurd (cc (rw top at child))
    | inr (p, e) ↦
        let above : rank p < rank n.node_id = rw e at g in
        subst (λ q. rank q < rank n.node_id) ((text_eq_iff p parent).0 (rw e at child)) above
  ]

  children-ranks :
      (parent : Text) (ns : List RawAxNode)
      → All (λ n. rank n.node_id ≤ bound) ns
      → All (RanksAbove rank) ns
      → ((n : RawAxNode) → IsIn n ns → IsIn n nodes)
      → All
          (λ n. IsIn n nodes × ((rank parent < rank n.node_id) × (rank n.node_id ≤ bound)))
          (select (is_child parent) ns)
  children-ranks parent [] b g within = tt
  children-ranks parent (n ∷ ns) (b, bs) (g, gs) within = elim (Bool-cases (is_child parent n)) [
    | inl child ↦ rw child (
      (within n (inl refl), (child-ranks parent n g child, b)),
      children-ranks parent ns bs gs (λ m i. within m (inr i)),
    )
    | inr other ↦ rw other (children-ranks parent ns bs gs (λ m i. within m (inr i)))
  ]

  pub walk_children-Grew :
      (fuel : ℕ) (parent : Text)
      → rank parent ≤ bound
      → bound < fuel + rank parent
      → (st : Walk)
      → (out : AxNodes) × ((st' : Walk) × ((walk_children nodes previous fuel parent st
              ≡ some (out, st'))
            × Grew nodes previous st st' out))
  unfolding walk_children children_of
  walk_children-Grew zero parent low enough st = absurd (omega arith)
  walk_children-Grew (suc fuel) parent low enough st =
      walk_list-Grew nodes previous (walk_children nodes previous fuel) (children_of nodes parent)
        st
        (All-map_of
          (λ n. IsIn n nodes × ((rank parent < rank n.node_id) × (rank n.node_id ≤ bound)))
          (λ n (i, (above, under)). (i, walk_children-Grew fuel n.node_id under (omega arith)))
          (children_of nodes parent) (children-ranks parent nodes below grows (λ n i. i)))

  pub find_root-below :
      (ns : List RawAxNode) {r : RawAxNode}
      → All (λ n. rank n.node_id ≤ bound) ns
      → find_root ns ≡ some r
      → rank r.node_id ≤ bound
  find_root-below [] b e = absurd cc
  find_root-below (n ∷ ns) {r} (b, bs) e = elim (Option-cases n.parent_id) [
    | inl top ↦
        let same : some n ≡ some r = rw (top, find_root) at e in
        let n_r : n ≡ r = cc in subst (λ (x : RawAxNode). rank x.node_id ≤ bound) n_r b
    | inr (p, child) ↦ find_root-below ns bs (rw (child, find_root) at e)
  ]
