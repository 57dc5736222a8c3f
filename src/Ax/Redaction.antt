-- ===== src/Ax/Redaction.antt =====
-- What `redact_form_control_values` of crates/native/src/ax.rs hides and what it keeps.
use stapler_mcp.Common.{
  ◌≡◌, ◌⊎◌, refl, inl, inr, true, false, Option, none, some, Bool-cases, Option-cases, Text, Assoc,
  lookup, ok, Result-cases,
}
use stapler_mcp.Ax.{
  redacted_placeholder, ResolvedRef, AxNode, AxNodes, node, nil, cons, is_form_control_role, Probe,
  redact_value, redact_form_control_values, redact_children,
}

module _ {W : Type 0} (probe : Probe W) (refs : Assoc ResolvedRef) where
  -- Why a value may stay: the node is no form control, it has no entry in the references, or the probe
  -- said that its backend node, which is in the page's own process, is safe.
  abbrev pub IsCleared : Text → Text → Type 0
  IsCleared node_ref role =
      (is_form_control_role role ≡ false)
      ⊎ ((lookup node_ref refs ≡ none)
          ⊎ ((resolved : ResolvedRef) × ((lookup node_ref refs ≡ some resolved)
                × (resolved.is_oopif ≡ false)
                × ((w : W) × ((probe w resolved.backend_node_id).0 ≡ ok false)))))

  abbrev pub IsRedactedValue : Text → Text → Option Text → Option Text → Type 0
  IsRedactedValue node_ref role value kept =
      ((kept ≡ some redacted_placeholder) × (is_form_control_role role ≡ true))
      ⊎ ((kept ≡ value) × IsCleared node_ref role)

  -- The second tree is the first with other values.
  abbrev mutual
    pub IsRedacted : AxNode → AxNode → Type 0
    IsRedacted (node r o n v cs) (node r' o' n' v' cs') =
        (r' ≡ r) × ((o' ≡ o) × ((n' ≡ n) × (IsRedactedValue r o v v' × AreRedacted cs cs')))

    pub AreRedacted : AxNodes → AxNodes → Type 0
    AreRedacted nil nil = Unit
    AreRedacted nil (cons n ns) = ⊥
    AreRedacted (cons m ms) nil = ⊥
    AreRedacted (cons m ms) (cons n ns) = IsRedacted m n × AreRedacted ms ns

  redact_value-IsRedactedValue :
      (w : W) (node_ref role : Text) (value : Option Text)
      → IsRedactedValue node_ref role value (redact_value probe refs w node_ref role value).0
  unfolding redact_value
  redact_value-IsRedactedValue w node_ref role value =
      elim (Bool-cases (is_form_control_role role)) [
        | inr plain ↦ inr (rw (plain, redact_value) refl, inl plain)
        | inl control ↦ elim (Option-cases (lookup node_ref refs)) [
          | inl e ↦ inr (rw (control, e, redact_value) refl, inr (inl e))
          | inr (resolved, e) ↦ elim (Bool-cases resolved.is_oopif) [
            | inl foreign ↦ inl (rw (control, e, redact_value) (rw foreign refl), control)
            | inr own ↦ elim (Result-cases (probe w resolved.backend_node_id).0) [
              | inr (x, f) ↦ inl (rw (control, e, redact_value) (rw (own, f) refl), control)
              | inl (true, f) ↦ inl (rw (control, e, redact_value) (rw (own, f) refl), control)
              | inl (false, f) ↦ inr (
                rw (control, e, redact_value) (rw (own, f) refl),
                inr (inr (resolved, (e, own, (w, f)))),
              )
            ]
          ]
        ]
      ]

  mutual
    unfolding redact_form_control_values redact_children

    redact_node-IsRedacted :
        (w : W) (n : AxNode) → IsRedacted n (redact_form_control_values probe refs w n).0
    redact_node-IsRedacted w (node r o n v cs) = (
      refl,
      (refl, (refl, (redact_value-IsRedactedValue w r o v, redact_children-AreRedacted _ cs))),
    )

    redact_children-AreRedacted :
        (w : W) (ns : AxNodes) → AreRedacted ns (redact_children probe refs w ns).0
    redact_children-AreRedacted w nil = tt
    redact_children-AreRedacted w (cons n ns) =
        (redact_node-IsRedacted w n, redact_children-AreRedacted _ ns)
