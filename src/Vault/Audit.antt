-- ===== src/Vault/Audit.antt =====
-- What `resolve_uncached` of crates/native/src/vault.rs answers, caches and logs.
use stapler_mcp.Common.{
  ◌≡◌, ◌⊎◌, refl, subst, inl, inr, some, List, [], ◌∷◌, ◌++◌, arith, ◌==◌, Bool-cases, Option-cases,
  Text, text, text_eq, text_eq_iff, lookup, insert, lookup-insert, Assoc, Result, ok, err,
  Result-cases,
}
use stapler_mcp.Ports.{PortError, ProcessOutput, CredentialRef}
use stapler_mcp.Web.{WebLib}
use stapler_mcp.Vault.{
  ValueLib, SpawnAndCapture, SecretValue, Vault, build_argv, secret_of, read_field, resolve_with,
  reject_lookup, resolve_uncached, log_resolve_outcome, outcome_name, field_name, lookup_domain,
}

module _ (L : WebLib) (J : ValueLib) {W : Type 0} (spawn : SpawnAndCapture W) where
  abbrev audit_line : CredentialRef → Result PortError SecretValue → Text
  audit_line r result =
      text "stapler-mcp: credential resolve domain='"
      ++ (r.domain
          ++ (text "' field=" ++ (field_name r.field ++ (text " outcome=" ++ outcome_name result))))

  -- The result came from the call for the field with these ids.
  abbrev pub AnswersFrom : CredentialRef → Text × Text → Result PortError SecretValue → Type 0
  AnswersFrom r ids (err e) = Unit
  AnswersFrom r ids (ok s) =
      (w : W) × ((output : ProcessOutput) × (((spawn w (build_argv r.field ids.0 ids.1)).0
            ≡ ok output)
          × (output.exit_code ≡ 0)
          × (s ≡ secret_of L output.stdout)))

  read_field-AnswersFrom :
      (w : W) (r : CredentialRef) (ids : Text × Text)
      → AnswersFrom r ids (read_field L spawn w r.field ids).0
  unfolding read_field
  read_field-AnswersFrom w r (v, i) = elim (Result-cases (spawn w (build_argv r.field v i)).0) [
    | inr (e, f) ↦ rw (f, read_field) tt
    | inl (output, f) ↦ elim (Bool-cases (output.exit_code == 0)) [
      | inr failed ↦ rw (f, failed, read_field) tt
      | inl done ↦ rw (f, done, read_field) (w, (output, (f, ground arith, refl)))
    ]
  ]

  -- However a resolution ends, it appends exactly one line to the log, with the domain, the field and
  -- the name of the outcome.
  pub resolve_uncached_audited :
      (st : Vault W) (r : CredentialRef)
      → (resolve_uncached L J spawn st r).1.log
        ≡ st.log ++ audit_line r (resolve_uncached L J spawn st r).0 ∷ []
  unfolding resolve_uncached resolve_with reject_lookup log_resolve_outcome
  resolve_uncached_audited st r = elim (Option-cases (lookup r.domain st.id_cache)) [
    | inr (ids, e) ↦ rw (e, resolve_uncached) refl
    | inl e ↦ elim (Result-cases (lookup_domain L J spawn st.world r.domain).0) [
      | inl (ids, f) ↦ rw (e, f, resolve_uncached) refl
      | inr (x, f) ↦ rw (e, f, resolve_uncached) refl
    ]
  ]

  -- Some lookup of the domain gave these ids.
  abbrev pub Confirmed : Text → Text × Text → Type 0
  Confirmed domain ids = (w : W) × ((lookup_domain L J spawn w domain).0 ≡ ok ids)

  abbrev AllConfirmed : Assoc (Text × Text) → Type 0
  AllConfirmed cache =
      (domain : Text) (ids : Text × Text) → lookup domain cache ≡ some ids → Confirmed domain ids

  insert-AllConfirmed :
      (cache : Assoc (Text × Text)) (domain : Text) (ids : Text × Text)
      → AllConfirmed cache
      → Confirmed domain ids
      → AllConfirmed (insert domain ids cache)
  insert-AllConfirmed cache domain ids h c d x e = elim (Bool-cases (text_eq domain d)) [
    | inl same ↦
        let at_d : some ids ≡ some x = rw (lookup-insert domain d ids cache, same) at e in
        let ids_eq : ids ≡ x = cc in
        subst (λ t. Confirmed t x) ((text_eq_iff domain d).0 same)
          (subst (Confirmed domain) ids_eq c)
    | inr apart ↦ h d x (rw (lookup-insert domain d ids cache, apart) at e)
  ]

  -- What one resolution keeps and answers.
  resolve_uncached-AllConfirmed :
      (st : Vault W) (r : CredentialRef)
      → AllConfirmed st.id_cache
      → AllConfirmed (resolve_uncached L J spawn st r).1.id_cache
        × (((ids : Text × Text) × (Confirmed r.domain ids
                × AnswersFrom r ids (resolve_uncached L J spawn st r).0))
            ⊎ ((e : PortError) × ((resolve_uncached L J spawn st r).0 ≡ err e)))
  unfolding resolve_uncached resolve_with reject_lookup
  resolve_uncached-AllConfirmed st r h = elim (Option-cases (lookup r.domain st.id_cache)) [
    | inr (ids, e) ↦
        rw (e, resolve_uncached)
          (h, inl (ids, (h r.domain ids e, read_field-AnswersFrom st.world r ids)))
    | inl e ↦ elim (Result-cases (lookup_domain L J spawn st.world r.domain).0) [
      | inl (ids, f) ↦
          let c : Confirmed r.domain ids = (st.world, f) in
          rw (e, f, resolve_uncached)
            (
              insert-AllConfirmed st.id_cache r.domain ids h c,
              inl (ids, (c, read_field-AnswersFrom _ r ids)),
            )
      | inr (x, f) ↦ rw (e, f, resolve_uncached) (h, inr (x, refl))
    ]
  ]

  -- The store after a sequence of resolutions.
  abbrev resolve_each : Vault W → List CredentialRef → Vault W
  resolve_each st [] = st
  resolve_each st (r ∷ rs) = resolve_each (resolve_uncached L J spawn st r).1 rs

  resolve_each-AllConfirmed :
      (rs : List CredentialRef) (st : Vault W)
      → AllConfirmed st.id_cache
      → AllConfirmed (resolve_each st rs).id_cache
  resolve_each-AllConfirmed [] st h = h
  resolve_each-AllConfirmed (r ∷ rs) st h =
      resolve_each-AllConfirmed rs _ (resolve_uncached-AllConfirmed st r h).0

  -- After any sequence of resolutions from an empty cache, a secret is the decoded output of the call
  -- for its field, without one newline, with a vault and an item that a lookup of its domain gave.
  pub resolve_uncached_sound :
      (w : W) (log : List Text) (rs : List CredentialRef) (r : CredentialRef) {s : SecretValue}
      → (resolve_uncached L J spawn
          (resolve_each (record { world = w; id_cache = []; log = log }) rs)
          r).0
        ≡ ok s
      → (ids : Text × Text) × (Confirmed r.domain ids × AnswersFrom r ids (ok s))
  unfolding lookup
  resolve_uncached_sound w log rs r {s} e =
      let st = resolve_each (record { world = w; id_cache = []; log = log }) rs in
      elim (resolve_uncached-AllConfirmed st r
        (resolve_each-AllConfirmed rs _ (λ d x f. absurd cc))).1 [
          | inl (ids, (c, a)) ↦ (ids, (c, subst (AnswersFrom r ids) e a))
          | inr (x, f) ↦ absurd (cc)
        ]
