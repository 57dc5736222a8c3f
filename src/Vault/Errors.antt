-- ===== src/Vault/Errors.antt =====
-- What an error of `build_op_error` of crates/native/src/vault.rs can say.
use stapler_mcp.Common.{
  ℕ, ◌<◌, ◌≡◌, ◌⊎◌, refl, subst, ◌∙◌, inl, inr, ◌||◌, some, List, [], ◌∷◌, ◌++◌, arith, ◌==◌,
  Bool-cases, Option-cases, Text, text, show_nat, digits_value, reverse, Result, ok, err,
  Result-cases,
}
use stapler_mcp.Ports.{
  PortError, other, credential_unauthenticated, credential_rate_limited, ProcessOutput,
  CredentialField,
}
use stapler_mcp.Web.{WebLib}
use stapler_mcp.Vault.{
  SpawnAndCapture, SecretValue, build_argv, read_field, unauthenticated_message,
  rate_limit_unspecified_delay, retry_detail, rate_limit_retry_after, build_op_error,
  stderr_contains, parse_u64, first_seconds, parse_retry_after_seconds, strip_s,
}

-- Three fixed texts, or a number of seconds that a u64 holds: nothing else of what `op` printed.
abbrev pub IsFixed : PortError → Type 0
IsFixed e =
    (e ≡ credential_unauthenticated unauthenticated_message)
    ⊎ ((e ≡ other (text "op invocation failed"))
        ⊎ ((e ≡ credential_rate_limited rate_limit_unspecified_delay)
            ⊎ ((secs : ℕ) × ((secs < 18446744073709551616)
                  × (e
                      ≡ credential_rate_limited
                          (text "retry after " ++ (show_nat secs ++ text "s")))))))

parse_u64_bound : (s : Text) {n : ℕ} → parse_u64 s ≡ some n → n < 18446744073709551616
unfolding parse_u64 digits_value
parse_u64_bound [] h = absurd cc
parse_u64_bound (c ∷ []) h = ground arith
parse_u64_bound (c ∷ d ∷ s) h = ground arith

first_seconds_bound :
    (tokens : List Text) {n : ℕ} → first_seconds tokens ≡ some n → n < 18446744073709551616
unfolding strip_s
first_seconds_bound [] h = absurd cc
first_seconds_bound (token ∷ tokens) {n} h =
    elim (Option-cases (parse_u64 (reverse (strip_s (reverse token))))) [
      | inl e ↦ first_seconds_bound tokens (rw (e, first_seconds) at h)
      | inr (m, e) ↦
          let same : some m ≡ some n = rw (e, first_seconds) at h in
          parse_u64_bound (reverse (strip_s (reverse token))) (e ∙ same)
    ]

module _ (L : WebLib) where
  retry_detail-IsFixed :
      (output : Result PortError ProcessOutput)
      → IsFixed (credential_rate_limited (retry_detail L output))
  unfolding parse_retry_after_seconds
  retry_detail-IsFixed (err e) = inr (inr (inl refl))
  retry_detail-IsFixed (ok output) = elim (Bool-cases (output.exit_code == 0)) [
    | inr failed ↦ rw failed (inr (inr (inl refl)))
    | inl done ↦ elim (Option-cases (parse_retry_after_seconds L output.stdout)) [
      | inl e ↦ rw (done, e) (inr (inr (inl refl)))
      | inr (secs, e) ↦ rw (done, e) (inr (inr (inr (secs, (first_seconds_bound _ e, refl)))))
    ]
  ]

  module _ {W : Type 0} (spawn : SpawnAndCapture W) where
    build_op_error-IsFixed : (w : W) (stderr : List ℕ) → IsFixed (build_op_error L spawn w stderr).0
    unfolding build_op_error rate_limit_retry_after
    build_op_error-IsFixed w stderr =
        let said = λ (t : Text). stderr_contains (L.from_utf8_lossy stderr) t in
        elim (Bool-cases (said (text "not currently signed in") || said (text "op signin"))) [
          | inl a ↦ rw (a, build_op_error) (inl refl)
          | inr a ↦
              elim (Bool-cases (said (text "too many requests") || said (text "rate limit"))) [
                | inl b ↦
                    rw (a, b, build_op_error)
                      (retry_detail-IsFixed
                        (spawn w (text "op" ∷ text "service-account" ∷ text "ratelimit" ∷ [])).0)
                | inr b ↦ rw (a, b, build_op_error) (inr (inl refl))
              ]
        ]

    -- A failed call for a field ends in the spawner's own error, or in one of three fixed errors or a
    -- rate-limit error that carries a number of seconds below 2 ^ 64: the error does not depend on
    -- any other output of the process.
    pub read_field_error :
        (w : W) (field : CredentialField) (ids : Text × Text) {e : PortError}
        → (read_field L spawn w field ids).0 ≡ err e
        → ((spawn w (build_argv field ids.0 ids.1)).0 ≡ err e) ⊎ IsFixed e
    unfolding read_field
    read_field_error w field (v, i) {e} h = elim (Result-cases (spawn w (build_argv field v i)).0) [
      | inr (x, f) ↦
          let failed : Result PortError SecretValue = err x in
          let same : failed ≡ err e = rw (f, read_field) at h in inl (f ∙ cc)
      | inl (output, f) ↦ elim (Bool-cases (output.exit_code == 0)) [
        | inl done ↦ absurd (cc (rw (f, done, read_field) at h))
        | inr failed ↦
            let told = build_op_error L spawn (spawn w (build_argv field v i)).1 output.stderr in
            let answer : Result PortError SecretValue = err told.0 in
            let same : answer ≡ err e = rw (f, failed, read_field) at h in
            let told_e : told.0 ≡ e = cc in
            inr (
              subst IsFixed told_e
                (build_op_error-IsFixed (spawn w (build_argv field v i)).1 output.stderr))
      ]
    ]
