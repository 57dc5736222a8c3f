-- ===== src/Vault/Flight/Answers.antt =====
-- What the callers of a future get when it ends.
use stapler_mcp.Common.{
  ℕ, ◌≡◌, refl, ap, ◌∙◌, inl, inr, none, some, List, [], ◌∷◌, arith, ◌==◌, Bool-cases, Option-cases,
  get_elem?, length, ok, err,
}
use stapler_mcp.Ports.{
  PortError, io, timeout, other, not_found, session_crashed, not_actionable,
  credential_domain_mismatch, credential_ambiguous, credential_unauthenticated,
  credential_rate_limited, credential_expired, auth_required, CredentialRef,
}
use stapler_mcp.Vault.{clone_port_error}
use stapler_mcp.Vault.Flight.{
  PendingOutput, PendingFuture, Flights, no_flights, find_pending, arrive, finish_future,
  copy_output, answer_of, FlightEvent, arrives, finishes, after, after_all,
}
use stapler_mcp.Vault.Flight.Laws.{
  cref_eq_iff, get_elem?-snoc, get_elem?-set, get_elem?-length, find-remove, Runs,
  pending-IsSingleFlight,
}

clone_port_error_lem : (e : PortError) → clone_port_error e ≡ e
unfolding clone_port_error
clone_port_error_lem (io s) = refl
clone_port_error_lem timeout = refl
clone_port_error_lem (other s) = refl
clone_port_error_lem (not_found s) = refl
clone_port_error_lem (session_crashed s) = refl
clone_port_error_lem (not_actionable s) = refl
clone_port_error_lem (credential_domain_mismatch s) = refl
clone_port_error_lem (credential_ambiguous s) = refl
clone_port_error_lem (credential_unauthenticated s) = refl
clone_port_error_lem (credential_rate_limited s) = refl
clone_port_error_lem (credential_expired s) = refl
clone_port_error_lem (auth_required info) = refl

copy_output_lem : (result : PendingOutput) → copy_output result ≡ result
copy_output_lem (ok s) = refl
copy_output_lem (err e) = ap err (clone_port_error_lem e)

-- The future has ended with the result.
abbrev Ended : Flights → ℕ → PendingOutput → Type 0
Ended fl n result =
    (f : PendingFuture) × ((get_elem? fl.futures n ≡ some f) × (f.output ≡ some result))

arrive-Ended :
    (r : CredentialRef) (fl : Flights) (n : ℕ) (result : PendingOutput)
    → Ended fl n result
    → Ended (arrive r fl) n result
unfolding arrive
arrive-Ended r fl n result (f, (e, o)) = elim (Option-cases (find_pending r fl.pending)) [
  | inr (m, p) ↦ rw (p, arrive) (f, (e, o))
  | inl p ↦
      let fresh : PendingFuture = record { cref = r; output = none } in
      rw (p, arrive)
        (f, (ground (arith, get_elem?-snoc fl.futures fresh n, get_elem?-length fl.futures, e), o))
]

finish_future-Ended :
    (m : ℕ) (other_result : PendingOutput) (fl : Flights) (n : ℕ) (result : PendingOutput)
    → Ended fl n result
    → Ended (finish_future m other_result fl) n result
unfolding finish_future
finish_future-Ended m x fl n result (f, (e, o)) = elim (Option-cases (get_elem? fl.futures m)) [
  | inl p ↦ rw (p, finish_future) (f, (e, o))
  | inr (g, p) ↦ elim (Option-cases g.output) [
    | inr (done, q) ↦ rw (p, q, finish_future) (f, (e, o))
    | inl q ↦
        let same : f ≡ f = refl in
        rw (p, q, finish_future)
          (
            f,
            (
              get_elem?-set fl.futures m (record g { output = some x }) n p
                  ∙ elim (Bool-cases (n == m)) [
                    | inl here ↦ absurd (ground (arith, here, p, e, q, o))
                    | inr there ↦ rw there e
                  ],
              o,
            ),
          )
  ]
]

after_all-Ended :
    (es : List FlightEvent) (fl : Flights) (n : ℕ) (result : PendingOutput)
    → Ended fl n result
    → Ended (after_all es fl) n result
unfolding after_all after
after_all-Ended [] fl n result h = h
after_all-Ended (arrives r ∷ es) fl n result h =
    after_all-Ended es (arrive r fl) n result (arrive-Ended r fl n result h)
after_all-Ended (finishes m x ∷ es) fl n result h =
    after_all-Ended es (finish_future m x fl) n result (finish_future-Ended m x fl n result h)

answer_of-Ended :
    (fl : Flights) (n : ℕ) (result : PendingOutput)
    → Ended fl n result
    → answer_of fl n ≡ some result
unfolding answer_of
answer_of-Ended fl n result (f, (e, o)) = rw (e, o, answer_of) (ap some (copy_output_lem result))

module _ (n : ℕ) (result : PendingOutput) (fl : Flights) (r : CredentialRef) (h : Runs fl r n) where
  finish_future-ends : Ended (finish_future n result fl) n result
  unfolding finish_future
  finish_future-ends =
      let (f, (e, c, o)) = h in
      rw (e, o, finish_future)
        (
          record f { output = some result },
          (get_elem?-set fl.futures n (record f { output = some result }) n e ∙ ground arith, refl),
        )

  finish_future-forgets : find_pending r (finish_future n result fl).pending ≡ none
  unfolding finish_future
  finish_future-forgets =
      let (f, (e, c, o)) = h in
      rw (e, o, finish_future)
        (find-remove f.cref r fl.pending ∙ (rw ((cref_eq_iff f.cref r).1 c) refl))

arrive_fresh :
    (r : CredentialRef) (fl : Flights)
    → find_pending r fl.pending ≡ none
    → (arrive r fl).callers ≡ (r, length fl.futures) ∷ fl.callers
unfolding arrive
arrive_fresh r fl e = rw (e, arrive) refl

-- In any reachable state, when the future that is pending for a reference ends, its callers get the
-- result as it is and keep it whatever happens later; the reference is no longer pending, and the
-- next caller awaits a new future.
pub finish_future_settles :
    (es later : List FlightEvent) (r : CredentialRef) (n : ℕ) (result : PendingOutput)
    → find_pending r (after_all es no_flights).pending ≡ some n
    → (answer_of (after_all later (finish_future n result (after_all es no_flights))) n
        ≡ some result)
      × (find_pending r (finish_future n result (after_all es no_flights)).pending ≡ none)
      × ((arrive r (finish_future n result (after_all es no_flights))).callers
          ≡ (r, length (finish_future n result (after_all es no_flights)).futures)
            ∷ (finish_future n result (after_all es no_flights)).callers)
finish_future_settles es later r n result p =
    let fl = after_all es no_flights in
    let runs = (pending-IsSingleFlight es).listed r n p in
    let gone = finish_future-forgets n result fl r runs in
    (
      answer_of-Ended _ n result
          (after_all-Ended later _ n result (finish_future-ends n result fl r runs)),
      gone,
      arrive_fresh r _ gone,
    )
