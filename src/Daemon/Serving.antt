-- ===== src/Daemon/Serving.antt =====
-- What ends the accept loop of crates/core/src/daemon.rs.
use stapler_mcp.Common.{
  ℕ, zero, suc, ◌≡◌, ◌↔◌, refl, ◌∙◌, inl, inr, true, false, Option, none, some, List, Bool-cases,
  text_eq, Result, ok, err, Result-cases,
}
use stapler_mcp.Ports.{PortError}
use stapler_mcp.Client.{Request, ping_tool}
use stapler_mcp.Daemon.{
  Daemon, JsonLib, ServerPorts, Run, stopped, serving, shutdown_tool, request_shutdown,
  handle_request, handle_request_bytes, serve_connection, serve_logged, run_loop,
}
use stapler_mcp.Daemon.Dispatch.{handle_request_shutdown_iff}

module _ {W Json : Type 0} where
  -- A later state of a daemon: it has the same tools and status fields, and its cancellation token is
  -- cancelled exactly when its shutdown flag is set.
  abbrev pub IsLater : Daemon W Json → Daemon W Json → Type 0
  IsLater d d' =
      (d'.cancelled ≡ d'.shutdown) × (d'.handlers ≡ d.handlers) × (d'.status_extra ≡ d.status_extra)

  IsLater-trans : (d d' e : Daemon W Json) → IsLater d d' → IsLater d' e → IsLater d e
  IsLater-trans d d' e (_, h, s) (c, h', s') = (c, h' ∙ h, s' ∙ s)

module _ {W Json : Type 0} (J : JsonLib Json) where
  handle_request-IsLater :
      (w : W) (d : Daemon W Json) (req : Request Json)
      → d.cancelled ≡ d.shutdown
      → IsLater d (handle_request J w d req).1
  unfolding handle_request request_shutdown
  handle_request-IsLater w d req h = elim (Bool-cases (text_eq req.tool ping_tool)) [
    | inl ping ↦ rw ping (h, refl, refl)
    | inr other ↦ elim (Bool-cases (text_eq req.tool shutdown_tool)) [
      | inl stop ↦ rw other (rw stop (refl, refl, refl))
      | inr tool ↦ rw other (rw tool (h, refl, refl))
    ]
  ]

  handle_request_bytes-IsLater :
      (w : W) (d : Daemon W Json) (bytes : List ℕ)
      → d.cancelled ≡ d.shutdown
      → IsLater d (handle_request_bytes J w d bytes).1
  unfolding handle_request_bytes
  handle_request_bytes-IsLater w d bytes h = elim (Result-cases (J.decode_request bytes)) [
    | inl (req, read) ↦ rw (read, handle_request_bytes) (handle_request-IsLater w d req h)
    | inr (e, bad) ↦ rw (bad, handle_request_bytes) (h, refl, refl)
  ]

  module _ (ports : ServerPorts W) where
    serve_logged-IsLater :
        (w : W) (d : Daemon W Json)
        → d.cancelled ≡ d.shutdown
        → IsLater d (serve_logged J ports w d).0
    unfolding serve_logged serve_connection
    serve_logged-IsLater w d h = frame (ports.read_frame w).0 refl
      where
        frame :
            (f : Result PortError (Option (List ℕ)))
            → (ports.read_frame w).0 ≡ f
            → IsLater d (serve_logged J ports w d).0
        frame (err e) read = rw (read, serve_connection) (h, refl, refl)
        frame (ok none) read = rw (read, serve_connection) (h, refl, refl)
        frame (ok (some bytes)) read =
            rw (read, serve_connection)
              (handle_request_bytes-IsLater (ports.read_frame w).1 d bytes h)

    -- The client of the connection that was accepted sends a shutdown call.
    abbrev pub SendsShutdown : W → Type 0
    SendsShutdown w =
        (bytes : List ℕ) × ((req : Request Json) × (((ports.read_frame w).0 ≡ ok (some bytes))
            × (J.decode_request bytes ≡ ok req)
            × (req.tool ≡ shutdown_tool)))

    -- The listener gave the next connection.
    abbrev pub Accepts : W → Type 0
    Accepts w = (conn : Unit {0}) × ((ports.accept w).0 ≡ ok conn)

    -- From the first state the loop served that many connections, none with a shutdown call, and came
    -- to the second state.
    abbrev pub HasServed : ℕ → W → Daemon W Json → W → Daemon W Json → Type 0
    HasServed zero w d w' d' = (w' ≡ w) × (d' ≡ d)
    HasServed (suc n) w d w' d' =
        Accepts w
        × ¬ SendsShutdown (ports.accept w).1
        × HasServed n (serve_logged J ports (ports.accept w).1 d).1
            (serve_logged J ports (ports.accept w).1 d).0 w' d'

    -- How the loop ended, in the state where it waited for its last connection: the listener failed,
    -- or the connection that it gave had a shutdown call.
    abbrev pub EndedBy : W → Daemon W Json → Result PortError (Unit {0}) → Type 0
    EndedBy w d (ok done) = Accepts w × SendsShutdown (ports.accept w).1
    EndedBy w d (err e) = (ports.accept w).0 ≡ err e

    -- The shutdown flag is set only after a shutdown call.
    abbrev pub IsFlagged : Daemon W Json → Result PortError (Unit {0}) → Type 0
    IsFlagged d (ok done) = d.shutdown ≡ true
    IsFlagged d (err e) = d.shutdown ≡ false

    -- How the accept loop can stand after a number of rounds: ended, or waiting.
    abbrev pub IsAccountable : ℕ → W → Daemon W Json → Run W Json → Type 0
    IsAccountable n w d (stopped result d' w') =
        ((m : ℕ) × ((v : W) × ((e_v : Daemon W Json) × (HasServed m w d v e_v
                × EndedBy v e_v result))))
        × IsFlagged d' result
        × IsLater d d'
    IsAccountable n w d (serving d' w') =
        HasServed n w d w' d' × (d'.shutdown ≡ false) × IsLater d d'

    IsAccountable-next :
        (n : ℕ) (w : W) (d : Daemon W Json) (r : Run W Json)
        → Accepts w
        → ¬ SendsShutdown (ports.accept w).1
        → IsLater d (serve_logged J ports (ports.accept w).1 d).0
        → IsAccountable n
            (serve_logged J ports (ports.accept w).1 d).1
            (serve_logged J ports (ports.accept w).1 d).0
            r
        → IsAccountable (suc n) w d r
    IsAccountable-next n w d (stopped result d' w') given quiet l ((m, (v, (e_v, (h, e)))), s, k) =
        ((suc m, (v, (e_v, ((given, quiet, h), e)))), s, IsLater-trans d _ d' l k)
    IsAccountable-next n w d (serving d' w') given quiet l (h, s, k) =
        ((given, quiet, h), s, IsLater-trans d _ d' l k)

    serve_logged_shutdown :
        (w : W) (d : Daemon W Json)
        → d.shutdown ≡ false
        → ((serve_logged J ports w d).0.shutdown ≡ true) ↔ SendsShutdown w
    unfolding serve_logged serve_connection handle_request_bytes
    serve_logged_shutdown w d running = elim (Result-cases (ports.read_frame w).0) [
      | inr (e, f) ↦
          rw (f, serve_connection) (λ h. absurd (cc), λ (bytes, (req, (g, _, _))). absurd (cc))
      | inl (none, f) ↦
          rw (f, serve_connection) (λ h. absurd (cc), λ (bytes, (req, (g, _, _))). absurd (cc))
      | inl (some bytes, f) ↦ elim (Result-cases (J.decode_request bytes)) [
        | inr (e, bad) ↦
            rw (f, serve_connection)
              (rw (bad, handle_request_bytes)
                (λ h. absurd (cc), λ (bytes', (req, (g, good, _))). absurd (cc)))
        | inl (req, good) ↦
            let calls = handle_request_shutdown_iff J (ports.read_frame w).1 d req in
            rw (f, serve_connection)
              (rw (good, handle_request_bytes)
                (
                  λ h. (
                    bytes,
                    (req, (refl, good, elim (calls.0 h) [ inl e ↦ absurd (cc) | inr e ↦ e ])),
                  ),
                  λ (bytes', (req', (g, good', e))). calls.1 (inr (cc)),
                ))
      ]
    ]

    -- After any number of rounds, whatever the clients sent and however their connections failed, the
    -- accept loop of a daemon that was not shut down, whose flag only its requests set, stands in one
    -- of three ways: it has returned without an error, with the flag set, after connections without a
    -- shutdown call and then one with it; it has returned the error of the listener, with the flag not
    -- set, after connections without a shutdown call; or it has served a connection without a shutdown
    -- call in each round and waits for the next, with the flag not set. The tools and the status
    -- fields are unchanged, and the cancellation token is cancelled exactly when the flag is set.
    pub run_loop-IsAccountable :
        (fuel : ℕ) (w : W) (d : Daemon W Json)
        → d.shutdown ≡ false
        → d.cancelled ≡ d.shutdown
        → IsAccountable fuel w d (run_loop J ports fuel w d)
    unfolding run_loop
    run_loop-IsAccountable zero w d open_ step = ((refl, refl), open_, (step, refl, refl))
    run_loop-IsAccountable (suc fuel) w d open_ step = elim (Result-cases (ports.accept w).0) [
      | inr (e, failed) ↦
          rw (failed, run_loop)
            ((zero, (w, (d, ((refl, refl), failed)))), open_, (step, refl, refl))
      | inl (conn, accepted) ↦
          let later = serve_logged-IsLater (ports.accept w).1 d step in
          let calls = serve_logged_shutdown (ports.accept w).1 d open_ in
          let d' = (serve_logged J ports (ports.accept w).1 d).0 in
          elim (Bool-cases d'.shutdown) [
            | inl stop ↦
                rw (accepted, run_loop)
                  (rw stop (
                    (zero, (w, (d, ((refl, refl), ((conn, accepted), calls.0 stop))))),
                    stop,
                    later,
                  ))
            | inr more ↦
                rw (accepted, run_loop)
                  (rw more (
                    IsAccountable-next fuel w d _ (conn, accepted) (λ s. absurd (cc (calls.1 s)))
                      later
                      (run_loop-IsAccountable fuel (serve_logged J ports (ports.accept w).1 d).1 d'
                        more later.0)))
          ]
    ]
