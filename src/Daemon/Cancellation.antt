-- ===== src/Daemon/Cancellation.antt =====
-- `run_cancellable` of crates/core/src/daemon.rs. Which branch `select!` takes is a function of the
-- state of the world and of the daemon: the token can be cancelled by the daemon or by any holder of a
-- copy, and where a connection is ready too, either branch may be taken.
use stapler_mcp.Common.{
  ℕ, zero, suc, ◌<◌, ◌≡◌, ◌⊎◌, refl, inl, inr, Bool, true, arith, if◌then◌else◌, Bool-cases, Text,
  ok, err, Result-cases,
}
use stapler_mcp.Daemon.{Daemon, JsonLib, ServerPorts, Run, stopped, serving, serve_logged, run_loop}

module _ {W Json : Type 0} (J : JsonLib Json) (ports : ServerPorts W)
    (cancels : W → Daemon W Json → Bool) where
  -- The loop, with a round of fuel for each connection.
  unfoldable pub cancellable_loop : ℕ → W → Daemon W Json → Run W Json
  cancellable_loop zero w d = serving d w
  cancellable_loop (suc fuel) w d =
      let (conn, w₁) = ports.accept w in
      let (d', w₂) = serve_logged J ports w₁ d in
      let rest = cancellable_loop fuel w₂ d' in
      if cancels w d then stopped (ok tt) d w else elim conn [
        | err e ↦ stopped (err e) d w₁
        | ok _ ↦ if d'.shutdown then stopped (ok tt) d' w₂ else rest
      ]

  unfoldable pub run_cancellable : ℕ → W → Daemon W Json → Text → Run W Json
  run_cancellable fuel w d sock_path =
      let (removed, w₁) = ports.remove_stale w sock_path in
      elim removed [
        | err e ↦ stopped (err e) d w₁
        | ok _ ↦
            let (bound, w₂) = ports.bind w₁ sock_path in
            elim bound [ err e ↦ stopped (err e) d w₂ | ok _ ↦ cancellable_loop fuel w₂ d ]
      ]

  -- The loop that can be cancelled does what the plain loop does, or it returns without an error when
  -- the cancellation comes, after some number of connections that it served as the plain loop does.
  pub cancellable_loop-run_loop :
      (fuel : ℕ) (w : W) (d : Daemon W Json)
      → (cancellable_loop fuel w d ≡ run_loop J ports fuel w d)
        ⊎ ((n : ℕ) × ((d' : Daemon W Json) × ((w' : W) × ((n < fuel)
                  × (run_loop J ports n w d ≡ serving d' w')
                  × (cancels w' d' ≡ true)
                  × (cancellable_loop fuel w d ≡ stopped (ok tt) d' w')))))
  unfolding cancellable_loop run_loop
  cancellable_loop-run_loop zero w d = inl refl
  cancellable_loop-run_loop (suc fuel) w d = elim (Bool-cases (cancels w d)) [
    | inl now ↦ inr (0, (d, (w, (omega arith, refl, now, rw (now, cancellable_loop) refl))))
    | inr later ↦ elim (Result-cases (ports.accept w).0) [
      | inr (e, f) ↦ inl (rw (later, f, cancellable_loop, run_loop) refl)
      | inl (conn, f) ↦
          let served = serve_logged J ports (ports.accept w).1 d in
          elim (Bool-cases served.0.shutdown) [
            | inl stop ↦ inl (rw (later, f, stop, cancellable_loop, run_loop) refl)
            | inr more ↦ elim (cancellable_loop-run_loop fuel served.1 served.0) [
              | inl same ↦ inl (rw (later, f, more, cancellable_loop, run_loop) same)
              | inr (n, (d', (w', (small, reached, fired, ended)))) ↦ inr (
                suc n,
                (
                  d',
                  (
                    w',
                    (
                      omega arith,
                      rw (f, more, run_loop) reached,
                      fired,
                      rw (later, f, more, cancellable_loop) ended,
                    ),
                  ),
                ),
              )
            ]
          ]
    ]
  ]
