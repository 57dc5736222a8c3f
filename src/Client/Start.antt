-- ===== src/Client/Start.antt =====
-- `ensure_daemon` of crates/core/src/client.rs ends, and starts at most one daemon.
use stapler_mcp.Common.{
  ℕ, zero, suc, ◌+◌, ◌*◌, ◌%◌, ◌^◌, min, ◌≤◌, ◌<◌, ◌≡◌, ◌⊎◌, refl, ◌∙◌, Bool, true, false, Option,
  none, inl, inr, List, arith, leb, leb→le, Bool-cases, Text, Result, ok, err, Result-cases, subst,
}
use stapler_mcp.Ports.{
  PortError, timeout, io, other, not_found, session_crashed, not_actionable,
  credential_domain_mismatch, credential_ambiguous, credential_unauthenticated,
  credential_rate_limited, credential_expired, auth_required,
}
use stapler_mcp.Client.{
  Request, ClientPorts, call, ping, ping_tool, Round, finished, again, Ensured, ensured,
  out_of_fuel, wait_more, after_failure, after_ping, ensure_loop, EnsureOptions, startup_millis,
  ensure_daemon, poll_start, poll_cap, dial_timeout,
}

module _ {W Json : Type 0} (ports : ClientPorts W Json) (time spawns : W → ℕ) where
  -- Time may pass, and no daemon is started.
  abbrev pub Passes : W → W → Type 0
  Passes w w' = (time w ≤ time w') × (spawns w' ≡ spawns w)

  -- What holds while nobody sets the clock back: the time that it shows does not decrease, a sleep takes
  -- its time, and only `spawn_daemon` starts daemons, at most one at each call. The clock of
  -- crates/native/src/sleep.rs is the system time, which can be set back.
  pub record ClientLaws : Type 0 where
    pub connect_passes : (w : W) (path : Text) (limit : ℕ) → Passes w (ports.connect w path limit).1
    pub write_passes : (w : W) (bytes : List ℕ) → Passes w (ports.write_frame w bytes).1
    pub read_passes : (w : W) → Passes w (ports.read_frame w).1
    pub now_passes : (w : W) → Passes w (ports.now_millis w).1
    pub now_shows :
        (w : W)
        → (time w ≤ (ports.now_millis w).0) × ((ports.now_millis w).0 ≤ time (ports.now_millis w).1)
    pub spawn_time :
        (w : W) (hint : Option Text) (log : Text) → time w ≤ time (ports.spawn_daemon w hint log).1
    pub spawn_one :
        (w : W) (hint : Option Text) (log : Text)
        → spawns (ports.spawn_daemon w hint log).1 ≤ suc (spawns w)
    pub sleep_takes : (w : W) (d : ℕ) → time w + d ≤ time (ports.sleep w d)
    pub sleep_quiet : (w : W) (d : ℕ) → spawns (ports.sleep w d) ≡ spawns w

module _ {W Json : Type 0} (ports : ClientPorts W Json) (time spawns : W → ℕ)
    (laws : ClientLaws ports time spawns) where
  Passes-trans :
      (u v w : W)
      → Passes ports time spawns u v
      → Passes ports time spawns v w
      → Passes ports time spawns u w
  Passes-trans u v w (p, e) (q, f) = (omega (arith, p, q), f ∙ e)

  call-Passes :
      (w : W) (path tool : Text) (params : Option Json) (limit : ℕ)
      → Passes ports time spawns w (call ports w path tool params limit).1
  unfolding call
  call-Passes w path tool params limit = elim (Result-cases (ports.connect w path limit).0) [
    | inr (e, refused) ↦ rw (refused, call) (laws.connect_passes w path limit)
    | inl (u, connected) ↦ elim (Result-cases (ports.encode_request message)) [
      | inr (e, bad) ↦ rw (connected, call) (rw bad (laws.connect_passes w path limit))
      | inl (bytes, good) ↦ elim (Result-cases (ports.write_frame v bytes).0) [
        | inr (e, failed) ↦
            rw (connected, call)
              (rw good (
                rw failed (
                  Passes-trans w v _ (laws.connect_passes w path limit)
                    (laws.write_passes v bytes))))
        | inl (u', written) ↦
            rw (connected, call)
              (rw good (
                rw written (
                  Passes-trans w v _ (laws.connect_passes w path limit) (
                    Passes-trans v (ports.write_frame v bytes).1 _ (laws.write_passes v bytes)
                      (laws.read_passes (ports.write_frame v bytes).1)))))
      ]
    ]
  ]
    where
      v : W
      v = (ports.connect w path limit).1

      message : Request Json
      message = record { tool = tool; params = params }

  ping-Passes :
      (w : W) (path : Text) (limit : ℕ) → Passes ports time spawns w (ping ports w path limit).1
  unfolding ping
  ping-Passes w path limit = call-Passes w path ping_tool none limit

  module _ (sock_path log_path : Text) (exe_hint : Option Text) (deadline : ℕ) where
    -- The spawner answered with this error.
    abbrev pub SpawnFailed : PortError → Type 0
    SpawnFailed e = (v : W) × ((ports.spawn_daemon v exe_hint log_path).0 ≡ err e)

    -- What a result promises: at most `n` daemons started since `w`; an error is the spawner's, or
    -- the deadline passed.
    abbrev pub Promised : ℕ → W → Result PortError (Unit {0}) → W → Type 0
    Promised n w (ok done) w' = spawns w' ≤ spawns w + n
    Promised n w (err e) w' = (spawns w' ≤ spawns w + n) × ((deadline ≤ time w') ⊎ SpawnFailed e)

    abbrev pub EndsWell : ℕ → W → Ensured W → Type 0
    EndsWell n w (ensured r w') = Promised n w r w'
    EndsWell n w out_of_fuel = ⊥

    abbrev RoundWell : ℕ → ℕ → W → Round W → Type 0
    RoundWell n backoff w (finished r w') = Promised n w r w'
    RoundWell n backoff w (again w') =
        (time w + backoff ≤ time w') × (time w < deadline) × (spawns w' ≤ spawns w + n)

    abbrev quota : Bool → ℕ
    quota true = 0
    quota false = 1

    wait_more-RoundWell :
        (w v : W) (n backoff : ℕ) (e : PortError)
        → time w ≤ time v
        → spawns v ≤ spawns w + n
        → RoundWell n backoff w (wait_more ports sock_path log_path exe_hint deadline v backoff e)
    unfolding wait_more
    wait_more-RoundWell w v n backoff e p q =
        let (t, s) = laws.now_passes v in
        let (low, high) = laws.now_shows v in
        let v' = (ports.now_millis v).1 in
        elim (Bool-cases (leb deadline (ports.now_millis v).0)) [
          | inl late ↦ rw late (omega (arith, s, q), inl (omega (arith, leb→le _ _ late, high)))
          | inr early ↦ rw early (
            omega (arith, p, t, laws.sleep_takes v' backoff),
            ground (arith, early, p, low),
            omega (arith, laws.sleep_quiet v' backoff, s, q),
          )
        ]

    after_failure-RoundWell :
        (w v : W) (spawned : Bool) (backoff : ℕ) (e : PortError)
        → Passes ports time spawns w v
        → RoundWell
            (quota spawned)
            backoff
            w
            (after_failure ports sock_path log_path exe_hint deadline v spawned backoff e)
    unfolding after_failure
    after_failure-RoundWell w v true backoff e (p, q) =
        wait_more-RoundWell w v 0 backoff e p (omega (arith, q))
    after_failure-RoundWell w v false backoff e (p, q) =
        elim (Result-cases (ports.spawn_daemon v exe_hint log_path).0) [
          | inr (s, failed) ↦
              rw (failed, after_failure)
                (omega (arith, laws.spawn_one v exe_hint log_path, q), inr (v, failed))
          | inl (done, started) ↦
              rw (started, after_failure)
                (wait_more-RoundWell w (ports.spawn_daemon v exe_hint log_path).1 1 backoff e
                  (omega (arith, p, laws.spawn_time v exe_hint log_path))
                  (omega (arith, laws.spawn_one v exe_hint log_path, q)))
        ]

    after_ping-RoundWell :
        (w : W) (p : Result PortError (Unit {0}) × W) (spawned : Bool) (backoff : ℕ)
        → Passes ports time spawns w p.1
        → RoundWell
            (quota spawned)
            backoff
            w
            (after_ping ports sock_path log_path exe_hint deadline p spawned backoff)
    unfolding after_ping
    after_ping-RoundWell w (ok done, v) spawned backoff (t, s) = omega (arith, s)
    after_ping-RoundWell w (err timeout, v) spawned backoff (t, s) = omega (arith, s)
    after_ping-RoundWell w (err (io e), v) spawned backoff h =
        after_failure-RoundWell w v spawned backoff (io e) h
    after_ping-RoundWell w (err (other e), v) spawned backoff h =
        after_failure-RoundWell w v spawned backoff (other e) h
    after_ping-RoundWell w (err (not_found e), v) spawned backoff h =
        after_failure-RoundWell w v spawned backoff (not_found e) h
    after_ping-RoundWell w (err (session_crashed e), v) spawned backoff h =
        after_failure-RoundWell w v spawned backoff (session_crashed e) h
    after_ping-RoundWell w (err (not_actionable e), v) spawned backoff h =
        after_failure-RoundWell w v spawned backoff (not_actionable e) h
    after_ping-RoundWell w (err (credential_domain_mismatch e), v) spawned backoff h =
        after_failure-RoundWell w v spawned backoff (credential_domain_mismatch e) h
    after_ping-RoundWell w (err (credential_ambiguous e), v) spawned backoff h =
        after_failure-RoundWell w v spawned backoff (credential_ambiguous e) h
    after_ping-RoundWell w (err (credential_unauthenticated e), v) spawned backoff h =
        after_failure-RoundWell w v spawned backoff (credential_unauthenticated e) h
    after_ping-RoundWell w (err (credential_rate_limited e), v) spawned backoff h =
        after_failure-RoundWell w v spawned backoff (credential_rate_limited e) h
    after_ping-RoundWell w (err (credential_expired e), v) spawned backoff h =
        after_failure-RoundWell w v spawned backoff (credential_expired e) h
    after_ping-RoundWell w (err (auth_required e), v) spawned backoff h =
        after_failure-RoundWell w v spawned backoff (auth_required e) h

    Round-cases :
        (r : Round W)
        → ((o : Result PortError (Unit {0}) × W) × (r ≡ finished o.0 o.1))
          ⊎ ((v : W) × (r ≡ again v))
    Round-cases (finished o v) = inl ((o, v), refl)
    Round-cases (again v) = inr (v, refl)

    EndsWell-later :
        (m n : ℕ) (w v : W) (o : Ensured W)
        → spawns v + m ≤ spawns w + n
        → EndsWell m v o
        → EndsWell n w o
    EndsWell-later m n w v (ensured (ok done) v') p q = omega (arith, p, q)
    EndsWell-later m n w v (ensured (err e) v') p (q, h) = (omega (arith, p, q), h)
    EndsWell-later m n w v out_of_fuel p q = q

    abbrev round : W → Bool → ℕ → ℕ → Round W
    round w spawned backoff ping_timeout =
        after_ping ports sock_path log_path exe_hint deadline (ping ports w sock_path ping_timeout)
          spawned backoff

    round-RoundWell :
        (w : W) (spawned : Bool) (backoff ping_timeout : ℕ) (r : Round W)
        → round w spawned backoff ping_timeout ≡ r
        → RoundWell (quota spawned) backoff w r
    round-RoundWell w spawned backoff ping_timeout r e =
        subst (RoundWell (quota spawned) backoff w) e
          (after_ping-RoundWell w _ spawned backoff (ping-Passes w sock_path ping_timeout))

    ensure_loop-EndsWell :
        (fuel : ℕ) (w : W) (spawned : Bool) (backoff ping_timeout : ℕ)
        → 50 ≤ backoff
        → deadline ≤ time w + fuel * 50
        → EndsWell (quota spawned) w (
            ensure_loop ports sock_path log_path exe_hint deadline
              (suc fuel)
              w
              spawned
              backoff
              ping_timeout)
    unfolding ensure_loop
    ensure_loop-EndsWell zero w spawned backoff ping_timeout wide room =
        elim (Round-cases (round w spawned backoff ping_timeout)) [
          | inl ((r, v), e) ↦
              rw (e, ensure_loop) (round-RoundWell w spawned backoff ping_timeout (finished r v) e)
          | inr (v, e) ↦
              let (slept, early, one) =
                round-RoundWell w spawned backoff ping_timeout (again v) e in
              absurd (omega (arith, early, room))
        ]
    ensure_loop-EndsWell (suc fuel) w spawned backoff ping_timeout wide room =
        elim (Round-cases (round w spawned backoff ping_timeout)) [
          | inl ((r, v), e) ↦
              rw (e, ensure_loop) (round-RoundWell w spawned backoff ping_timeout (finished r v) e)
          | inr (v, e) ↦
              let (slept, early, one) =
                round-RoundWell w spawned backoff ping_timeout (again v) e in
              let later =
                ensure_loop-EndsWell fuel v true (min (backoff * 2) poll_cap) poll_cap
                  (omega (arith, wide)) (omega (arith, slept, room, wide)) in
              rw (e, ensure_loop)
                (EndsWell-later 0 (quota spawned) w v _ (omega (arith, one)) later)
        ]

  -- While the clock is not set back, a sleep takes its time and only the spawner starts daemons, and
  -- for a deadline that does not overflow: with a round of fuel for every 50 milliseconds of the
  -- startup timeout and one more the call ends, whatever the socket and the spawner answer; at most
  -- one daemon was started, and an error is the spawner's or comes after the deadline.
  pub ensure_daemon-EndsWell :
      (fuel : ℕ) (w : W) (sock_path log_path : Text) (opts : EnsureOptions)
      → startup_millis opts.startup_timeout ≤ fuel * 50
      → (ports.now_millis w).0 + startup_millis opts.startup_timeout < 2 ^ 64
      → EndsWell sock_path log_path opts.exe_hint
          ((ports.now_millis w).0 + startup_millis opts.startup_timeout)
          1
          w
          (ensure_daemon ports (suc fuel) w sock_path log_path opts)
  unfolding ensure_daemon
  ensure_daemon-EndsWell fuel w sock_path log_path opts room small =
      rw (exact (ports.now_millis w).0 (startup_millis opts.startup_timeout) small) (
        EndsWell-later sock_path log_path opts.exe_hint _ 1 1 w (ports.now_millis w).1 _
          (omega (arith, (laws.now_passes w).1))
          (ensure_loop-EndsWell sock_path log_path opts.exe_hint _ fuel (ports.now_millis w).1 false
            poll_start dial_timeout (omega arith) (omega (arith, room, (laws.now_shows w).1))))
    where
      exact : (a b : ℕ) → a + b < 2 ^ 64 → (a + b % 2 ^ 64) % 2 ^ 64 ≡ a + b
      exact a b h = omega arith
