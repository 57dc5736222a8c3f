-- ===== src/Client.antt =====
-- crates/core/src/client.rs with the messages of crates/core/src/protocol.rs: `call`, `ping` and
-- `ensure_daemon`. The socket, the spawner, the clock and the sleeper are functions on the state of
-- the world; serde_json is a parameter. Times are in milliseconds; the sum for the deadline wraps at
-- 2 ^ 64, as in a release build. The polling loop takes fuel.
pub mod Start
mod Tests
use stapler_mcp.Common.{
  ℕ, zero, suc, ◌+◌, ◌*◌, ◌%◌, ◌^◌, min, Bool, true, false, Option, none, some, List, if◌then◌else◌,
  leb, Text, text, ◌++◌, Result, ok, err, ◌>>=◌,
}
use stapler_mcp.Ports.{PortError, timeout, other}

pub record Request (Json : Type 0) : Type 0 where
  pub tool : Text
  pub params : Option Json

pub record Response (Json : Type 0) : Type 0 where
  pub result : Option Json
  pub error : Option Text

abbrev pub ping_tool : Text
ping_tool = text "ping"

abbrev pub default_startup_timeout : ℕ
default_startup_timeout = 30000

abbrev pub dial_timeout : ℕ
dial_timeout = 2000

abbrev pub poll_start : ℕ
poll_start = 50

abbrev pub poll_cap : ℕ
poll_cap = 500

pub record EnsureOptions : Type 0 where
  pub startup_timeout : Option ℕ
  pub exe_hint : Option Text

-- The ports that the client uses, and `serde_json` for the two messages.
pub record ClientPorts (W Json : Type 0) : Type 0 where
  pub connect : W → Text → ℕ → Result PortError (Unit {0}) × W
  pub write_frame : W → List ℕ → Result PortError (Unit {0}) × W
  pub read_frame : W → Result PortError (Option (List ℕ)) × W
  pub spawn_daemon : W → Option Text → Text → Result PortError (Unit {0}) × W
  pub now_millis : W → ℕ × W
  pub sleep : W → ℕ → W
  pub json_null : Json
  pub encode_request : Request Json → Result Text (List ℕ)
  pub decode_response : List ℕ → Result Text (Response Json)

module _ {W Json : Type 0} (ports : ClientPorts W Json) where
  -- What the answer frame means.
  unfoldable pub read_response : Result PortError (Option (List ℕ)) → Result PortError Json
  read_response (err e) = err e
  read_response (ok none) = err (other (text "daemon closed connection with no response"))
  read_response (ok (some bytes)) = elim (ports.decode_response bytes) [
    | err e ↦ err (other e)
    | ok resp ↦ elim resp.error [
      | some e ↦ err (other (text "daemon: " ++ e))
      | none ↦ elim resp.result [ none ↦ ok ports.json_null | some v ↦ ok v ]
    ]
  ]

  unfoldable pub call : W → Text → Text → Option Json → ℕ → Result PortError Json × W
  call w sock_path tool params limit =
      let (connected, w₁) = ports.connect w sock_path limit in
      elim connected [
        | err e ↦ (err e, w₁)
        | ok _ ↦ elim (ports.encode_request (record { tool = tool; params = params })) [
          | err e ↦ (err (other e), w₁)
          | ok bytes ↦
              let (written, w₂) = ports.write_frame w₁ bytes in
              elim written [
                | err e ↦ (err e, w₂)
                | ok _ ↦ let (frame, w₃) = ports.read_frame w₂ in (read_response frame, w₃)
              ]
        ]
      ]

  unfoldable pub ping : W → Text → ℕ → Result PortError (Unit {0}) × W
  ping w sock_path limit =
      let (r, w') = call w sock_path ping_tool none limit in
      (elim r [ ok v ↦ ok tt | err e ↦ err e ], w')

-- How one round of the loop of `ensure_daemon` ends.
pub data Round (W : Type 0) : Type 0 where
  finished : Result PortError (Unit {0}) → W → Round W
  again : W → Round W

-- How the whole call ends.
pub data Ensured (W : Type 0) : Type 0 where
  ensured : Result PortError (Unit {0}) → W → Ensured W
  out_of_fuel : Ensured W

module _ {W Json : Type 0} (ports : ClientPorts W Json) (sock_path log_path : Text)
    (exe_hint : Option Text) (deadline : ℕ) where
  -- The check of the deadline after a ping that failed with `e`, and the sleep.
  unfoldable pub wait_more : W → ℕ → PortError → Round W
  wait_more w backoff e =
      let (now, w₁) = ports.now_millis w in
      if leb deadline now then finished (err e) w₁ else again (ports.sleep w₁ backoff)

  -- The rest of a round after a ping that failed with `e`: the spawn, once, and the wait.
  unfoldable pub after_failure : W → Bool → ℕ → PortError → Round W
  after_failure w true backoff e = wait_more w backoff e
  after_failure w false backoff e =
      let (spawned, w₁) = ports.spawn_daemon w exe_hint log_path in
      elim spawned [ err s ↦ finished (err s) w₁ | ok _ ↦ wait_more w₁ backoff e ]

  unfoldable pub after_ping : Result PortError (Unit {0}) × W → Bool → ℕ → Round W
  after_ping (ok _, w) spawned backoff = finished (ok tt) w
  after_ping (err timeout, w) spawned backoff = finished (ok tt) w
  after_ping (err e, w) spawned backoff = after_failure w spawned backoff e

  -- The loop. After its first round the daemon was spawned and the ping timeout is the poll cap.
  unfoldable pub ensure_loop : ℕ → W → Bool → ℕ → ℕ → Ensured W
  ensure_loop zero w spawned backoff ping_timeout = out_of_fuel
  ensure_loop (suc fuel) w spawned backoff ping_timeout =
      elim (after_ping (ping ports w sock_path ping_timeout) spawned backoff) [
        | finished r w' ↦ ensured r w'
        | again w' ↦ ensure_loop fuel w' true (min (backoff * 2) poll_cap) poll_cap
      ]

abbrev pub startup_millis : Option ℕ → ℕ
startup_millis none = default_startup_timeout
startup_millis (some t) = t

unfoldable pub ensure_daemon :
    {W Json : Type 0} → ClientPorts W Json → ℕ → W → Text → Text → EnsureOptions → Ensured W
ensure_daemon ports fuel w sock_path log_path opts =
    let (now, w₁) = ports.now_millis w in
    ensure_loop ports sock_path log_path opts.exe_hint
      ((now + startup_millis opts.startup_timeout % 2 ^ 64) % 2 ^ 64) fuel w₁ false poll_start
      dial_timeout
