-- ===== src/Daemon.antt =====
-- crates/core/src/daemon.rs: `Daemon` with the dispatch of requests and the accept loop `run`. A tool
-- handler is a function on the state of the world, which may be cut off by the request timeout. The
-- timeout of a connection and the line that is printed for a connection error are not modelled, nor
-- is `run_cancellable`. The accept loop takes fuel: one for each connection.
pub mod Dispatch
pub mod Serving
pub mod Cancellation
mod Tests
use stapler_mcp.Common.{
  ℕ, zero, suc, Bool, true, false, Option, none, some, List, [], if◌then◌else◌, Text, text, text_eq,
  ◌++◌, Assoc, lookup, insert, Result, ok, err,
}
use stapler_mcp.Ports.{PortError}
use stapler_mcp.Crawler.{get_or}
use stapler_mcp.Client.{Request, Response, ping_tool}

abbrev pub shutdown_tool : Text
shutdown_tool = text "shutdown"

-- `Response::ok` and `Response::err`.
abbrev pub response_ok : {Json : Type 0} → Json → Response Json
response_ok v = record { result = some v; error = none }

abbrev pub response_err : {Json : Type 0} → Text → Response Json
response_err msg = record { result = none; error = some msg }

-- A handler's answer; `none` is a call that the request timeout cut off.
abbrev pub Handler : Type 0 → Type 0 → Type 0
Handler W Json = W → Option Json → Option (Result Text Json) × W

pub record Daemon (W Json : Type 0) : Type 0 where
  pub handlers : Assoc (Handler W Json)
  pub shutdown : Bool
  pub cancelled : Bool
  pub status_extra : Json

-- serde_json, and `{:?}` of a text.
pub record JsonLib (Json : Type 0) : Type 0 where
  pub empty_object : Json
  -- `{"pong": true}`, with the fields of an object added; another value adds none.
  pub pong_with : Json → Json
  pub decode_request : List ℕ → Result Text (Request Json)
  pub encode_response : Response Json → List ℕ
  pub debug_text : Text → Text

-- The listener and the connection that was accepted last.
pub record ServerPorts (W : Type 0) : Type 0 where
  pub remove_stale : W → Text → Result PortError (Unit {0}) × W
  pub bind : W → Text → Result PortError (Unit {0}) × W
  pub accept : W → Result PortError (Unit {0}) × W
  pub read_frame : W → Result PortError (Option (List ℕ)) × W
  pub write_frame : W → List ℕ → Result PortError (Unit {0}) × W

-- How the accept loop stands: it returned, or it waits for another connection.
pub data Run (W Json : Type 0) : Type 0 where
  stopped : Result PortError (Unit {0}) → Daemon W Json → W → Run W Json
  serving : Daemon W Json → W → Run W Json

-- A typed tool as a handler. The decoder and the encoder stand for serde's of the two types; missing
-- parameters count as an empty object.
unfoldable pub json_handler :
    {W Json In Out : Type 0}
    → JsonLib Json
    → (Json → Result Text In)
    → (Out → Result Text Json)
    → (W → In → Option (Result Text Out) × W)
    → Handler W Json
json_handler J from_value to_value f w params = elim (from_value (get_or params J.empty_object)) [
  | err e ↦ (some (err (text "invalid params: " ++ e)), w)
  | ok input ↦
      let (out, w') = f w input in
      (elim out [ none ↦ none | some (err e) ↦ some (err e) | some (ok o) ↦ some (to_value o) ], w')
]

module _ {Json : Type 0} (J : JsonLib Json) where
  abbrev pub timed_out : Text → Text
  timed_out tool = text "tool call " ++ (J.debug_text tool ++ text " timed out after 30s")

  -- What a handler's answer becomes.
  unfoldable pub handler_response : Text → Option (Result Text Json) → Response Json
  handler_response tool (some (ok v)) = response_ok v
  handler_response tool (some (err e)) = response_err e
  handler_response tool none = response_err (timed_out tool)

module _ {W Json : Type 0} where
  abbrev pub new_daemon : JsonLib Json → Daemon W Json
  new_daemon J = record {
    handlers = [];
    shutdown = false;
    cancelled = false;
    status_extra = J.empty_object;
  }

  unfoldable pub register : Daemon W Json → Text → Handler W Json → Daemon W Json
  register d name handler = record d { handlers = insert name handler d.handlers }

  unfoldable pub set_status_extra : Daemon W Json → Json → Daemon W Json
  set_status_extra d extra = record d { status_extra = extra }

  unfoldable pub request_shutdown : Daemon W Json → Daemon W Json
  request_shutdown d = record d { shutdown = true; cancelled = true }

  module _ (J : JsonLib Json) where
    -- The call of a registered tool.
    unfoldable pub run_tool : W → Daemon W Json → Request Json → Response Json × W
    run_tool w d req = elim (lookup req.tool d.handlers) [
      | none ↦ (response_err (text "unknown tool " ++ J.debug_text req.tool), w)
      | some handler ↦
          let (answer, w') = handler w req.params in (handler_response J req.tool answer, w')
    ]

    unfoldable pub handle_request :
        W → Daemon W Json → Request Json → Response Json × Daemon W Json × W
    handle_request w d req =
        let (resp, w') = run_tool w d req in
        if text_eq req.tool ping_tool
        then (response_ok (J.pong_with d.status_extra), d, w)
        else if text_eq req.tool shutdown_tool
        then (response_ok J.empty_object, request_shutdown d, w)
        else (resp, d, w')

    unfoldable pub handle_request_bytes : W → Daemon W Json → List ℕ → List ℕ × Daemon W Json × W
    handle_request_bytes w d bytes = elim (J.decode_request bytes) [
      | err e ↦ (J.encode_response (response_err (text "invalid request: " ++ e)), d, w)
      | ok req ↦ let (resp, d', w') = handle_request w d req in (J.encode_response resp, d', w')
    ]

    module _ (ports : ServerPorts W) where
      unfoldable pub serve_connection :
          W → Daemon W Json → Result PortError (Unit {0}) × Daemon W Json × W
      serve_connection w d =
          let (frame, w₁) = ports.read_frame w in
          elim frame [
            | err e ↦ (err e, d, w₁)
            | ok none ↦ (ok tt, d, w₁)
            | ok (some bytes) ↦
                let (resp_bytes, d', w₂) = handle_request_bytes w₁ d bytes in
                let (written, w₃) = ports.write_frame w₂ resp_bytes in (written, d', w₃)
          ]

      -- The error of a connection is dropped.
      unfoldable pub serve_logged : W → Daemon W Json → Daemon W Json × W
      serve_logged w d = let (done, d', w') = serve_connection w d in (d', w')

      unfoldable pub run_loop : ℕ → W → Daemon W Json → Run W Json
      run_loop zero w d = serving d w
      run_loop (suc fuel) w d =
          let (conn, w₁) = ports.accept w in
          let (d', w₂) = serve_logged w₁ d in
          let rest = run_loop fuel w₂ d' in
          elim conn [
            | err e ↦ stopped (err e) d w₁
            | ok _ ↦ if d'.shutdown then stopped (ok tt) d' w₂ else rest
          ]

      unfoldable pub run : ℕ → W → Daemon W Json → Text → Run W Json
      run fuel w d sock_path =
          let (removed, w₁) = ports.remove_stale w sock_path in
          elim removed [
            | err e ↦ stopped (err e) d w₁
            | ok _ ↦
                let (bound, w₂) = ports.bind w₁ sock_path in
                elim bound [ err e ↦ stopped (err e) d w₂ | ok _ ↦ run_loop fuel w₂ d ]
          ]
