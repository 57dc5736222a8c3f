-- ===== src/Daemon/Tests.antt =====
-- Runs of the daemon of crates/core/src/daemon.rs. A JSON value is a text, a frame is the name of a
-- tool, and the state counts the connections: the first sends garbage, the second hangs up, the third
-- calls `shutdown`, and the fourth never comes.
use stapler_mcp.Common.{
  Bool, ◌==◌, ◌<◌, ℕ, zero, suc, ◌≡◌, ◌⊎◌, refl, true, false, not, ◌&&◌, Option, none, some, List,
  [], ◌↔◌, if◌then◌else◌, Text, text, text_eq, is_empty, Result, ok, err,
}
use stapler_mcp.Ports.{PortError, io}
use stapler_mcp.Client.{Request}
use stapler_mcp.Daemon.{
  shutdown_tool, Handler, Daemon, JsonLib, ServerPorts, stopped, serving, new_daemon, json_handler,
  register, request_shutdown, handler_response, handle_request, handle_request_bytes,
  serve_connection, serve_logged, run_loop,
}
use stapler_mcp.Daemon.Dispatch.{
  is_built_in, seen, handle_request-register, handle_request_shutdown_iff,
}
use stapler_mcp.Daemon.Cancellation.{cancellable_loop, cancellable_loop-run_loop}
use stapler_mcp.Daemon.Serving.{IsAccountable, run_loop-IsAccountable}

abbrev text_json : JsonLib Text
text_json = record {
  empty_object = text "{}";
  pong_with = λ extra. text "pong";
  decode_request = λ bytes.
      if is_empty bytes then err (text "empty") else ok (record { tool = bytes; params = none });
  encode_response = λ r. [];
  debug_text = λ s. s;
}

abbrev frame_of : ℕ → Result PortError (Option (List ℕ))
frame_of (suc zero) = ok (some [])
frame_of (suc (suc zero)) = err (io (text "closed"))
frame_of n = ok (some (text "shutdown"))

abbrev three_clients : ServerPorts ℕ
three_clients = record {
  remove_stale = λ n path. (ok tt, n);
  bind = λ n path. (ok tt, n);
  accept = λ n. (ok tt, suc n);
  read_frame = λ n. (frame_of n, n);
  write_frame = λ n bytes. (ok tt, n);
}

abbrev echo : Handler ℕ Text
echo n params = (some (ok (text "echo")), suc n)

abbrev idle : Daemon ℕ Text
idle = new_daemon text_json

abbrev call_echo : Request Text
call_echo = record { tool = text "echo"; params = none }

run_loop_tests :
    (run_loop text_json three_clients 2 0 idle ≡ serving idle 2)
    × (run_loop text_json three_clients 9 0 idle
        ≡ stopped (ok tt) (record idle { shutdown = true; cancelled = true }) 3)
unfolding run_loop serve_logged serve_connection handle_request_bytes handle_request
    request_shutdown text_eq
run_loop_tests = (refl, refl)

run_loop-IsAccountable_example :
    IsAccountable text_json three_clients 9 0 idle (run_loop text_json three_clients 9 0 idle)
run_loop-IsAccountable_example = run_loop-IsAccountable text_json three_clients 9 0 idle refl refl

handle_request-register_example :
    (seen text_json (handle_request text_json 0 (register idle (text "echo") echo) call_echo) ≡ (
      if text_eq (text "echo") (text "echo") && not (is_built_in (text "echo"))
      then (handler_response text_json (text "echo") (some (ok (text "echo"))), 1)
      else seen text_json (handle_request text_json 0 idle call_echo)))
    × ((handle_request text_json 0 (register idle (text "echo") echo) call_echo).1.shutdown
        ≡ (handle_request text_json 0 idle call_echo).1.shutdown)
handle_request-register_example =
    handle_request-register text_json 0 idle (text "echo") echo call_echo

handle_request_shutdown_iff_example :
    ((handle_request text_json 0 idle call_echo).1.shutdown ≡ true)
    ↔ ((false ≡ true) ⊎ (text "echo" ≡ shutdown_tool))
handle_request_shutdown_iff_example = handle_request_shutdown_iff text_json 0 idle call_echo

-- A tool that wants no parameters gets an empty object where they are missing.
json_handler_test :
    json_handler text_json
      (λ v. if text_eq v (text "{}") then ok tt else err (text "null"))
      (λ o. ok (text "done"))
      (λ n input. (some (ok input), suc n))
      0
      none
    ≡ (some (ok (text "done")), 1)
unfolding json_handler text_eq
json_handler_test = refl

-- The token is cancelled while the daemon waits for the second client.
abbrev second_wait : ℕ → Daemon ℕ Text → Bool
second_wait n d = n == 1

cancelled : cancellable_loop text_json three_clients second_wait 9 0 idle ≡ stopped (ok tt) idle 1
unfolding cancellable_loop serve_logged serve_connection handle_request_bytes handle_request
    request_shutdown text_eq
cancelled = refl

cancellable_loop-run_loop_example :
    (cancellable_loop text_json three_clients second_wait 9 0 idle
      ≡ run_loop text_json three_clients 9 0 idle)
    ⊎ ((n : ℕ) × ((d' : Daemon ℕ Text) × ((w' : ℕ) × ((n < 9)
              × (run_loop text_json three_clients n 0 idle ≡ serving d' w')
              × (second_wait w' d' ≡ true)
              × (cancellable_loop text_json three_clients second_wait 9 0 idle
                  ≡ stopped (ok tt) d' w')))))
cancellable_loop-run_loop_example =
    cancellable_loop-run_loop text_json three_clients second_wait 9 0 idle
