-- ===== src/Client/Tests.antt =====
-- A daemon that never answers, for `ensure_daemon` of crates/core/src/client.rs: the state is the clock
-- and the number of daemons started.
use stapler_mcp.Common.{ℕ, suc, ◌+◌, ◌≡◌, refl, none, some, [], arith, Text, text, ok, err}
use stapler_mcp.Ports.{not_found}
use stapler_mcp.Client.{
  ClientPorts, EnsureOptions, ensured, ensure_daemon, ensure_loop, call, ping, after_ping,
  after_failure, wait_more,
}
use stapler_mcp.Client.Start.{ClientLaws, EndsWell, ensure_daemon-EndsWell}

abbrev deaf_ports : ClientPorts (ℕ × ℕ) Text
deaf_ports = record {
  connect = λ w path limit. (err (not_found path), w);
  write_frame = λ w bytes. (ok tt, w);
  read_frame = λ w. (ok none, w);
  spawn_daemon = λ w hint log. (ok tt, (w.0, suc w.1));
  now_millis = λ w. (w.0, w);
  sleep = λ w d. (w.0 + d, w.1);
  json_null = [];
  encode_request = λ r. ok r.tool;
  decode_response = λ bytes. err (text "no json");
}

deaf_ports-ClientLaws : ClientLaws deaf_ports (λ w. w.0) (λ w. w.1)
deaf_ports-ClientLaws = record {
  connect_passes = λ w path limit. (omega arith, refl);
  write_passes = λ w bytes. (omega arith, refl);
  read_passes = λ w. (omega arith, refl);
  now_passes = λ w. (omega arith, refl);
  now_shows = λ w. (omega arith, omega arith);
  spawn_time = λ w hint log. omega arith;
  spawn_one = λ w hint log. omega arith;
  sleep_takes = λ w d. omega arith;
  sleep_quiet = λ w d. refl;
}

abbrev patient : EnsureOptions
patient = record { startup_timeout = some 200; exe_hint = none }

-- Three pings, at 7, 57 and 157 milliseconds, and the one at 357 that comes after the deadline.
ensure_daemon_test :
    ensure_daemon deaf_ports 5 (7, 0) (text "/s") (text "/l") patient
    ≡ ensured (err (not_found (text "/s"))) (357, 1)
unfolding ensure_daemon ensure_loop after_ping after_failure wait_more ping call
ensure_daemon_test = refl

ensure_daemon-EndsWell_example :
    EndsWell deaf_ports
      (λ w. w.0)
      (λ w. w.1)
      deaf_ports-ClientLaws
      (text "/s")
      (text "/l")
      none
      207
      1
      (7, 0)
      (ensure_daemon deaf_ports 5 (7, 0) (text "/s") (text "/l") patient)
ensure_daemon-EndsWell_example =
    ensure_daemon-EndsWell deaf_ports (λ w. w.0) (λ w. w.1) deaf_ports-ClientLaws 4 (7, 0)
      (text "/s") (text "/l") patient (omega arith) (omega arith)
