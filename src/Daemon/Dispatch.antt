-- ===== src/Daemon/Dispatch.antt =====
-- How `handle_request` of crates/core/src/daemon.rs chooses what answers a request.
use stapler_mcp.Common.{
  ◌≡◌, ◌↔◌, ◌⊎◌, refl, inl, inr, Bool, true, false, arith, not, ◌&&◌, ◌||◌, if◌then◌else◌,
  Bool-cases, Text, text_eq, text_eq_iff, lookup-insert,
}
use stapler_mcp.Client.{Request, Response, ping_tool}
use stapler_mcp.Daemon.{
  shutdown_tool, Handler, Daemon, JsonLib, register, request_shutdown, handler_response, run_tool,
  handle_request,
}

ping_shutdown : text_eq ping_tool shutdown_tool ≡ false
unfolding text_eq
ping_shutdown = refl

-- The names that the daemon answers itself.
abbrev pub is_built_in : Text → Bool
is_built_in tool = text_eq tool ping_tool || text_eq tool shutdown_tool

module _ {W Json : Type 0} (J : JsonLib Json) where
  -- The response and the world after a request.
  abbrev pub seen : Response Json × Daemon W Json × W → Response Json × W
  seen (resp, d, w) = (resp, w)

  -- Registering a tool routes its name to its handler, which answers and changes the world, unless the
  -- daemon answers the name itself; any other request is answered, and changes the world, as before;
  -- and the shutdown flag after a request is as before.
  pub handle_request-register :
      (w : W) (d : Daemon W Json) (name : Text) (h : Handler W Json) (req : Request Json)
      → (seen (handle_request J w (register d name h) req) ≡ (
          if text_eq name req.tool && not (is_built_in req.tool)
          then (handler_response J req.tool (h w req.params).0, (h w req.params).1)
          else seen (handle_request J w d req)))
        × ((handle_request J w (register d name h) req).1.shutdown
            ≡ (handle_request J w d req).1.shutdown)
  unfolding handle_request run_tool register request_shutdown
  handle_request-register w d name h req = ground (arith, lookup-insert name req.tool h d.handlers)

  -- After a request the shutdown flag is set exactly when it was set before or the request is the
  -- shutdown call.
  pub handle_request_shutdown_iff :
      (w : W) (d : Daemon W Json) (req : Request Json)
      → ((handle_request J w d req).1.shutdown ≡ true)
        ↔ ((d.shutdown ≡ true) ⊎ (req.tool ≡ shutdown_tool))
  unfolding handle_request request_shutdown
  handle_request_shutdown_iff w d req = elim (Bool-cases (text_eq req.tool ping_tool)) [
    | inl ping ↦ ground (
      arith,
      ping,
      text_eq_iff req.tool ping_tool,
      text_eq_iff req.tool shutdown_tool,
      ping_shutdown,
    )
    | inr other ↦ ground (arith, other, text_eq_iff req.tool shutdown_tool)
  ]
