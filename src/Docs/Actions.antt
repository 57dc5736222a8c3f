-- ===== src/Docs/Actions.antt =====
-- Tools that use the ports one after the other, for crates/core/src/tools/docs.rs: an action ends with
-- a value or an error, and the state of the world; or it panics, or runs out of the fuel of its loop.
use stapler_mcp.Common.{◌≡◌, refl, arith, Text, Result, ok, err}
use stapler_mcp.Ports.{PortError, display}
use stapler_mcp.ReadWebsite.{Outcome, returned, crashed, out_of_fuel}

abbrev pub Action : Type 0 → Type 0 → Type 0
Action W A = W → Outcome (Result Text A × W)

abbrev pub succeed : {W A : Type 0} → A → Action W A
succeed a w = returned (ok a, w)

abbrev pub fail : {W A : Type 0} → Text → Action W A
fail e w = returned (err e, w)

unfoldable pub and_then :
    {W A B : Type 0} → Outcome (Result Text A × W) → (A → Action W B) → Outcome (Result Text B × W)
and_then (returned (ok a, w)) f = f a w
and_then (returned (err e, w)) f = returned (err e, w)
and_then crashed f = crashed
and_then out_of_fuel f = out_of_fuel

infixl 5 ◌>>=◌
abbrev pub ◌>>=◌ : {W A B : Type 0} → Action W A → (A → Action W B) → Action W B
(m >>= f) w = and_then (m w) f

-- `.map_err(|e| e.to_string())?` after a call of a port.
unfoldable pub from_port : {W A : Type 0} → Result PortError A × W → Outcome (Result Text A × W)
from_port (ok a, w) = returned (ok a, w)
from_port (err e, w) = returned (err (display e), w)

abbrev pub port : {W A : Type 0} → (W → Result PortError A × W) → Action W A
port call w = from_port (call w)

-- `?` on a result that uses no port.
unfoldable pub from_result : {W A : Type 0} → Result Text A → Action W A
from_result r w = returned (r, w)

pub and_then-ok :
    {W A B : Type 0} (m : Outcome (Result Text A × W)) (f : A → Action W B) {b : B} {w' : W}
    → and_then m f ≡ returned (ok b, w')
    → (a : A) × ((w : W) × ((m ≡ returned (ok a, w)) × (f a w ≡ returned (ok b, w'))))
unfolding and_then
and_then-ok (returned (ok a, w)) f e = (a, (w, (refl, e)))
and_then-ok (returned (err x, w)) f e = absurd cc
and_then-ok crashed f e = absurd cc
and_then-ok out_of_fuel f e = absurd cc

pub from_port-ok :
    {W A : Type 0} (r : Result PortError A × W) {a : A} {w' : W}
    → from_port r ≡ returned (ok a, w')
    → r ≡ (ok a, w')
unfolding from_port
from_port-ok (ok b, w) e = ground arith
from_port-ok (err x, w) e = absurd cc

pub from_result-ok :
    {W A : Type 0} (r : Result Text A) (w : W) {a : A} {w' : W}
    → from_result r w ≡ returned (ok a, w')
    → (r ≡ ok a) × (w ≡ w')
unfolding from_result
from_result-ok r w e = ground arith
