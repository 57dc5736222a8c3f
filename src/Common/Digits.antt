-- ===== src/Common/Digits.antt =====
-- Decimal digits, as `Display` prints an unsigned integer and `str::parse` reads one.
use Prim.Native.Nat.{ℕ, zero, suc, ◌+◌, ◌-◌, ◌*◌, ◌/◌, ◌%◌, ◌<◌}
use mathlib.Core.Path.{◌≡◌, sym, ap, ◌∙◌}
use mathlib.Core.Logic.{inl, inr}
use mathlib.Core.Bool.{◌&&◌}
use mathlib.Core.List.{[], ◌∷◌}
use mathlib.Core.Option.{Option, none, some}
use native.Mathlib.Omega.{arith}
use stapler_mcp.Common.Tests.{leb, ◌==◌, if◌then◌else◌, Bool-cases}
use stapler_mcp.Common.Texts.{Text}

digits_onto : ℕ → ℕ → Text → Text
digits_onto zero n acc = acc
digits_onto (suc f) n acc =
    let d = (48 + n % 10) ∷ acc in
    let more = digits_onto f (n / 10) d in if n / 10 == 0 then d else more

unfoldable pub show_nat : ℕ → Text
unfolding digits_onto
show_nat n = digits_onto (suc n) n []

-- The value of a text of digits, `acc` being what was read before.
unfoldable pub digits_value : ℕ → Text → Option ℕ
digits_value acc [] = some acc
digits_value acc (c ∷ s) =
    let rest = digits_value (acc * 10 + (c - b'0')) s in
    if leb b'0' c && leb c b'9' then rest else none

digits_value-digits_onto :
    (f n : ℕ) (acc : Text) → n < f → digits_value 0 (digits_onto f n acc) ≡ digits_value n acc
unfolding digits_value digits_onto
digits_value-digits_onto zero n acc h = elim h [ ]
digits_value-digits_onto (suc f) n acc h = elim (Bool-cases (n / 10 == 0)) [
  | inl last ↦ rw last (ground (arith, last))
  | inr more ↦
      let there =
        digits_value-digits_onto f (n / 10) ((48 + n % 10) ∷ acc) (ground (arith, more)) in
      rw more (there ∙ ground (arith))
]

-- Reading what was printed gives the number back.
pub digits_value-show_nat : (n : ℕ) → digits_value 0 (show_nat n) ≡ some n
unfolding show_nat digits_value
digits_value-show_nat n = digits_value-digits_onto (suc n) n [] (omega arith)

pub show_nat-injective : (m n : ℕ) → show_nat m ≡ show_nat n → m ≡ n
show_nat-injective m n e =
    let both : some m ≡ some n =
      sym (digits_value-show_nat m) ∙ (ap (digits_value 0) e ∙ digits_value-show_nat n) in
    cc
