-- ===== src/Common/Texts.antt =====
-- Texts as lists of Unicode scalar values, with the operations of `str` that the code uses.
use Prim.Native.Nat.{ℕ, zero, suc, ◌+◌, ◌-◌, ◌/◌, ◌%◌, ◌≤◌, ◌<◌}
use Prim.Native.Char.{code}
use Prim.Native.String.{String}
use mathlib.Core.Path.{◌≡◌, refl}
use mathlib.Core.Logic.{◌↔◌, ◌≢◌, inl, inr}
use mathlib.Core.Bool.{Bool, true, false, ◌&&◌, ◌||◌}
use mathlib.Core.List.{List, [], ◌∷◌, ◌++◌, map, reverse}
use mathlib.Core.Option.{Option, none, some}
use native.Mathlib.Omega.{arith}
use stapler_mcp.Common.Tests.{ltb, leb, ◌==◌, if◌then◌else◌, Bool-cases}
use stapler_mcp.Common.Lists.{length, All, All-reverse}

abbrev pub Text : Type 0
Text = List ℕ

-- The scalar values of a literal. `String` has its own `[]` and `∷`.
abbrev pub text : String → Text
text String.[] = []
text (String.◌∷◌ c s) = code c ∷ text s

unfoldable pub text_eq : Text → Text → Bool
text_eq [] [] = true
text_eq [] (d ∷ t) = false
text_eq (c ∷ s) [] = false
text_eq (c ∷ s) (d ∷ t) = c == d && text_eq s t

pub text_eq_iff : (s t : Text) → (text_eq s t ≡ true) ↔ (s ≡ t)
unfolding text_eq
text_eq_iff [] [] = ground arith
text_eq_iff [] (d ∷ t) = ground arith
text_eq_iff (c ∷ s) [] = ground arith
text_eq_iff (c ∷ s) (d ∷ t) = ground (arith, text_eq_iff s t)

pub text_eq_refl : (s : Text) → text_eq s s ≡ true
text_eq_refl s = (text_eq_iff s s).1 refl

-- `str::is_empty`.
abbrev pub is_empty : Text → Bool
is_empty [] = true
is_empty (c ∷ s) = false

-- `str::strip_prefix`.
unfoldable pub strip_prefix : Text → Text → Option Text
strip_prefix [] s = some s
strip_prefix (p ∷ ps) [] = none
strip_prefix (p ∷ ps) (c ∷ s) = let rest = strip_prefix ps s in if p == c then rest else none

-- `str::starts_with`, the pattern first.
unfoldable pub starts_with : Text → Text → Bool
starts_with [] s = true
starts_with (p ∷ ps) [] = false
starts_with (p ∷ ps) (c ∷ s) = p == c && starts_with ps s

-- `str::contains`, the pattern first.
unfoldable pub contains : Text → Text → Bool
unfolding starts_with
contains p [] = starts_with p []
contains p (c ∷ s) = starts_with p (c ∷ s) || contains p s

-- `s[s.find(p)? ..]`: the text from the first occurrence of the pattern on.
unfoldable pub from_first : Text → Text → Option Text
unfolding starts_with
from_first p [] = if starts_with p [] then some [] else none
from_first p (c ∷ s) =
    let later = from_first p s in if starts_with p (c ∷ s) then some (c ∷ s) else later

-- `s[.. s.find(p)?]`: the text before it.
unfoldable pub before_first : Text → Text → Option Text
unfolding starts_with
before_first p [] = if starts_with p [] then some [] else none
before_first p (c ∷ s) =
    let later = before_first p s in
    if starts_with p (c ∷ s) then some [] else elim later [ none ↦ none | some r ↦ some (c ∷ r) ]

-- `s.find(p)? + p.len()`, counted in characters.
unfoldable pub find_end : Text → Text → Option ℕ
unfolding starts_with
find_end p [] = if starts_with p [] then some (length p) else none
find_end p (c ∷ s) =
    let later = find_end p s in
    if starts_with p (c ∷ s)
    then some (length p)
    else elim later [ none ↦ none | some n ↦ some (suc n) ]

-- `str::ends_with`, the pattern first.
unfoldable pub ends_with : Text → Text → Bool
unfolding starts_with
ends_with p s = starts_with (reverse p) (reverse s)

-- `str::split` by one character: what stands between its occurrences.
split_from : ℕ → Text → Text → List Text
split_from sep cur [] = reverse cur ∷ []
split_from sep cur (c ∷ s) =
    let closed = split_from sep [] s in
    let longer = split_from sep (c ∷ cur) s in if c == sep then reverse cur ∷ closed else longer

unfoldable pub split_on : ℕ → Text → List Text
unfolding split_from
split_on sep s = split_from sep [] s

split_from_apart :
    (sep : ℕ) (cur s : Text)
    → All (λ c. c ≢ sep) cur
    → All (All (λ c. c ≢ sep)) (split_from sep cur s)
unfolding split_from
split_from_apart sep cur [] h = (All-reverse (λ c. c ≢ sep) cur h, tt)
split_from_apart sep cur (c ∷ s) h = elim (Bool-cases (c == sep)) [
  | inl here ↦ rw here (All-reverse (λ c. c ≢ sep) cur h, split_from_apart sep [] s tt)
  | inr later ↦ rw later (split_from_apart sep (c ∷ cur) s (ground arith, h))
]

-- No part of a split text contains the separator.
pub split_on_apart : (sep : ℕ) (s : Text) → All (All (λ c. c ≢ sep)) (split_on sep s)
unfolding split_on
split_on_apart sep s = split_from_apart sep [] s tt

-- `u8::is_ascii_whitespace` and `char::to_ascii_lowercase`.
abbrev pub is_ascii_whitespace : ℕ → Bool
is_ascii_whitespace c = c == 32 || c == 9 || c == 10 || c == 12 || c == 13

abbrev pub ascii_lower : ℕ → ℕ
ascii_lower c = if leb b'A' c && leb c b'Z' then c + 32 else c

abbrev pub to_ascii_lowercase : Text → Text
to_ascii_lowercase s = map ascii_lower s

-- `char::is_whitespace`, and `str::trim` by it.
abbrev pub is_whitespace : ℕ → Bool
is_whitespace c =
    (leb 9 c && leb c 13)
    || c == 32
    || c == 0x85
    || c == 0xA0
    || c == 0x1680
    || (leb 0x2000 c && leb c 0x200A)
    || c == 0x2028
    || c == 0x2029
    || c == 0x202F
    || c == 0x205F
    || c == 0x3000

unfoldable pub trim_start : Text → Text
trim_start [] = []
trim_start (c ∷ s) = let rest = trim_start s in if is_whitespace c then rest else c ∷ s

unfoldable pub trim : Text → Text
unfolding trim_start
trim s = reverse (trim_start (reverse (trim_start s)))

-- The bytes that UTF-8 spends on one scalar value, and on a text (`str::len`).
abbrev pub utf8_len : ℕ → ℕ
utf8_len c = if ltb c 0x80 then 1 else if ltb c 0x800 then 2 else if ltb c 0x10000 then 3 else 4

unfoldable pub byte_len : Text → ℕ
byte_len [] = 0
byte_len (c ∷ s) = utf8_len c + byte_len s

-- `&s[..end]`, or `none` where `end` is no char boundary of `s` and the slice would panic.
unfoldable pub slice_to : Text → ℕ → Option Text
slice_to s zero = some []
slice_to [] (suc n) = none
slice_to (c ∷ s) (suc n) =
    let rest = slice_to s (suc n - utf8_len c) in
    if leb (utf8_len c) (suc n) then elim rest [ none ↦ none | some p ↦ some (c ∷ p) ] else none

-- `str::as_bytes`: the UTF-8 encoding of one scalar value and of a text.
abbrev pub utf8_bytes : ℕ → List ℕ
utf8_bytes c =
    if ltb c 0x80
    then c ∷ []
    else if ltb c 0x800
    then (0xC0 + c / 64) ∷ (0x80 + c % 64) ∷ []
    else if ltb c 0x10000
    then (0xE0 + c / 4096) ∷ (0x80 + (c / 64) % 64) ∷ (0x80 + c % 64) ∷ []
    else (0xF0 + c / 262144)
      ∷ (0x80 + (c / 4096) % 64)
      ∷ (0x80 + (c / 64) % 64)
      ∷ (0x80 + c % 64)
      ∷ []

unfoldable pub as_bytes : Text → List ℕ
as_bytes [] = []
as_bytes (c ∷ s) = utf8_bytes c ++ as_bytes s

pub utf8_len_pos : (c : ℕ) → 0 < utf8_len c
utf8_len_pos c = ground arith

pub utf8_len-le-4 : (c : ℕ) → utf8_len c ≤ 4
utf8_len-le-4 c = ground arith

pub byte_len-append : (s t : Text) → byte_len (s ++ t) ≡ byte_len s + byte_len t
unfolding byte_len
byte_len-append [] t = omega arith
byte_len-append (c ∷ s) t = omega (arith, byte_len-append s t)

pub length-le-byte_len : (s : Text) → length s ≤ byte_len s
unfolding byte_len
length-le-byte_len [] = omega arith
length-le-byte_len (c ∷ s) = omega (arith, length-le-byte_len s, utf8_len_pos c)

pub strip_prefix_sound : (p s : Text) {r : Text} → strip_prefix p s ≡ some r → s ≡ p ++ r
unfolding strip_prefix
strip_prefix_sound [] s e = ground arith
strip_prefix_sound (p ∷ ps) [] e = ground arith
strip_prefix_sound (p ∷ ps) (c ∷ s) {r} e = ground (arith, strip_prefix_sound ps s {r = r})

pub strip_prefix-append : (p r : Text) → strip_prefix p (p ++ r) ≡ some r
unfolding strip_prefix
strip_prefix-append [] r = refl
strip_prefix-append (p ∷ ps) r = ground (arith, strip_prefix-append ps r)
