-- ===== src/Network/Truncate.antt =====
-- `truncate_utf8` of crates/native/src/network.rs against a reference: keep whole characters from
-- the left while they fit.
use stapler_mcp.Common.{
  ℕ, zero, suc, ◌+◌, ◌-◌, ◌≤◌, ◌<◌, ◌≡◌, refl, sym, ◌∙◌, inl, inr, true, not, none, some, [], ◌∷◌,
  ◌++◌, ap, arith, leb, if◌then◌else◌, Bool-cases, Option-cases, leb→le, Text, utf8_len, byte_len,
  slice_to, utf8_len_pos,
}
use stapler_mcp.Network.{slice_down, truncate_utf8}

abbrev pub fits : ℕ → Text → Text
fits n [] = []
fits n (c ∷ s) = let rest = fits (n - utf8_len c) s in if leb (utf8_len c) n then c ∷ rest else []

slice_to-fits : (s : Text) (n : ℕ) {p : Text} → slice_to s n ≡ some p → p ≡ fits n s
unfolding slice_to
slice_to-fits [] zero e = ground arith
slice_to-fits [] (suc n) e = ground arith
slice_to-fits (c ∷ s) zero e = ground (arith, utf8_len_pos c)
slice_to-fits (c ∷ s) (suc n) {p} e = elim (Option-cases (slice_to s (suc n - utf8_len c))) [
  | inl missed ↦ ground arith
  | inr (r, found) ↦ ground (arith, slice_to-fits s (suc n - utf8_len c) {p = r})
]

-- A position inside a character, or past the end, keeps what the position below it keeps.
fits-suc : (s : Text) (n : ℕ) → slice_to s (suc n) ≡ none → fits (suc n) s ≡ fits n s
unfolding slice_to
fits-suc [] n e = refl
fits-suc (c ∷ s) n e = elim (Bool-cases (leb (utf8_len c) n)) [
  | inl small ↦
      let same : suc n - utf8_len c ≡ suc (n - utf8_len c) = omega (arith, leb→le _ _ small) in
      ground (arith, same, fits-suc s (n - utf8_len c))
  | inr large ↦ ground arith
]

slice_down-fits : (s : Text) (n : ℕ) → slice_down s n ≡ fits n s
unfolding slice_down slice_to
slice_down-fits [] zero = refl
slice_down-fits (c ∷ s) zero = ground (arith, utf8_len_pos c)
slice_down-fits s (suc n) = elim (Option-cases (slice_to s (suc n))) [
  | inl missed ↦ rw (missed, slice_down) (slice_down-fits s n ∙ sym (fits-suc s n missed))
  | inr (p, found) ↦ rw (found, slice_down) (slice_to-fits s (suc n) found)
]

pub fits_whole : (s : Text) (n : ℕ) → byte_len s ≤ n → fits n s ≡ s
unfolding byte_len
fits_whole [] n h = refl
fits_whole (c ∷ s) n h = ground (arith, fits_whole s (n - utf8_len c))

-- Cutting a text at `limit` bytes keeps exactly the characters that fit from the left, and the
-- flag says whether the text was longer than the limit.
pub truncate_utf8-fits :
    (s : Text) (limit : ℕ) → truncate_utf8 s limit ≡ (fits limit s, not (leb (byte_len s) limit))
unfolding truncate_utf8
truncate_utf8-fits s limit = elim (Bool-cases (leb (byte_len s) limit)) [
  | inl short ↦ ground (arith, fits_whole s limit)
  | inr long ↦ ground (arith, slice_down-fits s limit)
]

-- What was cut off after the kept part: nothing, or a text whose first character does not fit.
abbrev pub IsCut : ℕ → Text → Text → Type 0
IsCut limit kept [] = Unit
IsCut limit kept (c ∷ rest) = limit < byte_len kept + utf8_len c

fits_split :
    (s : Text) (n : ℕ)
    → (rest : Text) × (s ≡ fits n s ++ rest) × (byte_len (fits n s) ≤ n) × IsCut n (fits n s) rest
unfolding byte_len
fits_split [] n = ([], refl, omega arith, tt)
fits_split (c ∷ s) n = elim (Bool-cases (leb (utf8_len c) n)) [
  | inl small ↦
      let (rest, whole, room, cut) = fits_split s (n - utf8_len c) in
      rw small (rest, ap (◌∷◌ c) whole, omega (arith, leb→le _ _ small), widen rest cut small)
  | inr large ↦ rw large (c ∷ s, refl, omega arith, ground arith)
]
  where
    widen :
        (rest : Text)
        → IsCut (n - utf8_len c) (fits (n - utf8_len c) s) rest
        → leb (utf8_len c) n ≡ true
        → IsCut n (c ∷ fits (n - utf8_len c) s) rest
    widen [] _ _ = tt
    widen (d ∷ rest) h small = omega (arith, leb→le _ _ small)

-- The cut text is a prefix of the given one of at most `limit` bytes, the first missing character
-- would not have fitted, and the flag is set exactly when the given text is longer than the limit.
pub truncate_utf8_maximal :
    (s : Text) (limit : ℕ)
    → (rest : Text) × (s ≡ (truncate_utf8 s limit).0 ++ rest)
      × (byte_len (truncate_utf8 s limit).0 ≤ limit)
      × IsCut limit (truncate_utf8 s limit).0 rest
      × ((truncate_utf8 s limit).1 ≡ not (leb (byte_len s) limit))
truncate_utf8_maximal s limit =
    let (rest, whole, room, cut) = fits_split s limit in
    rw (truncate_utf8-fits s limit) (rest, whole, room, cut, refl)
