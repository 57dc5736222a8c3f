-- ===== src/ReadWebsite/Paths.antt =====
-- The paths that `divert_large_markdown` of crates/core/src/tools/webcrawl.rs saves pages under are
-- those that `is_valid_saved_page_path` accepts.
use stapler_mcp.Common.{
  ℕ, ◌*◌, ◌/◌, ◌%◌, ◌<◌, ◌≤◌, ◌≡◌, ◌⊎◌, ◌↔◌, Bool-cases, refl, true, some, List, [], ◌∷◌, ◌++◌,
  arith, reverse, ap, ◌∙◌, Text, text, all, length, All, strip_prefix, strip_prefix-append,
  byte_len, as_bytes, utf8_len, utf8_bytes, Option-cases, inl, inr, strip_prefix_sound, sym,
}
use mathlib.Core.Path.{ap₂}
use mathlib.Core.List.{reverse-append, reverse-reverse}
use stapler_mcp.ReadWebsite.{PageLib, hex_digit, hex, saved_prefix, cache_key_for, saved_path_for}
use stapler_mcp.SavedPage.{strip_suffix, is_hex_byte, is_valid_saved_page_path}

strip_suffix-append : (s p : Text) → strip_suffix p (s ++ p) ≡ some s
unfolding strip_suffix
strip_suffix-append s p =
    rw (reverse-append s p, strip_suffix)
      (rw (strip_prefix-append (reverse p) (reverse s)) (ap some (reverse-reverse s)))

strip_suffix_sound : (p s r : Text) → strip_suffix p s ≡ some r → s ≡ r ++ p
unfolding strip_suffix
strip_suffix_sound p s r e = elim (Option-cases (strip_prefix (reverse p) (reverse s))) [
  | inl none_ ↦ absurd (ground (arith, none_))
  | inr (t, found) ↦
      let same : reverse t ≡ r = ground (arith, found) in
      sym (reverse-reverse s)
      ∙ ap reverse (strip_prefix_sound (reverse p) (reverse s) found)
      ∙ reverse-append (reverse p) t
      ∙ ap₂ ◌++◌ same (reverse-reverse p)
]

hex_digit_byte : (n : ℕ) → n < 16 → (is_hex_byte (hex_digit n) ≡ true) × (hex_digit n < 0x80)
hex_digit_byte n h = ground arith

ascii_char : (c : ℕ) → c < 0x80 → (utf8_len c ≡ 1) × (utf8_bytes c ≡ c ∷ [])
ascii_char c h = ground arith

hex_lem :
    (bs : List ℕ)
    → All (λ b. b < 256) bs
    → (byte_len (hex bs) ≡ 2 * length bs) × (all is_hex_byte (as_bytes (hex bs)) ≡ true)
unfolding hex byte_len as_bytes
hex_lem [] h = (refl, refl)
hex_lem (b ∷ bs) (p, h) =
    let (high, high_ascii) = hex_digit_byte (b / 16) (omega arith) in
    let (low, low_ascii) = hex_digit_byte (b % 16) (omega arith) in
    let (one, single) = ascii_char (hex_digit (b / 16)) high_ascii in
    let (one', single') = ascii_char (hex_digit (b % 16)) low_ascii in
    let (size, digits) = hex_lem bs h in
    (omega (arith, one, one', size), rw (single, single') (rw (high, low) digits))

-- Every path that a page can be saved under, which is built from the digest of its URL, is one
-- that `read_saved_page` accepts, if a digest is 32 numbers below 256.
pub saved_path_for_valid :
    (P : PageLib) (cache_dir url : Text)
    → ((bs : List ℕ) → length (P.sha256 bs) ≡ 32)
    → ((bs : List ℕ) → All (λ b. b < 256) (P.sha256 bs))
    → is_valid_saved_page_path cache_dir (saved_path_for P cache_dir url) ≡ true
unfolding is_valid_saved_page_path cache_key_for
saved_path_for_valid P cache_dir url size bytes =
    let digest = P.sha256 (as_bytes url) in
    let (double, digits) = hex_lem digest (bytes (as_bytes url)) in
    let long : byte_len (hex digest) ≡ 64 = omega (arith, double, size (as_bytes url)) in
    rw
      (
        strip_prefix-append (saved_prefix cache_dir) (hex digest ++ text ".md"),
        is_valid_saved_page_path,
      )
      (rw (strip_suffix-append (hex digest) (text ".md")) (rw (long, digits) refl))

-- A lower-case hexadecimal digit in ASCII.
abbrev pub IsHexDigit : ℕ → Type 0
IsHexDigit b = ((48 ≤ b) × (b ≤ 57)) ⊎ ((97 ≤ b) × (b ≤ 102))

is_hex_byte_iff : (b : ℕ) → (is_hex_byte b ≡ true) ↔ IsHexDigit b
is_hex_byte_iff b = ground arith

all_hex_iff : (bs : List ℕ) → (all is_hex_byte bs ≡ true) ↔ All IsHexDigit bs
all_hex_iff [] = (λ h. tt, λ h. refl)
all_hex_iff (b ∷ bs) = elim (Bool-cases (is_hex_byte b)) [
  | inl e ↦ (
    λ h. ((is_hex_byte_iff b).0 e, (all_hex_iff bs).0 (rw e at h)),
    λ (p, h). rw e ((all_hex_iff bs).1 h),
  )
  | inr e ↦ (λ h. absurd (cc (rw e at h)), λ (p, h). absurd (cc ((is_hex_byte_iff b).1 p)))
]

-- What a path of a saved page is: the output directory in the cache, 64 bytes that are hexadecimal
-- digits, and the extension.
abbrev pub IsSavedPagePath : Text → Text → Type 0
IsSavedPagePath cache_dir path =
    (digits : Text) × (path ≡ (cache_dir ++ text "/read-website/output/") ++ (digits ++ text ".md"))
    × (byte_len digits ≡ 64)
    × All IsHexDigit (as_bytes digits)

-- A path is accepted exactly if it is the directory `/read-website/output/` of the cache followed by
-- 64 bytes, each an ASCII digit or one of the letters from a to f, and the extension `.md`.
pub is_valid_saved_page_path_iff :
    (cache_dir path : Text)
    → (is_valid_saved_page_path cache_dir path ≡ true) ↔ IsSavedPagePath cache_dir path
unfolding is_valid_saved_page_path
is_valid_saved_page_path_iff cache_dir path = (forward, backward)
  where
    forward : is_valid_saved_page_path cache_dir path ≡ true → IsSavedPagePath cache_dir path
    forward e = elim (Option-cases (strip_prefix (saved_prefix cache_dir) path)) [
      | inl no_prefix ↦ absurd (cc (rw (no_prefix, is_valid_saved_page_path) at e))
      | inr (rest, found) ↦ elim (Option-cases (strip_suffix (text ".md") rest)) [
        | inl no_suffix ↦ absurd (ground (arith, found, no_suffix))
        | inr (digits, ends) ↦ (
          digits,
          strip_prefix_sound (saved_prefix cache_dir) path found
              ∙ ap (◌++◌ (saved_prefix cache_dir))
                  (strip_suffix_sound (text ".md") rest digits ends),
          ground (arith, found, ends),
          (all_hex_iff (as_bytes digits)).0 (ground (arith, found, ends)),
        )
      ]
    ]

    backward : IsSavedPagePath cache_dir path → is_valid_saved_page_path cache_dir path ≡ true
    backward (digits, split, long, hex_digits) =
        rw
          (
            split,
            strip_prefix-append (saved_prefix cache_dir) (digits ++ text ".md"),
            is_valid_saved_page_path,
          )
          (rw (strip_suffix-append digits (text ".md"))
            (rw (long, (all_hex_iff (as_bytes digits)).1 hex_digits) refl))
