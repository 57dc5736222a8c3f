-- ===== src/Auth/Visible.antt =====
-- What `visible_text_len` of crates/core/src/auth.rs counts.
use stapler_mcp.Common.{
  ℕ, zero, suc, ◌+◌, ◌-◌, ◌≤◌, ◌≡◌, refl, ◌≢◌, ◌∙◌, ◌⊎◌, inl, inr, true, some, [], ◌∷◌, ◌++◌, ap,
  arith, ◌==◌, Bool-cases, Option-cases, Text, text, to_ascii_lowercase, starts_with, find_end,
  byte_len, length, All,
}
use stapler_mcp.Auth.{skip_markup, ink, scan, visible_text_len}

scan-le : (k : ℕ) (s : Text) (out : ℕ) → scan k s out ≤ out + byte_len s
unfolding scan byte_len
scan-le zero [] out = omega arith
scan-le (suc k) [] out = omega arith
scan-le (suc k) (c ∷ s) out = omega (arith, scan-le k s out)
scan-le zero (c ∷ s) out = elim (Bool-cases (c == b'<')) [
  | inl markup ↦ elim (Option-cases (skip_markup (to_ascii_lowercase (c ∷ s)))) [
    | inl stop ↦ ground (arith, markup, stop)
    | inr (n, go) ↦ ground (arith, markup, go, scan-le (n - 1) s out)
  ]
  | inr plain ↦ ground (arith, plain, scan-le zero s (out + ink c))
]

-- The count is at most the size of the page.
visible_text_len-le : (html : Text) → visible_text_len html ≤ byte_len html
unfolding visible_text_len
visible_text_len-le html = omega (arith, scan-le zero html 0)

scan-add : (k : ℕ) (s : Text) (out : ℕ) → scan k s out ≡ out + scan k s 0
unfolding scan
scan-add zero [] out = omega arith
scan-add (suc k) [] out = omega arith
scan-add (suc k) (c ∷ s) out = scan-add k s out
scan-add zero (c ∷ s) out = elim (Bool-cases (c == b'<')) [
  | inl markup ↦ elim (Option-cases (skip_markup (to_ascii_lowercase (c ∷ s)))) [
    | inl stop ↦ ground (arith, markup, stop)
    | inr (n, go) ↦ ground (arith, markup, go, scan-add (n - 1) s out)
  ]
  | inr plain ↦ ground (arith, plain, scan-add zero s (out + ink c), scan-add zero s (0 + ink c))
]

-- The bytes of a text that are not ASCII white space.
abbrev pub ink_len : Text → ℕ
ink_len [] = 0
ink_len (c ∷ s) = ink c + ink_len s

scan_plain :
    (t s : Text) (out : ℕ)
    → All (λ c. c ≢ b'<') t
    → scan zero (t ++ s) out ≡ scan zero s (out + ink_len t)
unfolding scan
scan_plain [] s out h = ap (scan zero s) (omega arith)
scan_plain (c ∷ t) s out (p, h) = elim (Bool-cases (c == b'<')) [
  | inl markup ↦ absurd (p (ground (arith, markup)))
  | inr plain ↦ rw (plain, scan) (scan_plain t s (out + ink c) h ∙ ap (scan zero s) (omega arith))
]

scan_past :
    (k c : ℕ) (t s : Text) (out : ℕ)
    → k ≡ suc (length t)
    → scan k (t ++ c ∷ s) out ≡ scan zero s out
unfolding scan
scan_past zero c t s out e = absurd (omega arith)
scan_past (suc k) c [] s out e = ap (λ n. scan n s out) (omega arith)
scan_past (suc k) c (d ∷ t) s out e = scan_past k c t s out (omega arith)

find_end_tag :
    (body s : Text)
    → All (λ c. c ≢ b'>') body
    → find_end (text ">") (to_ascii_lowercase (body ++ b'>' ∷ s)) ≡ some (suc (length body))
unfolding find_end starts_with
find_end_tag [] s h = refl
find_end_tag (c ∷ body) s (p, h) = ground (arith, find_end_tag body s h)

abbrev pub IsScriptOrStyle : Text → Type 0
IsScriptOrStyle lower =
    (starts_with (text "<script") lower ≡ true) ⊎ (starts_with (text "<style") lower ≡ true)

skip_markup_tag :
    (body s : Text)
    → All (λ c. c ≢ b'>') body
    → ¬ IsScriptOrStyle (to_ascii_lowercase (b'<' ∷ (body ++ b'>' ∷ s)))
    → skip_markup (to_ascii_lowercase (b'<' ∷ (body ++ b'>' ∷ s))) ≡ some (suc (suc (length body)))
unfolding skip_markup find_end starts_with
skip_markup_tag body s h other = ground (arith, find_end_tag body s h)

scan_tag :
    (body s : Text) (out : ℕ)
    → All (λ c. c ≢ b'>') body
    → ¬ IsScriptOrStyle (to_ascii_lowercase (b'<' ∷ (body ++ b'>' ∷ s)))
    → scan zero (b'<' ∷ (body ++ b'>' ∷ s)) out ≡ scan zero s out
unfolding scan
scan_tag body s out h other =
    rw (skip_markup_tag body s h other, scan)
      (scan_past (suc (suc (length body)) - 1) b'>' body s out (omega arith))

-- Text without `<` counts its bytes that are not white space, a tag after it without `>` inside
-- counts nothing unless it opens a script or a style, and the rest of the page counts as it does
-- alone.
pub visible_text_len_tag :
    (plain body rest : Text)
    → All (λ c. c ≢ b'<') plain
    → All (λ c. c ≢ b'>') body
    → ¬ IsScriptOrStyle (to_ascii_lowercase (b'<' ∷ (body ++ b'>' ∷ rest)))
    → visible_text_len (plain ++ (b'<' ∷ (body ++ b'>' ∷ rest)))
      ≡ ink_len plain + visible_text_len rest
unfolding visible_text_len
visible_text_len_tag plain body rest p h other =
    scan_plain plain (b'<' ∷ (body ++ b'>' ∷ rest)) 0 p
    ∙ ap (scan zero _) (omega arith)
    ∙ scan_tag body rest (ink_len plain) h other
    ∙ scan-add zero rest (ink_len plain)
