-- ===== src/Download/Targets.antt =====
-- Where `save_path_for` of crates/core/src/tools/webcrawl.rs lets a page be saved.
use stapler_mcp.Common.{
  ◌≡◌, ◌≢◌, refl, sym, ap, ◌∙◌, inl, inr, false, List, [], ◌∷◌, ◌++◌, arith, if◌then◌else◌,
  Bool-cases, Text, text, text_eq_iff, is_empty, ends_with, split_on, select, All, All-append,
  split_on_apart,
}
use mathlib.Core.List.{append_assoc}
use stapler_mcp.Web.{WebLib}
use stapler_mcp.Crawler.{get_or}
use stapler_mcp.SavedPage.{join_with}
use stapler_mcp.Download.{is_safe, without_slashes, relative_path, save_path_for}

-- A name that stays in its directory: not empty, neither `.` nor `..`, and without a slash.
abbrev pub IsPlainName : Text → Type 0
IsPlainName seg =
    (is_empty seg ≡ false) × (seg ≢ text ".") × (seg ≢ text "..") × All (λ c. c ≢ b'/') seg

-- One or more such names, joined by slashes.
abbrev pub IsBelow : Text → Type 0
IsBelow rel =
    (seg : Text) × ((segs : List Text) × (rel ≡ join_with (text "/") (seg ∷ segs))
      × All IsPlainName (seg ∷ segs))

select-IsPlainName :
    (segs : List Text) → All (All (λ c. c ≢ b'/')) segs → All IsPlainName (select is_safe segs)
select-IsPlainName [] h = tt
select-IsPlainName (seg ∷ segs) (apart, h) = elim (Bool-cases (is_safe seg)) [
  | inr unsafe ↦ rw unsafe (select-IsPlainName segs h)
  | inl safe ↦ rw safe (
    (
      ground (arith, safe),
      ground (arith, safe, text_eq_iff seg (text ".")),
      ground (arith, safe, text_eq_iff seg (text "..")),
      apart,
    ),
    select-IsPlainName segs h,
  )
]

join_with-snoc :
    (seg : Text) (segs : List Text) (x : Text)
    → join_with (text "/") (seg ∷ (segs ++ x ∷ []))
      ≡ join_with (text "/") (seg ∷ segs) ++ (text "/" ++ x)
unfolding join_with
join_with-snoc seg [] x = refl
join_with-snoc seg (q ∷ segs) x =
    ap (λ t. seg ++ (text "/" ++ t)) (join_with-snoc q segs x)
    ∙ sym (append_assoc seg (text "/" ++ join_with (text "/") (q ∷ segs)) (text "/" ++ x))

join_with_full :
    (seg : Text) (segs : List Text)
    → is_empty seg ≡ false
    → is_empty (join_with (text "/") (seg ∷ segs)) ≡ false
unfolding join_with
join_with_full [] segs h = absurd cc
join_with_full (c ∷ seg) [] h = refl
join_with_full (c ∷ seg) (q ∷ segs) h = refl

index_plain : IsPlainName (text "index.html")
index_plain = (refl, cc, cc, ground arith)

relative_path-IsBelow : (raw : Text) → IsBelow (relative_path raw)
unfolding relative_path join_with
relative_path-IsBelow raw =
    below (select is_safe (split_on b'/' raw)) (select-IsPlainName _ (split_on_apart b'/' raw))
  where
    below :
        (segs : List Text)
        → All IsPlainName segs
        → IsBelow (
            if is_empty (join_with (text "/") segs)
            then text "index.html"
            else if ends_with (text "/") raw
            then join_with (text "/") segs ++ text "/index.html"
            else join_with (text "/") segs)
    below [] h = (text "index.html", ([], refl, (index_plain, tt)))
    below (seg ∷ segs) (p, h) =
        rw (join_with_full seg segs p.0) (elim (Bool-cases (ends_with (text "/") raw)) [
          | inl index ↦ rw index (
            seg,
            (
              segs ++ text "index.html" ∷ [],
              sym (join_with-snoc seg segs (text "index.html")),
              (p, All-append IsPlainName segs (text "index.html" ∷ []) h (index_plain, tt)),
            ),
          )
          | inr page ↦ rw page (seg, (segs, refl, (p, h)))
        ])

-- A page is saved below the host's directory in the given one: the rest of the path is one or more
-- names, joined by slashes, that are not empty, neither `.` nor `..`, and contain no slash, whatever
-- the path of the URL.
pub save_path_for-IsBelow :
    (L : WebLib) (save_dir : Text) (url : L.Url)
    → (rel : Text) × (save_path_for L save_dir url
        ≡ save_dir
          ++ (text "/" ++ (get_or (L.host_str url) (text "unknown-host") ++ (text "/" ++ rel))))
      × IsBelow rel
unfolding save_path_for
save_path_for-IsBelow L save_dir url =
    (relative_path (without_slashes (L.path url)), refl, relative_path-IsBelow _)
