-- ===== src/Crawler/Work.antt =====
-- Why a crawl over `Crawler` of crates/core/src/tools/webcrawl.rs ends: a weight of the frontier
-- that `next_url` lowers, and that a fetch raises by less than `next_url` lowered it. It needs a
-- bound on the links of one page.
use stapler_mcp.Common.{
  ℕ, zero, suc, ◌+◌, ◌-◌, ◌*◌, ◌≤◌, ◌<◌, ◌≡◌, refl, Bool, true, false, Option, none, some, inl, inr,
  List, [], ◌∷◌, ◌++◌, arith, ltb, if◌then◌else◌, Bool-cases, Text, length, select, Result, ok, err,
  ap, ◌∙◌,
}
use native.Mathlib.Nat.{le_trans}
use stapler_mcp.Ports.{HttpResponse, AuthRequiredInfo}
use stapler_mcp.Web.{WebLib}
use stapler_mcp.Auth.{detect_auth_wall}
use stapler_mcp.Crawler.{
  HttpGet, Crawler, robot_allows, pop_allowed, join_all, is_web, extract_links, admits, enqueue,
  expand, fetch_ok, accept_page, answer, fetch_and_expand,
}

-- The URLs that one URL can bring with `levels` hops left and at most `links` links on a page.
unfoldable pub weight : ℕ → ℕ → ℕ
weight links zero = 1
weight links (suc levels) = 1 + links * weight links levels

pub weight_pos : (links levels : ℕ) → 0 < weight links levels
unfolding weight
weight_pos links zero = omega arith
weight_pos links (suc levels) = omega arith

mul_mono_right : (k a b : ℕ) → a ≤ b → k * a ≤ k * b
mul_mono_right k a b h = grind arith

pub weight_mono : (links a b : ℕ) → a ≤ b → weight links a ≤ weight links b
unfolding weight
weight_mono links zero b h = weight_pos links b
weight_mono links (suc a) zero h = absurd (omega arith)
weight_mono links (suc a) (suc b) h =
    omega (arith, mul_mono_right links _ _ (weight_mono links a b (omega arith)))

module _ (L : WebLib) (links : ℕ) where
  -- The weight of a queue under a depth limit.
  unfoldable pub load : ℕ → List (L.Url × ℕ) → ℕ
  load max_depth [] = 0
  load max_depth ((url, depth) ∷ q) = weight links (max_depth - depth) + load max_depth q

  load-append :
      (max_depth : ℕ) (p q : List (L.Url × ℕ))
      → load max_depth (p ++ q) ≡ load max_depth p + load max_depth q
  unfolding load
  load-append max_depth [] q = omega arith
  load-append max_depth ((url, depth) ∷ p) q = omega (arith, load-append max_depth p q)

  -- What `next_url` returns costs at least its own weight.
  abbrev pub Lighter : ℕ → List (L.Url × ℕ) → Option (L.Url × ℕ) × List (L.Url × ℕ) → Type 0
  Lighter max_depth q (none, rest) = Unit
  Lighter max_depth q (some (url, depth), rest) =
      load max_depth rest + weight links (max_depth - depth) ≤ load max_depth q

  pub pop_allowed-Lighter :
      (robot : Option L.Robot) (max_depth : ℕ) (q : List (L.Url × ℕ))
      → Lighter max_depth q (pop_allowed L robot q)
  unfolding pop_allowed load
  pop_allowed-Lighter robot max_depth [] = tt
  pop_allowed-Lighter robot max_depth ((url, depth) ∷ q) =
      elim (Bool-cases (robot_allows L robot url)) [
        | inl fits_ ↦ rw fits_ (omega arith)
        | inr skipped ↦
            rw skipped (widen (pop_allowed L robot q) (pop_allowed-Lighter robot max_depth q))
      ]
    where
      widen :
          (r : Option (L.Url × ℕ) × List (L.Url × ℕ))
          → Lighter max_depth q r
          → Lighter max_depth ((url, depth) ∷ q) r
      widen (none, rest) h = tt
      widen (some (u, d), rest) h = omega arith

  length-join_all : (base : L.Url) (hs : List Text) → length (join_all L base hs) ≤ length hs
  unfolding join_all
  length-join_all base [] = omega arith
  length-join_all base (h ∷ hs) = ground (arith, length-join_all base hs)

  length-select : (us : List L.Url) → length (select (is_web L) us) ≤ length us
  length-select [] = omega arith
  length-select (u ∷ us) = ground (arith, length-select us)

  length-extract_links :
      (html : Text) (base : L.Url) → length (extract_links L html base) ≤ length (L.hrefs html)
  unfolding extract_links
  length-extract_links html base =
      omega
        (arith, length-select (join_all L base (L.hrefs html)), length-join_all base (L.hrefs html))

  enqueue-load :
      (m : ℕ) (c : Crawler L) (depth : ℕ) (u : L.Url)
      → load m (enqueue L c depth u).queue ≤ load m c.queue + weight links (m - (depth + 1))
  unfolding enqueue
  enqueue-load m c depth u = elim (Bool-cases (admits L c u)) [
    | inl new ↦ rw new (omega (arith, load-append m c.queue ((u, depth + 1) ∷ []), one))
    | inr out ↦ rw out (omega arith)
  ]
    where
      one : load m ((u, depth + 1) ∷ []) ≡ weight links (m - (depth + 1))
      one = unfold load in omega arith

  -- One page adds at most the weight of its links, one hop deeper.
  expand-load :
      (m : ℕ) (c : Crawler L) (depth : ℕ) (us : List L.Url)
      → load m (expand L c depth us).queue
        ≤ load m c.queue + length us * weight links (m - (depth + 1))
  unfolding expand
  expand-load m c depth [] = omega arith
  expand-load m c depth (u ∷ us) =
      omega (arith, expand-load m (enqueue L c depth u) depth us, enqueue-load m c depth u)

  -- No page that the servers answer with success has more than `links` links.
  abbrev pub HasFewLinks : {W : Type 0} → HttpGet W → Type 0
  HasFewLinks {W} get =
      (w : W) (url : Text) (r : HttpResponse)
      → (fetch_ok L get w url).0 ≡ ok r
      → length (L.hrefs (L.from_utf8_lossy r.body)) ≤ links

  mul_mono : (a b k : ℕ) → a ≤ b → a * k ≤ b * k
  mul_mono a b k h = grind arith

  expand_page :
      (c : Crawler L) (depth : ℕ) (html : Text) (url : L.Url)
      → length (L.hrefs html) ≤ links
      → depth < c.max_depth
      → suc (load c.max_depth (expand L c depth (extract_links L html url)).queue)
        ≤ load c.max_depth c.queue + weight links (c.max_depth - depth)
  expand_page c depth html url few near = omega (
    arith,
    expand-load c.max_depth c depth (extract_links L html url),
    mul_mono (length (extract_links L html url)) links (weight links (c.max_depth - (depth + 1)))
        (le_trans (length-extract_links html url) few),
    level,
  )
    where
      level :
          weight links (c.max_depth - depth) ≡ 1 + links * weight links (c.max_depth - (depth + 1))
      level = ap (weight links) split ∙ unfold weight in refl
        where
          split : c.max_depth - depth ≡ suc (c.max_depth - (depth + 1))
          split = omega arith

  expand_limits :
      (c : Crawler L) (depth : ℕ) (us : List L.Url)
      → ((expand L c depth us).max_depth ≡ c.max_depth)
        × ((expand L c depth us).max_pages ≡ c.max_pages)
  unfolding expand enqueue
  expand_limits c depth [] = (refl, refl)
  expand_limits c depth (u ∷ us) = ground (arith, expand_limits (enqueue L c depth u) depth us)

  -- A fetch at `depth` that is no panic keeps the two limits, and the weight below that of
  -- the queue and the fetched URL.
  abbrev pub Costs : Crawler L → ℕ → Option (Result (Option ℕ) (Text × Text) × Crawler L) → Type 0
  Costs c depth none = Unit
  Costs c depth (some (page, c')) =
      (suc (load c.max_depth c'.queue)
        ≤ load c.max_depth c.queue + weight links (c.max_depth - depth))
      × (c'.max_depth ≡ c.max_depth)
      × (c'.max_pages ≡ c.max_pages)

  accept_page-Costs :
      (c : Crawler L) (url : L.Url) (depth : ℕ) (r : HttpResponse)
      → length (L.hrefs (L.from_utf8_lossy r.body)) ≤ links
      → Costs c depth (accept_page L c url depth r)
  unfolding accept_page
  accept_page-Costs c url depth r few =
      wall (detect_auth_wall L (L.as_str url) r.final_url (L.from_utf8_lossy r.body))
    where
      html : Text
      html = L.from_utf8_lossy r.body

      grown :
          (b : Bool)
          → ltb depth c.max_depth ≡ b
          → (suc (
                load c.max_depth
                  (if b then expand L c depth (extract_links L html url) else c).queue)
              ≤ load c.max_depth c.queue + weight links (c.max_depth - depth))
            × ((if b then expand L c depth (extract_links L html url) else c).max_depth
                ≡ c.max_depth)
            × ((if b then expand L c depth (extract_links L html url) else c).max_pages
                ≡ c.max_pages)
      grown true near = (
        expand_page c depth html url few (ground arith),
        (expand_limits c depth (extract_links L html url)).0,
        (expand_limits c depth (extract_links L html url)).1,
      )
      grown false _ = (omega (arith, weight_pos links (c.max_depth - depth)), refl, refl)

      wall :
          (o : Option (Option AuthRequiredInfo))
          → Costs c depth (elim o [
            | none ↦ none
            | some (some hit) ↦ some (err (some 401), record c { auth_hit = some hit })
            | some none ↦ some (
              ok (html, r.final_url),
              if ltb depth c.max_depth then expand L c depth (extract_links L html url) else c,
            )
          ])
      wall none = tt
      wall (some (some hit)) = (omega (arith, weight_pos links (c.max_depth - depth)), refl, refl)
      wall (some none) = grown (ltb depth c.max_depth) refl

  answer-Costs :
      (c : Crawler L) (url : L.Url) (depth : ℕ) (resp : Result (Option ℕ) HttpResponse)
      → ((r : HttpResponse) → resp ≡ ok r → length (L.hrefs (L.from_utf8_lossy r.body)) ≤ links)
      → Costs c depth (answer L c url depth resp)
  unfolding answer
  answer-Costs c url depth (err none) few =
      (omega (arith, weight_pos links (c.max_depth - depth)), refl, refl)
  answer-Costs c url depth (err (some status)) few =
      (omega (arith, weight_pos links (c.max_depth - depth)), refl, refl)
  answer-Costs c url depth (ok r) few = accept_page-Costs c url depth r (few r refl)

  pub fetch_and_expand-Costs :
      {W : Type 0} (get : HttpGet W) (w : W) (c : Crawler L) (url : L.Url) (depth : ℕ)
      → HasFewLinks get
      → Costs c depth (fetch_and_expand L get w c url depth).0
  unfolding fetch_and_expand
  fetch_and_expand-Costs get w c url depth few =
      answer-Costs (record c { auth_hit = none }) url depth (fetch_ok L get w (L.as_str url)).0
        (few w (L.as_str url))
