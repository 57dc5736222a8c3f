-- ===== src/ReadWebsite/Bound.antt =====
-- The loop of `read_website` of crates/core/src/tools/webcrawl.rs: it ends within the weight of its
-- first queue, and stops at the page limit.
use stapler_mcp.Common.{
  ℕ, zero, suc, ◌+◌, ◌-◌, ◌≤◌, ◌<◌, ◌≡◌, refl, ap, subst, ◌∙◌, false, Option, none, some, inl, inr,
  List, [], arith, leb, Bool-cases, Option-cases, Text, length, Result, ok, err, Result-cases,
  is_empty,
}
use stapler_mcp.Web.{WebLib}
use stapler_mcp.Policy.{NetworkPolicy, blocked_host_reason}
use stapler_mcp.Crawler.{
  Crawler, pop_allowed, next_url, resolve_limits, max_depth_ceiling, max_pages_ceiling, new_crawler,
}
use stapler_mcp.Crawler.Work.{weight, weight_mono, load, Lighter, pop_allowed-Lighter, HasFewLinks}
use stapler_mcp.ReadWebsite.{
  PageLib, WebPorts, Reading, ReadWebsiteInput, ReadWebsiteOutput, next, Outcome, returned, crashed,
  out_of_fuel, read_page, read_loop, start_reading, read_website,
}
use stapler_mcp.ReadWebsite.Ends.{Lowers, read_page-Lowers, Turn-cases}

module _ (L : WebLib) where
  -- What `next_url` hands out was paid for, and only below the page limit.
  abbrev Pops : ℕ → Crawler L → ℕ → Option (L.Url × ℕ) × Crawler L → Type 0
  Pops links c n (none, d) = Unit
  Pops links c n (some (url, depth), d) =
      (load L links c.max_depth d.queue + weight links (c.max_depth - depth)
        ≤ load L links c.max_depth c.queue)
      × (n < c.max_pages)
      × (d.max_depth ≡ c.max_depth)
      × (d.max_pages ≡ c.max_pages)

  next_url-Pops : (links : ℕ) (c : Crawler L) (n : ℕ) → Pops links c n (next_url L c n)
  unfolding next_url
  next_url-Pops links c n = elim (Bool-cases (leb c.max_pages n)) [
    | inl full ↦ rw full tt
    | inr more ↦ rw more (
        found (pop_allowed L c.robot c.queue)
          (pop_allowed-Lighter L links c.robot c.max_depth c.queue) more)
  ]
    where
      found :
          (r : Option (L.Url × ℕ) × List (L.Url × ℕ))
          → Lighter L links c.max_depth c.queue r
          → leb c.max_pages n ≡ false
          → Pops links c n (r.0, record c { queue = r.1 })
      found (none, rest) h more = tt
      found (some (url, depth), rest) h more = (h, ground arith, refl, refl)

  popped_facts :
      (links : ℕ) (c : Crawler L) (n : ℕ) (url : L.Url) (depth : ℕ)
      → (next_url L c n).0 ≡ some (url, depth)
      → Pops links c n (some (url, depth), (next_url L c n).1)
  popped_facts links c n url depth e =
      subst (λ o. Pops links c n (o, (next_url L c n).1)) e (next_url-Pops links c n)

-- The call did not run out of fuel, and pages that it returns are within the limit.
abbrev pub EndsWithin : ℕ → Outcome (Result Text ReadWebsiteOutput) → Type 0
EndsWithin pages (returned (ok out)) = length out.pages ≤ pages
EndsWithin pages (returned (err e)) = Unit
EndsWithin pages crashed = Unit
EndsWithin pages out_of_fuel = ⊥

module _ (L : WebLib) (P : PageLib) {W : Type 0} (ports : WebPorts W) (cache_dir : Text) (links : ℕ)
    (few : HasFewLinks L links ports.get) where
  read_loop-EndsWithin :
      (fuel : ℕ) (st : Reading L W) (pages : ℕ)
      → st.crawler.max_pages ≡ pages
      → load L links st.crawler.max_depth st.crawler.queue < fuel
      → length st.pages ≤ pages
      → EndsWithin pages (read_loop L P ports cache_dir fuel st)
  unfolding read_loop
  read_loop-EndsWithin zero st pages same room h = absurd (omega arith)
  read_loop-EndsWithin (suc fuel) st pages same room h =
      elim (Option-cases (next_url L st.crawler (length st.pages)).0) [
        | inl done ↦ rw (done, read_loop) h
        | inr ((url, depth), found) ↦
            let (paid, more, e, e') =
              popped_facts L links st.crawler (length st.pages) url depth found in
            let c = (next_url L st.crawler (length st.pages)).1 in
            let turn = read_page L P ports cache_dir (record st { crawler = c }) url depth in
            elim (Turn-cases turn) [
              | inl (st', went) ↦
                  let (low, f, f', one) : Lowers L P ports cache_dir links
                      (load L links c.max_depth c.queue + weight links (c.max_depth - depth)) c
                      st.pages (next st') =
                    subst (Lowers L P ports cache_dir links _ c st.pages) went (
                      read_page-Lowers L P ports cache_dir links (record st { crawler = c }) url
                        depth few) in
                  rw (found, read_loop)
                    (rw (went, read_loop)
                      (read_loop-EndsWithin fuel st' pages (f' ∙ e' ∙ same)
                        (smaller st' c depth e f low paid room) (omega (arith, one, more))))
              | inr (inl (m, went)) ↦ rw (found, read_loop) (rw (went, read_loop) tt)
              | inr (inr went) ↦ rw (found, read_loop) (rw (went, read_loop) tt)
            ]
      ]
    where
      smaller :
          (st' : Reading L W) (c : Crawler L) (depth : ℕ)
          → c.max_depth ≡ st.crawler.max_depth
          → st'.crawler.max_depth ≡ c.max_depth
          → suc (load L links c.max_depth st'.crawler.queue)
            ≤ load L links c.max_depth c.queue + weight links (c.max_depth - depth)
          → load L links st.crawler.max_depth c.queue + weight links (st.crawler.max_depth - depth)
            ≤ load L links st.crawler.max_depth st.crawler.queue
          → load L links st.crawler.max_depth st.crawler.queue < suc fuel
          → load L links st'.crawler.max_depth st'.crawler.queue < fuel
      smaller st' c depth e f low paid room = rw (f, e) (omega (arith, rw e at low, paid, room))

  abbrev Made : ℕ → ℕ → Result Text (Crawler L) → Type 0
  Made depth pages (err e) = Unit
  Made depth pages (ok c) =
      (c.max_depth ≡ depth)
      × (c.max_pages ≡ pages)
      × (load L links depth c.queue ≤ weight links depth)

  new_crawler-Made :
      (w : W) (seed : L.Url) (depth pages : ℕ) (policy : NetworkPolicy)
      → Made depth pages (new_crawler L ports.get w seed depth pages policy).0
  unfolding new_crawler load
  new_crawler-Made w seed depth pages policy =
      elim (Option-cases (blocked_host_reason L seed policy)) [
        | inl open_host ↦
            rw (open_host, new_crawler) (refl, refl, omega (arith, ap (weight links) whole))
        | inr (reason, refused) ↦ rw (refused, new_crawler) tt
      ]
    where
      whole : depth - 0 ≡ depth
      whole = omega arith

  abbrev Started : ℕ → ℕ → Result Text (Reading L W) → Type 0
  Started depth pages (err e) = Unit
  Started depth pages (ok st) = Made depth pages (ok st.crawler) × (st.pages ≡ [])

  start_reading-Started :
      (w : W) (input : ReadWebsiteInput) (policy : NetworkPolicy)
      → Started
          (resolve_limits input.max_depth input.max_pages).0
          (resolve_limits input.max_depth input.max_pages).1
          (start_reading L P ports cache_dir w input policy)
  unfolding start_reading
  start_reading-Started w input policy = elim (Bool-cases (is_empty input.url)) [
    | inl empty ↦ rw empty tt
    | inr given ↦ rw given (elim (Option-cases (L.parse input.url)) [
      | inl bad ↦ rw bad tt
      | inr (seed, good) ↦
          rw good
            (elim (Result-cases
              (new_crawler L ports.get w seed (resolve_limits input.max_depth input.max_pages).0
                (resolve_limits input.max_depth input.max_pages).1 policy).0) [
                  | inl (c, made) ↦
                      rw made (subst (Made _ _) made (new_crawler-Made w seed _ _ policy), refl)
                  | inr (m, refused) ↦ rw refused tt
                ])
    ])
  ]

  -- If no page that the servers answer with success has more than `links` links, a call of
  -- `read_website` with more fuel than the weight of five levels ends, with a result, an error or the
  -- panic of the check for a login wall, whatever else the servers, the browser and the files
  -- answer; a result has at most the resolved number of pages, which lies between 1 and 50.
  pub read_website_ends :
      (fuel : ℕ) (w : W) (input : ReadWebsiteInput) (policy : NetworkPolicy)
      → weight links max_depth_ceiling < fuel
      → EndsWithin
          (resolve_limits input.max_depth input.max_pages).1
          (read_website L P ports cache_dir fuel w input policy)
        × (0 < (resolve_limits input.max_depth input.max_pages).1)
        × ((resolve_limits input.max_depth input.max_pages).1 ≤ max_pages_ceiling)
  unfolding read_website resolve_limits
  read_website_ends fuel w input policy room = (
    elim (Result-cases (start_reading L P ports cache_dir w input policy)) [
      | inr (m, e) ↦ rw (e, read_website) tt
      | inl (st, e) ↦
          let ((d, p, small), none_yet) : Started (resolve_limits input.max_depth input.max_pages).0
              (resolve_limits input.max_depth input.max_pages).1 (ok st) =
            subst (Started _ _) e (start_reading-Started w input policy) in
          rw (e, read_website)
            (read_loop-EndsWithin fuel st _ p
              (rw d (
                omega (
                  arith,
                  small,
                  weight_mono links (resolve_limits input.max_depth input.max_pages).0
                      max_depth_ceiling (omega arith),
                )))
              (rw none_yet (omega arith)))
    ],
    omega arith,
    omega arith,
  )
