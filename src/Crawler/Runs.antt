-- ===== src/Crawler/Runs.antt =====
-- The crawls that the tools of crates/core/src/tools/webcrawl.rs make of a `Crawler`: any sequence of
-- `next_url` and `fetch_and_expand`, whatever the servers answer.
use stapler_mcp.Common.{
  ℕ, ◌≡◌, refl, subst, Bool, true, false, Option, none, some, inl, inr, List, [], arith, ltb,
  Option-cases, Text, All, All-at, IsIn, Result, ok, err, if◌then◌else◌, member, member-cons_self,
}
use stapler_mcp.Ports.{HttpResponse, AuthRequiredInfo}
use stapler_mcp.Web.{WebLib}
use stapler_mcp.Policy.{NetworkPolicy, blocked_host_reason}
use stapler_mcp.Auth.{detect_auth_wall, from_status}
use stapler_mcp.Crawler.{
  HttpGet, Crawler, robot_allows, next_url, expand, extract_links, fetch_ok, new_crawler,
  accept_page, answer, fetch_and_expand,
}
use stapler_mcp.Crawler.Frontier.{
  Distinct, Distinct-prefix, keys, IsInScope, Scope, IsFrontier, log_after, next_url-IsFrontier,
  SameSettings, SameSettings-refl, SameSettings-trans, expand-IsFrontier,
}
use stapler_mcp.Crawler.Hops.{Hops, home, links-Hops}

module _ (L : WebLib) (Serves : L.Url → Text → Type 0) where
  -- The outcome of a fetch, where it is no panic, keeps the frontier and the settings.
  abbrev Kept :
      Crawler L → List (L.Url × ℕ) → Option (Result (Option ℕ) (Text × Text) × Crawler L) → Type 0
  Kept c log none = Unit
  Kept c log (some (page, c')) = IsFrontier L Serves c' log × SameSettings L c c'

  with_hit-IsFrontier :
      (c : Crawler L) (log : List (L.Url × ℕ)) (hit : Option AuthRequiredInfo)
      → IsFrontier L Serves c log
      → IsFrontier L Serves (record c { auth_hit = hit }) log
        × SameSettings L c (record c { auth_hit = hit })
  with_hit-IsFrontier c log hit v = (
    record {
      scope = v.scope;
      distinct = v.distinct;
      seen = v.seen;
      done_scope = v.done_scope;
      done_allowed = v.done_allowed;
    },
    record { seed = refl; max_depth = refl; max_pages = refl; policy = refl; robot = refl },
  )

  accept_page-Kept :
      (c : Crawler L) (log : List (L.Url × ℕ)) (url : L.Url) (depth : ℕ) (r : HttpResponse)
      → Hops L Serves c.seed url depth
      → Serves url (L.from_utf8_lossy r.body)
      → IsFrontier L Serves c log
      → Kept c log (accept_page L c url depth r)
  unfolding accept_page
  accept_page-Kept c log url depth r far served v =
      wall (detect_auth_wall L (L.as_str url) r.final_url (L.from_utf8_lossy r.body))
    where
      links : List L.Url
      links = extract_links L (L.from_utf8_lossy r.body) url

      grown :
          (b : Bool)
          → ltb depth c.max_depth ≡ b
          → IsFrontier L Serves (if b then expand L c depth links else c) log
            × SameSettings L c (if b then expand L c depth links else c)
      grown true near =
          expand-IsFrontier L Serves c log depth links (ground arith)
            (links-Hops L Serves c.seed url depth (L.from_utf8_lossy r.body) far served) v
      grown false _ = (v, SameSettings-refl L c)

      wall :
          (o : Option (Option AuthRequiredInfo))
          → Kept c log (elim o [
            | none ↦ none
            | some (some hit) ↦ some (err (some 401), record c { auth_hit = some hit })
            | some none ↦ some (
              ok (L.from_utf8_lossy r.body, r.final_url),
              if ltb depth c.max_depth then expand L c depth links else c,
            )
          ])
      wall none = tt
      wall (some (some hit)) = with_hit-IsFrontier c log (some hit) v
      wall (some none) = grown (ltb depth c.max_depth) refl

  answer-Kept :
      (c : Crawler L) (log : List (L.Url × ℕ)) (url : L.Url) (depth : ℕ)
      (resp : Result (Option ℕ) HttpResponse)
      → Hops L Serves c.seed url depth
      → ((r : HttpResponse) → resp ≡ ok r → Serves url (L.from_utf8_lossy r.body))
      → IsFrontier L Serves c log
      → Kept c log (answer L c url depth resp)
  unfolding answer
  answer-Kept c log url depth (err none) far served v = (v, SameSettings-refl L c)
  answer-Kept c log url depth (err (some status)) far served v =
      with_hit-IsFrontier c log (from_status L (L.as_str url) status (L.as_str url)) v
  answer-Kept c log url depth (ok r) far served v =
      accept_page-Kept c log url depth r far (served r refl) v

  Kept-trans :
      (c d : Crawler L) (log : List (L.Url × ℕ))
      (o : Option (Result (Option ℕ) (Text × Text) × Crawler L))
      → SameSettings L c d
      → Kept d log o
      → Kept c log o
  Kept-trans c d log none same k = tt
  Kept-trans c d log (some (page, c')) same (v, later) = (v, SameSettings-trans L same later)

module _ (L : WebLib) {W : Type 0} (get : HttpGet W) where
  -- The text is that of a page that a server gave for the URL.
  abbrev pub IsServed : L.Url → Text → Type 0
  IsServed url html =
      (w : W) × ((r : HttpResponse) × (((fetch_ok L get w (L.as_str url)).0 ≡ ok r)
          × (html ≡ L.from_utf8_lossy r.body)))

  -- A crawl from `c₀`: the crawler now, and the URLs that it handed out, in order. It
  -- fetches only those.
  pub data Crawl (c₀ : Crawler L) : Crawler L → List (L.Url × ℕ) → Type 0 where
    start : Crawl c₀ c₀ []
    next :
        {c : Crawler L} {log : List (L.Url × ℕ)} (n : ℕ)
        → Crawl c₀ c log
        → Crawl c₀ (next_url L c n).1 (log_after L log (next_url L c n).0)
    fetch :
        {c c' : Crawler L} {log : List (L.Url × ℕ)} (w : W) (url : L.Url) (depth : ℕ)
        (page : Result (Option ℕ) (Text × Text))
        → Crawl c₀ c log
        → IsIn (url, depth) log
        → (fetch_and_expand L get w c url depth).0 ≡ some (page, c')
        → Crawl c₀ c' log

  fetch_and_expand-Kept :
      (w : W) (c : Crawler L) (log : List (L.Url × ℕ)) (url : L.Url) (depth : ℕ)
      → Hops L IsServed c.seed url depth
      → IsFrontier L IsServed c log
      → Kept L IsServed c log (fetch_and_expand L get w c url depth).0
  unfolding fetch_and_expand
  fetch_and_expand-Kept w c log url depth far v =
      let (v', same) = with_hit-IsFrontier L IsServed c log none v in
      Kept-trans L IsServed c (record c { auth_hit = none }) log _ same
        (answer-Kept L IsServed (record c { auth_hit = none }) log url depth
          (fetch_ok L get w (L.as_str url)).0 far (λ r e. (w, (r, (e, refl)))) v')

  next_url-SameSettings : (c : Crawler L) (n : ℕ) → SameSettings L c (next_url L c n).1
  unfolding next_url
  next_url-SameSettings c n = ground arith

  Crawl-IsFrontier :
      {c₀ c : Crawler L} {log : List (L.Url × ℕ)}
      → IsFrontier L IsServed c₀ []
      → Crawl c₀ c log
      → IsFrontier L IsServed c log × SameSettings L c₀ c
  Crawl-IsFrontier {c₀} v start = (v, SameSettings-refl L c₀)
  Crawl-IsFrontier v (next {c} {log} n r) =
      let (w, same) = Crawl-IsFrontier v r in
      (
        next_url-IsFrontier L IsServed c log n w,
        SameSettings-trans L same (next_url-SameSettings c n),
      )
  Crawl-IsFrontier v (fetch {c} {c'} {log} w url depth page r i e) =
      let (u, same) = Crawl-IsFrontier v r in
      let (u', later) : IsFrontier L IsServed c' log × SameSettings L c c' =
        subst (Kept L IsServed c log) e (
          fetch_and_expand-Kept w c log url depth
            (All-at (Scope L IsServed c) log (url, depth) i u.done_scope).hops u) in
      (u', SameSettings-trans L same later)

  -- What a fresh crawler satisfies.
  abbrev Fresh : L.Url → ℕ → NetworkPolicy → Result Text (Crawler L) → Type 0
  Fresh seed depth policy (err e) = Unit
  Fresh seed depth policy (ok c) =
      IsFrontier L IsServed c [] × (c.seed ≡ seed) × (c.max_depth ≡ depth) × (c.policy ≡ policy)

  new_crawler-Fresh :
      (w : W) (seed : L.Url) (depth pages : ℕ) (policy : NetworkPolicy)
      → Fresh seed depth policy (new_crawler L get w seed depth pages policy).0
  unfolding new_crawler member
  new_crawler-Fresh w seed depth pages policy =
      elim (Option-cases (blocked_host_reason L seed policy)) [
        | inr (reason, refused) ↦ rw (refused, new_crawler) tt
        | inl open_host ↦
            rw (open_host, new_crawler)
              (
                record {
                  scope = (
                    record {
                      host = inl refl;
                      hops = home;
                      near = omega arith;
                      open_host = open_host;
                    },
                    tt,
                  );
                  distinct = (refl, tt);
                  seen = (member-cons_self (L.as_str seed) [], tt);
                  done_scope = tt;
                  done_allowed = tt;
                },
                refl,
                refl,
                refl,
              )
      ]

  -- Once the crawler was made, and whatever the servers answer, the URLs that a crawl hands out
  -- are the seed or on its host, not refused by the SSRF guard and allowed by the robots file that
  -- was read at the start; to each, a chain of links leads from the seed, each link on a page that
  -- was served for the URL before it, as many as its depth says and at most the given number; and
  -- no URL is handed out twice.
  pub Crawl-sound :
      (w : W) (seed : L.Url) (depth pages : ℕ) (policy : NetworkPolicy) (c₀ c : Crawler L)
      (log : List (L.Url × ℕ))
      → (new_crawler L get w seed depth pages policy).0 ≡ ok c₀
      → Crawl c₀ c log
      → All (IsInScope L IsServed seed depth policy) log
        × All (λ e. robot_allows L c₀.robot e.0 ≡ true) log
        × Distinct (keys L log)
  Crawl-sound w seed depth pages policy c₀ c log made r =
      let (v, s, d, p) : Fresh seed depth policy (ok c₀) =
        subst (Fresh seed depth policy) made (new_crawler-Fresh w seed depth pages policy) in
      let (u, same) = Crawl-IsFrontier v r in
      (
        rw (← s, ← d, ← p, ← same.seed, ← same.max_depth, ← same.policy) u.done_scope,
        rw (← same.robot) u.done_allowed,
        Distinct-prefix (keys L log) (keys L c.queue) u.distinct,
      )
