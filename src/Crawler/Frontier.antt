-- ===== src/Crawler/Frontier.antt =====
-- What every crawl over `Crawler` of crates/core/src/tools/webcrawl.rs keeps: which URLs it can hand
-- out, how deep, and that it hands none out twice.
use stapler_mcp.Common.{
  ℕ, ◌+◌, ◌≤◌, ◌<◌, ◌≡◌, refl, sym, ◌∙◌, ap, ◌⊎◌, inl, inr, true, false, ◌||◌, Option, none, some,
  List, [], ◌∷◌, ◌++◌, map, arith, leb, Bool-cases, Text, text_eq, text_eq_iff, member, All,
  All-append, All-map_of,
}
use mathlib.Core.List.{append_assoc, map-append}
use stapler_mcp.Web.{WebLib}
use stapler_mcp.Policy.{NetworkPolicy, blocked_host_reason}
use stapler_mcp.Crawler.Hops.{Hops}
use stapler_mcp.Crawler.{
  same_host, Crawler, robot_allows, pop_allowed, next_url, admits, enqueue, expand,
}

-- No text occurs twice.
abbrev pub Distinct : List Text → Type 0
Distinct [] = Unit
Distinct (x ∷ xs) = (member x xs ≡ false) × Distinct xs

member-append : (k : Text) (xs ys : List Text) → member k (xs ++ ys) ≡ (member k xs || member k ys)
unfolding member
member-append k [] ys = refl
member-append k (x ∷ xs) ys = ground (arith, member-append k xs ys)

Distinct-drop : (xs ys : List Text) (y : Text) → Distinct (xs ++ y ∷ ys) → Distinct (xs ++ ys)
unfolding member
Distinct-drop [] ys y (_, d) = d
Distinct-drop (x ∷ xs) ys y (out, d) =
    (ground (arith, member-append x xs (y ∷ ys), member-append x xs ys), Distinct-drop xs ys y d)

Distinct-snoc :
    (xs : List Text) (y : Text) → member y xs ≡ false → Distinct xs → Distinct (xs ++ y ∷ [])
unfolding member
Distinct-snoc [] y out d = (refl, tt)
Distinct-snoc (x ∷ xs) y out (new, d) = (
  ground (arith, member-append x xs (y ∷ []), text_eq_iff x y, text_eq_iff y x),
  Distinct-snoc xs y (ground arith) d,
)

pub Distinct-prefix : (xs ys : List Text) → Distinct (xs ++ ys) → Distinct xs
unfolding member
Distinct-prefix [] ys d = tt
Distinct-prefix (x ∷ xs) ys (out, d) =
    (ground (arith, member-append x xs ys), Distinct-prefix xs ys d)

-- A text outside a set is none of the texts that are in the set.
not-member_of_All :
    (y : Text) (set xs : List Text)
    → All (λ k. member k set ≡ true) xs
    → member y set ≡ false
    → member y xs ≡ false
unfolding member
not-member_of_All y set [] _ out = refl
not-member_of_All y set (x ∷ xs) (p, h) out = elim (Bool-cases (text_eq x y)) [
  | inl same ↦ absurd (clash ((text_eq_iff x y).0 same))
  | inr other ↦ rw other (not-member_of_All y set xs h out)
]
  where
    clash : x ≡ y → ⊥
    clash e = cc (ap (λ k. member k set) e)

module _ (L : WebLib) where
  abbrev pub keys : List (L.Url × ℕ) → List Text
  keys q = map (λ e. L.as_str e.0) q

  abbrev pub log_after : List (L.Url × ℕ) → Option (L.Url × ℕ) → List (L.Url × ℕ)
  log_after log none = log
  log_after log (some e) = log ++ e ∷ []

  -- What the pop loop keeps of a queue with the URLs `log` handed out before.
  module _ (Q : L.Url × ℕ → Type 0) (V : Text → Type 0) (robot : Option L.Robot) where
    abbrev Popped : List Text → Option (L.Url × ℕ) × List (L.Url × ℕ) → Type 0
    Popped before (none, rest) =
        Distinct (before ++ keys rest) × All V (before ++ keys rest) × All Q rest
    Popped before (some e, rest) =
        Distinct ((before ++ L.as_str e.0 ∷ []) ++ keys rest)
        × All V ((before ++ L.as_str e.0 ∷ []) ++ keys rest)
        × All Q rest
        × Q e
        × (robot_allows L robot e.0 ≡ true)

    All-drop : (xs ys : List Text) (y : Text) → All V (xs ++ y ∷ ys) → All V (xs ++ ys)
    All-drop [] ys y (_, h) = h
    All-drop (x ∷ xs) ys y (p, h) = (p, All-drop xs ys y h)

    pop_allowed-Popped :
        (before : List Text) (q : List (L.Url × ℕ))
        → Distinct (before ++ keys q)
        → All V (before ++ keys q)
        → All Q q
        → Popped before (pop_allowed L robot q)
    unfolding pop_allowed
    pop_allowed-Popped before [] d v h = (d, v, h)
    pop_allowed-Popped before ((url, depth) ∷ q) d v (p, h) =
        elim (Bool-cases (robot_allows L robot url)) [
          | inl yes_ ↦ rw yes_ (
            rw (append_assoc before (L.as_str url ∷ []) (keys q)) d,
            rw (append_assoc before (L.as_str url ∷ []) (keys q)) v,
            h,
            p,
            yes_,
          )
          | inr no_ ↦ rw no_ (
              pop_allowed-Popped before q (Distinct-drop before (keys q) (L.as_str url) d)
                (All-drop before (keys q) (L.as_str url) v) h)
        ]

  pub record SameSettings (c c' : Crawler L) : Type 0 where
    pub seed : c'.seed ≡ c.seed
    pub max_depth : c'.max_depth ≡ c.max_depth
    pub max_pages : c'.max_pages ≡ c.max_pages
    pub policy : c'.policy ≡ c.policy
    pub robot : c'.robot ≡ c.robot

  pub SameSettings-refl : (c : Crawler L) → SameSettings c c
  SameSettings-refl c = record {
    seed = refl;
    max_depth = refl;
    max_pages = refl;
    policy = refl;
    robot = refl;
  }

  pub SameSettings-trans :
      {a b c : Crawler L} → SameSettings a b → SameSettings b c → SameSettings a c
  SameSettings-trans p q = record {
    seed = q.seed ∙ p.seed;
    max_depth = q.max_depth ∙ p.max_depth;
    max_pages = q.max_pages ∙ p.max_pages;
    policy = q.policy ∙ p.policy;
    robot = q.robot ∙ p.robot;
  }

  admits_facts :
      (c : Crawler L) (link : L.Url)
      → admits L c link ≡ true
      → (same_host L link c.seed ≡ true)
        × (member (L.as_str link) c.visited ≡ false)
        × (blocked_host_reason L link c.policy ≡ none)
  admits_facts c link h = ground arith

  keys-snoc :
      (log q : List (L.Url × ℕ)) (e : L.Url × ℕ)
      → keys log ++ keys (q ++ e ∷ []) ≡ (keys log ++ keys q) ++ L.as_str e.0 ∷ []
  keys-snoc log q e =
      ap (◌++◌ (keys log)) (map-append (λ e. L.as_str e.0) q (e ∷ []))
      ∙ sym (append_assoc (keys log) (keys q) (L.as_str e.0 ∷ []))

module _ (L : WebLib) (Serves : L.Url → Text → Type 0) where
  -- A URL that a crawl may hand out: the seed or a URL of its host, to which as many links
  -- lead from the seed as its depth says, at most `max_depth`,
  -- and not refused by the SSRF guard.
  pub record IsInScope (seed : L.Url) (max_depth : ℕ) (policy : NetworkPolicy) (e : L.Url × ℕ)
      : Type 0 where
    pub host : (e.0 ≡ seed) ⊎ (same_host L e.0 seed ≡ true)
    pub hops : Hops L Serves seed e.0 e.1
    pub near : e.1 ≤ max_depth
    pub open_host : blocked_host_reason L e.0 policy ≡ none

  abbrev pub Scope : Crawler L → L.Url × ℕ → Type 0
  Scope c = IsInScope c.seed c.max_depth c.policy

  -- The frontier after some of its URLs, `log`, were handed out in this order: all are in scope, no
  -- URL stands twice among those handed out and those queued, and `visited` has them all.
  pub record IsFrontier (c : Crawler L) (log : List (L.Url × ℕ)) : Type 0 where
    pub scope : All (Scope c) c.queue
    pub distinct : Distinct (keys L log ++ keys L c.queue)
    pub seen : All (λ k. member k c.visited ≡ true) (keys L log ++ keys L c.queue)
    pub done_scope : All (Scope c) log
    pub done_allowed : All (λ e. robot_allows L c.robot e.0 ≡ true) log

  pub Popped-IsFrontier :
      (c : Crawler L) (log : List (L.Url × ℕ)) (r : Option (L.Url × ℕ) × List (L.Url × ℕ))
      → IsFrontier c log
      → Popped L (Scope c) (λ k. member k c.visited ≡ true) c.robot (keys L log) r
      → IsFrontier (record c { queue = r.1 }) (log_after L log r.0)
  Popped-IsFrontier c log (none, rest) v (d, seen, h) = record {
    scope = h;
    distinct = d;
    seen = seen;
    done_scope = v.done_scope;
    done_allowed = v.done_allowed;
  }
  Popped-IsFrontier c log (some e, rest) v (d, seen, h, p, ok_) = record {
    scope = h;
    distinct = rw (map-append (λ e. L.as_str e.0) log (e ∷ [])) d;
    seen = rw (map-append (λ e. L.as_str e.0) log (e ∷ [])) seen;
    done_scope = All-append _ log (e ∷ []) v.done_scope (p, tt);
    done_allowed = All-append _ log (e ∷ []) v.done_allowed (ok_, tt);
  }

  pub next_url-IsFrontier :
      (c : Crawler L) (log : List (L.Url × ℕ)) (n : ℕ)
      → IsFrontier c log
      → IsFrontier (next_url L c n).1 (log_after L log (next_url L c n).0)
  unfolding next_url
  next_url-IsFrontier c log n v = elim (Bool-cases (leb c.max_pages n)) [
    | inl full ↦ rw full v
    | inr more ↦ rw more (
        Popped-IsFrontier c log (pop_allowed L c.robot c.queue) v (
          pop_allowed-Popped L (Scope c) (λ k. member k c.visited ≡ true) c.robot (keys L log)
            c.queue v.distinct v.seen v.scope))
  ]

  added-IsFrontier :
      (c : Crawler L) (log : List (L.Url × ℕ)) (depth : ℕ) (link : L.Url)
      → depth < c.max_depth
      → Hops L Serves c.seed link (depth + 1)
      → admits L c link ≡ true
      → IsFrontier c log
      → IsFrontier
          (record c {
            visited = L.as_str link ∷ c.visited;
            queue = c.queue ++ (link, depth + 1) ∷ [];
          })
          log
  unfolding member
  added-IsFrontier c log depth link near far h v =
      let (host, new, open_host) = admits_facts L c link h in
      record {
        scope =
            All-append (Scope c) c.queue ((link, depth + 1) ∷ []) v.scope (
              record { host = inr host; hops = far; near = omega arith; open_host = open_host },
              tt,
            );
        distinct = rw (keys-snoc L log c.queue (link, depth + 1)) (
            Distinct-snoc (keys L log ++ keys L c.queue) (L.as_str link)
              (not-member_of_All (L.as_str link) c.visited _ v.seen new) v.distinct);
        seen = rw (keys-snoc L log c.queue (link, depth + 1)) (
            All-append _ (keys L log ++ keys L c.queue) (L.as_str link ∷ [])
              (All-map_of _ (λ k p. ground arith) (keys L log ++ keys L c.queue) v.seen)
              (ground (arith, text_eq_iff (L.as_str link) (L.as_str link)), tt));
        done_scope = v.done_scope;
        done_allowed = v.done_allowed;
      }

  enqueue-IsFrontier :
      (c : Crawler L) (log : List (L.Url × ℕ)) (depth : ℕ) (link : L.Url)
      → depth < c.max_depth
      → Hops L Serves c.seed link (depth + 1)
      → IsFrontier c log
      → IsFrontier (enqueue L c depth link) log × SameSettings L c (enqueue L c depth link)
  unfolding enqueue
  enqueue-IsFrontier c log depth link near far v = elim (Bool-cases (admits L c link)) [
    | inr out ↦ rw out (v, SameSettings-refl L c)
    | inl new ↦ rw new (
      added-IsFrontier c log depth link near far new v,
      record { seed = refl; max_depth = refl; max_pages = refl; policy = refl; robot = refl },
    )
  ]

  pub expand-IsFrontier :
      (c : Crawler L) (log : List (L.Url × ℕ)) (depth : ℕ) (links : List L.Url)
      → depth < c.max_depth
      → All (λ link. Hops L Serves c.seed link (depth + 1)) links
      → IsFrontier c log
      → IsFrontier (expand L c depth links) log × SameSettings L c (expand L c depth links)
  unfolding expand
  expand-IsFrontier c log depth [] near _ v = (v, SameSettings-refl L c)
  expand-IsFrontier c log depth (link ∷ links) near (far, fars) v =
      let (v', same) = enqueue-IsFrontier c log depth link near far v in
      let near' : depth < (enqueue L c depth link).max_depth = rw same.max_depth near in
      let fars' : All (λ l. Hops L Serves (enqueue L c depth link).seed l (depth + 1)) links =
        rw same.seed fars in
      let (w, later) = expand-IsFrontier (enqueue L c depth link) log depth links near' fars' v' in
      (w, SameSettings-trans L same later)
