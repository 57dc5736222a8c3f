-- ===== src/Search/Sessions.antt =====
-- What `browser_web_search` of crates/core/src/tools/search.rs returns and leaves behind.
use stapler_mcp.Common.{
  not, false, text_eq, text_eq_refl, select, All, ap, [], ℕ, ◌≤◌, ◌≡◌, ◌⊎◌, refl, ◌∙◌, inl, inr,
  Option, none, some, List, ◌∷◌, arith, Bool-cases, Text, is_empty, take, length, length-take,
  length-map, Result, ok, err, Result-cases,
}
use stapler_mcp.Ports.{PortError}
use stapler_mcp.Search.{
  BraveSearchInput, BraveSearchResult, SearchLib, SessionPorts, clamp_search_count, to_brave_result,
  build_bing_search_url, run_search_session, read_results, browser_web_search,
  browser_search_timeout_ms,
}

-- The sessions other than the given one.
abbrev pub others : Text → List Text → List Text
others id ids = select (λ k. not (text_eq k id)) ids

others-fresh :
    (id : Text) (ids : List Text) → All (λ k. text_eq k id ≡ false) ids → others id ids ≡ ids
others-fresh id [] h = refl
others-fresh id (k ∷ ids) (p, h) = rw p (ap (λ l. k ∷ l) (others-fresh id ids h))

others-cons :
    (id : Text) (ids : List Text) → All (λ k. text_eq k id ≡ false) ids → others id (id ∷ ids) ≡ ids
others-cons id ids h = rw (text_eq_refl id) (others-fresh id ids h)

others-others :
    (id : Text) (ids : List Text)
    → All (λ k. text_eq k id ≡ false) ids
    → others id (others id (id ∷ ids)) ≡ ids
others-others id ids h = ap (others id) (others-cons id ids h) ∙ others-fresh id ids h

module _ {V W : Type 0} (ports : SessionPorts V W) where
  -- Which sessions are open, and how each call changes it, as the driver of
  -- crates/native/src/browser.rs does where neither another call nor its reaper comes between: a
  -- navigation without a session opens one under a fresh id, and one that fails opens none or, where
  -- the page was blocked, leaves one open that it does not name; an evaluation keeps the sessions, or
  -- removes its own if it crashed; and after a close, which may answer that the session was removed
  -- already, the session is gone.
  pub record SessionLaws : Type 0 where
    pub sessions : W → List Text
    pub opens :
        (w : W) (url : Text) (ms : ℕ) {id : Text} {w' : W}
        → ports.navigate w url none ms ≡ (ok id, w')
        → (sessions w' ≡ id ∷ sessions w) × All (λ k. text_eq k id ≡ false) (sessions w)
    pub refuses :
        (w : W) (url : Text) (ms : ℕ) {e : PortError} {w' : W}
        → ports.navigate w url none ms ≡ (err e, w')
        → (sessions w' ≡ sessions w) ⊎ ((id : Text) × (sessions w' ≡ id ∷ sessions w))
    pub evaluates :
        (w : W) (id js : Text) (locator : Option Text) (ms : ℕ)
        → (sessions (ports.evaluate w id js locator ms).1 ≡ sessions w)
          ⊎ (sessions (ports.evaluate w id js locator ms).1 ≡ others id (sessions w))
    pub closes :
        (w : W) (id : Text) → sessions (ports.close_session w id).1 ≡ others id (sessions w)

abbrev pub HasAtMost : ℕ → Result Text (List BraveSearchResult) → Type 0
HasAtMost n (ok results) = length results ≤ n
HasAtMost n (err e) = Unit

clamp_search_count-le : (count : Option ℕ) → clamp_search_count count ≤ 20
unfolding clamp_search_count
clamp_search_count-le none = omega arith
clamp_search_count-le (some c) = ground arith

module _ (S : SearchLib) {W : Type 0} (ports : SessionPorts S.Value W) (js : Text)
    (laws : SessionLaws ports) where
  -- What the search asks the browser for, in the state `w`.
  abbrev pub navigated : W → Text → Result PortError Text × W
  navigated w query =
      ports.navigate w (build_bing_search_url S query) none browser_search_timeout_ms

  -- The navigation failed, and left one more session open.
  abbrev pub LeaksBlocked : Text → W → W → Type 0
  LeaksBlocked query w w' =
      ((e : PortError) × ((navigated w query).0 ≡ err e))
      × ((id : Text) × (laws.sessions w' ≡ id ∷ laws.sessions w))

  -- The sessions are as before, or that happened.
  abbrev pub IsTidy : Text → W → W → Type 0
  IsTidy query w w' = (laws.sessions w' ≡ laws.sessions w) ⊎ LeaksBlocked query w w'

  run_search_session-IsTidy :
      (w : W) (query : Text) → IsTidy query w (run_search_session S ports js w query).1
  unfolding run_search_session
  run_search_session-IsTidy w query =
      let url = build_bing_search_url S query in
      let nav = ports.navigate w url none browser_search_timeout_ms in
      elim (Result-cases nav.0) [
        | inr (e, f) ↦
            rw (f, run_search_session)
              (elim (laws.refuses w url browser_search_timeout_ms {e = e} {w' = nav.1}
                (ground arith)) [
                  | inl same ↦ inl same
                  | inr left_open ↦ inr ((e, refl), left_open)
                ])
        | inl (id, f) ↦
            let (opened, fresh) =
              laws.opens w url browser_search_timeout_ms {id = id} {w' = nav.1} (ground arith) in
            let w₂ = (ports.evaluate nav.1 id js none browser_search_timeout_ms).1 in
            let gone : laws.sessions (ports.close_session w₂ id).1 ≡ laws.sessions w =
              laws.closes w₂ id ∙ elim (laws.evaluates nav.1 id js none browser_search_timeout_ms) [
                | inl still ↦
                    ap (others id) (still ∙ opened) ∙ others-cons id (laws.sessions w) fresh
                | inr evicted ↦
                    ap (others id) (evicted ∙ ap (others id) opened)
                    ∙ others-others id (laws.sessions w) fresh
              ] in
            rw (f, run_search_session) (inl gone)
      ]

  read_results-HasAtMost :
      (count : Option ℕ) (v : S.Value)
      → HasAtMost (clamp_search_count count) (read_results S ports js count v)
  unfolding read_results
  read_results-HasAtMost count v = elim (Result-cases (S.decode_results v)) [
    | inr (e, f) ↦ rw (f, read_results) tt
    | inl (raw, f) ↦
        rw (f, read_results)
          (omega (
            arith,
            length-map to_brave_result (take (clamp_search_count count) raw),
            length-take (clamp_search_count count) raw,
          ))
  ]

  -- A search in the browser leaves the open sessions as they were, on every path, also when the
  -- evaluation or the close fails, but for one: its navigation failed and left one session open. And
  -- it returns at most the clamped count of results, which is at most 20.
  pub browser_web_search-IsTidy :
      (w : W) (input : BraveSearchInput)
      → IsTidy input.query w (browser_web_search S ports js w input).1
        × HasAtMost (clamp_search_count input.count) (browser_web_search S ports js w input).0
        × (clamp_search_count input.count ≤ 20)
  unfolding browser_web_search
  browser_web_search-IsTidy w input = elim (Bool-cases (is_empty input.query)) [
    | inl blank ↦ rw (blank, browser_web_search) (inl refl, tt, clamp_search_count-le input.count)
    | inr asked ↦
        let tidy = run_search_session-IsTidy w input.query in
        elim (Result-cases (run_search_session S ports js w input.query).0) [
          | inr (e, f) ↦
              rw (asked, f, browser_web_search) (tidy, tt, clamp_search_count-le input.count)
          | inl (v, f) ↦
              rw (asked, f, browser_web_search)
                (tidy, read_results-HasAtMost input.count v, clamp_search_count-le input.count)
        ]
  ]
