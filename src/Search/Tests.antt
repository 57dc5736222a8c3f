-- ===== src/Search/Tests.antt =====
-- A browser whose state is its open sessions, for crates/core/src/tools/search.rs: the evaluation
-- fails, and the session is closed.
use stapler_mcp.Common.{
  member, Bool-cases, inl, inr, false, All, subst, ◌≤◌, ◌≡◌, refl, none, some, List, [], ◌∷◌, ◌++◌,
  arith, if◌then◌else◌, Text, text, text_eq, Result, ok, err,
}
use stapler_mcp.Ports.{PortError, timeout, display}
use stapler_mcp.Search.{
  BraveSearchInput, RawResult, SearchLib, SessionPorts, clamp_search_count, browser_web_search,
  run_search_session, build_bing_search_url, map_error,
}
use stapler_mcp.Search.Sessions.{SessionLaws, others, IsTidy, HasAtMost, browser_web_search-IsTidy}

abbrev plain : SearchLib
plain = record {
  Value = List RawResult;
  encode_pair = λ k v. k ++ (text "=" ++ v);
  decode_response = λ bytes. ok none;
  decode_results = λ v. ok v;
}

-- The id of a session is its URL; a URL that is open already is refused.
abbrev open_url : List Text → Text → Result PortError Text × List Text
open_url w url = if member url w then (err timeout, w) else (ok url, url ∷ w)

abbrev one_tab : SessionPorts (List RawResult) (List Text)
one_tab = record {
  navigate = λ w url session ms. open_url w url;
  evaluate = λ w id js locator ms. (err timeout, w);
  close_session = λ w id. (ok tt, others id w);
}

not-member_fresh :
    (url : Text) (w : List Text) → member url w ≡ false → All (λ k. text_eq k url ≡ false) w
unfolding member
not-member_fresh url [] h = tt
not-member_fresh url (k ∷ w) h = (ground arith, not-member_fresh url w (ground arith))

opens_one :
    (w : List Text) (url : Text) {id : Text} {w' : List Text}
    → open_url w url ≡ (ok id, w')
    → (w' ≡ id ∷ w) × All (λ k. text_eq k id ≡ false) w
opens_one w url {id} {w'} e = elim (Bool-cases (member url w)) [
  | inl open_already ↦ absurd (cc (rw open_already at e))
  | inr new ↦
      let made = rw new at e in
      let same : url ≡ id = cc in
      (cc, subst (λ i. All (λ k. text_eq k i ≡ false) w) same (not-member_fresh url w new))
]

refuses_quietly :
    (w : List Text) (url : Text) {e : PortError} {w' : List Text}
    → open_url w url ≡ (err e, w')
    → w' ≡ w
refuses_quietly w url {e} {w'} h = elim (Bool-cases (member url w)) [
  | inl open_already ↦ cc (rw open_already at h)
  | inr new ↦ absurd (cc (rw new at h))
]

one_tab_laws : SessionLaws one_tab
one_tab_laws = record {
  sessions = λ w. w;
  opens = λ w url ms {id} {w'} e. opens_one w url e;
  refuses = λ w url ms {e} {w'} h. inl (refuses_quietly w url h);
  evaluates = λ w id js locator ms. inl refl;
  closes = λ w id. refl;
}

abbrev question : BraveSearchInput
question = record { query = text "antt"; count = some 50 }

timed_out :
    browser_web_search plain one_tab (text "") (text "s" ∷ []) question
    ≡ (err (text "browser web search https://www.bing.com/search?q=antt: timed out"), text "s" ∷ [])
unfolding browser_web_search run_search_session build_bing_search_url map_error display text_eq
    member
timed_out = refl

browser_web_search-IsTidy_example :
    IsTidy plain one_tab
      (text "")
      one_tab_laws
      (text "antt")
      (text "s" ∷ [])
      (browser_web_search plain one_tab (text "") (text "s" ∷ []) question).1
    × HasAtMost
        (clamp_search_count (some 50))
        (browser_web_search plain one_tab (text "") (text "s" ∷ []) question).0
    × (clamp_search_count (some 50) ≤ 20)
browser_web_search-IsTidy_example =
    browser_web_search-IsTidy plain one_tab (text "") one_tab_laws (text "s" ∷ []) question
