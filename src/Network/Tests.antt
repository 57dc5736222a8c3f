-- ===== src/Network/Tests.antt =====
-- Runs of the network log of crates/native/src/network.rs on small inputs. Times are numbers.
use stapler_mcp.Common.{
  ℕ, ◌-◌, ◌≡◌, refl, ◌≤◌, true, false, not, none, some, List, [], ◌∷◌, ◌++◌, arith, leb, byte_len,
  Text, text, text_eq, lookup, slice_to,
}
use stapler_mcp.Network.{
  Partial, NetworkLog, new_log, truncate_utf8, slice_down, on_request, finish, cap_body, query_cap,
  is_binary, is_binary_content_type,
}
use stapler_mcp.Network.Truncate.{fits, IsCut, truncate_utf8_maximal}
use stapler_mcp.Network.Bounds.{
  IsBounded, Event, request, response, finished, queried, run, run-new_log-IsBounded,
}
use stapler_mcp.Network.Lifecycle.{started, answered, on_request_redirect}
use stapler_mcp.Network.Query.{cap_body-finish}

abbrev hop : Partial ℕ
hop = started leb (λ a b. b - a) (text "https://a.test/old") (text "GET") 5 10

abbrev in_flight : NetworkLog ℕ
in_flight = record { partial = (text "1", hop) ∷ []; entries = []; truncated = false }

abbrev events : List (Event ℕ)
events =
    request (text "1") (text "https://a.test/") (text "GET") 5 10 none
    ∷ response (text "1") (some 200) (text "text/html")
    ∷ finished (text "1") 12 (some (text "<p>hé</p>"))
    ∷ queried none (some 5) false
    ∷ []

truncate_utf8_tests :
    (truncate_utf8 (text "hé") 2 ≡ (text "h", true))
    × (truncate_utf8 (text "hé") 3 ≡ (text "hé", false))
    × (is_binary_content_type (text " Image/PNG") ≡ true)
    × (is_binary_content_type (text "text/html") ≡ false)
unfolding truncate_utf8 slice_down slice_to is_binary_content_type byte_len
truncate_utf8_tests = (refl, refl, refl, refl)

truncate_utf8_maximal_example :
    (rest : Text) × (text "hé!" ≡ (truncate_utf8 (text "hé!") 2).0 ++ rest)
    × (byte_len (truncate_utf8 (text "hé!") 2).0 ≤ 2)
    × IsCut 2 (truncate_utf8 (text "hé!") 2).0 rest
    × ((truncate_utf8 (text "hé!") 2).1 ≡ not (leb (byte_len (text "hé!")) 2))
truncate_utf8_maximal_example = truncate_utf8_maximal (text "hé!") 2

run-new_log-IsBounded_example : IsBounded (run leb (λ a b. b - a) new_log events)
run-new_log-IsBounded_example = run-new_log-IsBounded leb (λ a b. b - a) events

on_request_redirect_example :
    let sent =
      on_request leb
        (λ a b. b - a)
        in_flight
        (text "1")
        (text "https://a.test/new")
        (text "GET")
        6
        20
        (some 301) in
    (sent.entries ≡ [] ++ finish leb (λ a b. b - a) hop 20 (some 301) none ∷ [])
    × (lookup (text "1") sent.partial
        ≡ some (started leb (λ a b. b - a) (text "https://a.test/new") (text "GET") 6 20))
    × ((finish leb (λ a b. b - a) hop 20 (some 301) none).body ≡ none)
    × ((finish leb (λ a b. b - a) hop 20 (some 301) none).status ≡ some 301)
unfolding lookup text_eq
on_request_redirect_example =
    on_request_redirect leb (λ a b. b - a) in_flight (text "1") (text "https://a.test/new")
      (text "GET") 6 20 (some 301) hop refl (omega arith)

plain_page : is_binary (some (text "text/html")) ≡ false
unfolding is_binary_content_type
plain_page = refl

cap_body-finish_example :
    let p = answered leb (λ a b. b - a) hop (some 200) (text "text/html") in
    let e =
      cap_body
        (query_cap (some 2))
        (finish leb (λ a b. b - a) p 12 (some 200) (some (text "hé!"))) in
    (e.body ≡ some (fits (query_cap (some 2)) (text "hé!")))
    × (e.body_truncated ≡ not (leb (byte_len (text "hé!")) (query_cap (some 2))))
cap_body-finish_example =
    cap_body-finish leb (λ a b. b - a)
      (answered leb (λ a b. b - a) hop (some 200) (text "text/html")) 12 (some 200) (text "hé!")
      (some 2) plain_page
