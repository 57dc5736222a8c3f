-- ===== src/Vault/Flight/Laws.antt =====
-- Single flight: the futures that run, the callers that wait, and the answers.
use stapler_mcp.Common.{
  ℕ, zero, suc, ◌≡◌, ◌↔◌, refl, ap, subst, ◌∙◌, sym, inl, inr, true, none, some, List, [], ◌∷◌,
  ◌++◌, arith, if◌then◌else◌, ◌==◌, Bool-cases, Option-cases, text_eq_iff, get_elem?, length, All,
  All-map_of,
}
use stapler_mcp.Ports.{CredentialField, CredentialRef}
use stapler_mcp.Vault.Flight.{
  field_eq, cref_eq, PendingOutput, PendingFuture, Flights, no_flights, find_pending,
  remove_pending, set, arrive, finish_future, FlightEvent, arrives, finishes, after, after_all,
}

field_eq_iff : (a b : CredentialField) → (field_eq a b ≡ true) ↔ (a ≡ b)
field_eq_iff CredentialField.username CredentialField.username = (λ _. refl, λ _. refl)
field_eq_iff CredentialField.username CredentialField.password = (λ h. absurd cc, λ h. absurd cc)
field_eq_iff CredentialField.username CredentialField.totp = (λ h. absurd cc, λ h. absurd cc)
field_eq_iff CredentialField.password CredentialField.username = (λ h. absurd cc, λ h. absurd cc)
field_eq_iff CredentialField.password CredentialField.password = (λ _. refl, λ _. refl)
field_eq_iff CredentialField.password CredentialField.totp = (λ h. absurd cc, λ h. absurd cc)
field_eq_iff CredentialField.totp CredentialField.username = (λ h. absurd cc, λ h. absurd cc)
field_eq_iff CredentialField.totp CredentialField.password = (λ h. absurd cc, λ h. absurd cc)
field_eq_iff CredentialField.totp CredentialField.totp = (λ _. refl, λ _. refl)

pub cref_eq_iff : (a b : CredentialRef) → (cref_eq a b ≡ true) ↔ (a ≡ b)
unfolding cref_eq
cref_eq_iff a b = ground (arith, text_eq_iff a.domain b.domain, field_eq_iff a.field b.field)

pub get_elem?-snoc {ℓ} :
    {A : Type ℓ} (xs : List A) (x : A) (i : ℕ)
    → get_elem? (xs ++ x ∷ []) i ≡ (if i == length xs then some x else get_elem? xs i)
get_elem?-snoc [] x zero = refl
get_elem?-snoc [] x (suc i) = ground arith
get_elem?-snoc (y ∷ xs) x zero = ground arith
get_elem?-snoc (y ∷ xs) x (suc i) = ground (arith, get_elem?-snoc xs x i)

pub get_elem?-set {ℓ} :
    {A : Type ℓ} (xs : List A) (n : ℕ) (v : A) (i : ℕ) {o : A}
    → get_elem? xs n ≡ some o
    → get_elem? (set xs n v) i ≡ (if i == n then some v else get_elem? xs i)
get_elem?-set [] n v i e = absurd cc
get_elem?-set (x ∷ xs) zero v zero e = refl
get_elem?-set (x ∷ xs) zero v (suc i) e = ground arith
get_elem?-set (x ∷ xs) (suc n) v zero e = ground arith
get_elem?-set (x ∷ xs) (suc n) v (suc i) e = ground (arith, get_elem?-set xs n v i e)

pub get_elem?-length {ℓ} : {A : Type ℓ} (xs : List A) → get_elem? xs (length xs) ≡ none
get_elem?-length [] = refl
get_elem?-length (x ∷ xs) = get_elem?-length xs

pub find-remove :
    (r q : CredentialRef) (m : List (CredentialRef × ℕ))
    → find_pending q (remove_pending r m) ≡ (if cref_eq r q then none else find_pending q m)
unfolding find_pending remove_pending
find-remove r q [] = ground arith
find-remove r q ((p, n) ∷ m) =
    ground (arith, cref_eq_iff p r, cref_eq_iff r q, cref_eq_iff p q, find-remove r q m)

-- The future of a place runs, for the reference.
abbrev pub Runs : Flights → CredentialRef → ℕ → Type 0
Runs fl r n =
    (f : PendingFuture) × ((get_elem? fl.futures n ≡ some f) × (f.cref ≡ r) × (f.output ≡ none))

abbrev pub IsServed : Flights → CredentialRef × ℕ → Type 0
IsServed fl (r, n) = (f : PendingFuture) × ((get_elem? fl.futures n ≡ some f) × (f.cref ≡ r))

-- The map holds the futures that run and no other, each under its own reference, so that no two run
-- for one reference; every caller awaits a future for the reference that it asked for.
pub record IsSingleFlight (fl : Flights) : Type 0 where
  pub listed : (r : CredentialRef) (n : ℕ) → find_pending r fl.pending ≡ some n → Runs fl r n
  pub running : (r : CredentialRef) (n : ℕ) → Runs fl r n → find_pending r fl.pending ≡ some n
  pub served : All (IsServed fl) fl.callers

no_flights_lem : IsSingleFlight no_flights
unfolding find_pending
no_flights_lem = record {
  listed = λ r n e. absurd cc;
  running = λ r n (f, (e, c, o)). absurd cc;
  served = tt;
}

module _ (r : CredentialRef) (fl : Flights) (h : IsSingleFlight fl) where
  abbrev fresh : PendingFuture
  fresh = record { cref = r; output = none }

  abbrev started : Flights
  started = record {
    pending = (r, length fl.futures) ∷ fl.pending;
    futures = fl.futures ++ fresh ∷ [];
    callers = (r, length fl.futures) ∷ fl.callers;
  }

  old_future :
      (n : ℕ) {f : PendingFuture}
      → get_elem? fl.futures n ≡ some f
      → get_elem? started.futures n ≡ some f
  old_future n {f} e =
      ground (arith, get_elem?-snoc fl.futures fresh n, get_elem?-length fl.futures)

  fresh_future : get_elem? started.futures (length fl.futures) ≡ some fresh
  fresh_future = ground (arith, get_elem?-snoc fl.futures fresh (length fl.futures))

  started_listed :
      find_pending r fl.pending ≡ none
      → (q : CredentialRef) (n : ℕ) → find_pending q started.pending ≡ some n
      → Runs started q n
  unfolding find_pending
  started_listed none_yet q n e = elim (Bool-cases (cref_eq r q)) [
    | inl same ↦
        let at : some (length fl.futures) ≡ some n = rw (same, find_pending) at e in
        let at_n : length fl.futures ≡ n = cc in
        (
          fresh,
          (
            subst (λ m. get_elem? started.futures m ≡ some fresh) at_n fresh_future,
            (cref_eq_iff r q).0 same,
            refl,
          ),
        )
    | inr apart ↦
        let (f, (g, c, o)) = h.listed q n (rw (apart, find_pending) at e) in
        (f, (old_future n g, c, o))
  ]

  started_running :
      find_pending r fl.pending ≡ none
      → (q : CredentialRef) (n : ℕ) → Runs started q n
      → find_pending q started.pending ≡ some n
  unfolding find_pending
  started_running none_yet q n (f, (e, c, o)) = elim (Bool-cases (n == length fl.futures)) [
    | inl at ↦
        let given : some fresh ≡ some f = rw (get_elem?-snoc fl.futures fresh n, at) at e in
        let fresh_f : fresh ≡ f = cc in
        let same : r ≡ q = ap (λ (x : PendingFuture). x.cref) fresh_f ∙ c in
        rw (find_pending, (cref_eq_iff r q).1 same) (ground (arith, at))
    | inr before ↦
        let old : get_elem? fl.futures n ≡ some f =
          rw (get_elem?-snoc fl.futures fresh n, before) at e in
        let listed : find_pending q fl.pending ≡ some n = h.running q n (f, (old, c, o)) in
        elim (Bool-cases (cref_eq r q)) [
          | inl same ↦ absurd (ground (arith, cref_eq_iff r q, same, none_yet, listed))
          | inr apart ↦ rw (apart, find_pending) listed
        ]
  ]

  started-IsSingleFlight : find_pending r fl.pending ≡ none → IsSingleFlight started
  started-IsSingleFlight none_yet = record {
    listed = started_listed none_yet;
    running = started_running none_yet;
    served = (
      (fresh, (fresh_future, refl)),
      All-map_of (IsServed fl) (λ c (f, (g, e)). (f, (old_future c.1 g, e))) fl.callers h.served,
    );
  }

  arrive-IsSingleFlight : IsSingleFlight (arrive r fl)
  unfolding arrive
  arrive-IsSingleFlight = elim (Option-cases (find_pending r fl.pending)) [
    | inl none_yet ↦ rw (none_yet, arrive) (started-IsSingleFlight none_yet)
    | inr (n, e) ↦
        let (f, (g, c, o)) = h.listed r n e in
        rw (e, arrive)
          (record { listed = h.listed; running = h.running; served = ((f, (g, c)), h.served) })
  ]

module _ (n : ℕ) (result : PendingOutput) (fl : Flights) (h : IsSingleFlight fl) where
  abbrev ended : PendingFuture → Flights
  ended f = record fl {
    pending = remove_pending f.cref fl.pending;
    futures = set fl.futures n (record f { output = some result });
  }

  module _ (f : PendingFuture) (e : get_elem? fl.futures n ≡ some f) (o : f.output ≡ none) where
    ended_at :
        (i : ℕ)
        → get_elem? (ended f).futures i
          ≡ (if i == n then some (record f { output = some result }) else get_elem? fl.futures i)
    ended_at i = get_elem?-set fl.futures n (record f { output = some result }) i e

    ended_served : (c : CredentialRef × ℕ) → IsServed fl c → IsServed (ended f) c
    ended_served (r, i) (g, (at, c)) = elim (Bool-cases (i == n)) [
      | inl here ↦
          let i_n : i ≡ n = ground (arith, here) in
          let both : some f ≡ some g = sym e ∙ (ap (get_elem? fl.futures) (sym i_n) ∙ at) in
          let f_g : f ≡ g = cc in
          (
            record f { output = some result },
            (ended_at i ∙ rw here, ap (λ (x : PendingFuture). x.cref) f_g ∙ c),
          )
      | inr there ↦ (g, (ended_at i ∙ (rw there at), c))
    ]

    ended_listed :
        (r : CredentialRef) (i : ℕ) → find_pending r (ended f).pending ≡ some i → Runs (ended f) r i
    ended_listed r i p = elim (Bool-cases (cref_eq f.cref r)) [
      | inl same ↦ absurd (cc (rw (find-remove f.cref r fl.pending, same) at p))
      | inr apart ↦
          let (g, (at, c, og)) = h.listed r i (rw (find-remove f.cref r fl.pending, apart) at p) in
          elim (Bool-cases (i == n)) [
            | inl here ↦
                let i_n : i ≡ n = ground (arith, here) in
                let both : some f ≡ some g = sym e ∙ (ap (get_elem? fl.futures) (sym i_n) ∙ at) in
                let f_g : f ≡ g = cc in
                let same : f.cref ≡ r = ap (λ (x : PendingFuture). x.cref) f_g ∙ c in
                absurd (cc ((cref_eq_iff f.cref r).1 same))
            | inr there ↦ (g, (ended_at i ∙ (rw there at), c, og))
          ]
    ]

    ended_running :
        (r : CredentialRef) (i : ℕ) → Runs (ended f) r i → find_pending r (ended f).pending ≡ some i
    ended_running r i (g, (at, c, og)) = elim (Bool-cases (i == n)) [
      | inl here ↦
          let both : some (record f { output = some result }) ≡ some g =
            rw (ended_at i, here) at at in
          absurd (cc)
      | inr there ↦
          let old : get_elem? fl.futures i ≡ some g = rw (ended_at i, there) at at in
          let listed : find_pending r fl.pending ≡ some i = h.running r i (g, (old, c, og)) in
          let own : find_pending f.cref fl.pending ≡ some n =
            h.running f.cref n (f, (e, refl, o)) in
          find-remove f.cref r fl.pending ∙ (elim (Bool-cases (cref_eq f.cref r)) [
            | inl same ↦ absurd (ground (arith, cref_eq_iff f.cref r, same, own, listed, there))
            | inr apart ↦ rw apart listed
          ])
    ]

  finish_future-IsSingleFlight : IsSingleFlight (finish_future n result fl)
  unfolding finish_future
  finish_future-IsSingleFlight = elim (Option-cases (get_elem? fl.futures n)) [
    | inl e ↦ rw (e, finish_future) h
    | inr (f, e) ↦ elim (Option-cases f.output) [
      | inr (done, o) ↦ rw (e, o, finish_future) h
      | inl o ↦
          rw (e, o, finish_future)
            (record {
              listed = ended_listed f e o;
              running = ended_running f e o;
              served = All-map_of (IsServed fl) (ended_served f e o) fl.callers h.served;
            })
    ]
  ]

after_all-IsSingleFlight :
    (es : List FlightEvent) (fl : Flights) → IsSingleFlight fl → IsSingleFlight (after_all es fl)
unfolding after_all after
after_all-IsSingleFlight [] fl h = h
after_all-IsSingleFlight (arrives r ∷ es) fl h =
    after_all-IsSingleFlight es (arrive r fl) (arrive-IsSingleFlight r fl h)
after_all-IsSingleFlight (finishes n result ∷ es) fl h =
    after_all-IsSingleFlight es (finish_future n result fl)
      (finish_future-IsSingleFlight n result fl h)

-- Whatever the order in which callers arrive and futures end, the map of pending futures lists exactly
-- those that run, each under its own reference, and every caller awaits a future for the reference
-- that it asked for.
pub pending-IsSingleFlight : (es : List FlightEvent) → IsSingleFlight (after_all es no_flights)
pending-IsSingleFlight es = after_all-IsSingleFlight es no_flights no_flights_lem
