-- ===== src/Vault/Flight.antt =====
-- How `resolve` of crates/native/src/vault.rs shares one `op` call between callers: the map of pending
-- futures, as the synchronous parts of `resolve` and of the future's end. A future is known by its
-- place in the list of all futures that were started; its result is what `resolve_uncached` gave.
pub mod Laws
pub mod Answers
use stapler_mcp.Common.{
  ℕ, zero, suc, Bool, true, false, ◌&&◌, Option, none, some, List, [], ◌∷◌, ◌++◌, if◌then◌else◌,
  ◌==◌, text_eq, get_elem?, length, Result, ok, err,
}
use stapler_mcp.Ports.{PortError, CredentialField, CredentialRef}
use stapler_mcp.Vault.{SecretValue, clone_port_error}

abbrev pub field_eq : CredentialField → CredentialField → Bool
field_eq CredentialField.username CredentialField.username = true
field_eq CredentialField.password CredentialField.password = true
field_eq CredentialField.totp CredentialField.totp = true
field_eq _ _ = false

-- `PartialEq for CredentialRef`.
unfoldable pub cref_eq : CredentialRef → CredentialRef → Bool
cref_eq a b = text_eq a.domain b.domain && field_eq a.field b.field

abbrev pub PendingOutput : Type 0
PendingOutput = Result PortError SecretValue

-- A shared future with the output that it ended with.
pub record PendingFuture : Type 0 where
  pub cref : CredentialRef
  pub output : Option PendingOutput

-- The map `pending` to places of futures, all futures, and for each call of `resolve` the reference
-- that it asked for and the future that it awaits.
pub record Flights : Type 0 where
  pub pending : List (CredentialRef × ℕ)
  pub futures : List PendingFuture
  pub callers : List (CredentialRef × ℕ)

abbrev pub no_flights : Flights
no_flights = record { pending = []; futures = []; callers = [] }

unfoldable pub find_pending : CredentialRef → List (CredentialRef × ℕ) → Option ℕ
find_pending r [] = none
find_pending r ((q, n) ∷ m) = if cref_eq q r then some n else find_pending r m

unfoldable pub remove_pending : CredentialRef → List (CredentialRef × ℕ) → List (CredentialRef × ℕ)
remove_pending r [] = []
remove_pending r ((q, n) ∷ m) =
    let rest = remove_pending r m in if cref_eq q r then rest else (q, n) ∷ rest

abbrev pub set {ℓ} : {A : Type ℓ} → List A → ℕ → A → List A
set [] i v = []
set (x ∷ xs) zero v = v ∷ xs
set (x ∷ xs) (suc i) v = x ∷ set xs i v

-- The synchronous part of `resolve`: join the future that is pending, or start one.
unfoldable pub arrive : CredentialRef → Flights → Flights
arrive r fl = elim (find_pending r fl.pending) [
  | some n ↦ record fl { callers = (r, n) ∷ fl.callers }
  | none ↦ record {
    pending = (r, length fl.futures) ∷ fl.pending;
    futures = fl.futures ++ record { cref = r; output = none } ∷ [];
    callers = (r, length fl.futures) ∷ fl.callers;
  }
]

-- The end of the future's work: the entry goes, and the result is there for every caller.
unfoldable pub finish_future : ℕ → PendingOutput → Flights → Flights
finish_future n result fl = elim (get_elem? fl.futures n) [
  | none ↦ fl
  | some f ↦ elim f.output [
    | some done ↦ fl
    | none ↦ record fl {
      pending = remove_pending f.cref fl.pending;
      futures = set fl.futures n (record f { output = some result });
    }
  ]
]

-- What `shared.await` gives a caller: a copy of the secret, or of the error.
abbrev pub copy_output : PendingOutput → PendingOutput
copy_output (ok s) = ok s
copy_output (err e) = err (clone_port_error e)

unfoldable pub answer_of : Flights → ℕ → Option PendingOutput
answer_of fl n = elim (get_elem? fl.futures n) [
  | none ↦ none
  | some f ↦ elim f.output [ none ↦ none | some result ↦ some (copy_output result) ]
]

-- What can happen, in any order.
pub data FlightEvent : Type 0 where
  arrives : CredentialRef → FlightEvent
  finishes : ℕ → PendingOutput → FlightEvent

unfoldable pub after : FlightEvent → Flights → Flights
after (arrives r) fl = arrive r fl
after (finishes n result) fl = finish_future n result fl

unfoldable pub after_all : List FlightEvent → Flights → Flights
after_all [] fl = fl
after_all (e ∷ es) fl = after_all es (after e fl)
