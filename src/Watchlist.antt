-- ===== src/Watchlist.antt =====
-- src/astock_lens/watchlist/models.py and watchlist/state_machine.py: the entries of the watchlist
-- and the moves between their states. An exception is an `err` with what its message names.
pub mod Path
pub mod History
pub mod Store
use a_stock_lens.Base.{
  ℕ, Bool, true, false, Option, none, some, List, [], ◌∷◌, ◌++◌, String, ltb, ◌==◌, if◌then◌else◌,
}
use a_stock_lens.Domain.{
  WatchlistState, discovered, watch, deep_research, track_signal, ready, holding, exited, archived,
  Moment, aware, naive,
}

pub data Error : Type 0 where
  naive_moment : (field : String) → Error
  uncomparable_moments : Error
  moved_back : (symbol : String) (to : WatchlistState) (now last : Moment) → Error
  reserved : (symbol : String) (to : WatchlistState) → Error
  end_of_path : (symbol : String) (at : WatchlistState) → Error
  unconfirmed : (symbol : String) (from to : WatchlistState) (allowed : List WatchlistState) → Error

pub data Result (A : Type 0) : Type 0 where
  err : Error → Result A
  ok : A → Result A

infixl 5 ◌>>=◌ ◌>>◌
abbrev pub ◌>>=◌ : {X Y : Type 0} → Result X → (X → Result Y) → Result Y
err e >>= next = err e
ok x >>= next = next x

abbrev pub ◌>>◌ : {Y : Type 0} → Result (Unit {0}) → Result Y → Result Y
step >> rest = step >>= λ _. rest

abbrev pub refuse_if : Bool → Error → Result (Unit {0})
refuse_if true e = err e
refuse_if false e = ok tt

pub record WatchlistTimelineEvent : Type 0 where
  pub at : Moment
  pub to_state : WatchlistState
  pub from_state : Option WatchlistState
  pub note : Option String

pub record WatchlistEntry : Type 0 where
  pub symbol : String
  pub state : WatchlistState
  pub created_at : Moment
  pub updated_at : Moment
  pub thesis : Option String
  pub key_questions : List String
  pub risk_conditions : List String
  pub waiting_for : List String
  pub timeline : List WatchlistTimelineEvent

abbrev pub confirmed_path : List WatchlistState
confirmed_path = discovered ∷ watch ∷ deep_research ∷ track_signal ∷ []

abbrev pub is_reserved : WatchlistState → Bool
is_reserved ready = true
is_reserved holding = true
is_reserved exited = true
is_reserved archived = true
is_reserved _ = false

abbrev state_number : WatchlistState → ℕ
state_number discovered = 0
state_number watch = 1
state_number deep_research = 2
state_number track_signal = 3
state_number ready = 4
state_number holding = 5
state_number exited = 6
state_number archived = 7

abbrev pub same_state : WatchlistState → WatchlistState → Bool
same_state a b = state_number a == state_number b

-- The row of `CONFIRMED_TRANSITIONS` that a path gives a state; a state off the path has none.
abbrev pub successors : List WatchlistState → WatchlistState → List WatchlistState
successors [] s = []
successors (x ∷ []) s = []
successors (x ∷ y ∷ rest) s = if same_state x s then y ∷ [] else successors (y ∷ rest) s

unfoldable pub allowed_transitions : WatchlistState → List WatchlistState
allowed_transitions s = successors confirmed_path s

abbrev pub member : WatchlistState → List WatchlistState → Bool
member s [] = false
member s (x ∷ xs) = if same_state s x then true else member s xs

unfoldable pub require_aware : Moment → String → Result (Unit {0})
require_aware (aware w u) field = ok tt
require_aware (naive w) field = err (naive_moment field)

-- `a < b`: Python compares two aware moments by their instants, two naive ones by their clocks,
-- and raises TypeError for a mixed pair.
unfoldable pub earlier : Moment → Moment → Result Bool
earlier (aware w u) (aware w' u') = ok (ltb u u')
earlier (naive w) (naive w') = ok (ltb w w')
earlier _ _ = err uncomparable_moments

unfoldable pub refusal : WatchlistEntry → WatchlistState → List WatchlistState → Error
refusal entry to [] = end_of_path entry.symbol entry.state
refusal entry to (x ∷ xs) = unconfirmed entry.symbol entry.state to (x ∷ xs)

unfoldable pub open_entry :
    String
    → Moment
    → Option String
    → List String
    → List String
    → List String
    → Result WatchlistEntry
unfolding require_aware
open_entry symbol at thesis key_questions risk_conditions waiting_for = do
  require_aware at "at"
  ok (record {
    symbol = symbol;
    state = discovered;
    created_at = at;
    updated_at = at;
    thesis = thesis;
    key_questions = key_questions;
    risk_conditions = risk_conditions;
    waiting_for = waiting_for;
    timeline =
        record { at = at; to_state = discovered; from_state = none; note = some "discovered" } ∷ [];
  })

unfoldable pub transition :
    WatchlistEntry → WatchlistState → Moment → Option String → Result WatchlistEntry
unfolding require_aware earlier allowed_transitions refusal
transition entry to at note = do
  require_aware at "at"
  backwards ← earlier at entry.updated_at
  refuse_if backwards (moved_back entry.symbol to at entry.updated_at)
  refuse_if (is_reserved to) (reserved entry.symbol to)
  let allowed = allowed_transitions entry.state
  if member to allowed
      then ok (record entry {
        state = to;
        updated_at = at;
        timeline =
            entry.timeline
            ++ record { at = at; to_state = to; from_state = some entry.state; note = note } ∷ [];
      })
      else err (refusal entry to allowed)
