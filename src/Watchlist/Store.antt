-- ===== src/Watchlist/Store.antt =====
-- JsonWatchlistStore of src/astock_lens/watchlist/store.py, and the `watch` and `_edited` functions
-- of src/astock_lens/cli/lifecycle_commands.py. JSON and pydantic are an argument: what a record is
-- written as, and what a document is read as.
pub mod Laws
pub mod Replacement
use a_stock_lens.Base.{
  Bool, true, false, Option, none, some, List, [], ◌∷◌, String, text_append, if◌then◌else◌, ◌≡◌,
  refl, ◌||◌, is_some,
}
use a_stock_lens.Base.Dict.{get, put}
use a_stock_lens.Domain.{WatchlistState, Moment}
use a_stock_lens.Watchlist.{
  WatchlistEntry, Error as EntryError, Result as EntryResult, open_entry, transition,
}

-- `json.loads` and `model_validate`: a document that is no mapping, one that is no entry, or one.
pub data Decoded : Type 0 where
  not_a_mapping invalid : Decoded
  valid : WatchlistEntry → Decoded

pub record Codec : Type 1 where
  pub Document : Type 0
  pub dump : WatchlistEntry → Document
  pub load : Document → Decoded
  -- A dumped entry validates to itself.
  pub load-dump : (entry : WatchlistEntry) → load (dump entry) ≡ valid entry

pub data Error : Type 0 where
  unreadable : (symbol : String) → Error
  refused : EntryError → Error

pub data Result (A : Type 0) : Type 0 where
  err : Error → Result A
  ok : A → Result A

infixl 5 ◌>>=◌
abbrev pub ◌>>=◌ : {X Y : Type 0} → Result X → (X → Result Y) → Result Y
err e >>= next = err e
ok x >>= next = next x

-- Inversion of a successful step.
pub >>=-eq-ok :
    {X Y : Type 0} (step : Result X) (next : X → Result Y) {y : Y}
    → (step >>= next) ≡ ok y
    → (x : X) × (step ≡ ok x) × (next x ≡ ok y)
>>=-eq-ok (err e) next h = cc
>>=-eq-ok (ok x) next h = (x, refl, h)

abbrev from_entry : {A : Type 0} → EntryResult A → Result A
from_entry (EntryResult.ok a) = ok a
from_entry (EntryResult.err e) = err (refused e)

-- The options of the command; a list that was not given is empty.
pub record Options : Type 0 where
  pub thesis : Option String
  pub key_question : List String
  pub risk_condition : List String
  pub waiting_for : List String
  pub state : Option WatchlistState
  pub remark : Option String

abbrev is_given : List String → Bool
is_given [] = false
is_given (x ∷ xs) = true

abbrev given_or : List String → List String → List String
given_or [] old = old
given_or (x ∷ xs) old = x ∷ xs

abbrev thesis_or : Option String → Option String → Option String
thesis_or none old = old
thesis_or (some t) old = some t

has_edits : Options → Bool
has_edits o =
    is_some o.thesis
    || is_given o.key_question
    || is_given o.risk_condition
    || is_given o.waiting_for

-- Only what is given changes, and then the stamp too; the timeline stays.
unfoldable pub edited : WatchlistEntry → Moment → Options → WatchlistEntry
unfolding has_edits
edited entry now o =
    if has_edits o
    then record entry {
      thesis = thesis_or o.thesis entry.thesis;
      key_questions = given_or o.key_question entry.key_questions;
      risk_conditions = given_or o.risk_condition entry.risk_conditions;
      waiting_for = given_or o.waiting_for entry.waiting_for;
      updated_at = now;
    }
    else entry

abbrev opened_or_edited : String → Moment → Options → Option WatchlistEntry → Result WatchlistEntry
opened_or_edited symbol now o none =
    from_entry (open_entry symbol now o.thesis o.key_question o.risk_condition o.waiting_for)
opened_or_edited symbol now o (some entry) = ok (edited entry now o)

abbrev moved_if : Moment → Options → Option WatchlistState → WatchlistEntry → Result WatchlistEntry
moved_if now o none entry = ok entry
moved_if now o (some to) entry = from_entry (transition entry to now o.remark)

-- The name of the file that a symbol's record occupies.
unfoldable pub path_for : String → String
path_for symbol = text_append symbol ".json"

module _ (codec : Codec) where
  open codec use {Document, dump, load}

  -- The directory: each file by its name, with its document.
  abbrev pub Files : Type 0
  Files = List (String × Document)

  unfoldable pub write : WatchlistEntry → Files → Files
  write entry files = put (path_for entry.symbol) (dump entry) files

  abbrev read_document : String → Decoded → Result (Option WatchlistEntry)
  read_document symbol (valid entry) = ok (some entry)
  read_document symbol not_a_mapping = err (unreadable symbol)
  read_document symbol invalid = err (unreadable symbol)

  unfoldable pub read : String → Files → Result (Option WatchlistEntry)
  read symbol files = elim (get (path_for symbol) files) [
    | none ↦ ok none
    | some doc ↦ read_document symbol (load doc)
  ]

  -- `watch SYMBOL`, at the time `now`: nothing is written unless every step succeeds.
  unfoldable pub watch : String → Options → Moment → Files → Result (WatchlistEntry × Files)
  watch symbol o now files = do
    found ← read symbol files
    entry ← opened_or_edited symbol now o found
    after ← moved_if now o o.state entry
    ok (after, write after files)
