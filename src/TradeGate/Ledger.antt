-- ===== src/TradeGate/Ledger.antt =====
-- JsonTradeLedgerStore of src/astock_lens/trade_gate/store.py: `_write` and `_read`, on which the
-- typed methods stand. JSON and pydantic are an argument. The state is the files that exist.
pub mod Laws
use a_stock_lens.Base.{
  ℕ, ◌≡◌, refl, ◌↔◌, Bool, true, false, not, ◌&&◌, ◌||◌, Option, none, some, List, [], ◌∷◌, String,
  text_eq, ◌==◌, if◌then◌else◌,
}
use Prim.Native.Char.{code}
use a_stock_lens.Number.{Double}
use a_stock_lens.TradeGate.Errors.{Result, ok, err, value_error, conflict, ◌>>=◌, ◌>>◌, refuse_if}
use a_stock_lens.TradeGate.Intent.{TradeIntent}
use a_stock_lens.TradeGate.Records.{
  TradeGateEvaluation, TradePlan, OverrideRecord, ExecutionRecord, TradeReview,
}

-- The folders.
pub data Kind : Type 0 where
  intents evaluations plans overrides executions reviews : Kind

abbrev kind_number : Kind → ℕ
kind_number intents = 0
kind_number evaluations = 1
kind_number plans = 2
kind_number overrides = 3
kind_number executions = 4
kind_number reviews = 5

abbrev pub same_kind : Kind → Kind → Bool
same_kind a b = kind_number a == kind_number b

abbrev pub folder : Kind → String
folder intents = "intents"
folder evaluations = "evaluations"
folder plans = "plans"
folder overrides = "overrides"
folder executions = "executions"
folder reviews = "reviews"

abbrev has_slash : String → Bool
has_slash String.[] = false
has_slash (String.◌∷◌ c s) = code c == b'/' || has_slash s

-- The folders whose model declares the types of all that it holds.
abbrev pub is_typed : Kind → Bool
is_typed evaluations = false
is_typed _ = true

-- `not record_id or Path(record_id).name != record_id`: empty, with a slash, or the folder itself.
unfoldable pub is_no_name : String → Bool
is_no_name s = text_eq s "" || has_slash s || text_eq s "."

module _ ⦃d : Double⦄ where
  -- The model that each folder holds.
  abbrev pub Content : Kind → Type 0
  Content intents = TradeIntent
  Content evaluations = TradeGateEvaluation
  Content plans = TradePlan
  Content overrides = OverrideRecord
  Content executions = ExecutionRecord
  Content reviews = TradeReview

  pub record Codec : Type 1 where
    pub Document : Type 0
    -- `==` on what `json.loads` returns.
    pub same : Document → Document → Bool
    pub dump : (k : Kind) → Content k → Document
    pub load : (k : Kind) → Document → Result (Content k)
    pub same_iff : (a b : Document) → (same a b ≡ true) ↔ (a ≡ b)
    -- Not so for an evaluation: of the context that it holds, three fields are declared as objects,
    -- and read back as what JSON has.
    pub load-dump : (k : Kind) (x : Content k) → is_typed k ≡ true → load k (dump k x) ≡ ok x

  module _ (codec : Codec) where
    open codec use {Document, same, dump, load}

    -- Each file by its folder and the stem of its name.
    abbrev pub Ledger : Type 0
    Ledger = List (Kind × String × Document)

    unfoldable pub file_of : Kind → String → Ledger → Option Document
    file_of k id [] = none
    file_of k id ((j, name, doc) ∷ files) =
        if same_kind j k && text_eq name id then some doc else file_of k id files

    -- The file is there: the same content is accepted, and another is a conflict.
    abbrev pub accept : Kind → String → Document → Document → Ledger → Result Ledger
    accept k id old new files = if same old new then ok files else err (conflict (folder k) id)

    -- `_write`, with the files as they are when it looks, and as they are when it opens a new file
    -- exclusively; another process may have written in between.
    unfoldable pub write : (k : Kind) → String → Content k → (seen opened : Ledger) → Result Ledger
    write k id x seen opened = do
      refuse_if (is_no_name id || text_eq id "..") "record id must be a simple non-empty filename"
      elim (file_of k id seen) [
        | some old ↦ accept k id old (dump k x) opened
        | none ↦ elim (file_of k id opened) [
          | some old ↦ accept k id old (dump k x) opened
          | none ↦ ok ((k, id, dump k x) ∷ opened)
        ]
      ]

    -- `_read`
    unfoldable pub read : (k : Kind) → String → Ledger → Result (Option (Content k))
    read k id files = do
      refuse_if (is_no_name id) "record id must be a simple non-empty filename"
      elim (file_of k id files) [ none ↦ ok none | some doc ↦ (do x ← load k doc; ok (some x)) ]
