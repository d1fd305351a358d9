-- ===== src/Bootstrap/Landing.antt =====
-- src/astock_lens/data/bootstrap.py: what `land_bar_chunks` writes to the checkpoint, for the parts of
-- a run before and for the attempts of the scheduler.
pub mod Backed
pub mod Backing
use a_stock_lens.Base.{
  ℕ, zero, suc, Bool, true, false, not, ◌&&◌, Option, none, some, is_some, List, [], ◌∷◌, map,
  String, length, keep, is_nil, text_eq, text_leb, if◌then◌else◌,
}
use a_stock_lens.Base.Dict.{get}
use a_stock_lens.Base.Sorting.{sort}
use a_stock_lens.Domain.{DataStatus, Moment, is_value}
use a_stock_lens.Bootstrap.{RawPayload, RawDataset}
use a_stock_lens.Bootstrap.Scheduler.{FallbackAttempt}
use a_stock_lens.Bootstrap.Checkpoint.{
  BootstrapSymbolState, is_success, Codec, Checkpoint, iter_part_files, record_success,
  record_failure, adopt_success, has_rows,
}

-- `list.index`, where the name is in the list.
abbrev pub position : String → List String → Option ℕ
position name [] = none
position name (x ∷ xs) =
    if text_eq x name
    then some 0
    else elim (position name xs) [ none ↦ none | some n ↦ some (suc n) ]

-- `row[index] if index < len(row)`; an empty text counts as none.
abbrev pub cell : ℕ → List String → Option String
cell n [] = none
cell zero (x ∷ xs) = if text_eq x "" then none else some x
cell (suc n) (x ∷ xs) = cell n xs

abbrev pub column : ℕ → List (List String) → List String
column n [] = []
column n (row ∷ rows) = elim (cell n row) [ none ↦ column n rows | some x ↦ x ∷ column n rows ]

-- `min` and `max` of texts
abbrev pub least : String → List String → String
least best [] = best
least best (x ∷ xs) = least (if text_leb best x then best else x) xs

abbrev pub greatest : String → List String → String
greatest best [] = best
greatest best (x ∷ xs) = greatest (if text_leb x best then best else x) xs

abbrev spans : String → String → List String → Bool
spans start end [] = false
spans start end (d ∷ ds) = text_leb (least d ds) start && text_leb end (greatest d ds)

-- `_payload_covers`, for the texts of both dates.
unfoldable pub payload_covers : String → String → RawPayload → Bool
payload_covers start end payload = elim (position "trade_date" payload.columns) [
  | none ↦ false
  | some n ↦ spans start end (column n payload.rows)
]

abbrev pub is_empty_status : DataStatus → Bool
is_empty_status DataStatus.value = true
is_empty_status DataStatus.null = true
is_empty_status DataStatus.not_applicable = true
is_empty_status _ = false

abbrev pub landed_rows : Option RawPayload → Option RawPayload
landed_rows none = none
landed_rows (some p) = if is_nil p.rows then none else some p

abbrev pub landed_dataset : Option RawDataset → Option RawPayload
landed_dataset none = none
landed_dataset (some ds) = if is_value ds.status then landed_rows ds.payload else none

-- The payload of an attempt for which `_attempt_landed` holds.
unfoldable pub landed_payload : FallbackAttempt → Option RawPayload
landed_payload a = if a.timed_out then none else landed_dataset a.dataset

abbrev answered_empty : Option RawDataset → Bool
answered_empty none = false
answered_empty (some ds) = is_empty_status ds.status

-- `_attempt_state`
unfoldable pub attempt_state : FallbackAttempt → BootstrapSymbolState
attempt_state a =
    if a.timed_out
    then BootstrapSymbolState.timeout
    else (if answered_empty a.dataset
        then BootstrapSymbolState.empty
        else BootstrapSymbolState.source_error)

abbrev pub status_text : DataStatus → String
status_text DataStatus.value = "VALUE"
status_text DataStatus.null = "NULL"
status_text DataStatus.stale = "STALE"
status_text DataStatus.invalid = "INVALID"
status_text DataStatus.source_error = "SOURCE_ERROR"
status_text DataStatus.not_applicable = "NOT_APPLICABLE"

-- `x or y` for a text that may be none
abbrev pub text_or : Option String → String → String
text_or none y = y
text_or (some x) y = if text_eq x "" then y else x

abbrev dataset_reason : Option RawDataset → String
dataset_reason none = "no answer and no reason reported"
dataset_reason (some ds) = text_or ds.message (status_text ds.status)

-- `_attempt_reason`
unfoldable pub attempt_reason : FallbackAttempt → String
attempt_reason a = text_or a.error (dataset_reason a.dataset)

module _ (codec : Codec) where
  -- `_read_staged_parts`, in the order of the files.
  unfoldable pub read_staged_parts : Checkpoint codec → List (String × RawPayload)
  read_staged_parts s =
      keep (λ p. has_rows p.1) (map (λ p. (p.0, codec.read_csv p.1)) (iter_part_files codec s))

  -- `_is_landed_evidence`
  unfoldable pub is_landed_evidence : Checkpoint codec → String → Bool
  is_landed_evidence s symbol = elim (get symbol s.entries) [
    | none ↦ true
    | some e ↦ is_success e.status
  ]

  -- The parts of `resumed`, in the order of their symbols.
  unfoldable pub resumed_parts : String → String → Checkpoint codec → List (String × RawPayload)
  resumed_parts start end s =
      sort (λ p q. text_leb p.0 q.0)
        (keep (λ p. is_landed_evidence s p.0 && payload_covers start end p.1) (read_staged_parts s))

  -- The loop over `resumed`.
  unfoldable pub adopt_resumed :
      Moment → List (String × RawPayload) → Checkpoint codec → Checkpoint codec
  adopt_resumed now [] s = s
  adopt_resumed now ((symbol, payload) ∷ rest) s = adopt_resumed now rest (
      if is_some (get symbol s.entries)
      then s
      else adopt_success codec symbol (length payload.rows) now s)

  -- `record`, the callback that the scheduler calls for each attempt.
  unfoldable pub record_attempt : FallbackAttempt → Moment → Checkpoint codec → Checkpoint codec
  record_attempt a now s = elim (landed_payload a) [
    | some payload ↦ record_success codec a.symbol payload false now s
    | none ↦ record_failure codec a.symbol (attempt_state a) (some (attempt_reason a)) false now s
  ]
