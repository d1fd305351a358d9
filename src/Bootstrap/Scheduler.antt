-- ===== src/Bootstrap/Scheduler.antt =====
-- src/astock_lens/data/bootstrap_scheduler.py: `fetch_symbols_bounded` as rounds over the workers
-- that run. What the workers and the clock answer is an argument, for each round and stock.
pub mod Entry
pub mod Accounts
pub mod Rounds
pub mod Termination
pub mod Completeness
use a_stock_lens.Base.{
  ℕ, zero, suc, ◌+◌, ◌-◌, max, Bool, true, false, not, ◌&&◌, Option, none, some, List, [], ◌∷◌,
  ◌++◌, String, length, ltb, leb, ◌==◌, text_eq, is_nil, if◌then◌else◌,
}
use a_stock_lens.Base.Dict.{remove}
use a_stock_lens.Base.Distinct.{unique}
use a_stock_lens.Base.Raise.{Result, ok, ◌>>=◌, ◌>>◌, raise_if}
use a_stock_lens.Domain.{DataStatus}
use a_stock_lens.Bootstrap.{RawDataset}

-- What `_fetch_in_worker` puts on its queue: the data, or the text of the exception.
pub data Message : Type 0 where
  fetched : RawDataset → Message
  failed : String → Message

pub record FallbackAttempt : Type 0 where
  pub symbol : String
  pub status : DataStatus
  pub dataset : Option RawDataset
  pub error : Option String
  pub timed_out : Bool

-- What the scheduler reads of the world: the moment at which a worker starts in a round, what its
-- queue holds when it is read, and the clock right after. Moments are ticks of the monotonic clock.
pub record World : Type 0 where
  pub started : ℕ → String → ℕ
  pub message : ℕ → String → Option Message
  pub now : ℕ → String → ℕ

pub record Schedule : Type 0 where
  pub pending : List String
  -- The stock of each worker, and when it started.
  pub active : List (String × ℕ)
  pub submitted : ℕ
  pub completed : ℕ
  pub timed_out : ℕ
  pub source_errors : ℕ
  pub max_observed : ℕ
  pub exhausted : Bool
  pub draining_after_timeout : Bool
  pub completed_this_round : ℕ
  pub timed_out_this_round : ℕ
  -- The calls of `on_result` and of `on_inflight`, the last one first.
  pub results : List FallbackAttempt
  pub inflight : List ℕ

abbrev pub is_source_error : DataStatus → Bool
is_source_error DataStatus.source_error = true
is_source_error _ = false

abbrev pub attempt_from_message : String → Message → FallbackAttempt
attempt_from_message symbol (failed error) = record {
  symbol = symbol;
  status = DataStatus.source_error;
  dataset = none;
  error = some error;
  timed_out = false;
}
attempt_from_message symbol (fetched dataset) = record {
  symbol = symbol;
  status = dataset.status;
  dataset = some dataset;
  error = none;
  timed_out = false;
}

abbrev pub deadline_elapsed : String → FallbackAttempt
deadline_elapsed symbol = record {
  symbol = symbol;
  status = DataStatus.source_error;
  dataset = none;
  error = some "scheduler deadline elapsed; this is not a transport timeout";
  timed_out = true;
}

-- The body of the loop of `submit_until_full`: a worker for the next stock.
unfoldable pub start : World → ℕ → String → List String → Schedule → Schedule
start world round symbol rest s =
    let running = s.active ++ (symbol, world.started round symbol) ∷ [] in
    record s {
      pending = rest;
      active = running;
      submitted = s.submitted + 1;
      max_observed = max s.max_observed (length running);
      inflight = length running ∷ s.inflight;
    }

-- The branch for a worker whose queue holds a message.
unfoldable pub finish : String → Message → Schedule → Schedule
finish symbol message s =
    let attempt = attempt_from_message symbol message in
    let running = remove symbol s.active in
    record s {
      active = running;
      completed = s.completed + 1;
      completed_this_round = s.completed_this_round + 1;
      source_errors =
          if is_source_error attempt.status then s.source_errors + 1 else s.source_errors;
      results = attempt ∷ s.results;
      inflight = length running ∷ s.inflight;
    }

-- The branch for a worker whose time is up.
unfoldable pub give_up : String → Schedule → Schedule
give_up symbol s =
    let running = remove symbol s.active in
    record s {
      active = running;
      completed = s.completed + 1;
      timed_out = s.timed_out + 1;
      timed_out_this_round = s.timed_out_this_round + 1;
      source_errors = s.source_errors + 1;
      results = deadline_elapsed symbol ∷ s.results;
      inflight = length running ∷ s.inflight;
    }

-- What follows the loop over the workers.
unfoldable pub settle : Schedule → Schedule
settle s =
    let some_timed_out = ltb 0 s.timed_out_this_round in
    let some_completed = ltb 0 s.completed_this_round in
    record s {
      draining_after_timeout =
          if some_timed_out && not some_completed
          then true
          else (if some_completed then false else s.draining_after_timeout);
      exhausted =
          if some_timed_out && not some_completed && is_nil s.active then true else s.exhausted;
    }

unfoldable pub initial : List String → Schedule
initial symbols = record {
  pending = unique symbols;
  active = [];
  submitted = 0;
  completed = 0;
  timed_out = 0;
  source_errors = 0;
  max_observed = 0;
  exhausted = false;
  draining_after_timeout = false;
  completed_this_round = 0;
  timed_out_this_round = 0;
  results = [];
  inflight = [];
}

module _ (world : World) (max_inflight operation_timeout : ℕ) where
  -- The loop of `submit_until_full`, over the stocks that `pending` still holds.
  unfoldable pub submit_from : ℕ → List String → Schedule → Schedule
  submit_from round [] s =
      if not s.exhausted && ltb (length s.active) max_inflight
      then record s { exhausted = true }
      else s
  submit_from round (symbol ∷ rest) s =
      if not s.exhausted && ltb (length s.active) max_inflight
      then submit_from round rest (start world round symbol rest s)
      else s

  unfoldable pub submit_until_full : ℕ → Schedule → Schedule
  submit_until_full round s = submit_from round s.pending s

  -- The body of the loop over the workers.
  unfoldable pub poll : ℕ → String → ℕ → Schedule → Schedule
  poll round symbol started_at s = elim (world.message round symbol) [
    | some message ↦ finish symbol message s
    | none ↦
        if leb operation_timeout (world.now round symbol - started_at) then give_up symbol s else s
  ]

  -- The loop over the workers as they were when it began.
  unfoldable pub poll_all : ℕ → List (String × ℕ) → Schedule → Schedule
  poll_all round [] s = s
  poll_all round ((symbol, started_at) ∷ rest) s =
      poll_all round rest (poll round symbol started_at s)

  unfoldable pub resume : ℕ → Schedule → Schedule
  resume round s = if s.draining_after_timeout then s else submit_until_full round s

  unfoldable pub round_of : ℕ → Schedule → Schedule
  round_of round s =
      let fresh = record s { completed_this_round = 0; timed_out_this_round = 0 } in
      resume round (settle (poll_all round s.active fresh))

  -- `while active`; `none` means that the fuel ran out.
  unfoldable pub run : ℕ → ℕ → Schedule → Option Schedule
  run zero round s = none
  run (suc fuel) round s =
      let later = run fuel (suc round) (round_of round s) in
      if is_nil s.active then some s else later

  -- The rounds are counted from 1; the workers of before the loop start in round 0.
  unfoldable pub fetch_symbols_bounded : ℕ → List String → Result (Option Schedule)
  fetch_symbols_bounded fuel symbols = do
    raise_if (max_inflight == 0) "max_inflight must be positive"
    raise_if (operation_timeout == 0) "operation_timeout_seconds must be positive"
    ok (run fuel 1 (submit_until_full 0 (initial symbols)))
