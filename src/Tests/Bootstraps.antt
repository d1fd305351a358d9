-- ===== src/Tests/Bootstraps.antt =====
-- A cold start of two stocks: one fails, the other one never answers.
use mathlib.Core.List.{Perm}
use a_stock_lens.Base.{
  contains, ◌+◌, ◌*◌, ◌<◌, ◌≤◌, ◌≡◌, ◌⊎◌, refl, true, false, Option, none, some, is_some, List, [],
  ◌∷◌, ◌++◌, String, length, All, arith, text_eq, if◌then◌else◌,
}
use a_stock_lens.Base.Dict.{get, put, put_all, remove}
use a_stock_lens.Base.Distinct.{unique}
use a_stock_lens.Base.Sorting.{sort, insert_sorted}
use a_stock_lens.Base.Raise.{ok}
use a_stock_lens.Domain.{DataStatus}
use a_stock_lens.Bootstrap.{RawPayload}
use a_stock_lens.Bootstrap.Scheduler.{
  Message, failed, FallbackAttempt, World, Schedule, start, submit_from, submit_until_full, finish,
  give_up, poll, poll_all, settle, resume, round_of, run, initial, fetch_symbols_bounded,
  deadline_elapsed, attempt_from_message,
}
use a_stock_lens.Bootstrap.Scheduler.Accounts.{attempted}
use a_stock_lens.Bootstrap.Scheduler.Termination.{fetch_symbols_bounded-ends}
use a_stock_lens.Bootstrap.Scheduler.Completeness.{
  fetch_symbols_bounded-each_once, fetch_symbols_bounded-complete,
}
use a_stock_lens.Bootstrap.Checkpoint.{
  BootstrapSymbolState, BootstrapManifestEntry, BootstrapManifest, Codec, Checkpoint,
  manifest_flush_every, open_checkpoint, place_part, record_success, record_entry,
  adopt_staged_parts, flush, load_entries, manifest,
}
use a_stock_lens.Bootstrap.Landing.{record_attempt, landed_payload}
use a_stock_lens.Bootstrap.Landing.Backed.{Landings, Landing, Landings-backed}
use a_stock_lens.Bootstrap.Checkpoint.Recovery.{
  Run, started, next, success, crashed_in_success, fresh, Run-loses_few,
  adopt_staged_parts-recovers,
}
use a_stock_lens.Tests.Samples.{noon}

abbrev symbols : List String
symbols = "600519" ∷ "000001" ∷ "600519" ∷ []

abbrev answer : String → Option Message
answer x = if text_eq x "600519" then some (failed "ConnectionError") else none

-- A round takes ten ticks, and is read in its middle.
abbrev world : World
world = record { started = λ n x. n * 10; message = λ n x. answer x; now = λ n x. n * 10 + 5 }

-- Every worker answers at once.
abbrev prompt : World
prompt = record {
  started = λ n x. n * 10;
  message = λ n x. some (failed "ConnectionError");
  now = λ n x. n * 10 + 5;
}

fetch_symbols_bounded-ends_example :
    (r : Schedule) × (fetch_symbols_bounded world 2 20 81 symbols ≡ ok (some r))
fetch_symbols_bounded-ends_example =
    fetch_symbols_bounded-ends world 2 20 symbols (omega arith) (λ n x y. omega arith)
      (λ n x y. omega arith) 81 (omega arith) (omega arith)

abbrev failure : String → FallbackAttempt
failure x = attempt_from_message x (failed "ConnectionError")

abbrev finished : Schedule
finished = record {
  pending = [];
  active = [];
  submitted = 2;
  completed = 2;
  timed_out = 1;
  source_errors = 2;
  max_observed = 2;
  exhausted = true;
  draining_after_timeout = true;
  completed_this_round = 0;
  timed_out_this_round = 1;
  results = deadline_elapsed "000001" ∷ failure "600519" ∷ [];
  inflight = 0 ∷ 1 ∷ 2 ∷ 1 ∷ [];
}

fetched : fetch_symbols_bounded world 2 20 81 symbols ≡ ok (some finished)
unfolding fetch_symbols_bounded run round_of resume settle poll_all poll give_up finish
    submit_until_full submit_from start initial unique remove
fetched = refl

fetch_symbols_bounded-each_once_example :
    Perm (attempted finished.results ++ finished.pending) (unique symbols)
    × (finished.submitted ≡ length finished.results)
    × (finished.completed ≡ length finished.results)
    × (finished.max_observed ≤ 2)
    × All (λ n. n ≤ 2) finished.inflight
    × (finished.timed_out ≤ finished.source_errors)
    × (finished.source_errors ≤ length finished.results)
fetch_symbols_bounded-each_once_example =
    fetch_symbols_bounded-each_once world 2 20 81 symbols finished fetched

abbrev answered : Schedule
answered = record {
  pending = [];
  active = [];
  submitted = 2;
  completed = 2;
  timed_out = 0;
  source_errors = 2;
  max_observed = 1;
  exhausted = true;
  draining_after_timeout = false;
  completed_this_round = 1;
  timed_out_this_round = 0;
  results = failure "000001" ∷ failure "600519" ∷ [];
  inflight = 0 ∷ 1 ∷ 0 ∷ 1 ∷ [];
}

fetched_promptly : fetch_symbols_bounded prompt 1 20 81 symbols ≡ ok (some answered)
unfolding fetch_symbols_bounded run round_of resume settle poll_all poll give_up finish
    submit_until_full submit_from start initial unique remove
fetched_promptly = refl

fetch_symbols_bounded-complete_example : Perm (attempted answered.results) (unique symbols)
fetch_symbols_bounded-complete_example =
    fetch_symbols_bounded-complete prompt 1 20 81 symbols answered fetched_promptly refl

-- A file that keeps what was written to it.
data File : Type 0 where
  of_manifest : BootstrapManifest → File
  of_table : RawPayload → File

abbrev load_file : File → Option BootstrapManifest
load_file (of_manifest m) = some m
load_file (of_table p) = none

abbrev read_file : File → RawPayload
read_file (of_table p) = p
read_file (of_manifest m) = record { columns = []; rows = [] }

abbrev codec : Codec
codec = record {
  Text = File;
  dump = of_manifest;
  load = load_file;
  write_csv = of_table;
  read_csv = read_file;
  load-dump = λ m. refl;
  read-write_csv = λ p. refl;
}

abbrev bars : RawPayload
bars = record { columns = "symbol" ∷ "close" ∷ []; rows = ("600519" ∷ "1480.5" ∷ []) ∷ [] }

-- One stock is recorded; the next one's part is in place when the process dies.
abbrev recorded : Checkpoint codec
recorded = record_success codec "600519" bars true noon (fresh codec 20716 250)

abbrev entry : BootstrapManifestEntry
entry = record {
  symbol = "600519";
  status = BootstrapSymbolState.success;
  bars = 1;
  attempts = 1;
  last_error = none;
  updated_at = noon;
}

abbrev reopened : Checkpoint codec
reopened = record {
  disk = place_part codec "000001" bars recorded.disk;
  as_of = 20716;
  required = 250;
  entries = ("600519", entry) ∷ [];
  unflushed = 0;
}

Run-recorded : Run codec 20716 250 recorded
Run-recorded = next started (success "600519" bars true noon)

opened : open_checkpoint codec reopened.disk 20716 250 ≡ ok reopened
unfolding open_checkpoint load_entries place_part record_success record_entry flush fresh put
    put_all get sort insert_sorted manifest
opened = refl

Run-reopened : Run codec 20716 250 reopened
unfolding place_part record_success record_entry flush fresh put get sort manifest
Run-reopened = next Run-recorded (crashed_in_success "000001" bars opened)

Run-loses_few_example :
    (s' : Checkpoint codec) × (open_checkpoint codec reopened.disk 20716 250 ≡ ok s')
    × ((lost : List String) × (length lost < manifest_flush_every)
        × ((k : String) → (contains lost k ≡ true) ⊎ (get k s'.entries ≡ get k reopened.entries)))
Run-loses_few_example = Run-loses_few codec Run-reopened

-- An attempt that fetched one row, and the memory after it.
abbrev attempt : FallbackAttempt
attempt = record {
  symbol = "600519";
  status = DataStatus.value;
  dataset = some (record {
    provider = "westock";
    dataset = "daily_bars";
    fetched_at = noon;
    provider_version = "v1";
    status = DataStatus.value;
    row_count = 1;
    missing_symbols = [];
    message = none;
    trade_date = none;
    report_period = none;
    payload = some bars;
  });
  error = none;
  timed_out = false;
}

abbrev landed : Checkpoint codec
landed = record_attempt codec attempt noon (fresh codec 20716 250)

found_entry : get "600519" landed.entries ≡ some entry
unfolding get record_attempt landed_payload record_success record_entry place_part flush fresh put
found_entry = refl

Landings-backed_example :
    (entry.symbol ≡ "600519") × (is_some (get "600519" landed.disk.parts) ≡ true)
Landings-backed_example =
    Landings-backed codec (Landings.next Landings.started (Landing.attempted attempt noon)) "600519"
      entry found_entry refl

part_there : get "000001" reopened.disk.parts ≡ some (of_table bars)
unfolding get place_part record_success record_entry flush fresh put
part_there = refl

adopt_staged_parts-recovers_example :
    let adopted = adopt_staged_parts codec noon reopened in
    (is_some (get "000001" adopted.entries) ≡ true)
    × ((j : String)
        → (get j reopened.entries ≡ none) ⊎ (get j adopted.entries ≡ get j reopened.entries))
    × ((s' : Checkpoint codec) × (open_checkpoint codec adopted.disk adopted.as_of adopted.required
          ≡ ok s')
        × ((j : String) → get j s'.entries ≡ get j adopted.entries))
adopt_staged_parts-recovers_example =
    adopt_staged_parts-recovers codec Run-reopened noon "000001" (of_table bars) part_there refl
