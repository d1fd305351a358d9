-- ===== src/Bootstrap/Checkpoint.antt =====
-- src/astock_lens/data/bootstrap_checkpoint.py: what a cold start keeps on the disk, and how it goes
-- on after a crash. The texts of CSV and JSON are an argument: what they are written as and read as.
pub mod Histories
pub mod Staged
pub mod Recovery
use a_stock_lens.Base.{
  ℕ, zero, suc, ◌+◌, ◌≡◌, Bool, true, false, not, ◌&&◌, ◌||◌, Option, none, some, is_some, List, [],
  ◌∷◌, ◌++◌, map, String, length, keep, is_nil, leb, ◌==◌, text_leb, text_append, if◌then◌else◌,
}
use a_stock_lens.Base.Dict.{get, put, put_all}
use a_stock_lens.Base.Sorting.{sort}
use a_stock_lens.Base.Raise.{Result, ok, raised}
use a_stock_lens.Domain.{Moment}
use a_stock_lens.Bootstrap.{RawPayload}

pub data BootstrapSymbolState : Type 0 where
  pending success empty timeout source_error : BootstrapSymbolState

abbrev pub is_success : BootstrapSymbolState → Bool
is_success BootstrapSymbolState.success = true
is_success _ = false

pub record BootstrapManifestEntry : Type 0 where
  pub symbol : String
  pub status : BootstrapSymbolState
  pub bars : ℕ
  pub attempts : ℕ
  pub last_error : Option String
  pub updated_at : Moment

pub record BootstrapManifest : Type 0 where
  pub as_of : ℕ
  pub required_valid_bars : ℕ
  pub entries : List BootstrapManifestEntry

-- `csv` and `json` with pydantic.
pub record Codec : Type 1 where
  pub Text : Type 0
  pub dump : BootstrapManifest → Text
  pub load : Text → Option BootstrapManifest
  pub write_csv : RawPayload → Text
  pub read_csv : Text → RawPayload
  -- What was written reads back as it was.
  pub load-dump : (m : BootstrapManifest) → load (dump m) ≡ some m
  pub read-write_csv : (p : RawPayload) → read_csv (write_csv p) ≡ p

abbrev pub manifest_flush_every : ℕ
manifest_flush_every = 64

abbrev pub by_symbol : List BootstrapManifestEntry → List (String × BootstrapManifestEntry)
by_symbol es = map (λ e. (e.symbol, e)) es

abbrev pub symbol_before : String × BootstrapManifestEntry → String × BootstrapManifestEntry → Bool
symbol_before p q = text_leb p.0 q.0

abbrev pub attempts_of : Option BootstrapManifestEntry → ℕ
attempts_of none = 0
attempts_of (some e) = e.attempts

abbrev pub bars_of : Option BootstrapManifestEntry → ℕ
bars_of none = 0
bars_of (some e) = e.bars

-- `if columns and rows`
abbrev pub has_rows : RawPayload → Bool
has_rows p = not (is_nil p.columns) && not (is_nil p.rows)

module _ (codec : Codec) where
  -- The directory of a run: manifest.json, and parts/<symbol>.csv by its symbol.
  pub record Disk : Type 0 where
    pub manifest_file : Option codec.Text
    pub parts : List (String × codec.Text)

  -- BootstrapCheckpoint, and the directory that it writes to.
  pub record Checkpoint : Type 0 where
    pub disk : Disk
    pub as_of : ℕ
    pub required : ℕ
    pub entries : List (String × BootstrapManifestEntry)
    pub unflushed : ℕ

  -- The dictionary that `__init__` builds of what `_load_entries` returns.
  unfoldable pub load_entries : Option codec.Text → Result (List (String × BootstrapManifestEntry))
  load_entries none = ok []
  load_entries (some text) = elim (codec.load text) [
    | none ↦ raised "not a manifest"
    | some m ↦ ok (put_all (by_symbol m.entries) [])
  ]

  unfoldable pub open_checkpoint : Disk → ℕ → ℕ → Result Checkpoint
  open_checkpoint disk as_of required = elim (load_entries disk.manifest_file) [
    | raised text ↦ raised text
    | ok entries ↦ ok (record {
      disk = disk;
      as_of = as_of;
      required = required;
      entries = entries;
      unflushed = 0;
    })
  ]

  -- The entries in the order of their symbols.
  unfoldable pub manifest : Checkpoint → BootstrapManifest
  manifest s = record {
    as_of = s.as_of;
    required_valid_bars = s.required;
    entries = map (λ p. p.1) (sort symbol_before s.entries);
  }

  unfoldable pub pending_symbols : Checkpoint → List String → List String
  pending_symbols s symbols =
      keep (λ x. elim (get x s.entries) [ none ↦ true | some e ↦ not (is_success e.status) ])
        symbols

  -- The files in the order of their names.
  unfoldable pub iter_part_files : Checkpoint → List (String × codec.Text)
  iter_part_files s =
      sort (λ p q. text_leb (text_append p.0 ".csv") (text_append q.0 ".csv")) s.disk.parts

  unfoldable pub flush : Checkpoint → Checkpoint
  flush s = if s.unflushed == 0 then s else record s {
    disk = record s.disk { manifest_file = some (codec.dump (manifest s)) };
    unflushed = 0;
  }

  -- `_record`
  unfoldable pub record_entry : BootstrapManifestEntry → Bool → Checkpoint → Checkpoint
  record_entry entry flushing s =
      let s' = record s {
        entries = put entry.symbol entry s.entries;
        unflushed = s.unflushed + 1;
      } in
      if flushing || leb manifest_flush_every s'.unflushed then flush s' else s'

  -- The part of a stock is put in place, by one replacement of the file.
  unfoldable pub place_part : String → RawPayload → Disk → Disk
  place_part symbol payload disk = record disk {
    parts = put symbol (codec.write_csv payload) disk.parts;
  }

  unfoldable pub record_success : String → RawPayload → Bool → Moment → Checkpoint → Checkpoint
  record_success symbol payload flushing now s =
      record_entry
        (record {
          symbol = symbol;
          status = BootstrapSymbolState.success;
          bars = length payload.rows;
          attempts = attempts_of (get symbol s.entries) + 1;
          last_error = none;
          updated_at = now;
        })
        flushing (record s { disk = place_part symbol payload s.disk })

  unfoldable pub record_failure :
      String → BootstrapSymbolState → Option String → Bool → Moment → Checkpoint → Checkpoint
  record_failure symbol state error flushing now s =
      let previous = get symbol s.entries in
      record_entry
        (record {
          symbol = symbol;
          status = state;
          bars = bars_of previous;
          attempts = attempts_of previous + 1;
          last_error = error;
          updated_at = now;
        })
        flushing s

  unfoldable pub adopt_success : String → ℕ → Moment → Checkpoint → Checkpoint
  adopt_success symbol bars now s =
      record_entry
        (record {
          symbol = symbol;
          status = BootstrapSymbolState.success;
          bars = bars;
          attempts = 1;
          last_error = none;
          updated_at = now;
        })
        false s

  -- The body of the loop of `adopt_staged_parts`.
  unfoldable pub adopt_part : Moment → String → codec.Text → Checkpoint → Checkpoint
  adopt_part now symbol text s =
      let payload = codec.read_csv text in
      if is_some (get symbol s.entries)
      then s
      else (if has_rows payload then adopt_success symbol (length payload.rows) now s else s)

  unfoldable pub adopt_parts : Moment → List (String × codec.Text) → Checkpoint → Checkpoint
  adopt_parts now [] s = s
  adopt_parts now ((symbol, text) ∷ rest) s = adopt_parts now rest (adopt_part now symbol text s)

  -- The checkpoint after `adopt_staged_parts`.
  unfoldable pub adopt_staged_parts : Moment → Checkpoint → Checkpoint
  adopt_staged_parts now s = flush (adopt_parts now (iter_part_files s) s)

  -- The parts that `compact_bootstrap_run` hands to `merge_payloads`.
  unfoldable pub compacted_parts : Checkpoint → List RawPayload
  compacted_parts s = keep has_rows (
      map (λ p. codec.read_csv p.1)
        (keep
          (λ p. elim (get p.0 (by_symbol (manifest s).entries)) [
            | none ↦ true
            | some e ↦ is_success e.status
          ])
          (iter_part_files s)))
