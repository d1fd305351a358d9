-- ===== src/Bootstrap/Checkpoint/Recovery.antt =====
-- What a run finds again after a crash, for every sequence of operations, crashes and new starts.
use mathlib.Core.List.{Nodup-nil}
use a_stock_lens.Base.{
  ℕ, ◌<◌, ◌≤◌, ◌≡◌, refl, subst, ◌⊎◌, inl, inr, Bool, true, false, Option, none, some, is_some,
  List, [], ◌∷◌, String, length, contains, arith,
}
use a_stock_lens.Base.Dict.{get}
use a_stock_lens.Base.Raise.{ok}
use a_stock_lens.Domain.{Moment}
use a_stock_lens.Bootstrap.{RawPayload}
use a_stock_lens.Bootstrap.Checkpoint.{
  BootstrapSymbolState, BootstrapManifestEntry, Codec, Disk, Checkpoint, manifest_flush_every,
  load_entries, open_checkpoint, flush, place_part, record_success, record_failure, adopt_success,
  adopt_staged_parts, has_rows,
}
use a_stock_lens.Bootstrap.Checkpoint.Histories.{
  IsKept, IsSound, flush-IsKept, flush-IsSound, record_entry-IsSound, place_part-IsSound,
}
use a_stock_lens.Bootstrap.Checkpoint.Staged.{adopted-IsSound, staged-keeps, staged-adds}

module _ (codec : Codec) where
  -- An operation of the checkpoint, or a crash: then only the disk is left, and a new process opens
  -- it. A success may be cut off between its part and its entry.
  pub data Step (s : Checkpoint codec) : Checkpoint codec → Type 0 where
    success :
        (symbol : String) (payload : RawPayload) (flushing : Bool) (now : Moment)
        → Step s (record_success codec symbol payload flushing now s)
    failure :
        (symbol : String) (state : BootstrapSymbolState) (error : Option String) (flushing : Bool)
        (now : Moment)
        → Step s (record_failure codec symbol state error flushing now s)
    adopt :
        (symbol : String) (bars : ℕ) (now : Moment) → Step s (adopt_success codec symbol bars now s)
    adopt_staged : (now : Moment) → Step s (adopt_staged_parts codec now s)
    flushed : Step s (flush codec s)
    crashed :
        {s' : Checkpoint codec}
        → open_checkpoint codec s.disk s.as_of s.required ≡ ok s'
        → Step s s'
    crashed_in_success :
        (symbol : String) (payload : RawPayload) {s' : Checkpoint codec}
        → open_checkpoint codec (place_part codec symbol payload s.disk) s.as_of s.required ≡ ok s'
        → Step s s'

  unfoldable pub fresh : ℕ → ℕ → Checkpoint codec
  fresh as_of required = record {
    disk = record { manifest_file = none; parts = [] };
    as_of = as_of;
    required = required;
    entries = [];
    unflushed = 0;
  }

  pub data Run (as_of required : ℕ) : Checkpoint codec → Type 0 where
    started : Run as_of required (fresh as_of required)
    next : {s s' : Checkpoint codec} → Run as_of required s → Step s s' → Run as_of required s'

  pub open-loaded :
      (disk : Disk codec) (as_of required : ℕ) {es : List (String × BootstrapManifestEntry)}
      → load_entries codec disk.manifest_file ≡ ok es
      → open_checkpoint codec disk as_of required
        ≡ ok (record {
          disk = disk;
          as_of = as_of;
          required = required;
          entries = es;
          unflushed = 0;
        })
  unfolding open_checkpoint
  open-loaded disk as_of required h = rw (h, open_checkpoint)

  pub open-IsSound :
      {s s' : Checkpoint codec}
      → IsSound codec s
      → open_checkpoint codec s.disk s.as_of s.required ≡ ok s'
      → IsSound codec s'
  open-IsSound {s} {s'} sound h =
      let k = sound.kept in
      let reopened : Checkpoint codec = record {
        disk = s.disk;
        as_of = s.as_of;
        required = s.required;
        entries = k.disk_entries;
        unflushed = 0;
      } in
      let same : reopened ≡ s' = cc (open-loaded s.disk s.as_of s.required k.loaded, h) in
      subst (IsSound codec) same (record {
        kept = record {
          keyed = k.disk_keyed;
          disk_entries = k.disk_entries;
          loaded = k.loaded;
          disk_keyed = k.disk_keyed;
          waiting = [];
          fewer = omega arith;
          synced = λ j. inr refl;
        };
        few = omega arith;
      })

  Step-IsSound : {s s' : Checkpoint codec} → Step s s' → IsSound codec s → IsSound codec s'
  unfolding record_success record_failure adopt_success adopt_staged_parts
  Step-IsSound {s} (success symbol payload f now) sound =
      record_entry-IsSound codec _ f _ (place_part-IsSound codec symbol payload s sound)
  Step-IsSound {s} (failure symbol state error f now) sound = record_entry-IsSound codec _ f s sound
  Step-IsSound {s} (adopt symbol bars now) sound = record_entry-IsSound codec _ false s sound
  Step-IsSound {s} (adopt_staged now) sound =
      flush-IsSound codec _ (adopted-IsSound codec now s sound)
  Step-IsSound {s} flushed sound = flush-IsSound codec s sound
  Step-IsSound (crashed opened) sound = open-IsSound sound opened
  Step-IsSound {s} (crashed_in_success symbol payload opened) sound =
      open-IsSound (place_part-IsSound codec symbol payload s sound) opened

  pub fresh-IsSound : (as_of required : ℕ) → IsSound codec (fresh as_of required)
  unfolding fresh load_entries get
  fresh-IsSound as_of required = record {
    kept = record {
      keyed = record { once = Nodup-nil; own = λ k e h. cc };
      disk_entries = [];
      loaded = refl;
      disk_keyed = record { once = Nodup-nil; own = λ k e h. cc };
      waiting = [];
      fewer = omega arith;
      synced = λ k. inr refl;
    };
    few = omega arith;
  }

  Run-IsSound : {as_of required : ℕ} {s : Checkpoint codec} → Run as_of required s → IsSound codec s
  Run-IsSound {as_of} {required} started = fresh-IsSound as_of required
  Run-IsSound (next run step) = Step-IsSound step (Run-IsSound run)

  -- A crash loses fewer than 64 records: after any operations and crashes a new process can open the
  -- disk, and there are fewer than 64 stocks such that for every other one it finds what the process
  -- before it had.
  pub Run-loses_few :
      {as_of required : ℕ} {s : Checkpoint codec} (run : Run as_of required s)
      → (s' : Checkpoint codec) × (open_checkpoint codec s.disk s.as_of s.required ≡ ok s')
        × ((lost : List String) × (length lost < manifest_flush_every)
            × ((k : String) → (contains lost k ≡ true) ⊎ (get k s'.entries ≡ get k s.entries)))
  Run-loses_few {s = s} run =
      let sound = Run-IsSound run in
      let kept = sound.kept in
      (
        _,
        open-loaded s.disk s.as_of s.required kept.loaded,
        (kept.waiting, omega (arith, kept.fewer, sound.few), kept.synced),
      )

  nothing_waits : (k : String) (l : List String) → length l ≤ 0 → contains l k ≡ true → ⊥
  nothing_waits k [] h w = absurd (cc w)
  nothing_waits k (x ∷ l) h w = absurd (omega (arith, h))

  -- A process that opens the disk when nothing waits finds the entries of the memory.
  reopen-same :
      (s : Checkpoint codec)
      → IsKept codec s
      → s.unflushed ≡ 0
      → (s' : Checkpoint codec) × (open_checkpoint codec s.disk s.as_of s.required ≡ ok s')
        × ((j : String) → get j s'.entries ≡ get j s.entries)
  reopen-same s kept z = (
    _,
    open-loaded s.disk s.as_of s.required kept.loaded,
    λ j. elim (kept.synced j) [
      | inl waits ↦ absurd (nothing_waits j kept.waiting (omega (arith, kept.fewer, z)) waits)
      | inr same ↦ same
    ],
  )

  reopen-staged :
      (now : Moment) (s : Checkpoint codec)
      → IsSound codec s
      → let adopted = adopt_staged_parts codec now s in
        (s' : Checkpoint codec) × (open_checkpoint codec adopted.disk adopted.as_of adopted.required
          ≡ ok s')
        × ((j : String) → get j s'.entries ≡ get j adopted.entries)
  unfolding adopt_staged_parts
  reopen-staged now s sound =
      let (kept, none_waits) = flush-IsKept codec _ (adopted-IsSound codec now s sound).kept in
      reopen-same _ kept none_waits

  -- After any operations and crashes: when `adopt_staged_parts` returns, a stock with a part that
  -- has rows has an entry; every entry that was there is as it was; and a process that opens the
  -- disk afterwards finds for each stock what this one finds.
  pub adopt_staged_parts-recovers :
      {as_of required : ℕ} {s : Checkpoint codec} (run : Run as_of required s) (now : Moment)
      (k : String) (text : codec.Text)
      → get k s.disk.parts ≡ some text
      → has_rows (codec.read_csv text) ≡ true
      → let adopted = adopt_staged_parts codec now s in
        (is_some (get k adopted.entries) ≡ true)
        × ((j : String) → (get j s.entries ≡ none) ⊎ (get j adopted.entries ≡ get j s.entries))
        × ((s' : Checkpoint codec) × (open_checkpoint codec adopted.disk adopted.as_of
                adopted.required
              ≡ ok s')
            × ((j : String) → get j s'.entries ≡ get j adopted.entries))
  adopt_staged_parts-recovers {s} run now k text there full = (
    staged-adds codec now s k text there full,
    staged-keeps codec now s,
    reopen-staged now s (Run-IsSound run),
  )
