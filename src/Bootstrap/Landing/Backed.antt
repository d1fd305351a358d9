-- ===== src/Bootstrap/Landing/Backed.antt =====
-- What the cold start keeps, over its rounds and over crashes: a success has its part.
use a_stock_lens.Base.{
  ℕ, ◌≡◌, sym, ap, subst, ◌∙◌, inl, inr, true, false, some, is_some, List, [], ◌∷◌, String, All,
  All-each, length, take, mem-take, mem-keep, mem-map, Bool-cases,
}
use a_stock_lens.Base.Dict.{get}
use a_stock_lens.Base.Sorting.{mem-sort}
use a_stock_lens.Base.Raise.{ok}
use a_stock_lens.Domain.{Moment}
use a_stock_lens.Bootstrap.{RawPayload}
use a_stock_lens.Bootstrap.Scheduler.{FallbackAttempt}
use a_stock_lens.Bootstrap.Checkpoint.{
  is_success, BootstrapManifestEntry, Codec, Checkpoint, load_entries, open_checkpoint, flush,
  place_part, record_success, adopt_success, adopt_parts, adopt_staged_parts, iter_part_files,
}
use a_stock_lens.Bootstrap.Checkpoint.Histories.{flush-IsSound}
use a_stock_lens.Bootstrap.Checkpoint.Staged.{
  parts-record_entry, adopt_parts-keeps_any, adopted-keeps_any, is_some_of_mem,
}
use a_stock_lens.Bootstrap.Checkpoint.Recovery.{fresh, fresh-IsSound, open-loaded, open-IsSound}
use a_stock_lens.Bootstrap.Landing.{read_staged_parts, resumed_parts, adopt_resumed, record_attempt}
use a_stock_lens.Bootstrap.Landing.Backing.{
  ok_inj, IsBacked, Backing, IsLanded, flush-Backing, place_part-IsLanded, record_success-IsLanded,
  record_attempt-IsLanded, adopt_success-IsLanded,
}

module _ (codec : Codec) where
  -- What the cold start does to the checkpoint, or a crash: then only the disk is left, and a new
  -- process opens it. Both loops over the parts may have been cut off, and a success between its part
  -- and its entry.
  pub data Landing (s : Checkpoint codec) : Checkpoint codec → Type 0 where
    resumed :
        (start end : String) (n : ℕ) (now : Moment)
        → Landing s (adopt_resumed codec now (take n (resumed_parts codec start end s)) s)
    attempted :
        (attempt : FallbackAttempt) (now : Moment) → Landing s (record_attempt codec attempt now s)
    batched :
        (symbol : String) (payload : RawPayload) (now : Moment)
        → Landing s (record_success codec symbol payload false now s)
    staged : (now : Moment) → Landing s (adopt_staged_parts codec now s)
    staging :
        (n : ℕ) (now : Moment)
        → Landing s (adopt_parts codec now (take n (iter_part_files codec s)) s)
    flushed : Landing s (flush codec s)
    crashed :
        {s' : Checkpoint codec}
        → open_checkpoint codec s.disk s.as_of s.required ≡ ok s'
        → Landing s s'
    crashed_in_success :
        (symbol : String) (payload : RawPayload) {s' : Checkpoint codec}
        → open_checkpoint codec (place_part codec symbol payload s.disk) s.as_of s.required ≡ ok s'
        → Landing s s'

  pub data Landings (as_of required : ℕ) : Checkpoint codec → Type 0 where
    started : Landings as_of required (fresh codec as_of required)
    next :
        {s s' : Checkpoint codec}
        → Landings as_of required s
        → Landing s s'
        → Landings as_of required s'

  -- The parts that are adopted are on the disk, and stay there.
  abbrev OnDisk : Checkpoint codec → List (String × RawPayload) → Type 0
  OnDisk s = All (λ p. is_some (get p.0 s.disk.parts) ≡ true)

  parts-adopt_success :
      (symbol : String) (bars : ℕ) (now : Moment) (s : Checkpoint codec)
      → (adopt_success codec symbol bars now s).disk.parts ≡ s.disk.parts
  unfolding adopt_success
  parts-adopt_success symbol bars now s = parts-record_entry codec _ false s

  adopt_resumed-IsLanded :
      (now : Moment) (ps : List (String × RawPayload)) (s : Checkpoint codec)
      → OnDisk s ps
      → IsLanded codec s
      → IsLanded codec (adopt_resumed codec now ps s)
  unfolding adopt_resumed
  adopt_resumed-IsLanded now [] s there landed = landed
  adopt_resumed-IsLanded now ((symbol, payload) ∷ ps) s there landed =
      elim (Bool-cases (is_some (get symbol s.entries))) [
        | inl known ↦ rw known (adopt_resumed-IsLanded now ps s there.1 landed)
        | inr new ↦
            let s' = adopt_success codec symbol (length payload.rows) now s in
            rw new (
              adopt_resumed-IsLanded now ps s'
                (subst (λ d. All (λ p. is_some (get p.0 d) ≡ true) ps)
                  (sym (parts-adopt_success symbol (length payload.rows) now s)) there.1)
                (adopt_success-IsLanded codec symbol (length payload.rows) now s there.0 landed))
      ]

  resumed_parts-OnDisk :
      (start end : String) (s : Checkpoint codec) (n : ℕ)
      → OnDisk s (take n (resumed_parts codec start end s))
  unfolding resumed_parts read_staged_parts iter_part_files
  resumed_parts-OnDisk start end s n = All-each _ λ p m.
      let (landed, _) = mem-keep _ _ (mem-sort _ _ (mem-take n _ m)) in
      let (read, _) = mem-keep _ _ landed in
      let (q, there, e) = mem-map (λ q. (q.0, codec.read_csv q.1)) _ read in
      subst (λ k. is_some (get k s.disk.parts) ≡ true) (sym (ap (λ p. p.0) e))
        (is_some_of_mem codec s.disk.parts (mem-sort _ s.disk.parts there))

  adopt_staged_parts-IsLanded :
      (now : Moment) (s : Checkpoint codec)
      → IsLanded codec s
      → IsLanded codec (adopt_staged_parts codec now s)
  unfolding adopt_staged_parts
  adopt_staged_parts-IsLanded now s landed =
      let (sound, backing) =
        adopted-keeps_any codec now (IsLanded codec)
          (λ symbol bars s. adopt_success-IsLanded codec symbol bars now s) s landed in
      (flush-IsSound codec _ sound, flush-Backing codec _ sound.kept backing)

  staging-IsLanded :
      (now : Moment) (n : ℕ) (s : Checkpoint codec)
      → IsLanded codec s
      → IsLanded codec (adopt_parts codec now (take n (iter_part_files codec s)) s)
  unfolding iter_part_files
  staging-IsLanded now n s landed =
      adopt_parts-keeps_any codec now (IsLanded codec)
        (λ symbol bars s. adopt_success-IsLanded codec symbol bars now s) _ s
        (All-each _
          (λ p m. is_some_of_mem codec s.disk.parts (mem-sort _ s.disk.parts (mem-take n _ m))))
        landed

  open-IsLanded :
      {s s' : Checkpoint codec}
      → IsLanded codec s
      → open_checkpoint codec s.disk s.as_of s.required ≡ ok s'
      → IsLanded codec s'
  open-IsLanded {s} {s'} (sound, landed) h =
      let k = sound.kept in
      let reopened : Checkpoint codec = record {
        disk = s.disk;
        as_of = s.as_of;
        required = s.required;
        entries = k.disk_entries;
        unflushed = 0;
      } in
      let same : reopened ≡ s' =
        ok_inj (sym (open-loaded codec s.disk s.as_of s.required k.loaded) ∙ h) in
      (
        open-IsSound codec sound h,
        subst (Backing codec) same (record {
          backed = landed.disk_backed k.disk_entries k.loaded;
          disk_backed = landed.disk_backed;
        }),
      )

  Landing-IsLanded : {s s' : Checkpoint codec} → Landing s s' → IsLanded codec s → IsLanded codec s'
  Landing-IsLanded {s} (resumed start end n now) landed =
      adopt_resumed-IsLanded now _ s (resumed_parts-OnDisk start end s n) landed
  Landing-IsLanded {s} (attempted a now) landed = record_attempt-IsLanded codec a now s landed
  Landing-IsLanded {s} (batched symbol payload now) landed =
      record_success-IsLanded codec symbol payload false now s landed
  Landing-IsLanded {s} (staged now) landed = adopt_staged_parts-IsLanded now s landed
  Landing-IsLanded {s} (staging n now) landed = staging-IsLanded now n s landed
  Landing-IsLanded {s} flushed landed =
      (flush-IsSound codec s landed.0, flush-Backing codec s landed.0.kept landed.1)
  Landing-IsLanded (crashed opened) landed = open-IsLanded landed opened
  Landing-IsLanded {s} (crashed_in_success symbol payload opened) landed =
      open-IsLanded (place_part-IsLanded codec symbol payload s landed) opened

  fresh-Backing : (as_of required : ℕ) → Backing codec (fresh codec as_of required)
  unfolding fresh load_entries get
  fresh-Backing as_of required = record {
    backed = λ k e h good. absurd (cc h);
    disk_backed = λ es l. subst (IsBacked codec []) (ok_inj l) (λ k e h good. absurd (cc h));
  }

  Landings-IsLanded :
      {as_of required : ℕ} {s : Checkpoint codec} → Landings as_of required s → IsLanded codec s
  Landings-IsLanded {as_of} {required} started =
      (fresh-IsSound codec as_of required, fresh-Backing as_of required)
  Landings-IsLanded (next run step) = Landing-IsLanded step (Landings-IsLanded run)

  -- Whatever the cold start does to a checkpoint that began empty, the adoption of the parts of an
  -- earlier process, the attempts of the scheduler, the rows of a batch, and wherever it crashes: an
  -- entry that tells a success stands under its own symbol and has its part on the disk.
  pub Landings-backed :
      {as_of required : ℕ} {s : Checkpoint codec} (run : Landings as_of required s) (k : String)
      (e : BootstrapManifestEntry)
      → get k s.entries ≡ some e
      → is_success e.status ≡ true
      → (e.symbol ≡ k) × (is_some (get k s.disk.parts) ≡ true)
  Landings-backed run k e h good =
      let (sound, landed) = Landings-IsLanded run in
      (sound.kept.keyed.own k e h, landed.backed k e h good)
