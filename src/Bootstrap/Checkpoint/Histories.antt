-- ===== src/Bootstrap/Checkpoint/Histories.antt =====
-- What every operation of the checkpoint keeps, a crash and a new start included.
use mathlib.Core.List.{Nodup, Nodup-nil}
use a_stock_lens.Base.{
  ◌+◌, ◌<◌, ◌≤◌, ◌≡◌, refl, sym, ◌∙◌, ◌⊎◌, inl, inr, Bool, true, ◌||◌, Option, some, List, [], ◌∷◌,
  map, String, All, All-each, length, contains, leb, ◌==◌, arith, text_eq, text_iff, Bool-cases,
}
use a_stock_lens.Base.Dict.{get, put, put_all, keys, get-put}
use a_stock_lens.Base.Keyed.{
  mem-get, put-Nodup, put_all-Nodup, sort-Nodup, get-sort, get-put_all_nil,
}
use a_stock_lens.Base.Sorting.{sort, mem-sort}
use a_stock_lens.Base.Raise.{ok}
use a_stock_lens.Bootstrap.{RawPayload}
use a_stock_lens.Bootstrap.Checkpoint.{
  BootstrapManifestEntry, Codec, Checkpoint, manifest_flush_every, by_symbol, symbol_before,
  load_entries, manifest, flush, record_entry, place_part,
}

abbrev pub Entries : Type 0
Entries = List (String × BootstrapManifestEntry)

-- Each entry stands under its own symbol, once.
pub record IsKeyed (entries : Entries) : Type 0 where
  pub once : Nodup (keys entries)
  pub own : (k : String) (e : BootstrapManifestEntry) → get k entries ≡ some e → e.symbol ≡ k

-- The entries of the manifest, listed by symbol, make the same dictionary again.
by_symbol-values : (d : Entries) → All (λ p. p.1.symbol ≡ p.0) d → by_symbol (map (λ p. p.1) d) ≡ d
by_symbol-values [] h = refl
by_symbol-values ((k, e) ∷ d) h = rw (h.0, by_symbol-values d h.1)

own-All : {d : Entries} → IsKeyed d → All (λ p. p.1.symbol ≡ p.0) (sort symbol_before d)
own-All {d} keyed =
    All-each (sort symbol_before d)
      (λ p m. keyed.own p.0 p.1 (mem-get p.0 p.1 d keyed.once (mem-sort symbol_before d m)))

-- The dictionary that is read back, against the one that was written.
abbrev pub reloaded : Entries → Entries
reloaded d = put_all (sort symbol_before d) []

pub get-reloaded : (d : Entries) → IsKeyed d → (k : String) → get k (reloaded d) ≡ get k d
get-reloaded d keyed k =
    get-put_all_nil k (sort symbol_before d) (sort-Nodup symbol_before d keyed.once)
    ∙ get-sort symbol_before k d keyed.once

reloaded-IsKeyed : (d : Entries) → IsKeyed d → IsKeyed (reloaded d)
reloaded-IsKeyed d keyed = record {
  once = put_all-Nodup (sort symbol_before d) [] Nodup-nil;
  own = λ k e h. keyed.own k e (sym (get-reloaded d keyed k) ∙ h);
}

put-IsKeyed : (e : BootstrapManifestEntry) (d : Entries) → IsKeyed d → IsKeyed (put e.symbol e d)
put-IsKeyed e d keyed = record {
  once = put-Nodup e.symbol e d keyed.once;
  own = λ k f h. own k f h;
}
  where
    own_symbol :
        {k : String} {f : BootstrapManifestEntry} {o : Option BootstrapManifestEntry}
        → o ≡ some e
        → e.symbol ≡ k
        → o ≡ some f
        → f.symbol ≡ k
    own_symbol a b c = cc (a, b, c)

    own :
        (k : String) (f : BootstrapManifestEntry) → get k (put e.symbol e d) ≡ some f → f.symbol ≡ k
    own k f h = elim (Bool-cases (text_eq e.symbol k)) [
      | inl same ↦ own_symbol (rw same at (get-put e.symbol k e d)) ((text_iff e.symbol k).0 same) h
      | inr other ↦ keyed.own k f (sym (rw other at (get-put e.symbol k e d)) ∙ h)
    ]

module _ (codec : Codec) where
  pub reload :
      (s : Checkpoint codec)
      → IsKeyed s.entries
      → load_entries codec (some (codec.dump (manifest codec s))) ≡ ok (reloaded s.entries)
  unfolding load_entries manifest
  reload s keyed =
      rw (codec.load-dump (manifest codec s), load_entries)
        (rw (by_symbol-values (sort symbol_before s.entries) (own-All keyed)))

  -- The dictionary of the disk is that of the memory, but for the stocks of a list, of which there
  -- are no more than records that wait to be written.
  pub record IsKept (s : Checkpoint codec) : Type 0 where
    pub keyed : IsKeyed s.entries
    pub disk_entries : Entries
    pub loaded : load_entries codec s.disk.manifest_file ≡ ok disk_entries
    pub disk_keyed : IsKeyed disk_entries
    pub waiting : List String
    pub fewer : length waiting ≤ s.unflushed
    pub synced : (k : String) → (contains waiting k ≡ true) ⊎ (get k disk_entries ≡ get k s.entries)

  pub flush-IsKept :
      (s : Checkpoint codec) → IsKept s → IsKept (flush codec s) × ((flush codec s).unflushed ≡ 0)
  unfolding flush
  flush-IsKept s kept = elim (Bool-cases (s.unflushed == 0)) [
    | inl none_waits ↦ rw none_waits (kept, ground (arith, none_waits))
    | inr some_wait ↦ rw some_wait (
      record {
        keyed = kept.keyed;
        disk_entries = reloaded s.entries;
        loaded = reload s kept.keyed;
        disk_keyed = reloaded-IsKeyed s.entries kept.keyed;
        waiting = [];
        fewer = omega arith;
        synced = λ k. inr (get-reloaded s.entries kept.keyed k);
      },
      refl,
    )
  ]

  -- Fewer than 64 records wait.
  pub record IsSound (s : Checkpoint codec) : Type 0 where
    pub kept : IsKept s
    pub few : s.unflushed < manifest_flush_every

  pub flush-IsSound : (s : Checkpoint codec) → IsSound s → IsSound (flush codec s)
  flush-IsSound s sound =
      let (kept, zero_left) = flush-IsKept s sound.kept in
      record { kept = kept; few = rw zero_left (omega arith) }

  -- An entry is put in place of the old one, and not yet written.
  abbrev pub unwritten : BootstrapManifestEntry → Checkpoint codec → Checkpoint codec
  unwritten e s = record s { entries = put e.symbol e s.entries; unflushed = s.unflushed + 1 }

  pub unwritten-IsKept :
      (e : BootstrapManifestEntry) (s : Checkpoint codec) → IsKept s → IsKept (unwritten e s)
  unwritten-IsKept e s kept = record {
    keyed = put-IsKeyed e s.entries kept.keyed;
    disk_entries = kept.disk_entries;
    loaded = kept.loaded;
    disk_keyed = kept.disk_keyed;
    waiting = e.symbol ∷ kept.waiting;
    fewer = omega (arith, kept.fewer);
    synced = λ k. elim (Bool-cases (text_eq e.symbol k)) [
      | inl same ↦ inl (rw same)
      | inr other ↦ elim (kept.synced k) [
        | inl waits ↦ inl (rw (other, waits))
        | inr same ↦ inr (same ∙ sym (rw other at (get-put e.symbol k e s.entries)))
      ]
    ];
  }

  pub record_entry-IsSound :
      (e : BootstrapManifestEntry) (flushing : Bool) (s : Checkpoint codec)
      → IsSound s
      → IsSound (record_entry codec e flushing s)
  unfolding record_entry
  record_entry-IsSound e flushing s sound =
      let kept' = unwritten-IsKept e s sound.kept in
      elim (Bool-cases (flushing || leb manifest_flush_every (s.unflushed + 1))) [
        | inl now ↦ rw now (record {
          kept = (flush-IsKept (unwritten e s) kept').0;
          few = omega (arith, (flush-IsKept (unwritten e s) kept').1);
        })
        | inr later ↦ rw later (record { kept = kept'; few = ground (arith, later) })
      ]

  pub place_part-IsSound :
      (symbol : String) (payload : RawPayload) (s : Checkpoint codec)
      → IsSound s
      → IsSound (record s { disk = place_part codec symbol payload s.disk })
  unfolding place_part
  place_part-IsSound symbol payload s sound = record {
    kept = record {
      keyed = sound.kept.keyed;
      disk_entries = sound.kept.disk_entries;
      loaded = sound.kept.loaded;
      disk_keyed = sound.kept.disk_keyed;
      waiting = sound.kept.waiting;
      fewer = sound.kept.fewer;
      synced = sound.kept.synced;
    };
    few = sound.few;
  }
