-- ===== src/Bootstrap/Landing/Backing.antt =====
-- A success has its part: what records, parts, and flushes keep of it.
use a_stock_lens.Base.{
  ℕ, ◌+◌, ◌≡◌, sym, subst, ◌∙◌, inl, inr, Bool, true, false, ◌||◌, some, is_some, List, String, leb,
  ◌==◌, arith, text_eq, text_iff, text_refl, Bool-cases, Option-cases,
}
use a_stock_lens.Base.Dict.{get, put, get-put}
use a_stock_lens.Base.Raise.{ok}
use a_stock_lens.Domain.{Moment}
use a_stock_lens.Bootstrap.{RawPayload}
use a_stock_lens.Bootstrap.Scheduler.{FallbackAttempt}
use a_stock_lens.Bootstrap.Checkpoint.{
  is_success, BootstrapManifestEntry, Codec, Disk, Checkpoint, manifest_flush_every, load_entries,
  flush, record_entry, place_part, record_success, record_failure, adopt_success,
}
use a_stock_lens.Bootstrap.Checkpoint.Histories.{
  Entries, IsKept, IsSound, reload, get-reloaded, unwritten, unwritten-IsKept, record_entry-IsSound,
  place_part-IsSound,
}
use a_stock_lens.Bootstrap.Landing.{landed_payload, attempt_state, record_attempt}

pub ok_inj {ℓ} : {A : Type ℓ} {x y : A} → ok x ≡ ok y → x ≡ y
ok_inj h = cc

module _ (codec : Codec) where
  abbrev pub IsBacked : List (String × codec.Text) → Entries → Type 0
  IsBacked parts entries =
      (k : String) (e : BootstrapManifestEntry)
      → get k entries ≡ some e
      → is_success e.status ≡ true
      → is_some (get k parts) ≡ true

  -- Successes have their parts, in the memory and on the disk.
  pub record Backing (s : Checkpoint codec) : Type 0 where
    pub backed : IsBacked s.disk.parts s.entries
    pub disk_backed :
        (es : Entries) → load_entries codec s.disk.manifest_file ≡ ok es → IsBacked s.disk.parts es

  abbrev pub IsLanded : Checkpoint codec → Type 0
  IsLanded s = IsSound codec s × Backing s

  abbrev HasPart : List (String × codec.Text) → BootstrapManifestEntry → Type 0
  HasPart parts e = is_success e.status ≡ true → is_some (get e.symbol parts) ≡ true

  put-IsBacked :
      (parts : List (String × codec.Text)) (e : BootstrapManifestEntry) (d : Entries)
      → HasPart parts e
      → IsBacked parts d
      → IsBacked parts (put e.symbol e d)
  put-IsBacked parts e d has b k f h good = elim (Bool-cases (text_eq e.symbol k)) [
    | inl same ↦ this (rw same at (get-put e.symbol k e d)) ((text_iff e.symbol k).0 same)
    | inr other ↦ b k f (sym (rw other at (get-put e.symbol k e d)) ∙ h) good
  ]
    where
      this : get k (put e.symbol e d) ≡ some e → e.symbol ≡ k → is_some (get k parts) ≡ true
      this a same = let e-f : e ≡ f = cc (a, h) in rw (← same) (has (rw e-f good))

  pub flush-Backing : (s : Checkpoint codec) → IsKept codec s → Backing s → Backing (flush codec s)
  unfolding flush
  flush-Backing s kept landed = elim (Bool-cases (s.unflushed == 0)) [
    | inl none_waits ↦ rw none_waits landed
    | inr some_wait ↦ rw some_wait (record {
      backed = landed.backed;
      disk_backed = λ es h.
          subst (IsBacked s.disk.parts) (ok_inj (sym (reload codec s kept.keyed) ∙ h))
            (λ k e g. landed.backed k e (sym (get-reloaded s.entries kept.keyed k) ∙ g));
    })
  ]

  record_entry-IsLanded :
      (e : BootstrapManifestEntry) (flushing : Bool) (s : Checkpoint codec)
      → HasPart s.disk.parts e
      → IsLanded s
      → IsLanded (record_entry codec e flushing s)
  unfolding record_entry
  record_entry-IsLanded e flushing s has (sound, landed) =
      let landed' : Backing (unwritten codec e s) = record {
        backed = put-IsBacked s.disk.parts e s.entries has landed.backed;
        disk_backed = landed.disk_backed;
      } in
      let kept' = unwritten-IsKept codec e s sound.kept in
      (
        record_entry-IsSound codec e flushing s sound,
        elim (Bool-cases (flushing || leb manifest_flush_every (s.unflushed + 1))) [
          | inl now ↦ rw now (flush-Backing (unwritten codec e s) kept' landed')
          | inr later ↦ rw later landed'
        ],
      )

  put-is_some :
      (symbol k : String) (text : codec.Text) (parts : List (String × codec.Text))
      → is_some (get k parts) ≡ true
      → is_some (get k (put symbol text parts)) ≡ true
  put-is_some symbol k text parts h =
      rw (get-put symbol k text parts)
        (elim (Bool-cases (text_eq symbol k)) [ inl same ↦ rw same | inr other ↦ rw other h ])

  pub place_part-IsLanded :
      (symbol : String) (payload : RawPayload) (s : Checkpoint codec)
      → IsLanded s
      → IsLanded (record s { disk = place_part codec symbol payload s.disk })
  unfolding place_part
  place_part-IsLanded symbol payload s (sound, landed) = (
    place_part-IsSound codec symbol payload s sound,
    record {
      backed = λ k e h good. put-is_some symbol k _ s.disk.parts (landed.backed k e h good);
      disk_backed = λ es l k e h good.
          put-is_some symbol k _ s.disk.parts (landed.disk_backed es l k e h good);
    },
  )

  placed :
      (symbol : String) (payload : RawPayload) (disk : Disk codec)
      → is_some (get symbol (place_part codec symbol payload disk).parts) ≡ true
  unfolding place_part
  placed symbol payload disk =
      rw (get-put symbol symbol (codec.write_csv payload) disk.parts, text_refl symbol)

  pub record_success-IsLanded :
      (symbol : String) (payload : RawPayload) (flushing : Bool) (now : Moment)
      (s : Checkpoint codec)
      → IsLanded s
      → IsLanded (record_success codec symbol payload flushing now s)
  unfolding record_success
  record_success-IsLanded symbol payload f now s landed =
      record_entry-IsLanded _ f _ (λ _. placed symbol payload s.disk)
        (place_part-IsLanded symbol payload s landed)

  -- An attempt that did not land is never recorded as a success.
  not-is_success : (a : FallbackAttempt) → is_success (attempt_state a) ≡ false
  unfolding attempt_state
  not-is_success a = ground arith

  pub record_attempt-IsLanded :
      (a : FallbackAttempt) (now : Moment) (s : Checkpoint codec)
      → IsLanded s
      → IsLanded (record_attempt codec a now s)
  unfolding record_attempt record_failure
  record_attempt-IsLanded a now s landed = elim (Option-cases (landed_payload a)) [
    | inl nothing ↦
        rw (nothing, record_attempt)
          (record_entry-IsLanded _ false s (λ good. cc (good, not-is_success a)) landed)
    | inr (payload, there) ↦
        rw (there, record_attempt) (record_success-IsLanded a.symbol payload false now s landed)
  ]

  pub adopt_success-IsLanded :
      (symbol : String) (bars : ℕ) (now : Moment) (s : Checkpoint codec)
      → is_some (get symbol s.disk.parts) ≡ true
      → IsLanded s
      → IsLanded (adopt_success codec symbol bars now s)
  unfolding adopt_success
  adopt_success-IsLanded symbol bars now s there landed =
      record_entry-IsLanded _ false s (λ _. there) landed
