-- ===== src/Bootstrap/Checkpoint/Staged.antt =====
-- What becomes of the entries and of the disk when the parts that are staged are adopted.
use a_stock_lens.Base.{
  ℕ, ◌≡◌, sym, ap, subst, ◌∙◌, ◌⊎◌, inl, inr, Bool, true, false, none, some, is_some, List, [], ◌∷◌,
  String, All, All-each, arith, text_eq, text_iff, text_refl, Memᴰ, Bool-cases, Option-cases,
}
use a_stock_lens.Base.Dict.{get, put, get-put}
use a_stock_lens.Base.Keyed.{get-mem}
use a_stock_lens.Base.Sorting.{mem-sort, mem-sort_of}
use a_stock_lens.Domain.{Moment}
use a_stock_lens.Bootstrap.Checkpoint.{
  BootstrapManifestEntry, Codec, Checkpoint, flush, record_entry, adopt_success, adopt_part,
  adopt_parts, adopt_staged_parts, iter_part_files, has_rows,
}
use a_stock_lens.Bootstrap.Checkpoint.Histories.{IsSound, record_entry-IsSound}

module _ (codec : Codec) where
  pub parts-record_entry :
      (e : BootstrapManifestEntry) (f : Bool) (s : Checkpoint codec)
      → (record_entry codec e f s).disk.parts ≡ s.disk.parts
  unfolding record_entry flush
  parts-record_entry e f s = ground arith

  entries-record_entry :
      (e : BootstrapManifestEntry) (f : Bool) (s : Checkpoint codec)
      → (record_entry codec e f s).entries ≡ put e.symbol e s.entries
  unfolding record_entry flush
  entries-record_entry e f s = ground arith

  record_entry-keeps :
      (e : BootstrapManifestEntry) (f : Bool) (s : Checkpoint codec) (k : String)
      {old : BootstrapManifestEntry}
      → is_some (get e.symbol s.entries) ≡ false
      → get k s.entries ≡ some old
      → get k (record_entry codec e f s).entries ≡ some old
  record_entry-keeps e f s k new h =
      rw (entries-record_entry e f s, get-put e.symbol k e s.entries)
        (elim (Bool-cases (text_eq e.symbol k)) [
          | inl same ↦ absurd (ground (arith, new, h, (text_iff e.symbol k).0 same))
          | inr other ↦ rw other h
        ])

  -- One part is looked at, which is on the disk.
  module _ (now : Moment) (symbol : String) (text : codec.Text) (s : Checkpoint codec) where
    adopt_part-parts : (adopt_part codec now symbol text s).disk.parts ≡ s.disk.parts
    unfolding adopt_part adopt_success
    adopt_part-parts = elim (Bool-cases (is_some (get symbol s.entries))) [
      | inl known ↦ rw known
      | inr new ↦ elim (Bool-cases (has_rows (codec.read_csv text))) [
        | inl full ↦ rw (new, full) (parts-record_entry _ _ s)
        | inr bare ↦ rw (new, bare)
      ]
    ]

    adopt_part-keeps_any :
        (P : Checkpoint codec → Type 0)
        → ((bars : ℕ) → P s → P (adopt_success codec symbol bars now s))
        → P s
        → P (adopt_part codec now symbol text s)
    unfolding adopt_part
    adopt_part-keeps_any P step p = elim (Bool-cases (is_some (get symbol s.entries))) [
      | inl known ↦ rw known p
      | inr new ↦ elim (Bool-cases (has_rows (codec.read_csv text))) [
        | inl full ↦ rw (new, full) (step _ p)
        | inr bare ↦ rw (new, bare) p
      ]
    ]

    -- An entry that is there stays as it is.
    adopt_part-keeps :
        (k : String) {e : BootstrapManifestEntry}
        → get k s.entries ≡ some e
        → get k (adopt_part codec now symbol text s).entries ≡ some e
    unfolding adopt_part adopt_success
    adopt_part-keeps k {e} h = elim (Bool-cases (is_some (get symbol s.entries))) [
      | inl known ↦ rw known h
      | inr new ↦ elim (Bool-cases (has_rows (codec.read_csv text))) [
        | inl full ↦ rw (new, full) (record_entry-keeps _ false s k new h)
        | inr bare ↦ rw (new, bare) h
      ]
    ]

    -- A part with rows has an entry then.
    adopt_part-adds :
        has_rows (codec.read_csv text) ≡ true
        → is_some (get symbol (adopt_part codec now symbol text s).entries) ≡ true
    unfolding adopt_part adopt_success
    adopt_part-adds full = elim (Bool-cases (is_some (get symbol s.entries))) [
      | inl known ↦ rw known known
      | inr new ↦ rw (
        new,
        full,
        entries-record_entry _ false s,
        get-put symbol symbol _ s.entries,
        text_refl symbol,
      )
    ]

  module _ (now : Moment) where
    -- Every listed part is on the disk.
    abbrev OnDisk : Checkpoint codec → List (String × codec.Text) → Type 0
    OnDisk s = All (λ p. is_some (get p.0 s.disk.parts) ≡ true)

    -- What an adoption of a part that is on the disk keeps, all adoptions keep.
    pub adopt_parts-keeps_any :
        (P : Checkpoint codec → Type 0)
        → ((symbol : String) (bars : ℕ) (s : Checkpoint codec)
            → is_some (get symbol s.disk.parts) ≡ true
            → P s
            → P (adopt_success codec symbol bars now s))
        → (ps : List (String × codec.Text)) (s : Checkpoint codec) → OnDisk s ps
        → P s
        → P (adopt_parts codec now ps s)
    unfolding adopt_parts
    adopt_parts-keeps_any P step [] s there p = p
    adopt_parts-keeps_any P step ((k, text) ∷ ps) s there p =
        adopt_parts-keeps_any P step ps (adopt_part codec now k text s)
          (subst (λ d. All (λ p. is_some (get p.0 d) ≡ true) ps)
            (sym (adopt_part-parts now k text s)) there.1)
          (adopt_part-keeps_any now k text s P (λ bars. step k bars s there.0) p)

    adopt_parts-keeps :
        (ps : List (String × codec.Text)) (s : Checkpoint codec) (k : String)
        {e : BootstrapManifestEntry}
        → get k s.entries ≡ some e
        → get k (adopt_parts codec now ps s).entries ≡ some e
    unfolding adopt_parts
    adopt_parts-keeps [] s k h = h
    adopt_parts-keeps ((j, text) ∷ ps) s k h =
        adopt_parts-keeps ps (adopt_part codec now j text s) k (adopt_part-keeps now j text s k h)

    adopt_parts-adds :
        (ps : List (String × codec.Text)) (s : Checkpoint codec) (k : String) (text : codec.Text)
        → Memᴰ (k, text) ps
        → has_rows (codec.read_csv text) ≡ true
        → is_some (get k (adopt_parts codec now ps s).entries) ≡ true
    unfolding adopt_parts
    adopt_parts-adds [] s k text m full = elim m [ ]
    adopt_parts-adds ((j, t) ∷ ps) s k text (Memᴰ.tail m) full = adopt_parts-adds ps _ k text m full
    adopt_parts-adds ((j, t) ∷ ps) s k text (Memᴰ.head e) full =
        let same : k ≡ j = ap (λ p. p.0) e in
        let same' : text ≡ t = ap (λ p. p.1) e in
        let s' = adopt_part codec now j t s in
        elim (Option-cases (get j s'.entries)) [
          | inl absent ↦ cc (adopt_part-adds now j t s (rw (← same') full), absent)
          | inr (x, there) ↦ rw (same, adopt_parts-keeps ps s' j there)
        ]

  pub is_some_of_mem :
      (d : List (String × codec.Text)) {p : String × codec.Text}
      → Memᴰ p d
      → is_some (get p.0 d) ≡ true
  unfolding get
  is_some_of_mem [] m = elim m [ ]
  is_some_of_mem ((k, v) ∷ d) (Memᴰ.head e) = rw (ap (λ q. q.0) e, text_refl k)
  is_some_of_mem ((k, v) ∷ d) {p} (Memᴰ.tail m) = elim (Bool-cases (text_eq k p.0)) [
    | inl same ↦ rw same
    | inr other ↦ rw other (is_some_of_mem d m)
  ]

  pub adopted-keeps_any :
      (now : Moment) (P : Checkpoint codec → Type 0)
      → ((symbol : String) (bars : ℕ) (s : Checkpoint codec)
          → is_some (get symbol s.disk.parts) ≡ true
          → P s
          → P (adopt_success codec symbol bars now s))
      → (s : Checkpoint codec) → P s
      → P (adopt_parts codec now (iter_part_files codec s) s)
  unfolding iter_part_files
  adopted-keeps_any now P step s p =
      adopt_parts-keeps_any now P step _ s
        (All-each _ (λ p m. is_some_of_mem s.disk.parts (mem-sort _ s.disk.parts m))) p

  pub adopted-IsSound :
      (now : Moment) (s : Checkpoint codec)
      → IsSound codec s
      → IsSound codec (adopt_parts codec now (iter_part_files codec s) s)
  unfolding adopt_success
  adopted-IsSound now =
      adopted-keeps_any now (IsSound codec)
        (λ symbol bars s _. record_entry-IsSound codec _ false s)

  entries-flush : (s : Checkpoint codec) → (flush codec s).entries ≡ s.entries
  unfolding flush
  entries-flush s = ground arith

  -- `adopt_staged_parts` changes no entry that is there, ...
  pub staged-keeps :
      (now : Moment) (s : Checkpoint codec) (k : String)
      → (get k s.entries ≡ none)
        ⊎ (get k (adopt_staged_parts codec now s).entries ≡ get k s.entries)
  unfolding adopt_staged_parts
  staged-keeps now s k = elim (Option-cases (get k s.entries)) [
    | inl absent ↦ inl absent
    | inr (e, there) ↦ inr (
        rw (entries-flush (adopt_parts codec now (iter_part_files codec s) s))
          (adopt_parts-keeps now (iter_part_files codec s) s k there ∙ sym there))
  ]

  -- ... and makes one for each part with rows.
  pub staged-adds :
      (now : Moment) (s : Checkpoint codec) (k : String) (text : codec.Text)
      → get k s.disk.parts ≡ some text
      → has_rows (codec.read_csv text) ≡ true
      → is_some (get k (adopt_staged_parts codec now s).entries) ≡ true
  unfolding adopt_staged_parts iter_part_files
  staged-adds now s k text there full =
      rw (entries-flush (adopt_parts codec now (iter_part_files codec s) s)) (
        adopt_parts-adds now (iter_part_files codec s) s k text
          (mem-sort_of _ s.disk.parts (get-mem k s.disk.parts there)) full)
