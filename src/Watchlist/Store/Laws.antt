-- ===== src/Watchlist/Store/Laws.antt =====
-- What the store keeps: lookups after writes, and the invariant of the tracked entries.
use a_stock_lens.Base.{
  ◌≡◌, sym, ◌∙◌, subst, text_append, text_refl, inl, inr, Option, none, some, String, text_eq,
  text_iff, if◌then◌else◌, arith, Bool-cases,
}
use text.Mathlib.TextLemmas.{append_cancel_right}
use a_stock_lens.Base.Dict.{get-put}
use a_stock_lens.Domain.{WatchlistState, Moment}
use a_stock_lens.Watchlist.{WatchlistEntry, open_entry, transition}
use a_stock_lens.Watchlist as Machine
use a_stock_lens.Watchlist.Path.{InOrder}
use a_stock_lens.Watchlist.History.{
  IsTracked, InOrder-trans, open_entry-IsTracked, transition-IsTracked,
}
use a_stock_lens.Watchlist.Store.{
  Codec, Files, path_for, write, read, watch, Options, edited, ok, moved_if, opened_or_edited,
  from_entry, has_edits, >>=-eq-ok,
}

-- Two symbols have the same file only if they are the same.
pub path_for-same : (s t : String) → text_eq (path_for s) (path_for t) ≡ text_eq s t
unfolding path_for
path_for-same s t = elim (Bool-cases (text_eq s t)) [
  | inl same ↦ rw ((text_iff s t).0 same, text_refl (text_append t ".json"), text_refl t)
  | inr other ↦ elim (Bool-cases (text_eq (path_for s) (path_for t))) [
    | inl same ↦ absurd (
        cc (
          other,
          (text_iff s t).1
              (append_cancel_right s t ".json" ((text_iff (path_for s) (path_for t)).0 same)),
        ))
    | inr e ↦ e ∙ sym other
  ]
]

module _ (codec : Codec) where
  open codec use {dump, load, load-dump}

  -- A read after a write finds the entry written if the symbols agree, and else what was there
  -- before.
  pub read-write :
      (entry : WatchlistEntry) (symbol : String) (files : Files codec)
      → read codec symbol (write codec entry files)
        ≡ (if text_eq entry.symbol symbol then ok (some entry) else read codec symbol files)
  unfolding read write
  read-write entry symbol files = ground (
    arith,
    get-put (path_for entry.symbol) (path_for symbol) (dump entry) files,
    path_for-same entry.symbol symbol,
    load-dump entry,
  )

  -- Every entry that the store reports is filed under its own symbol, and its timeline explains it.
  abbrev pub IsKept : Files codec → Type 0
  IsKept files =
      (symbol : String) (entry : WatchlistEntry)
      → read codec symbol files ≡ ok (some entry)
      → (entry.symbol ≡ symbol) × IsTracked entry

  -- No stored entry for the symbol was changed after `now`.
  abbrev pub NotBehind : Files codec → String → Moment → Type 0
  NotBehind files symbol now =
      (entry : WatchlistEntry)
      → read codec symbol files ≡ ok (some entry)
      → InOrder entry.updated_at now

  write-IsKept :
      (entry : WatchlistEntry) (files : Files codec)
      → IsTracked entry
      → IsKept files
      → IsKept (write codec entry files)
  write-IsKept entry files tracked kept symbol found h =
      elim (Bool-cases (text_eq entry.symbol symbol)) [
        | inl same ↦
            let e : ok (some entry) ≡ ok (some found) =
              rw (read-write entry symbol files, same) at h in
            let e' : entry ≡ found = cc in
            subst (λ x. (x.symbol ≡ symbol) × IsTracked x) e'
              ((text_iff entry.symbol symbol).0 same, tracked)
        | inr other ↦ kept symbol found (rw (read-write entry symbol files, other) at h)
      ]

  from_entry-eq-ok :
      (r : Machine.Result WatchlistEntry) {entry : WatchlistEntry}
      → from_entry r ≡ ok entry
      → r ≡ Machine.ok entry
  from_entry-eq-ok (Machine.ok a) h = cc
  from_entry-eq-ok (Machine.err e) h = cc

  edited-IsTracked :
      (entry : WatchlistEntry) (now : Moment) (o : Options)
      → IsTracked entry
      → InOrder entry.updated_at now
      → IsTracked (edited entry now o)
  unfolding edited
  edited-IsTracked entry now o tracked order = elim (Bool-cases (has_edits o)) [
    | inl some_edit ↦ rw some_edit (record {
      last = tracked.last;
      history = tracked.history;
      in_time = InOrder-trans tracked.in_time order;
    })
    | inr no_edit ↦ rw no_edit tracked
  ]

  moved_if-IsTracked :
      (now : Moment) (o : Options) (to : Option WatchlistState) (entry : WatchlistEntry)
      {after : WatchlistEntry}
      → IsTracked entry
      → moved_if now o to entry ≡ ok after
      → IsTracked after
  moved_if-IsTracked now o none entry tracked h =
      let e : entry ≡ _ = cc in subst IsTracked e tracked
  moved_if-IsTracked now o (some to) entry tracked h =
      transition-IsTracked entry to now o.remark tracked (from_entry-eq-ok _ h)

  opened_or_edited-IsTracked :
      (symbol : String) (now : Moment) (o : Options) (found : Option WatchlistEntry)
      (files : Files codec) {entry : WatchlistEntry}
      → IsKept files
      → NotBehind files symbol now
      → read codec symbol files ≡ ok found
      → opened_or_edited symbol now o found ≡ ok entry
      → IsTracked entry
  opened_or_edited-IsTracked symbol now o none files kept clock at h =
      open_entry-IsTracked symbol now o.thesis o.key_question o.risk_condition o.waiting_for
        (from_entry-eq-ok _ h)
  opened_or_edited-IsTracked symbol now o (some old) files kept clock at h =
      let e : edited old now o ≡ _ = cc in
      subst IsTracked e (edited-IsTracked old now o (kept symbol old at).1 (clock old at))

  -- If every entry that the store reports is filed under its own symbol and has a timeline that
  -- explains its state, and the clock is not behind the last change of the entry for the symbol, then
  -- a `watch` command that succeeds leaves a store of which the same holds.
  pub watch-IsKept :
      (symbol : String) (o : Options) (now : Moment) (files files' : Files codec)
      (after : WatchlistEntry)
      → IsKept files
      → NotBehind files symbol now
      → watch codec symbol o now files ≡ ok (after, files')
      → IsKept files'
  unfolding watch
  watch-IsKept symbol o now files files' after kept clock h =
      let (found, at, h₁) = >>=-eq-ok (read codec symbol files) _ h in
      let (entry, made, h₂) = >>=-eq-ok (opened_or_edited symbol now o found) _ h₁ in
      let (last, moved, h₃) = >>=-eq-ok (moved_if now o o.state entry) _ h₂ in
      let e : write codec last files ≡ files' = cc in
      subst IsKept e (
        write-IsKept last files
          (moved_if-IsTracked now o o.state entry
            (opened_or_edited-IsTracked symbol now o found files kept clock at made) moved)
          kept)
