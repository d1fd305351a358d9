-- ===== src/TradeGate/Ledger/Laws.antt =====
-- The ledger only grows: no write changes or removes a file.
use a_stock_lens.Base.{
  ◌≡◌, ◌⊎◌, inl, inr, sym, ap, subst, ◌∙◌, true, false, ◌&&◌, ◌||◌, none, some, ◌∷◌, String,
  text_eq, text_iff, text_refl, arith, Bool-cases, Option-cases, if◌then◌else◌, &&-eq-true,
}
use a_stock_lens.Number.{Double}
use a_stock_lens.TradeGate.Errors.{ok, err, conflict}
use a_stock_lens.TradeGate.Ledger.{
  is_typed, Kind, same_kind, folder, is_no_name, Content, Codec, Ledger, file_of, write, read,
  accept,
}

pub same_kind-eq : (a b : Kind) → same_kind a b ≡ true → a ≡ b
same_kind-eq a b h = ground arith

same_kind_refl : (a : Kind) → same_kind a a ≡ true
same_kind_refl a = ground arith

module _ ⦃d : Double⦄ (codec : Codec) where
  open codec use {Document, same, dump, load, same_iff, load-dump}

  -- Every file of one ledger is in the other, with the same content.
  abbrev pub Extends : Ledger codec → Ledger codec → Type 0
  Extends files files' =
      (k : Kind) (id : String) (doc : Document)
      → file_of codec k id files ≡ some doc
      → file_of codec k id files' ≡ some doc

  accept-eq-ok :
      (k : Kind) (id : String) (old new : Document) (files : Ledger codec) {after : Ledger codec}
      → accept codec k id old new files ≡ ok after
      → (after ≡ files) × (old ≡ new)
  accept-eq-ok k id old new files h = ground (arith, same_iff old new)

  write_step :
      (k : Kind) (id : String) (x : Content k) (seen opened : Ledger codec) {after : Ledger codec}
      → write codec k id x seen opened ≡ ok after
      → (is_no_name id || text_eq id "..") ≡ false
  unfolding write
  write_step k id x seen opened h = ground arith

  -- A write that succeeds leaves the files as they were when it opened, if the record was there
  -- already, or adds the one file that was missing.
  pub write-eq-ok :
      (k : Kind) (id : String) (x : Content k) (seen opened : Ledger codec) {after : Ledger codec}
      → write codec k id x seen opened ≡ ok after
      → ((after ≡ opened)
          × ((file_of codec k id seen ≡ some (dump k x))
              ⊎ (file_of codec k id opened ≡ some (dump k x))))
        ⊎ ((after ≡ (k, id, dump k x) ∷ opened) × (file_of codec k id opened ≡ none))
  unfolding write
  write-eq-ok k id x seen opened h =
      let named = write_step k id x seen opened h in
      elim (Option-cases (file_of codec k id seen)) [
        | inl unseen ↦ elim (Option-cases (file_of codec k id opened)) [
          | inl free ↦ let e = rw (named, unseen, free, write) at h in inr (cc, free)
          | inr (old, raced) ↦
              let (same_files, e) =
                accept-eq-ok k id old (dump k x) opened (rw (named, unseen, raced, write) at h) in
              inl (same_files, inr (raced ∙ ap some e))
        ]
        | inr (old, found) ↦
            let (same_files, e) =
              accept-eq-ok k id old (dump k x) opened (rw (named, found, write) at h) in
            inl (same_files, inl (found ∙ ap some e))
      ]

  -- Nothing is overwritten: after a write that succeeds, also one that another process raced, every file that was
  -- there when the write opened has the content that it had.
  pub write-Extends :
      (k : Kind) (id : String) (x : Content k) (seen opened after : Ledger codec)
      → write codec k id x seen opened ≡ ok after
      → Extends opened after
  unfolding file_of
  write-Extends k id x seen opened after h j name doc there =
      elim (write-eq-ok k id x seen opened h) [
        | inl (kept, _) ↦ subst (λ l. file_of codec j name l ≡ some doc) (sym kept) there
        | inr (grown, free) ↦
            subst (λ l. file_of codec j name l ≡ some doc) (sym grown)
              (elim (Bool-cases (same_kind k j && text_eq id name)) [
                | inl same_key ↦
                    let (kinds, names) = &&-eq-true (same_kind k j) (text_eq id name) same_key in
                    let clash : file_of codec k id opened ≡ some doc =
                      subst (λ m. file_of codec m id opened ≡ some doc)
                        (sym (same_kind-eq k j kinds))
                        (subst (λ m. file_of codec j m opened ≡ some doc)
                          (sym ((text_iff id name).0 names)) there) in
                    absurd (ground arith)
                | inr other ↦ rw other there
              ])
      ]

  written :
      (k : Kind) (id : String) (x : Content k) (files after : Ledger codec)
      → write codec k id x files files ≡ ok after
      → file_of codec k id after ≡ some (dump k x)
  unfolding file_of
  written k id x files after h = elim (write-eq-ok k id x files files h) [
    | inl (kept, inl found) ↦ subst (λ l. file_of codec k id l ≡ some (dump k x)) (sym kept) found
    | inl (kept, inr found) ↦ subst (λ l. file_of codec k id l ≡ some (dump k x)) (sym kept) found
    | inr (grown, free) ↦
        subst (λ l. file_of codec k id l ≡ some (dump k x)) (sym grown)
          (rw (same_kind_refl k, text_refl id))
  ]

  is_no_name_of : (id : String) → (is_no_name id || text_eq id "..") ≡ false → is_no_name id ≡ false
  is_no_name_of id h = ground arith

  -- After a write that succeeds and that no other process raced, a read of the same folder and id
  -- returns the record that was written, if its model declares the types of all that it holds.
  pub read-write_record :
      (k : Kind) (id : String) (x : Content k) (files after : Ledger codec)
      → is_typed k ≡ true
      → write codec k id x files files ≡ ok after
      → read codec k id after ≡ ok (some x)
  unfolding read
  read-write_record k id x files after typed h = rw (
    is_no_name_of id (write_step k id x files files h),
    written k id x files after h,
    load-dump k x typed,
  )

  -- After a write that succeeds and that no other process raced, a second write under the same id
  -- leaves the ledger as it is if the documents are the same, and else fails with a conflict.
  pub write_again :
      (k : Kind) (id : String) (x y : Content k) (files after : Ledger codec)
      → write codec k id x files files ≡ ok after
      → write codec k id y after after
        ≡ (if same (dump k x) (dump k y) then ok after else err (conflict (folder k) id))
  unfolding write
  write_again k id x y files after h =
      rw (write_step k id x files files h, written k id x files after h)
