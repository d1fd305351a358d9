-- ===== src/Watchlist/Store/Replacement.antt =====
-- A `watch` command replaces the record of its symbol, and leaves the others.
use mathlib.Core.List.{Mem, Nodup, Nodup-cons}
use a_stock_lens.Base.{
  ◌≡◌, refl, sym, subst, inl, inr, not, some, List, [], ◌∷◌, String, keep, Memᴰ, text_eq, text_iff,
  text_refl, if◌then◌else◌, Bool-cases,
}
use a_stock_lens.Base.Dict.{put, keys}
use a_stock_lens.Base.Keyed.{put-Nodup}
use a_stock_lens.Domain.{Moment}
use a_stock_lens.Watchlist.{WatchlistEntry}
use a_stock_lens.Watchlist.Store.{
  Codec, Files, path_for, write, read, watch, Options, ok, moved_if, opened_or_edited, >>=-eq-ok,
}
use a_stock_lens.Watchlist.Store.Laws.{read-write}

-- The pairs under a name, and those under other names.
abbrev pub under {ℓ} : {A : Type ℓ} → String → List (String × A) → List (String × A)
under k = keep (λ p. text_eq p.0 k)

abbrev pub elsewhere {ℓ} : {A : Type ℓ} → String → List (String × A) → List (String × A)
elsewhere k = keep (λ p. not (text_eq p.0 k))

module _ {ℓ} {A : Type ℓ} where
  under-nil : (k : String) (d : List (String × A)) → ¬ Memᴰ k (keys d) → under k d ≡ []
  under-nil k [] h = refl
  under-nil k ((j, w) ∷ d) h = elim (Bool-cases (text_eq j k)) [
    | inl same ↦ absurd (h (Memᴰ.head (sym ((text_iff j k).0 same))))
    | inr other ↦ rw other (under-nil k d (λ m. h (Memᴰ.tail m)))
  ]

  under-put :
      (k : String) (v : A) (d : List (String × A))
      → Nodup (keys d)
      → under k (put k v d) ≡ (k, v) ∷ []
  unfolding put
  under-put k v [] n = rw (text_refl k)
  under-put k v ((j, w) ∷ d) n = elim (Bool-cases (text_eq j k)) [
    | inl same ↦
        let j-k : j ≡ k = (text_iff j k).0 same in
        rw (
          same,
          under-nil k d (λ m. (Nodup-cons.0 n).0 (subst (λ x. Mem x (keys d)) (sym j-k) ∣ m ∣₁)),
          j-k,
          text_refl k,
        )
    | inr other ↦ rw (other, other) (under-put k v d (Nodup-cons.0 n).1)
  ]

  elsewhere-put :
      (k : String) (v : A) (d : List (String × A)) → elsewhere k (put k v d) ≡ elsewhere k d
  unfolding put
  elsewhere-put k v [] = rw (text_refl k)
  elsewhere-put k v ((j, w) ∷ d) = elim (Bool-cases (text_eq j k)) [
    | inl same ↦ rw (same, same)
    | inr other ↦ rw (other, other, elsewhere-put k v d)
  ]

module _ (codec : Codec) where
  written :
      (symbol : String) (o : Options) (now : Moment) (files files' : Files codec)
      (after : WatchlistEntry)
      → watch codec symbol o now files ≡ ok (after, files')
      → write codec after files ≡ files'
  unfolding watch
  written symbol o now files files' after h =
      let (found, _, h₁) = >>=-eq-ok (read codec symbol files) _ h in
      let (entry, _, h₂) = >>=-eq-ok (opened_or_edited symbol now o found) _ h₁ in
      let (last, _, h₃) = >>=-eq-ok (moved_if now o o.state entry) _ h₂ in cc h₃

  -- If no file stands twice in the store, then after a `watch` command that succeeds none does: under
  -- the name for the symbol of the entry there is one record, that of the entry; the records under
  -- other names are as they were; and every read finds this entry or what it found before.
  pub watch-replaces :
      (symbol : String) (o : Options) (now : Moment) (files files' : Files codec)
      (after : WatchlistEntry) (t : String)
      → Nodup (keys files)
      → watch codec symbol o now files ≡ ok (after, files')
      → Nodup (keys files')
        × (under (path_for after.symbol) files' ≡ (path_for after.symbol, codec.dump after) ∷ [])
        × (elsewhere (path_for after.symbol) files' ≡ elsewhere (path_for after.symbol) files)
        × (read codec t files'
            ≡ (if text_eq after.symbol t then ok (some after) else read codec t files))
  unfolding write
  watch-replaces symbol o now files files' after t once h =
      subst
        (λ f.
          Nodup (keys f)
          × (under (path_for after.symbol) f ≡ (path_for after.symbol, codec.dump after) ∷ [])
          × (elsewhere (path_for after.symbol) f ≡ elsewhere (path_for after.symbol) files)
          × (read codec t f
              ≡ (if text_eq after.symbol t then ok (some after) else read codec t files)))
        (written symbol o now files files' after h)
        (
          put-Nodup (path_for after.symbol) (codec.dump after) files once,
          under-put (path_for after.symbol) (codec.dump after) files once,
          elsewhere-put (path_for after.symbol) (codec.dump after) files,
          read-write codec after t files,
        )
