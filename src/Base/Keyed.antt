-- ===== src/Base/Keyed.antt =====
-- Dictionaries each key of which stands once: what `get` finds is a pair of the list, so the order
-- of the pairs does not matter.
use mathlib.Core.Path.{◌≡◌, refl, sym, ap, ◌∙◌}
use mathlib.Core.Bool.{Bool, false}
use mathlib.Core.Logic.{◌≢◌, ◌⊎◌, inl, inr, ∥∥₁_elim}
use mathlib.Core.HLevel.{⊥_prop}
use mathlib.Core.Option.{none, some}
use mathlib.Core.List.{List, [], ◌∷◌, map, Memᴰ, Nodup, Nodup-cons}
use mathlib.Core.List.Perm
use Prim.Native.String.{String}
use native.Mathlib.Omega.{arith}
use a_stock_lens.Base.Text.{text_eq, text_iff, text_refl}
use a_stock_lens.Base.Tests.{Bool-cases, Option-cases}
use a_stock_lens.Base.Lists.{mem-cons}
use a_stock_lens.Base.Dict.{get, put, put_all, keys, get-put}
use a_stock_lens.Base.Sorting.{sort, mem-sort, mem-sort_of, sort-perm}

ne_of_test : (j k : String) → text_eq j k ≡ false → j ≢ k
ne_of_test j k other e = ground (arith, other, text_iff j k, e)

module _ {ℓ} {V : Type ℓ} where
  pub get-mem : (k : String) {v : V} (d : List (String × V)) → get k d ≡ some v → Memᴰ (k, v) d
  unfolding get
  get-mem k [] h = cc
  get-mem k ((j, w) ∷ d) h = elim (Bool-cases (text_eq j k)) [
    | inl same ↦ Memᴰ.head (here ((text_iff j k).0 same) (rw same at h))
    | inr other ↦ Memᴰ.tail (get-mem k d (rw other at h))
  ]
    where
      here : {v : V} → j ≡ k → some w ≡ some v → ◌≡◌ {A = String × V} (k, v) (j, w)
      here e h' = cc (e, h')

  pub mem-keys : {k : String} {v : V} (d : List (String × V)) → Memᴰ (k, v) d → Memᴰ k (keys d)
  mem-keys [] m = elim m [ ]
  mem-keys ((j, w) ∷ d) (Memᴰ.head e) = Memᴰ.head (ap (λ p. p.0) e)
  mem-keys ((j, w) ∷ d) (Memᴰ.tail m) = Memᴰ.tail (mem-keys d m)

  pub mem-get :
      (k : String) (v : V) (d : List (String × V))
      → Nodup (keys d)
      → Memᴰ (k, v) d
      → get k d ≡ some v
  unfolding get
  mem-get k v [] n m = elim m [ ]
  mem-get k v ((j, w) ∷ d) n (Memᴰ.head e) = rw (← ap (λ p. p.0) e, ← ap (λ p. p.1) e, text_refl k)
  mem-get k v ((j, w) ∷ d) n (Memᴰ.tail m) =
      let (out, rest) = Nodup-cons.0 n in
      elim (Bool-cases (text_eq j k)) [
        | inl same ↦ absurd (out ∣ rw ((text_iff j k).0 same) (mem-keys d m) ∣₁)
        | inr other ↦ rw other (mem-get k v d rest m)
      ]

  -- Two dictionaries with the same pairs find the same.
  pub get-same :
      (k : String) (d e : List (String × V))
      → Nodup (keys d)
      → Nodup (keys e)
      → ((v : V) → Memᴰ (k, v) d → Memᴰ (k, v) e)
      → ((v : V) → Memᴰ (k, v) e → Memᴰ (k, v) d)
      → get k d ≡ get k e
  get-same k d e n n' f g = elim (Option-cases (get k d)) [
    | inl absent ↦ elim (Option-cases (get k e)) [
      | inl absent' ↦ absent ∙ sym absent'
      | inr (v, there) ↦ cc (mem-get k v d n (g v (get-mem k e there)))
    ]
    | inr (v, there) ↦ there ∙ sym (mem-get k v e n' (f v (get-mem k d there)))
  ]

  mem-keys-put :
      {j : String} (k : String) (v : V) (d : List (String × V))
      → Memᴰ j (keys (put k v d))
      → (j ≡ k) ⊎ Memᴰ j (keys d)
  unfolding put
  mem-keys-put k v [] (Memᴰ.head e) = inl e
  mem-keys-put k v [] (Memᴰ.tail m) = elim m [ ]
  mem-keys-put {j} k v ((i, w) ∷ d) m = elim (Bool-cases (text_eq i k)) [
    | inl same ↦ inr (rw same at m)
    | inr other ↦ elim (mem-cons (rw other at m)) [
      | inl e ↦ inr (Memᴰ.head e)
      | inr n ↦ elim (mem-keys-put k v d n) [ inl e ↦ inl e | inr n' ↦ inr (Memᴰ.tail n') ]
    ]
  ]

  pub put-Nodup :
      (k : String) (v : V) (d : List (String × V)) → Nodup (keys d) → Nodup (keys (put k v d))
  unfolding put
  put-Nodup k v [] n = Nodup-cons.1 (λ m. ∥∥₁_elim m ⊥_prop (λ m'. elim m' [ ]), n)
  put-Nodup k v ((i, w) ∷ d) n = elim (Bool-cases (text_eq i k)) [
    | inl same ↦ rw same n
    | inr other ↦ rw other (
        Nodup-cons.1 (
          λ m. ∥∥₁_elim m ⊥_prop (λ (m' : Memᴰ i (keys (put k v d))). elim (mem-keys-put k v d m') [
            | inl e ↦ ne_of_test i k other e
            | inr m'' ↦ (Nodup-cons.0 n).0 ∣ m'' ∣₁
          ]),
          put-Nodup k v d (Nodup-cons.0 n).1,
        ))
  ]

  pub put_all-Nodup : (ps d : List (String × V)) → Nodup (keys d) → Nodup (keys (put_all ps d))
  unfolding put_all
  put_all-Nodup [] d n = n
  put_all-Nodup ((k, v) ∷ ps) d n = put_all-Nodup ps (put k v d) (put-Nodup k v d n)

  keys-eq-map : (d : List (String × V)) → keys d ≡ map (λ p. p.0) d
  keys-eq-map [] = refl
  keys-eq-map ((k, v) ∷ d) = ap (◌∷◌ k) (keys-eq-map d)

  pub sort-Nodup :
      (le : String × V → String × V → Bool) (d : List (String × V))
      → Nodup (keys d)
      → Nodup (keys (sort le d))
  sort-Nodup le d n =
      rw (keys-eq-map (sort le d))
        (Perm.nodup (Perm.symm (Perm.map (λ p. p.0) (sort-perm le d))) (rw (← keys-eq-map d) n))

  pub get-sort :
      (le : String × V → String × V → Bool) (k : String) (d : List (String × V))
      → Nodup (keys d)
      → get k (sort le d) ≡ get k d
  get-sort le k d n =
      get-same k (sort le d) d (sort-Nodup le d n) n (λ v m. mem-sort le d m)
        (λ v m. mem-sort_of le d m)

  get-put_all-none :
      (k : String) (ps d : List (String × V)) → get k ps ≡ none → get k (put_all ps d) ≡ get k d
  unfolding get put_all
  get-put_all-none k [] d h = refl
  get-put_all-none k ((j, v) ∷ ps) d h = elim (Bool-cases (text_eq j k)) [
    | inl same ↦ cc (rw same at h)
    | inr other ↦
        get-put_all-none k ps (put j v d) (rw other at h) ∙ get-put j k v d ∙ rw other refl
  ]

  -- Pairs with distinct keys override what was there.
  get-put_all-some :
      (k : String) {v : V} (ps d : List (String × V))
      → Nodup (keys ps)
      → get k ps ≡ some v
      → get k (put_all ps d) ≡ some v
  unfolding get put_all
  get-put_all-some k [] d n h = cc
  get-put_all-some k {v} ((j, w) ∷ ps) d n h =
      let (out, rest) = Nodup-cons.0 n in
      elim (Bool-cases (text_eq j k)) [
        | inl same ↦ elim (Option-cases (get k ps)) [
          | inl absent ↦
              get-put_all-none k ps (put j w d) absent ∙ get-put j k w d ∙ rw same (rw same at h)
          | inr (u, there) ↦
              absurd (out ∣ rw ((text_iff j k).0 same) (mem-keys ps (get-mem k ps there)) ∣₁)
        ]
        | inr other ↦ get-put_all-some k ps (put j w d) rest (rw other at h)
      ]

  -- A dictionary that is built of pairs with distinct keys finds what the pairs hold.
  pub get-put_all_nil :
      (k : String) (ps : List (String × V)) → Nodup (keys ps) → get k (put_all ps []) ≡ get k ps
  unfolding get
  get-put_all_nil k ps n = elim (Option-cases (get k ps)) [
    | inl absent ↦ get-put_all-none k ps [] absent ∙ get_nil ∙ sym absent
    | inr (v, there) ↦ get-put_all-some k ps [] n there ∙ sym there
  ]
    where
      get_nil : get {V = V} k [] ≡ none
      get_nil = refl
