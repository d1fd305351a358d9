-- ===== src/Base/Sorting.antt =====
-- `sorted` and `list.sort`: a stable sort by a Boolean "may stand before".
use Prim.Native.Nat.{ℕ, zero, suc}
use mathlib.Core.Path.{◌≡◌, refl, sym, subst}
use mathlib.Core.Bool.{Bool, true, false, not, ◌&&◌, ◌||◌}
use mathlib.Core.Logic.{◌⊎◌, inl, inr}
use mathlib.Core.List.Perm
use mathlib.Core.List.{List, [], ◌∷◌, Memᴰ, Perm}
use native.Mathlib.Omega.{arith}
use a_stock_lens.Base.Tests.{if◌then◌else◌, Bool-cases}
use a_stock_lens.Base.Lists.{length, take, drop, mem-drop, All, All-each, All-mem, mem-cons}

module _ {ℓ} {A : Type ℓ} (le : A → A → Bool) where
  unfoldable pub insert_sorted : A → List A → List A
  insert_sorted x [] = x ∷ []
  insert_sorted x (y ∷ ys) = if le x y then x ∷ y ∷ ys else y ∷ insert_sorted x ys

  -- An item goes before the items that it equals and that stood behind it.
  unfoldable pub sort : List A → List A
  unfolding insert_sorted
  sort [] = []
  sort (x ∷ xs) = insert_sorted x (sort xs)

  abbrev pub IsSorted : List A → Type ℓ
  IsSorted [] = Unit
  IsSorted (x ∷ xs) = All (λ y. le x y ≡ true) xs × IsSorted xs

  -- What a prefix holds stands before what it leaves.
  pub IsSorted-take-drop :
      {a b : A} (n : ℕ) (xs : List A)
      → IsSorted xs
      → Memᴰ a (take n xs)
      → Memᴰ b (drop n xs)
      → le a b ≡ true
  IsSorted-take-drop zero xs s m k = elim m [ ]
  IsSorted-take-drop (suc n) [] s m k = elim m [ ]
  IsSorted-take-drop {a} {b} (suc n) (x ∷ xs) s (Memᴰ.head e) k =
      subst (λ y. le y b ≡ true) (sym e) (All-mem _ xs s.0 (mem-drop n xs k))
  IsSorted-take-drop (suc n) (x ∷ xs) s (Memᴰ.tail m) k = IsSorted-take-drop n xs s.1 m k

  insert_sorted-perm : (x : A) (ys : List A) → Perm (insert_sorted x ys) (x ∷ ys)
  unfolding insert_sorted
  insert_sorted-perm x [] = Perm.rfl
  insert_sorted-perm x (y ∷ ys) = elim (Bool-cases (le x y)) [
    | inl before ↦ rw before Perm.rfl
    | inr behind ↦ rw behind (Perm.trans (Perm.cons y (insert_sorted-perm x ys)) (Perm.swap x y ys))
  ]

  -- Sorting only moves items.
  pub sort-perm : (xs : List A) → Perm (sort xs) xs
  unfolding sort
  sort-perm [] = Perm.rfl
  sort-perm (x ∷ xs) = Perm.trans (insert_sorted-perm x (sort xs)) (Perm.cons x (sort-perm xs))

  length-insert_sorted : (x : A) (ys : List A) → length (insert_sorted x ys) ≡ suc (length ys)
  unfolding insert_sorted
  length-insert_sorted x [] = refl
  length-insert_sorted x (y ∷ ys) = ground (arith, length-insert_sorted x ys)

  pub length-sort : (xs : List A) → length (sort xs) ≡ length xs
  unfolding sort
  length-sort [] = refl
  length-sort (x ∷ xs) = omega (arith, length-insert_sorted x (sort xs), length-sort xs)

  mem-insert_sorted : {a : A} (x : A) (ys : List A) → Memᴰ a (insert_sorted x ys) → Memᴰ a (x ∷ ys)
  unfolding insert_sorted
  mem-insert_sorted x [] m = m
  mem-insert_sorted x (y ∷ ys) m = elim (Bool-cases (le x y)) [
    | inl before ↦ rw before at m
    | inr behind ↦ elim (mem-cons (rw behind at m)) [
      | inl e ↦ Memᴰ.tail (Memᴰ.head e)
      | inr n ↦ elim (mem-cons (mem-insert_sorted x ys n)) [
        | inl e ↦ Memᴰ.head e
        | inr there ↦ Memᴰ.tail (Memᴰ.tail there)
      ]
    ]
  ]

  pub mem-sort : {a : A} (xs : List A) → Memᴰ a (sort xs) → Memᴰ a xs
  unfolding sort
  mem-sort [] m = m
  mem-sort (x ∷ xs) m = elim (mem-cons (mem-insert_sorted x (sort xs) m)) [
    | inl e ↦ Memᴰ.head e
    | inr n ↦ Memᴰ.tail (mem-sort xs n)
  ]

  insert_sorted-mem : {a : A} (x : A) (ys : List A) → Memᴰ a (x ∷ ys) → Memᴰ a (insert_sorted x ys)
  unfolding insert_sorted
  insert_sorted-mem x [] m = m
  insert_sorted-mem x (y ∷ ys) m = elim (Bool-cases (le x y)) [
    | inl before ↦ rw before m
    | inr behind ↦ rw behind (elim (mem-cons m) [
      | inl e ↦ Memᴰ.tail (insert_sorted-mem x ys (Memᴰ.head e))
      | inr n ↦ elim (mem-cons n) [
        | inl e ↦ Memᴰ.head e
        | inr there ↦ Memᴰ.tail (insert_sorted-mem x ys (Memᴰ.tail there))
      ]
    ])
  ]

  pub mem-sort_of : {a : A} (xs : List A) → Memᴰ a xs → Memᴰ a (sort xs)
  unfolding sort
  mem-sort_of [] m = m
  mem-sort_of (x ∷ xs) m =
      insert_sorted-mem x (sort xs)
        (elim (mem-cons m) [ inl e ↦ Memᴰ.head e | inr n ↦ Memᴰ.tail (mem-sort_of xs n) ])

  -- The order on which sorting rests: any two items are comparable, and it is transitive.
  module _ (total : (x y : A) → (le x y ≡ true) ⊎ (le y x ≡ true))
      (trans : (x y z : A) → le x y ≡ true → le y z ≡ true → le x z ≡ true) where
    insert_sorted-IsSorted : (x : A) (ys : List A) → IsSorted ys → IsSorted (insert_sorted x ys)
    unfolding insert_sorted
    insert_sorted-IsSorted x [] s = (tt, tt)
    insert_sorted-IsSorted x (y ∷ ys) s = elim (Bool-cases (le x y)) [
      | inl before ↦
          rw before ((before, All-each ys (λ a m. trans x y a before (All-mem _ ys s.0 m))), s)
      | inr behind ↦ rw behind (
        All-each (insert_sorted x ys) (λ a m. elim (mem-cons (mem-insert_sorted x ys m)) [
          | inl e ↦ subst (λ z. le y z ≡ true) (sym e) (later behind)
          | inr there ↦ All-mem _ ys s.0 there
        ]),
        insert_sorted-IsSorted x ys s.1,
      )
    ]
      where
        later : le x y ≡ false → le y x ≡ true
        later behind = elim (total x y) [ inl e ↦ cc | inr e ↦ e ]

    pub sort-IsSorted : (xs : List A) → IsSorted (sort xs)
    unfolding sort
    sort-IsSorted [] = tt
    sort-IsSorted (x ∷ xs) = insert_sorted-IsSorted x (sort xs) (sort-IsSorted xs)

-- The order of a tuple of two keys: by the first, and where that ties, by the second.
module _ {ℓ} {A : Type ℓ} where
  abbrev pub lex : (A → A → Bool) → (A → A → Bool) → A → A → Bool
  lex first second x y = first x y && (not (first y x) || second x y)

  abbrev pub Total : (A → A → Bool) → Type ℓ
  Total le = (x y : A) → (le x y ≡ true) ⊎ (le y x ≡ true)

  abbrev pub Transitive : (A → A → Bool) → Type ℓ
  Transitive le = (x y z : A) → le x y ≡ true → le y z ≡ true → le x z ≡ true

  pub lex-Total : {f g : A → A → Bool} → Total f → Total g → Total (lex f g)
  lex-Total tf tg x y = ground (arith, tf x y, tg x y)

  pub lex-Transitive : {f g : A → A → Bool} → Transitive f → Transitive g → Transitive (lex f g)
  lex-Transitive tf tg x y z h k = ground (arith, tf x y z, tf z x y, tf y z x, tg x y z)
