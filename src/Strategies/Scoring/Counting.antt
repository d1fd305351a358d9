-- ===== src/Strategies/Scoring/Counting.antt =====
-- Numbers of items that pass a test, and dictionaries into which a loop puts one value under many
-- keys: what the proof about `percentile_ranks` counts.
use mathlib.Core.List.{Nodup, Nodup-append}
use a_stock_lens.Base.{
  ℕ, zero, suc, ◌+◌, ◌≡◌, refl, sym, ap, ◌∙◌, ◌⊎◌, inl, inr, Bool, true, false, some, List, [], ◌∷◌,
  ◌++◌, map, String, length, drop, keep, All, arith, text_eq, text_iff, text_refl, Memᴰ, Bool-cases,
}
use a_stock_lens.Base.Dict.{get, put, put_all, keys, get-put}
use a_stock_lens.Base.Sorting.{sort, insert_sorted, IsSorted}

-- Sorting keeps the number of items that pass.
pub length-keep-insert :
    {A : Type 0} (le : A → A → Bool) (p : A → Bool) (x : A) (ys : List A)
    → length (keep p (insert_sorted le x ys)) ≡ length (keep p (x ∷ ys))
unfolding insert_sorted
length-keep-insert le p x [] = refl
length-keep-insert le p x (y ∷ ys) = ground (arith, length-keep-insert le p x ys)

pub length-keep-sort :
    {A : Type 0} (le : A → A → Bool) (p : A → Bool) (xs : List A)
    → length (keep p (sort le xs)) ≡ length (keep p xs)
unfolding sort
length-keep-sort le p [] = refl
length-keep-sort le p (x ∷ xs) =
    length-keep-insert le p x (sort le xs) ∙ (ground (arith, length-keep-sort le p xs))

pub length-keep-append :
    {A : Type 0} (p : A → Bool) (xs ys : List A)
    → length (keep p (xs ++ ys)) ≡ length (keep p xs) + length (keep p ys)
length-keep-append p [] ys = omega arith
length-keep-append p (x ∷ xs) ys = ground (arith, length-keep-append p xs ys)

pub keep-All :
    {A : Type 0} (p : A → Bool) (xs : List A)
    → All (λ x. p x ≡ true) xs
    → length (keep p xs) ≡ length xs
keep-All p [] h = refl
keep-All p (x ∷ xs) h = rw h.0 (omega (arith, keep-All p xs h.1))

pub keep-none :
    {A : Type 0} (p : A → Bool) (xs : List A) → All (λ x. p x ≡ false) xs → length (keep p xs) ≡ 0
keep-none p [] h = refl
keep-none p (x ∷ xs) h = rw h.0 (keep-none p xs h.1)

pub keep-ext :
    {A : Type 0} (p q : A → Bool) (xs : List A)
    → ((x : A) → p x ≡ q x)
    → length (keep p xs) ≡ length (keep q xs)
keep-ext p q [] h = refl
keep-ext p q (x ∷ xs) h = ground (arith, h x, keep-ext p q xs h)

pub IsSorted-drop :
    {A : Type 0} (le : A → A → Bool) (n : ℕ) (xs : List A)
    → IsSorted le xs
    → IsSorted le (drop n xs)
IsSorted-drop le zero xs s = s
IsSorted-drop le (suc n) [] s = s
IsSorted-drop le (suc n) (x ∷ xs) s = IsSorted-drop le n xs s.1

-- Pairs that all hold one value.
pub get-put_all_same :
    {V : Type 0} (k : String) (r : V) (ps d : List (String × V))
    → All (λ p. p.1 ≡ r) ps
    → (get k d ≡ some r) ⊎ Memᴰ k (keys ps)
    → get k (put_all ps d) ≡ some r
unfolding put_all
get-put_all_same k r [] d h (inl e) = e
get-put_all_same k r [] d h (inr m) = elim m [ ]
get-put_all_same k r ((j, v) ∷ ps) d h c = get-put_all_same k r ps (put j v d) h.1 (put_first c)
  where
    put_first :
        (get k d ≡ some r) ⊎ Memᴰ k (j ∷ keys ps) → (get k (put j v d) ≡ some r) ⊎ Memᴰ k (keys ps)
    put_first (inr (Memᴰ.tail m)) = inr m
    put_first (inr (Memᴰ.head e)) = inl (get-put j k v d ∙ rw (e, text_refl j, h.0))
    put_first (inl e) = inl (
        get-put j k v d
        ∙ (elim (Bool-cases (text_eq j k)) [ inl same ↦ rw (same, h.0) | inr other ↦ rw other e ]))

pub get-put_all_out :
    {V : Type 0} (k : String) (ps d : List (String × V))
    → ¬ Memᴰ k (keys ps)
    → get k (put_all ps d) ≡ get k d
unfolding put_all
get-put_all_out k [] d out = refl
get-put_all_out k ((j, v) ∷ ps) d out =
    get-put_all_out k ps (put j v d) (λ m. out (Memᴰ.tail m))
    ∙ get-put j k v d
    ∙ (elim (Bool-cases (text_eq j k)) [
      | inl same ↦ absurd (out (Memᴰ.head (sym ((text_iff j k).0 same))))
      | inr other ↦ rw other
    ])

-- Pairs whose values have been replaced by one.
pub keys-const :
    {V W : Type 0} (r : W) (ps : List (String × V)) → keys (map (λ p. (p.0, r)) ps) ≡ keys ps
keys-const r [] = refl
keys-const r ((k, v) ∷ ps) = ap (◌∷◌ k) (keys-const r ps)

pub const-All :
    {V W : Type 0} (r : W) (ps : List (String × V))
    → All {A = String × W} (λ p. p.1 ≡ r) (map (λ p. (p.0, r)) ps)
const-All r [] = tt
const-All r ((k, v) ∷ ps) = (refl, const-All r ps)

-- A list that names nothing twice has no name on both sides.
pub apart : {k : String} (xs ys : List String) → Nodup (xs ++ ys) → Memᴰ k xs → Memᴰ k ys → ⊥
apart {k} xs ys n a b = ((Nodup-append {l₁ = xs} {l₂ = ys}).0 n).2 k ∣ a ∣₁ ∣ b ∣₁
