-- ===== src/Base/Lists.antt =====
-- Lists measured by native numbers, filtered by Boolean tests, and predicates by recursion.
use Prim.Native.Nat.{ℕ, zero, suc, ◌+◌, ◌≤◌, min}
use mathlib.Core.Path.{◌≡◌, refl, ap, subst, sym, ◌∙◌}
use mathlib.Core.Bool.{Bool, true, false, ◌&&◌, ◌||◌, not}
use mathlib.Core.Logic.{◌⊎◌, inl, inr}
use mathlib.Core.Option.{Option, none, some}
use mathlib.Core.List.Perm
use mathlib.Core.List.{List, [], ◌∷◌, ◌++◌, map, Memᴰ, Perm, perm_middle}
use native.Mathlib.Omega.{arith}
use a_stock_lens.Base.Tests.{if◌then◌else◌, Bool-cases, &&-eq-true}

module _ {ℓ} {A : Type ℓ} where
  abbrev pub length : List A → ℕ
  length [] = 0
  length (x ∷ xs) = suc (length xs)

  -- `not xs`
  abbrev pub is_nil : List A → Bool
  is_nil [] = true
  is_nil (x ∷ xs) = false

  -- `xs[:n]`
  abbrev pub take : ℕ → List A → List A
  take zero xs = []
  take (suc n) [] = []
  take (suc n) (x ∷ xs) = x ∷ take n xs

  abbrev pub drop : ℕ → List A → List A
  drop zero xs = xs
  drop (suc n) [] = []
  drop (suc n) (x ∷ xs) = drop n xs

  -- `[x for x in xs if p(x)]`
  abbrev pub keep : (A → Bool) → List A → List A
  keep p [] = []
  keep p (x ∷ xs) = if p x then x ∷ keep p xs else keep p xs

  -- `any(p(x) for x in xs)` and `all(p(x) for x in xs)`
  abbrev pub any : (A → Bool) → List A → Bool
  any p [] = false
  any p (x ∷ xs) = p x || any p xs

  abbrev pub all : (A → Bool) → List A → Bool
  all p [] = true
  all p (x ∷ xs) = p x && all p xs

  -- The last item that passes, which is what a dictionary built by a loop holds.
  abbrev pub last_such : (A → Bool) → List A → Option A
  last_such p [] = none
  last_such p (x ∷ xs) = elim (last_such p xs) [
    | some y ↦ some y
    | none ↦ if p x then some x else none
  ]

  abbrev pub find_first : (A → Bool) → List A → Option A
  find_first p [] = none
  find_first p (x ∷ xs) = if p x then some x else find_first p xs

  abbrev pub All {κ} : (A → Type κ) → List A → Type κ
  All P [] = Unit
  All P (x ∷ xs) = P x × All P xs

module _ {ℓ} {A : Type ℓ} where
  pub length-append : (xs ys : List A) → length (xs ++ ys) ≡ length xs + length ys
  length-append [] ys = omega arith
  length-append (x ∷ xs) ys = omega (arith, length-append xs ys)

  pub length-take : (n : ℕ) (xs : List A) → length (take n xs) ≡ min n (length xs)
  length-take zero xs = omega arith
  length-take (suc n) [] = omega arith
  length-take (suc n) (x ∷ xs) = omega (arith, length-take n xs)

  pub length-keep-le : (p : A → Bool) (xs : List A) → length (keep p xs) ≤ length xs
  length-keep-le p [] = omega arith
  length-keep-le p (x ∷ xs) = ground (arith, length-keep-le p xs)

  pub keep_twice : (p : A → Bool) (xs : List A) → keep p (keep p xs) ≡ keep p xs
  keep_twice p [] = refl
  keep_twice p (x ∷ xs) = elim (Bool-cases (p x)) [
    | inl good ↦ rw (good, good, keep_twice p xs)
    | inr bad ↦ rw (bad, keep_twice p xs)
  ]

  pub length-keep-add :
      (p : A → Bool) (xs : List A)
      → length (keep p xs) + length (keep (λ x. not (p x)) xs) ≡ length xs
  length-keep-add p [] = omega arith
  length-keep-add p (x ∷ xs) = ground (arith, length-keep-add p xs)

  pub take-nil : (n : ℕ) → take {A = A} n [] ≡ []
  take-nil zero = refl
  take-nil (suc n) = refl

  pub take_all : (n : ℕ) (xs : List A) → length xs ≤ n → take n xs ≡ xs
  take_all zero [] h = refl
  take_all zero (x ∷ xs) h = absurd (omega arith)
  take_all (suc n) [] h = refl
  take_all (suc n) (x ∷ xs) h = ap (◌∷◌ x) (take_all n xs (omega arith))

  pub mem-take : {a : A} (n : ℕ) (xs : List A) → Memᴰ a (take n xs) → Memᴰ a xs
  mem-take zero xs m = elim m [ ]
  mem-take (suc n) [] m = m
  mem-take (suc n) (x ∷ xs) (Memᴰ.head e) = Memᴰ.head e
  mem-take (suc n) (x ∷ xs) (Memᴰ.tail m) = Memᴰ.tail (mem-take n xs m)

  pub mem-take_or_drop :
      {a : A} (n : ℕ) (xs : List A) → Memᴰ a xs → Memᴰ a (take n xs) ⊎ Memᴰ a (drop n xs)
  mem-take_or_drop zero xs m = inr m
  mem-take_or_drop (suc n) [] m = inr m
  mem-take_or_drop (suc n) (x ∷ xs) (Memᴰ.head e) = inl (Memᴰ.head e)
  mem-take_or_drop (suc n) (x ∷ xs) (Memᴰ.tail m) = elim (mem-take_or_drop n xs m) [
    | inl t ↦ inl (Memᴰ.tail t)
    | inr d ↦ inr d
  ]

  pub mem-drop : {a : A} (n : ℕ) (xs : List A) → Memᴰ a (drop n xs) → Memᴰ a xs
  mem-drop zero xs m = m
  mem-drop (suc n) [] m = m
  mem-drop (suc n) (x ∷ xs) m = Memᴰ.tail (mem-drop n xs m)

  pub mem-append : {a : A} (xs ys : List A) → Memᴰ a (xs ++ ys) → Memᴰ a xs ⊎ Memᴰ a ys
  mem-append [] ys m = inr m
  mem-append (x ∷ xs) ys (Memᴰ.head e) = inl (Memᴰ.head e)
  mem-append (x ∷ xs) ys (Memᴰ.tail m) = elim (mem-append xs ys m) [
    | inl n ↦ inl (Memᴰ.tail n)
    | inr n ↦ inr n
  ]

  pub mem-append_left : {a : A} (xs ys : List A) → Memᴰ a xs → Memᴰ a (xs ++ ys)
  mem-append_left [] ys m = elim m [ ]
  mem-append_left (x ∷ xs) ys (Memᴰ.head e) = Memᴰ.head e
  mem-append_left (x ∷ xs) ys (Memᴰ.tail m) = Memᴰ.tail (mem-append_left xs ys m)

  pub mem-append_right : {a : A} (xs ys : List A) → Memᴰ a ys → Memᴰ a (xs ++ ys)
  mem-append_right [] ys m = m
  mem-append_right (x ∷ xs) ys m = Memᴰ.tail (mem-append_right xs ys m)

  pub not-mem-nil : {a : A} → ¬ Memᴰ a []
  not-mem-nil m = elim m [ ]

  pub mem-cons : {a x : A} {xs : List A} → Memᴰ a (x ∷ xs) → (a ≡ x) ⊎ Memᴰ a xs
  mem-cons (Memᴰ.head e) = inl e
  mem-cons (Memᴰ.tail m) = inr m

  -- What is kept is a member that passes.
  pub mem-keep :
      {a : A} (p : A → Bool) (xs : List A) → Memᴰ a (keep p xs) → Memᴰ a xs × (p a ≡ true)
  mem-keep p [] m = elim m [ ]
  mem-keep p (x ∷ xs) m = elim (Bool-cases (p x)) [
    | inl good ↦ elim (mem-cons (rw good at m)) [
      | inl e ↦ (Memᴰ.head e, ap p e ∙ good)
      | inr n ↦ let (there, passes) = mem-keep p xs n in (Memᴰ.tail there, passes)
    ]
    | inr bad ↦ let (there, passes) = mem-keep p xs (rw bad at m) in (Memᴰ.tail there, passes)
  ]

  -- Every member that passes is kept.
  pub mem-keep_of :
      {a : A} (p : A → Bool) (xs : List A) → Memᴰ a xs → p a ≡ true → Memᴰ a (keep p xs)
  mem-keep_of p [] m h = m
  mem-keep_of p (x ∷ xs) (Memᴰ.head e) h = rw (sym (ap p e) ∙ h) (Memᴰ.head e)
  mem-keep_of p (x ∷ xs) (Memᴰ.tail m) h = elim (Bool-cases (p x)) [
    | inl good ↦ rw good (Memᴰ.tail (mem-keep_of p xs m h))
    | inr bad ↦ rw bad (mem-keep_of p xs m h)
  ]

  -- What is kept and what is not make up the whole.
  pub keep-perm : (p : A → Bool) (xs : List A) → Perm (keep p xs ++ keep (λ x. not (p x)) xs) xs
  keep-perm p [] = Perm.rfl
  keep-perm p (x ∷ xs) = elim (Bool-cases (p x)) [
    | inl good ↦ rw good (Perm.cons x (keep-perm p xs))
    | inr bad ↦ rw bad (Perm.trans (perm_middle (keep p xs) _) (Perm.cons x (keep-perm p xs)))
  ]

  pub any_of_mem : {a : A} (p : A → Bool) (xs : List A) → Memᴰ a xs → p a ≡ true → any p xs ≡ true
  any_of_mem p [] m h = elim m [ ]
  any_of_mem p (x ∷ xs) (Memᴰ.head e) h = rw (sym (ap p e) ∙ h)
  any_of_mem p (x ∷ xs) (Memᴰ.tail m) h = ground (arith, any_of_mem p xs m h)

  pub any-append : (p : A → Bool) (xs ys : List A) → any p (xs ++ ys) ≡ (any p xs || any p ys)
  any-append p [] ys = refl
  any-append p (x ∷ xs) ys = ground (arith, any-append p xs ys)

  pub any-mem : (p : A → Bool) (xs : List A) → any p xs ≡ true → (a : A) × Memᴰ a xs × (p a ≡ true)
  any-mem p [] h = cc
  any-mem p (x ∷ xs) h = elim (Bool-cases (p x)) [
    | inl good ↦ (x, Memᴰ.head refl, good)
    | inr bad ↦ let (a, m, passes) = any-mem p xs (rw bad at h) in (a, Memᴰ.tail m, passes)
  ]

  pub all_of_mem : {a : A} (p : A → Bool) (xs : List A) → all p xs ≡ true → Memᴰ a xs → p a ≡ true
  all_of_mem p [] h m = elim m [ ]
  all_of_mem p (x ∷ xs) h (Memᴰ.head e) = ap p e ∙ (&&-eq-true (p x) (all p xs) h).0
  all_of_mem p (x ∷ xs) h (Memᴰ.tail m) = all_of_mem p xs (&&-eq-true (p x) (all p xs) h).1 m

  pub All-each {κ} : {P : A → Type κ} (xs : List A) → ((a : A) → Memᴰ a xs → P a) → All P xs
  All-each [] h = tt
  All-each (x ∷ xs) h = (h x (Memᴰ.head refl), All-each xs (λ a m. h a (Memᴰ.tail m)))

  pub All-mem {κ} : (P : A → Type κ) {a : A} (xs : List A) → All P xs → Memᴰ a xs → P a
  All-mem P [] h m = elim m [ ]
  All-mem P (x ∷ xs) h (Memᴰ.head e) = subst P (sym e) h.0
  All-mem P (x ∷ xs) h (Memᴰ.tail m) = All-mem P xs h.1 m

module _ {ℓ κ} {A : Type ℓ} {B : Type κ} where
  pub length-map : (f : A → B) (xs : List A) → length (map f xs) ≡ length xs
  length-map f [] = refl
  length-map f (x ∷ xs) = ap suc (length-map f xs)

  pub mem-map_of : {a : A} (f : A → B) (xs : List A) → Memᴰ a xs → Memᴰ (f a) (map f xs)
  mem-map_of f [] m = elim m [ ]
  mem-map_of f (x ∷ xs) (Memᴰ.head e) = Memᴰ.head (ap f e)
  mem-map_of f (x ∷ xs) (Memᴰ.tail m) = Memᴰ.tail (mem-map_of f xs m)

  pub mem-map :
      {b : B} (f : A → B) (xs : List A) → Memᴰ b (map f xs) → (a : A) × Memᴰ a xs × (b ≡ f a)
  mem-map f [] m = elim m [ ]
  mem-map f (x ∷ xs) (Memᴰ.head e) = (x, Memᴰ.head refl, e)
  mem-map f (x ∷ xs) (Memᴰ.tail m) = let (a, there, e) = mem-map f xs m in (a, Memᴰ.tail there, e)

module _ {ℓ κ} {A : Type ℓ} (P : A → Type κ) where
  pub All-append : (xs ys : List A) → All P xs → All P ys → All P (xs ++ ys)
  All-append [] ys h k = k
  All-append (x ∷ xs) ys h k = (h.0, All-append xs ys h.1 k)

pub eq_nil {ℓ} : {A : Type ℓ} (xs : List A) → is_nil xs ≡ true → xs ≡ []
eq_nil [] h = refl
eq_nil (x ∷ xs) h = absurd (ground arith)
