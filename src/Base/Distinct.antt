-- ===== src/Base/Distinct.antt =====
-- Lists of texts with no text twice: `dict.fromkeys` and `set`.
use mathlib.Core.Path.{◌≡◌, refl, sym, ap}
use mathlib.Core.Bool.{Bool, not}
use mathlib.Core.Logic.{inl, inr, ∥∥₁_elim}
use mathlib.Core.HLevel.{⊥_prop}
use mathlib.Core.List.{List, [], ◌∷◌, ◌++◌, Memᴰ, Nodup, Nodup-cons, Nodup-nil, Nodup-append}
use Prim.Native.Nat.{◌≤◌}
use Prim.Native.String.{String}
use native.Mathlib.Omega.{arith}
use a_stock_lens.Base.Text.{text_eq, text_iff, text_refl}
use a_stock_lens.Base.Tests.{Bool-cases}
use a_stock_lens.Base.Dict.{keys, remove}
use a_stock_lens.Base.Lists.{
  length, length-keep-le, keep, mem-append_right, mem-keep, mem-keep_of, any,
}

-- `dict.fromkeys(texts)`: each text once, where it stood first.
unfoldable pub unique : List String → List String
unique [] = []
unique (x ∷ xs) = x ∷ keep (λ y. not (text_eq x y)) (unique xs)

-- `text in texts`
abbrev pub member : String → List String → Bool
member x xs = any (text_eq x) xs

unique-mem : {a : String} (xs : List String) → Memᴰ a (unique xs) → Memᴰ a xs
unfolding unique
unique-mem [] m = m
unique-mem (x ∷ xs) (Memᴰ.head e) = Memᴰ.head e
unique-mem (x ∷ xs) (Memᴰ.tail m) = Memᴰ.tail (unique-mem xs (mem-keep _ (unique xs) m).0)

Nodup-keep : (p : String → Bool) (xs : List String) → Nodup xs → Nodup (keep p xs)
Nodup-keep p [] n = n
Nodup-keep p (x ∷ xs) n =
    let (out, rest) = Nodup-cons.0 n in
    elim (Bool-cases (p x)) [
      | inl good ↦ rw good (
          Nodup-cons.1
            (λ m. ∥∥₁_elim m ⊥_prop (λ m'. out ∣ (mem-keep p xs m').0 ∣₁), Nodup-keep p xs rest))
      | inr bad ↦ rw bad (Nodup-keep p xs rest)
    ]

pub unique-Nodup : (xs : List String) → Nodup (unique xs)
unfolding unique
unique-Nodup [] = Nodup-nil
unique-Nodup (x ∷ xs) = Nodup-cons.1 (
  λ m. ∥∥₁_elim m ⊥_prop (λ m'. ground (arith, (mem-keep _ (unique xs) m').1, text_refl x)),
  Nodup-keep _ (unique xs) (unique-Nodup xs),
)

-- `unique` forgets no text.
pub mem-unique : {a : String} (xs : List String) → Memᴰ a xs → Memᴰ a (unique xs)
unfolding unique
mem-unique [] m = m
mem-unique (x ∷ xs) (Memᴰ.head e) = Memᴰ.head e
mem-unique {a} (x ∷ xs) (Memᴰ.tail m) = elim (Bool-cases (text_eq x a)) [
  | inl same ↦ Memᴰ.head (sym ((text_iff x a).0 same))
  | inr other ↦ Memᴰ.tail (mem-keep_of _ (unique xs) (mem-unique xs m) (rw other))
]

pub Nodup-left : (xs ys : List String) → Nodup (xs ++ ys) → Nodup xs
Nodup-left xs ys n = ((Nodup-append {l₁ = xs} {l₂ = ys}).0 n).0

pub Nodup-right : (xs ys : List String) → Nodup (xs ++ ys) → Nodup ys
Nodup-right xs ys n = ((Nodup-append {l₁ = xs} {l₂ = ys}).0 n).1

module _ {ℓ} {V : Type ℓ} where
  pub keys-append : (d e : List (String × V)) → keys (d ++ e) ≡ keys d ++ keys e
  keys-append [] e = refl
  keys-append ((k, v) ∷ d) e = ap (◌∷◌ k) (keys-append d e)

  -- A key that stands once is taken out from the middle.
  pub remove-middle :
      (k : String) (v : V) (d e : List (String × V))
      → Nodup (keys (d ++ (k, v) ∷ e))
      → remove k (d ++ (k, v) ∷ e) ≡ d ++ e
  unfolding remove
  remove-middle k v [] e n = rw (text_refl k)
  remove-middle k v ((j, w) ∷ d) e n =
      let (out, rest) = Nodup-cons.0 n in
      elim (Bool-cases (text_eq j k)) [
        | inl same ↦ absurd (out ∣ here ((text_iff j k).0 same) ∣₁)
        | inr other ↦ rw other (ap (◌∷◌ (j, w)) (remove-middle k v d e rest))
      ]
    where
      here : j ≡ k → Memᴰ j (keys (d ++ (k, v) ∷ e))
      here e' = rw (keys-append d ((k, v) ∷ e)) (mem-append_right (keys d) _ (Memᴰ.head e'))

pub length-unique-le : (xs : List String) → length (unique xs) ≤ length xs
unfolding unique
length-unique-le [] = omega arith
length-unique-le (x ∷ xs) =
    omega (arith, length-keep-le (λ y. not (text_eq x y)) (unique xs), length-unique-le xs)
