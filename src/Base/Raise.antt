-- ===== src/Base/Raise.antt =====
-- Code that fails by a ValueError, told by its text.
use mathlib.Core.Path.{◌≡◌, refl}
use mathlib.Core.Bool.{Bool, true, false}
use mathlib.Core.Logic.{◌⊎◌, inl, inr}
use mathlib.Core.List.{List, [], ◌∷◌}
use a_stock_lens.Base.Lists.{keep}
use a_stock_lens.Base.Tests.{Bool-cases}
use Prim.Native.String.{String}

pub data Result {ℓ} (A : Type ℓ) : Type ℓ where
  raised : String → Result A
  ok : A → Result A

infixl 5 ◌>>=◌ ◌>>◌
abbrev pub ◌>>=◌ {ℓ κ} : {X : Type ℓ} {Y : Type κ} → Result X → (X → Result Y) → Result Y
raised text >>= next = raised text
ok x >>= next = next x

abbrev pub ◌>>◌ {ℓ} : {Y : Type ℓ} → Result (Unit {0}) → Result Y → Result Y
step >> rest = step >>= λ _. rest

-- `if failing: raise ValueError(text)`
abbrev pub raise_if : Bool → String → Result (Unit {0})
raise_if true text = raised text
raise_if false text = ok tt

pub Result-cases {ℓ} :
    {A : Type ℓ} (r : Result A) → ((a : A) × (r ≡ ok a)) ⊎ ((text : String) × (r ≡ raised text))
Result-cases (ok a) = inl (a, refl)
Result-cases (raised text) = inr (text, refl)

-- `[f(x) for x in xs]`, where `f` may raise.
abbrev pub collect {ℓ κ} : {X : Type ℓ} {Y : Type κ} → (X → Result Y) → List X → Result (List Y)
collect f [] = ok []
collect f (x ∷ xs) = f x >>= λ y. collect f xs >>= λ ys. ok (y ∷ ys)

ok_inj {ℓ} : {X : Type ℓ} {x y : X} → ok x ≡ ok y → x ≡ y
ok_inj h = cc

-- A step that went well.
pub >>=-eq-ok {ℓ κ} :
    {X : Type ℓ} {Y : Type κ} (step : Result X) (next : X → Result Y) {y : Y}
    → (step >>= next) ≡ ok y
    → (x : X) × (step ≡ ok x) × (next x ≡ ok y)
>>=-eq-ok (raised text) next h = cc
>>=-eq-ok (ok x) next h = (x, refl, h)

-- To leave out items before a loop is to leave out their results after it, if the results tell.
pub collect-keep {ℓ κ} :
    {X : Type ℓ} {Y : Type κ} (f : X → Result Y) (p : X → Bool) (q : Y → Bool)
    → ((x : X) (y : Y) → f x ≡ ok y → q y ≡ p x)
    → (xs : List X) {ys : List Y} → collect f xs ≡ ok ys
    → collect f (keep p xs) ≡ ok (keep q ys)
collect-keep f p q tells [] h = rw (← ok_inj h)
collect-keep f p q tells (x ∷ xs) h =
    let (y, one, h') = >>=-eq-ok (f x) _ h in
    let (ys, more, h'') = >>=-eq-ok (collect f xs) _ h' in
    let rest = collect-keep f p q tells xs more in
    rw (← ok_inj h'', tells x y one)
      (elim (Bool-cases (p x)) [ inl good ↦ rw (good, one, rest) | inr bad ↦ rw bad rest ])
