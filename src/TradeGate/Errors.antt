-- ===== src/TradeGate/Errors.antt =====
-- How an operation of the trade gate fails: the ValueErrors, by their text, and the conflict of two
-- records with one id (TradeLedgerConflictError of src/astock_lens/trade_gate/store.py).
use a_stock_lens.Base.{
  ◌≡◌, refl, ◌⊎◌, inl, inr, Bool, true, false, Option, none, some, String, is_blank,
}

pub data Error : Type 0 where
  value_error : String → Error
  conflict : (kind record_id : String) → Error

pub data Result {ℓ} (A : Type ℓ) : Type ℓ where
  err : Error → Result A
  ok : A → Result A

infixl 5 ◌>>=◌ ◌>>◌
abbrev pub ◌>>=◌ {ℓ κ} : {X : Type ℓ} {Y : Type κ} → Result X → (X → Result Y) → Result Y
err e >>= next = err e
ok x >>= next = next x

abbrev pub ◌>>◌ {ℓ} : {Y : Type ℓ} → Result (Unit {0}) → Result Y → Result Y
step >> rest = step >>= λ _. rest

-- `if failing: raise ValueError(message)`
abbrev pub refuse_if : Bool → String → Result (Unit {0})
refuse_if true message = err (value_error message)
refuse_if false message = ok tt

-- Inversion of a successful step.
pub >>=-eq-ok {ℓ κ} :
    {X : Type ℓ} {Y : Type κ} (step : Result X) (next : X → Result Y) {y : Y}
    → (step >>= next) ≡ ok y
    → (x : X) × (step ≡ ok x) × (next x ≡ ok y)
>>=-eq-ok (err e) next h = cc
>>=-eq-ok (ok x) next h = (x, refl, h)

pub Result-cases {ℓ} :
    {A : Type ℓ} (r : Result A) → ((a : A) × (r ≡ ok a)) ⊎ ((e : Error) × (r ≡ err e))
Result-cases (ok a) = inl (a, refl)
Result-cases (err e) = inr (e, refl)

pub refuse_if-eq-ok :
    (b : Bool) (message : String) {u : Unit {0}} → refuse_if b message ≡ ok u → b ≡ false
refuse_if-eq-ok true message h = cc
refuse_if-eq-ok false message h = refl

-- `not (text or "").strip()`
abbrev pub is_absent : Option String → Bool
is_absent none = true
is_absent (some s) = is_blank s

abbrev pub is_true : Option Bool → Bool
is_true (some true) = true
is_true _ = false
