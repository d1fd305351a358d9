-- ===== src/TradeGate/Service/Discipline/Execution.antt =====
-- record_execution of src/astock_lens/trade_gate/service.py, which is the only statement that adds to
-- the executions.
use a_stock_lens.Base.{◌≡◌, sym, subst, ◌⊎◌, inl, inr, Option, some, String}
use a_stock_lens.Base.Int.{ℤ}
use a_stock_lens.Number.{Double, Float}
use a_stock_lens.Domain.{Moment}
use a_stock_lens.TradeGate.Errors.{ok, Result-cases}
use a_stock_lens.TradeGate.Records.{ExecutionRecord}
use a_stock_lens.TradeGate.Ledger.{executions, Codec, Ledger, read}
use a_stock_lens.TradeGate.Service.{Action, ◌>>=◌, ◌>>◌, pure, store, record_execution}
use a_stock_lens.TradeGate.Service.Discipline.Growth.{store-grows, store_adds, IsQuiet}
use a_stock_lens.TradeGate.Service.Discipline.Backing.{IsBacked, IsBacked-Extends}
use a_stock_lens.TradeGate.Service.Discipline.Reading.{
  IsReading, raise_if-IsReading, find_evaluation-IsReading, discipline_of-IsReading,
}

module _ ⦃d : Double⦄ (codec : Codec) where
  -- From these files, the statement changes nothing or writes one execution that is backed.
  abbrev AddsBacked : {A : Type 0} → Action codec A → Ledger codec → Type 0
  AddsBacked m l =
      ((m l).1 ≡ l)
      ⊎ ((id : String) × (x : ExecutionRecord) × IsBacked codec l x
          × ((m l).1 ≡ (store codec executions id x l).1))

  bind-AddsBacked :
      {A B : Type 0} {m : Action codec A} {P : Ledger codec → A → Type 0}
      → (f : A → Action codec B) (l : Ledger codec) → IsReading codec m P
      → ((a : A) → P l a → AddsBacked (f a) l)
      → AddsBacked (◌>>=◌ codec m f) l
  unfolding ◌>>=◌
  bind-AddsBacked {m = m} f l hm hf = elim (Result-cases (m l).0) [
    | inl (a, r) ↦ rw (r, hm.keeps l) (hf a (hm.returns l a r))
    | inr (e, r) ↦ inl (rw (r) (hm.keeps l))
  ]

  store-AddsBacked :
      {A : Type 0} (id : String) (x : ExecutionRecord) (a : A) (l : Ledger codec)
      → IsBacked codec l x
      → AddsBacked (◌>>◌ codec (store codec executions id x) (pure codec a)) l
  unfolding ◌>>=◌ pure
  store-AddsBacked id x a l b = elim (Result-cases (store codec executions id x l).0) [
    | inl (u, r) ↦ inr (id, x, b, rw r)
    | inr (e, r) ↦ inr (id, x, b, rw r)
  ]

  record_execution-AddsBacked :
      (evaluation_id : String) (fill_price : Float) (quantity : ℤ) (filled_at : Moment)
      (plan_id override_id : Option String) (id : String) (l : Ledger codec)
      → AddsBacked
          (record_execution codec evaluation_id fill_price quantity filled_at plan_id override_id
            id)
          l
  unfolding record_execution
  record_execution-AddsBacked evaluation_id fill_price quantity filled_at plan_id override_id id l =
      bind-AddsBacked _ l (find_evaluation-IsReading codec evaluation_id) λ evaluation evaluated.
        bind-AddsBacked _ l (raise_if-IsReading codec _ _) λ _ _.
          bind-AddsBacked _ l (raise_if-IsReading codec _ _) λ _ one.
            bind-AddsBacked _ l
              (discipline_of-IsReading codec evaluation evaluation_id plan_id override_id)
              λ s approved.
                store-AddsBacked id _ _ l (record {
                  evaluation = evaluation;
                  evaluated = evaluated;
                  approved = approved one;
                })

  -- Every execution of the ledger is backed.
  abbrev pub IsDisciplined : Ledger codec → Type 0
  IsDisciplined l =
      (id : String) (x : ExecutionRecord)
      → read codec executions id l ≡ ok (some x)
      → IsBacked codec l x

  pub quiet-IsDisciplined :
      {A : Type 0} (m : Action codec A) (l : Ledger codec)
      → IsQuiet codec m
      → IsDisciplined l
      → IsDisciplined (m l).1
  unfolding read
  quiet-IsDisciplined m l q h id x there =
      IsBacked-Extends codec l (m l).1 x (q.grows l) (h id x (rw (q.spares l id) at there))

  store-IsDisciplined :
      (name : String) (y : ExecutionRecord) (l : Ledger codec)
      → IsBacked codec l y
      → IsDisciplined l
      → IsDisciplined (store codec executions name y l).1
  store-IsDisciplined name y l b h id x there =
      IsBacked-Extends codec l _ x (store-grows codec executions name y l)
        (elim (store_adds codec name y l id x there) [
          | inl before ↦ h id x before
          | inr same ↦ subst (IsBacked codec l) (sym same) b
        ])

  pub record_execution-IsDisciplined :
      (evaluation_id : String) (fill_price : Float) (quantity : ℤ) (filled_at : Moment)
      (plan_id override_id : Option String) (id : String) (l : Ledger codec)
      → IsDisciplined l
      → IsDisciplined
          (record_execution codec evaluation_id fill_price quantity filled_at plan_id override_id id
            l).1
  record_execution-IsDisciplined evaluation_id fill_price quantity filled_at plan_id override_id id
        l h =
      elim (record_execution-AddsBacked evaluation_id fill_price quantity filled_at plan_id
        override_id id l) [
          | inl same ↦ subst IsDisciplined (sym same) h
          | inr (name, x, b, e) ↦ subst IsDisciplined (sym e) (store-IsDisciplined name x l b h)
        ]
