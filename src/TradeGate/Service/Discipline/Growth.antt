-- ===== src/TradeGate/Service/Discipline/Growth.antt =====
-- Statements that only add files, and none to the executions.
use a_stock_lens.Base.{
  ◌≡◌, refl, sym, subst, ◌∙◌, ◌⊎◌, inl, inr, Bool, true, false, Option, none, some, String, arith,
  Option-cases, Bool-cases, text_eq, text_iff,
}
use a_stock_lens.Base.Int.{ℤ}
use a_stock_lens.Number.{Double}
use a_stock_lens.Domain.{TradeProfile, Moment}
use a_stock_lens.TradeGate.Errors.{Result, ok, err, Result-cases}
use a_stock_lens.TradeGate.Intent.{TradeIntent, TradeMarketOverlay}
use a_stock_lens.TradeGate.Records.{StrategyProfileConfig, TradeReview, ExecutionRecord}
use a_stock_lens.TradeGate.Ledger.{
  Kind, intents, evaluations, plans, overrides, executions, reviews, same_kind, Content, Codec,
  Ledger, file_of, write, read,
}
use a_stock_lens.TradeGate.Ledger.Laws.{Extends, write-Extends, write-eq-ok, read-write_record}
use a_stock_lens.TradeGate.Service.{
  Action, ◌>>=◌, and_then, pure, lift, raise_if, store, fetch, present, find_evaluation,
  create_and_evaluate, create_plan, override, record_review, OverrideRequest, BuildContext,
  AuditAdapter,
}

module _ ⦃d : Double⦄ (codec : Codec) where
  pub read-Extends :
      (files files' : Ledger codec) (k : Kind) (id : String) (x : Content k)
      → Extends codec files files'
      → read codec k id files ≡ ok (some x)
      → read codec k id files' ≡ ok (some x)
  unfolding read
  read-Extends files files' k id x more h = elim (Option-cases (file_of codec k id files)) [
    | inl absent ↦ absurd (ground (arith))
    | inr (doc, there) ↦ ground (arith, more k id doc there)
  ]

  -- It removes and changes no file, and leaves the executions as they are.
  pub record IsQuiet {A : Type 0} (m : Action codec A) : Type 0 where
    pub grows : (l : Ledger codec) → Extends codec l (m l).1
    pub spares :
        (l : Ledger codec) (id : String)
        → file_of codec executions id (m l).1 ≡ file_of codec executions id l

  still : {A : Type 0} (m : Action codec A) → ((l : Ledger codec) → (m l).1 ≡ l) → IsQuiet m
  still m h = record { grows = λ l k id doc there. rw (h l) there; spares = λ l id. rw (h l) }

  bind-IsQuiet :
      {A B : Type 0} (m : Action codec A) (f : A → Action codec B)
      → IsQuiet m
      → ((a : A) → IsQuiet (f a))
      → IsQuiet (◌>>=◌ codec m f)
  unfolding ◌>>=◌
  bind-IsQuiet {A = A} {B = B} m f hm hf = record {
    grows = λ l k id doc there. later_grows (m l).0 (m l).1 k id doc (hm.grows l k id doc there);
    spares = λ l id. later_spares (m l).0 (m l).1 id ∙ hm.spares l id;
  }
    where
      later_grows : (r : Result A) (l : Ledger codec) → Extends codec l (and_then codec r f l).1
      later_grows (ok a) l = (hf a).grows l
      later_grows (err e) l = λ k id doc there. there

      later_spares :
          (r : Result A) (l : Ledger codec) (id : String)
          → file_of codec executions id (and_then codec r f l).1 ≡ file_of codec executions id l
      later_spares (ok a) l id = (hf a).spares l id
      later_spares (err e) l id = refl

  pure-IsQuiet : {A : Type 0} (a : A) → IsQuiet (pure codec a)
  unfolding pure
  pure-IsQuiet a = still (pure codec a) (λ l. refl)

  lift-IsQuiet : {A : Type 0} (r : Result A) → IsQuiet (lift codec r)
  unfolding lift
  lift-IsQuiet r = still (lift codec r) (λ l. refl)

  raise_if-IsQuiet : (b : Bool) (message : String) → IsQuiet (raise_if codec b message)
  unfolding raise_if
  raise_if-IsQuiet true message = still (raise_if codec true message) (λ l. refl)
  raise_if-IsQuiet false message = still (raise_if codec false message) (λ l. refl)

  fetch-IsQuiet : (k : Kind) (id : String) → IsQuiet (fetch codec k id)
  unfolding fetch
  fetch-IsQuiet k id = still (fetch codec k id) (λ l. refl)

  present-IsQuiet :
      {A : Type 0} (message : String) (o : Option A) → IsQuiet (present codec message o)
  unfolding present lift pure
  present-IsQuiet message none = still (present codec message none) (λ l. refl)
  present-IsQuiet message (some a) = still (present codec message (some a)) (λ l. refl)

  pub store-grows :
      (k : Kind) (id : String) (x : Content k) (l : Ledger codec)
      → Extends codec l (store codec k id x l).1
  unfolding store
  store-grows k id x l = elim (Result-cases (write codec k id x l l)) [
    | inl (after, h) ↦ rw h (write-Extends codec k id x l l after h)
    | inr (e, h) ↦ rw h (λ j name doc there. there)
  ]

  store-IsQuiet :
      (k : Kind) (id : String) (x : Content k)
      → same_kind k executions ≡ false
      → IsQuiet (store codec k id x)
  unfolding store
  store-IsQuiet k id x other = record {
    grows = store-grows k id x;
    spares = λ l name. elim (Result-cases (write codec k id x l l)) [
      | inl (after, h) ↦ rw h (elim (write-eq-ok codec k id x l l h) [
        | inl (kept, _) ↦ rw kept
        | inr (grown, free) ↦ rw grown (unfold file_of in rw other)
      ])
      | inr (e, h) ↦ rw h
    ];
  }

  find_evaluation-IsQuiet : (id : String) → IsQuiet (find_evaluation codec id)
  unfolding find_evaluation
  find_evaluation-IsQuiet id =
      bind-IsQuiet _ _ (fetch-IsQuiet evaluations id) (λ found. present-IsQuiet _ found)

  pub create_and_evaluate-IsQuiet :
      (build : BuildContext) (adapter : AuditAdapter)
      (profiles : TradeProfile → StrategyProfileConfig) (intent : TradeIntent) (fomo_score : ℤ)
      (as_of : Option Moment) (overlay : Option TradeMarketOverlay) (id : String) (now : Moment)
      → IsQuiet
          (create_and_evaluate codec build adapter profiles intent fomo_score as_of overlay id now)
  unfolding create_and_evaluate
  create_and_evaluate-IsQuiet build adapter profiles intent fomo_score as_of overlay id now =
      bind-IsQuiet _ _ (store-IsQuiet intents _ _ refl) λ _.
        bind-IsQuiet _ _ (lift-IsQuiet _) λ context.
          bind-IsQuiet _ _ (lift-IsQuiet _) λ independent.
            bind-IsQuiet _ _ (lift-IsQuiet _) λ audit.
              bind-IsQuiet _ _ (lift-IsQuiet _) λ evaluation.
                bind-IsQuiet _ _ (store-IsQuiet evaluations _ _ refl) λ _. pure-IsQuiet evaluation

  pub create_plan-IsQuiet :
      (evaluation_id id : String) (now : Moment) → IsQuiet (create_plan codec evaluation_id id now)
  unfolding create_plan
  create_plan-IsQuiet evaluation_id id now =
      bind-IsQuiet _ _ (find_evaluation-IsQuiet evaluation_id) λ evaluation.
        bind-IsQuiet _ _ (raise_if-IsQuiet _ _) λ _.
          bind-IsQuiet _ _ (fetch-IsQuiet intents _) λ found.
            bind-IsQuiet _ _ (present-IsQuiet _ found)
              λ intent. bind-IsQuiet _ _ (store-IsQuiet plans _ _ refl) λ _. pure-IsQuiet _

  pub override-IsQuiet :
      (evaluation_id : String) (r : OverrideRequest codec) (id : String) (now : Moment)
      → IsQuiet (override codec evaluation_id r id now)
  unfolding override
  override-IsQuiet evaluation_id r id now =
      bind-IsQuiet _ _ (find_evaluation-IsQuiet evaluation_id) λ evaluation.
        bind-IsQuiet _ _ (raise_if-IsQuiet _ _) λ _. bind-IsQuiet _ _ (raise_if-IsQuiet _ _) λ _.
          bind-IsQuiet _ _ (raise_if-IsQuiet _ _) λ _.
            bind-IsQuiet _ _ (raise_if-IsQuiet _ _)
              λ _. bind-IsQuiet _ _ (store-IsQuiet overrides _ _ refl) λ _. pure-IsQuiet _

  pub record_review-IsQuiet : (review : TradeReview) → IsQuiet (record_review codec review)
  unfolding record_review
  record_review-IsQuiet review =
      bind-IsQuiet _ _ (store-IsQuiet reviews _ review refl) λ _. pure-IsQuiet review

  same_record :
      {r : Result (Option ExecutionRecord)} {x y : ExecutionRecord}
      → r ≡ ok (some y)
      → r ≡ ok (some x)
      → x ≡ y
  same_record a b = ground (arith, sym a ∙ b)

  pub store_adds :
      (name : String) (y : ExecutionRecord) (l : Ledger codec) (id : String) (x : ExecutionRecord)
      → read codec executions id (store codec executions name y l).1 ≡ ok (some x)
      → (read codec executions id l ≡ ok (some x)) ⊎ (x ≡ y)
  unfolding store
  store_adds name y l id x there = elim (Result-cases (write codec executions name y l l)) [
    | inl (after, h) ↦ elim (write-eq-ok codec executions name y l l h) [
      | inl (kept, _) ↦ inl (rw (h, kept) at there)
      | inr (grown, free) ↦ elim (Bool-cases (text_eq name id)) [
        | inl same_name ↦ inr (
            same_record
              (subst (λ n. read codec executions n after ≡ ok (some y))
                ((text_iff name id).0 same_name)
                (read-write_record codec executions name y l after refl h))
              (rw h at there))
        | inr other ↦ inl (unfold read in unfold file_of in rw (h, grown, other) at there)
      ]
    ]
    | inr (e, h) ↦ inl (rw h at there)
  ]
