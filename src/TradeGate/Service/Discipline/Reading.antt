-- ===== src/TradeGate/Service/Discipline/Reading.antt =====
-- The parts of record_execution, src/astock_lens/trade_gate/service.py, that only read.
use a_stock_lens.Base.{
  ◌≡◌, refl, sym, ap, ◌∙◌, inl, inr, Bool, true, false, not, Option, none, some, String, arith,
  text_iff,
}
use a_stock_lens.Number.{Double}
use a_stock_lens.TradeGate.Errors.{ok, Result-cases}
use a_stock_lens.TradeGate.Records.{TradeGateEvaluation, TradePlan, OverrideRecord}
use a_stock_lens.TradeGate.Ledger.{Kind, evaluations, plans, overrides, Codec, Ledger, read}
use a_stock_lens.TradeGate.Service.{
  Action, ◌>>=◌, pure, lift, raise_if, present, fetch, find_evaluation, discipline_of,
  both_or_neither, is_pass, is_plan_for, is_override_for, text_or_empty,
}
use a_stock_lens.TradeGate.Service.Discipline.Backing.{IsApproved}

module _ ⦃d : Double⦄ (codec : Codec) where
  -- A statement that only reads, and what it returns satisfies P.
  pub record IsReading {A : Type 0} (m : Action codec A) (P : Ledger codec → A → Type 0)
      : Type 0 where
    pub keeps : (l : Ledger codec) → (m l).1 ≡ l
    pub returns : (l : Ledger codec) (a : A) → (m l).0 ≡ ok a → P l a

  bind-IsReading :
      {A B : Type 0} {m : Action codec A} {f : A → Action codec B} {P : Ledger codec → A → Type 0}
      {Q : A → Ledger codec → B → Type 0} (R : Ledger codec → B → Type 0)
      → IsReading m P
      → ((a : A) → IsReading (f a) (Q a))
      → ((l : Ledger codec) (a : A) (b : B) → P l a → Q a l b → R l b)
      → IsReading (◌>>=◌ codec m f) R
  unfolding ◌>>=◌
  bind-IsReading {m = m} {f = f} R hm hf join = record {
    keeps = λ l. elim (Result-cases (m l).0) [
      | inl (a, r) ↦ rw (r, hm.keeps l) ((hf a).keeps l)
      | inr (e, r) ↦ rw (r, hm.keeps l)
    ];
    returns = λ l b h. elim (Result-cases (m l).0) [
      | inl (a, r) ↦ join l a b (hm.returns l a r) ((hf a).returns l b (rw (r, hm.keeps l) at h))
      | inr (e, r) ↦ absurd (ground (arith, r))
    ];
  }

  fetch-IsReading :
      (k : Kind) (id : String) → IsReading (fetch codec k id) (λ l o. read codec k id l ≡ ok o)
  unfolding fetch
  fetch-IsReading k id = record { keeps = λ l. refl; returns = λ l o h. h }

  present-IsReading :
      {A : Type 0} (message : String) (o : Option A)
      → IsReading (present codec message o) (λ l a. o ≡ some a)
  unfolding present pure lift
  present-IsReading message none = record {
    keeps = λ l. refl;
    returns = λ l a h. absurd (ground arith);
  }
  present-IsReading message (some b) = record { keeps = λ l. refl; returns = λ l a h. ground arith }

  pub raise_if-IsReading :
      (b : Bool) (message : String) → IsReading (raise_if codec b message) (λ l _. b ≡ false)
  unfolding raise_if
  raise_if-IsReading true message = record {
    keeps = λ l. refl;
    returns = λ l a h. absurd (ground arith);
  }
  raise_if-IsReading false message = record { keeps = λ l. refl; returns = λ l a h. refl }

  pure-IsReading : {A : Type 0} (a : A) → IsReading (pure codec a) (λ l b. a ≡ b)
  unfolding pure
  pure-IsReading a = record { keeps = λ l. refl; returns = λ l b h. ground arith }

  pub find_evaluation-IsReading :
      (id : String)
      → IsReading (find_evaluation codec id) (λ l e. read codec evaluations id l ≡ ok (some e))
  unfolding find_evaluation
  find_evaluation-IsReading id =
      bind-IsReading _ (fetch-IsReading evaluations id) (λ found. present-IsReading _ found)
        (λ l found e fetched here. fetched ∙ ap ok here)

  pub discipline_of-IsReading :
      (e : TradeGateEvaluation) (evaluation_id : String) (plan_id override_id : Option String)
      → IsReading (discipline_of codec e evaluation_id plan_id override_id) (λ l s.
        both_or_neither plan_id override_id ≡ false
        → IsApproved codec l e evaluation_id plan_id override_id s)
  unfolding discipline_of
  discipline_of-IsReading e evaluation_id (some plan_id) override_id =
      bind-IsReading _ (raise_if-IsReading _ _)
        (λ _.
          bind-IsReading
            (λ l s.
              (o : Option TradePlan) × (read codec plans plan_id l ≡ ok o)
              × (not (is_plan_for evaluation_id o) ≡ false)
              × ("PASS" ≡ s))
            (fetch-IsReading plans plan_id)
            (λ o.
              bind-IsReading (λ l s. (not (is_plan_for evaluation_id o) ≡ false) × ("PASS" ≡ s))
                (raise_if-IsReading _ _) (λ _. pure-IsReading "PASS")
                (λ l _ s fits is_pass. (fits, is_pass)))
            (λ l o s fetched rest. (o, fetched, rest.0, rest.1)))
        (λ l _ s passed found one. planned l s passed found)
    where
      planned :
          (l : Ledger codec) (s : String)
          → not (is_pass e.decision) ≡ false
          → ((o : Option TradePlan) × (read codec plans plan_id l ≡ ok o)
              × (not (is_plan_for evaluation_id o) ≡ false)
              × ("PASS" ≡ s))
          → IsApproved codec l e evaluation_id (some plan_id) override_id s
      planned l s passed (none, there, fits, same) = absurd (ground arith)
      planned l s passed (some p, there, fits, same) = inl (record {
        plan = p;
        name = plan_id;
        named = refl;
        passed = ground arith;
        stored = there;
        matches = (text_iff p.evaluation_id evaluation_id).0 (ground arith);
        is_pass = sym same;
      })
  discipline_of-IsReading e evaluation_id none override_id =
      bind-IsReading
        (λ l s.
          both_or_neither none override_id ≡ false
          → IsApproved codec l e evaluation_id none override_id s)
        (fetch-IsReading overrides _)
        (λ o.
          bind-IsReading
            (λ l s. (not (is_override_for evaluation_id o) ≡ false) × ("OVERRIDDEN" ≡ s))
            (raise_if-IsReading _ _) (λ _. pure-IsReading "OVERRIDDEN")
            (λ l _ s fits is_override. (fits, is_override)))
        (λ l o s fetched rest one. overridden l s override_id o one fetched rest.0 rest.1)
    where
      overridden :
          (l : Ledger codec) (s : String) (override_id : Option String) (o : Option OverrideRecord)
          → both_or_neither none override_id ≡ false
          → read codec overrides (text_or_empty override_id) l ≡ ok o
          → not (is_override_for evaluation_id o) ≡ false
          → "OVERRIDDEN" ≡ s
          → IsApproved codec l e evaluation_id none override_id s
      overridden l s none o one there fits same = absurd (ground arith)
      overridden l s (some name) none one there fits same = absurd (ground arith)
      overridden l s (some name) (some made) one there fits same = inr (record {
        made = made;
        name = name;
        planless = refl;
        named = refl;
        stored = there;
        matches = (text_iff made.evaluation_id evaluation_id).0 (ground arith);
        is_override = sym same;
      })
