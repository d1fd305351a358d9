-- ===== src/TradeGate/Service/Discipline/Backing.antt =====
-- What backs an execution in the ledger of src/astock_lens/trade_gate/service.py.
use a_stock_lens.Base.{◌≡◌, ◌⊎◌, inl, inr, Option, none, some, String}
use a_stock_lens.Number.{Double}
use a_stock_lens.Domain.{pass}
use a_stock_lens.TradeGate.Errors.{ok}
use a_stock_lens.TradeGate.Records.{TradeGateEvaluation, TradePlan, OverrideRecord, ExecutionRecord}
use a_stock_lens.TradeGate.Ledger.{evaluations, plans, overrides, Codec, Ledger, read}
use a_stock_lens.TradeGate.Ledger.Laws.{Extends}
use a_stock_lens.TradeGate.Service.Discipline.Growth.{read-Extends}

module _ ⦃d : Double⦄ (codec : Codec) where
  -- By a stored plan, of an evaluation that passed.
  pub record IsPlanned (files : Ledger codec) (evaluation : TradeGateEvaluation)
      (evaluation_id : String) (plan_id : Option String) (status : String) : Type 0 where
    pub plan : TradePlan
    pub name : String
    pub named : plan_id ≡ some name
    pub passed : evaluation.decision ≡ pass
    pub stored : read codec plans name files ≡ ok (some plan)
    pub matches : plan.evaluation_id ≡ evaluation_id
    pub is_pass : status ≡ "PASS"

  -- By a stored override.
  pub record IsOverridden (files : Ledger codec) (evaluation_id : String)
      (plan_id override_id : Option String) (status : String) : Type 0 where
    pub made : OverrideRecord
    pub name : String
    pub planless : plan_id ≡ none
    pub named : override_id ≡ some name
    pub stored : read codec overrides name files ≡ ok (some made)
    pub matches : made.evaluation_id ≡ evaluation_id
    pub is_override : status ≡ "OVERRIDDEN"

  abbrev pub IsApproved :
      Ledger codec
      → TradeGateEvaluation
      → String
      → (plan_id override_id : Option String) → String
      → Type 0
  IsApproved files evaluation evaluation_id plan_id override_id status =
      IsPlanned files evaluation evaluation_id plan_id status
      ⊎ IsOverridden files evaluation_id plan_id override_id status

  -- The evaluation that an execution names is stored, and so is what approves the execution.
  pub record IsBacked (files : Ledger codec) (x : ExecutionRecord) : Type 0 where
    pub evaluation : TradeGateEvaluation
    pub evaluated : read codec evaluations x.evaluation_id files ≡ ok (some evaluation)
    pub approved :
        IsApproved files evaluation x.evaluation_id x.plan_id x.override_id x.discipline_status

  pub IsBacked-Extends :
      (files files' : Ledger codec) (x : ExecutionRecord)
      → Extends codec files files'
      → IsBacked files x
      → IsBacked files' x
  IsBacked-Extends files files' x more b = record {
    evaluation = b.evaluation;
    evaluated = read-Extends codec files files' evaluations _ b.evaluation more b.evaluated;
    approved = elim b.approved [
      | inl p ↦ inl (record {
        plan = p.plan;
        name = p.name;
        named = p.named;
        passed = p.passed;
        stored = read-Extends codec files files' plans p.name p.plan more p.stored;
        matches = p.matches;
        is_pass = p.is_pass;
      })
      | inr o ↦ inr (record {
        made = o.made;
        name = o.name;
        planless = o.planless;
        named = o.named;
        stored = read-Extends codec files files' overrides o.name o.made more o.stored;
        matches = o.matches;
        is_override = o.is_override;
      })
    ];
  }
