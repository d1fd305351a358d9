-- ===== src/Tests/Ledgers.antt =====
-- A ledger whose documents are the records themselves.
use Prim.Native.String.{String}
use native.Mathlib.Decide.{ℕ_discrete}
use a_stock_lens.Base.{
  ◌≡◌, refl, ◌↔◌, Bool, true, false, text_eq, text_iff, Bool-cases, inl, inr, arith,
}
use a_stock_lens.Number.Fixed.{fixed}
use a_stock_lens.TradeGate.Errors.{Result, ok, err, value_error}
use a_stock_lens.TradeGate.Intent.{TradeIntent}
use a_stock_lens.TradeGate.Records.{
  TradeGateEvaluation, TradePlan, OverrideRecord, ExecutionRecord, TradeReview,
}
use a_stock_lens.TradeGate.Ledger.{
  Kind, intents, evaluations, plans, overrides, executions, reviews, Content, Codec,
}

String-discrete : Discrete String
String-discrete a b = elim (Bool-cases (text_eq a b)) [
  | inl same ↦ yes ((text_iff a b).0 same)
  | inr other ↦ no (λ e. absurd (ground (arith, (text_iff a b).1 e)))
]

pub data Document : Type 0 where
  intent_document : TradeIntent → Document
  evaluation_document : TradeGateEvaluation → Document
  plan_document : TradePlan → Document
  override_document : OverrideRecord → Document
  execution_document : ExecutionRecord → Document
  review_document : TradeReview → Document

pub Document-discrete : Discrete Document
Document-discrete = hlevel (ℕ_discrete, String-discrete)

abbrev is_yes : {A : Type 0} → Dec A → Bool
is_yes (yes a) = true
is_yes (no f) = false

abbrev document_of : (k : Kind) → Content k → Document
document_of intents x = intent_document x
document_of evaluations x = evaluation_document x
document_of plans x = plan_document x
document_of overrides x = override_document x
document_of executions x = execution_document x
document_of reviews x = review_document x

abbrev content_of : (k : Kind) → Document → Result (Content k)
content_of intents (intent_document x) = ok x
content_of evaluations (evaluation_document x) = ok x
content_of plans (plan_document x) = ok x
content_of overrides (override_document x) = ok x
content_of executions (execution_document x) = ok x
content_of reviews (review_document x) = ok x
content_of _ _ = err (value_error "another model")

pub same_iff : (a b : Document) → (is_yes (Document-discrete a b) ≡ true) ↔ (a ≡ b)
same_iff a b = decided (Document-discrete a b)
  where
    decided : (d : Dec (a ≡ b)) → (is_yes d ≡ true) ↔ (a ≡ b)
    decided (yes e) = (λ _. e, λ _. refl)
    decided (no f) = (λ h. absurd (ground arith), λ e. absurd (f e))

pub content_of-document_of : (k : Kind) (x : Content k) → content_of k (document_of k x) ≡ ok x
content_of-document_of intents x = refl
content_of-document_of evaluations x = refl
content_of-document_of plans x = refl
content_of-document_of overrides x = refl
content_of-document_of executions x = refl
content_of-document_of reviews x = refl

abbrev pub codec : Codec
codec = record {
  Document = Document;
  same = λ a b. is_yes (Document-discrete a b);
  dump = document_of;
  load = content_of;
  same_iff = same_iff;
  load-dump = λ k x _. content_of-document_of k x;
}
