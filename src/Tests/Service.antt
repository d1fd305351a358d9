-- ===== src/Tests/Service.antt =====
-- The ledger and the service, run on one trade that is planned and executed.
use a_stock_lens.Base.{◌≡◌, refl, none, some, List, [], ◌∷◌, if◌then◌else◌}
use a_stock_lens.Base.Text.{is_blank}
use a_stock_lens.Base.Dict.{get}
use a_stock_lens.Base.Sorting.{sort}
use a_stock_lens.Base.Int.{pos}
use a_stock_lens.Number.Fixed.{fixed}
use a_stock_lens.Domain.{breakout}
use a_stock_lens.TradeGate.Errors.{ok, err, conflict}
use a_stock_lens.TradeGate.Records.{TradePlan, ExecutionRecord, validate_evaluation}
use a_stock_lens.TradeGate.Scoring.{scores_of, score_swing, clamp}
use a_stock_lens.TradeGate.Veto.{evaluate_vetoes}
use a_stock_lens.TradeGate.Engine.{
  evaluate, draft_evaluation, decide, scores_for, missing_for, add_if, triggers_for,
}
use a_stock_lens.TradeGate.Ledger.{plans, executions, Ledger, is_no_name, file_of, read, write}
use a_stock_lens.TradeGate.Ledger.Laws.{Extends, write-Extends, write_again}
use a_stock_lens.TradeGate.Service.{
  BuildContext, AuditAdapter, ◌>>=◌, pure, lift, raise_if, store, fetch, present, find_evaluation,
  create_and_evaluate, create_plan, record_execution, discipline_of,
}
use a_stock_lens.TradeGate.Service.Discipline.{
  IsBacked, Request, to_evaluate, to_plan, to_execute, serve, serve_all, service_discipline,
}
use a_stock_lens.Tests.Samples.{profile, intent, context, independent, audit, noon, evening}
use a_stock_lens.Tests.Ledgers.{codec, plan_document}

abbrev plan : TradePlan
plan = record {
  id = "p1";
  evaluation_id = "e1";
  approval_path = "PASS";
  created_at = noon;
  entry_price = pos 100000;
  stop_price = pos 90000;
  target_price = some (pos 130000);
}

abbrev late_plan : TradePlan
late_plan = record plan { created_at = evening }

abbrev with_plan : Ledger codec
with_plan = (plans, "p1", plan_document plan) ∷ []

plan_written : write codec plans "p1" plan [] [] ≡ ok with_plan
unfolding write file_of is_no_name
plan_written = refl

write-Extends_example : Extends codec [] with_plan
write-Extends_example = write-Extends codec plans "p1" plan [] [] with_plan plan_written

write_again_example : write codec plans "p1" late_plan with_plan with_plan ≡ (
    if codec.same (plan_document plan) (plan_document late_plan)
    then ok with_plan
    else err (conflict "plans" "p1"))
write_again_example = write_again codec plans "p1" plan late_plan [] with_plan plan_written

abbrev build : BuildContext
build = λ symbol as_of overlay. ok (context breakout)

abbrev adapter : AuditAdapter
adapter = record {
  independent_assessment = λ p facts. ok independent;
  audit_thesis = λ p facts assessment thesis. ok audit;
}

abbrev requests : List (Request codec)
requests =
    to_evaluate intent (pos 3) none none "e1" noon
    ∷ to_plan "e1" "p1" noon
    ∷ to_execute "e1" (pos 101000) (pos 100) evening (some "p1") none "x1"
    ∷ []

abbrev execution : ExecutionRecord
execution = record {
  id = "x1";
  evaluation_id = "e1";
  plan_id = some "p1";
  override_id = none;
  avg_fill_price = pos 101000;
  filled_quantity = pos 100;
  filled_at = evening;
  discipline_status = "PASS";
}

executed :
    read codec executions "x1" (serve_all codec build adapter (λ _. profile) requests [])
    ≡ ok (some execution)
unfolding serve serve_all read write file_of is_no_name store fetch ◌>>=◌ pure lift raise_if present
    find_evaluation create_and_evaluate create_plan record_execution discipline_of evaluate
    draft_evaluation evaluate_vetoes validate_evaluation scores_for score_swing scores_of get clamp
    decide is_blank missing_for add_if sort triggers_for
executed = refl

service_discipline_example :
    IsBacked codec (serve_all codec build adapter (λ _. profile) requests []) execution
service_discipline_example =
    service_discipline codec build adapter (λ _. profile) requests "x1" execution executed
