-- ===== src/Tests/Selections.antt =====
-- The selection, run on a few candidates.
use a_stock_lens.Base.{
  ◌≡◌, ◌≤◌, ◌⊎◌, All, refl, true, false, List, [], ◌∷◌, length, map, Memᴰ, text_eq, ap, arith,
}
use a_stock_lens.Base.Sorting.{sort}
use a_stock_lens.Number.Fixed.{fixed, fixed-IsOrdered}
use a_stock_lens.Domain.{breakout, breakdown, confirmed}
use a_stock_lens.Candidates.{CandidateEvidence, ok}
use a_stock_lens.Candidates.Policy.{
  select, selection_of, selected_evidence, filled_items, reserve_symbols, reserve_of, leaders,
  strategy_ids, dedupe, is_reserved, priority_before, check_complete,
}
use a_stock_lens.Candidates.Policy.Selection.{select-IsPublishable, IsPublishable}
use a_stock_lens.Candidates.Policy.Precedence.{Reverses, Ranked, select-Ranked}
use a_stock_lens.Candidates.Policy.Fullness.{select-published_or_full}
use a_stock_lens.Candidates.Policy.Ranking.{filled_items-best}
use a_stock_lens.Candidates.Policy.Capacity.{selected_evidence-le_cap, leaders-selected}
use a_stock_lens.Tests.Samples.{policy, item}

abbrev best : CandidateEvidence
best = item "600519" "value" 9900 breakout

abbrev second : CandidateEvidence
second = item "000858" "value" 9700 breakout

abbrev third : CandidateEvidence
third = item "000001" "value" 9500 breakout

abbrev struck : CandidateEvidence
struck = item "300750" "growth" 9990 breakdown

abbrev three : List CandidateEvidence
three = best ∷ third ∷ second ∷ []

chosen :
    select policy (struck ∷ three) ≡ ok (selection_of policy best ∷ selection_of policy second ∷ [])
unfolding select check_complete selected_evidence reserve_symbols reserve_of leaders strategy_ids
    dedupe sort priority_before
chosen = refl

select-IsPublishable_example :
    (e : CandidateEvidence) × Memᴰ e (struck ∷ three)
    × (selection_of policy best ≡ selection_of policy e)
    × IsPublishable e
select-IsPublishable_example =
    select-IsPublishable policy (struck ∷ three)
      (selection_of policy best ∷ selection_of policy second ∷ []) (selection_of policy best) chosen
      (Memᴰ.head refl)

fixed-Reverses : Reverses ⦃d = fixed⦄
fixed-Reverses x y = ground arith

select-Ranked_example :
    (items : List CandidateEvidence) × (selection_of policy best ∷ selection_of policy second ∷ []
      ≡ map (selection_of policy) items)
    × All (λ e. Memᴰ e (struck ∷ three)) items
    × Ranked items
select-Ranked_example =
    select-Ranked fixed-IsOrdered fixed-Reverses policy (struck ∷ three)
      (selection_of policy best ∷ selection_of policy second ∷ []) chosen

third-IsPublishable : IsPublishable third
third-IsPublishable = record {
  validation = confirmed;
  validated = refl;
  not_contradicted = λ e. cc e;
  signal = breakout;
  signalled = refl;
  not_breakdown = λ e. cc e;
}

select-published_or_full_example :
    Memᴰ (selection_of policy third) (selection_of policy best ∷ selection_of policy second ∷ [])
    ⊎ (2 ≤ length (selection_of policy best ∷ selection_of policy second ∷ []))
select-published_or_full_example =
    select-published_or_full policy (struck ∷ three)
      (selection_of policy best ∷ selection_of policy second ∷ []) third chosen
      (Memᴰ.tail (Memᴰ.tail (Memᴰ.head refl))) third-IsPublishable

leads : leaders 1 "value" three ≡ "600519" ∷ []
unfolding leaders sort
leads = refl

ids : strategy_ids three ≡ "value" ∷ []
unfolding strategy_ids dedupe sort
ids = refl

selected_evidence-le_cap_example : length (selected_evidence policy three) ≤ 2
selected_evidence-le_cap_example =
    selected_evidence-le_cap policy three ((refl, (refl, tt)), ((refl, tt), (tt, tt)))
      (rw ids (omega arith))

leaders-selected_example : Memᴰ best (selected_evidence policy three)
leaders-selected_example =
    leaders-selected policy three "value" best (rw ids (Memᴰ.head refl)) (Memᴰ.head refl)
      (rw leads (Memᴰ.head refl))

filled : filled_items policy three ≡ second ∷ []
unfolding reserve_symbols reserve_of leaders strategy_ids dedupe sort priority_before
filled = refl

third_missed : ¬ Memᴰ third (second ∷ [])
third_missed (Memᴰ.head e) = ground (arith, ap (λ x. text_eq x.symbol "000001") e)
third_missed (Memᴰ.tail m) = elim m [ ]

free : is_reserved policy three third ≡ false
unfolding reserve_symbols reserve_of leaders strategy_ids dedupe sort
free = refl

filled_items-best_example : priority_before second third ≡ true
filled_items-best_example =
    filled_items-best fixed-IsOrdered policy three second third (rw filled (Memᴰ.head refl))
      (Memᴰ.tail (Memᴰ.head refl)) free (rw filled third_missed)
