-- ===== src/Strategies/Scoring.antt =====
-- src/astock_lens/strategies/scoring.py: `percentile_ranks`.
pub mod Counting
pub mod Runs
pub mod Ranks
use a_stock_lens.Base.{
  ℕ, zero, suc, ◌+◌, Bool, true, false, List, [], ◌∷◌, map, String, length, drop, is_nil,
  if◌then◌else◌,
}
use a_stock_lens.Base.Dict.{put_all}
use a_stock_lens.Base.Sorting.{sort}
use a_stock_lens.Number.{Double, Float, ◌≼◌, ◌≐◌, ◌⊘◌, of_nat}

module _ ⦃d : Double⦄ where
  -- The inner loop: how far the values go on that equal the one at `start`.
  unfoldable pub equal_run : Float → List (String × Float) → List (String × Float)
  equal_run v [] = []
  equal_run v ((k, x) ∷ rest) = if x ≐ v then (k, x) ∷ equal_run v rest else []

  abbrev pub rank_of : (count start end : ℕ) → Float
  rank_of count start end = (of_nat ((start + 1) + (end + 1)) ⊘ of_nat 2) ⊘ of_nat count

  -- The outer loop: `rest` is `ordered[start:]`. Each round takes an item at least, so as much fuel
  -- as there are items is enough.
  unfoldable pub ranks_from :
      ℕ → (count start : ℕ) → List (String × Float) → List (String × Float) → List (String × Float)
  ranks_from zero count start rest ranks = ranks
  ranks_from (suc fuel) count start [] ranks = ranks
  ranks_from (suc fuel) count start ((k, v) ∷ rest) ranks =
      let more = equal_run v rest in
      let end = start + length more in
      let rank = rank_of count start end in
      ranks_from fuel count (end + 1) (drop (length more) rest)
        (put_all (map (λ p. (p.0, rank)) ((k, v) ∷ more)) ranks)

  abbrev pub value_before : String × Float → String × Float → Bool
  value_before p q = p.1 ≼ q.1

  -- The dictionary is its pairs, each key once.
  unfoldable pub percentile_ranks : List (String × Float) → List (String × Float)
  percentile_ranks values =
      if is_nil values
      then []
      else ranks_from (length values) (length values) 0 (sort value_before values) []
