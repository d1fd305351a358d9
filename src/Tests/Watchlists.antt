-- ===== src/Tests/Watchlists.antt =====
-- The watchlist, run on one entry.
use a_stock_lens.Base.{
  ◌≤◌, ◌≡◌, refl, ◌↔◌, false, none, some, [], ◌∷◌, length, arith, text_eq, if◌then◌else◌,
}
use mathlib.Core.List.{Nodup, Nodup-nil}
use a_stock_lens.Domain.{discovered, watch}
use a_stock_lens.Watchlist.{
  WatchlistEntry, open_entry, transition, ok, require_aware, earlier, allowed_transitions,
  is_reserved,
}
use a_stock_lens.Watchlist.Path.{Next, InOrder, moved, transition-ok_iff}
use a_stock_lens.Watchlist.History.{IsTracked, here, move, depth, lifecycle}
use a_stock_lens.Watchlist.Store
use a_stock_lens.Watchlist.Store.{Options, edited}
use a_stock_lens.Watchlist.Store.Laws.{watch-IsKept, IsKept}
use a_stock_lens.Watchlist.Store.Replacement.{under, elsewhere, watch-replaces}
use a_stock_lens.Base.Dict.{get, put, keys}
use a_stock_lens.Tests.Samples.{entry_codec, noon, evening}

abbrev opened : WatchlistEntry
opened = record {
  symbol = "600519";
  state = discovered;
  created_at = noon;
  updated_at = noon;
  thesis = none;
  key_questions = [];
  risk_conditions = [];
  waiting_for = [];
  timeline =
      record { at = noon; to_state = discovered; from_state = none; note = some "discovered" } ∷ [];
}

opens : open_entry "600519" noon none [] [] [] ≡ ok opened
unfolding open_entry require_aware
opens = refl

moves : transition opened watch evening none ≡ ok (moved opened watch evening none)
unfolding transition require_aware earlier allowed_transitions
moves = refl

transition-ok_iff_example :
    (transition opened watch evening none ≡ ok (moved opened watch evening none)) ↔ (
      Next discovered watch
      × InOrder noon evening
      × (moved opened watch evening none ≡ moved opened watch evening none))
transition-ok_iff_example =
    transition-ok_iff opened watch evening none (moved opened watch evening none)

lifecycle_example :
    IsTracked (moved opened watch evening none)
    × (is_reserved watch ≡ false)
    × (length (moved opened watch evening none).timeline ≡ depth watch)
    × (length (moved opened watch evening none).timeline ≤ 4)
    × InOrder noon evening
lifecycle_example =
    lifecycle "600519" noon none [] [] [] opened (moved opened watch evening none) 1 opens
      (move watch evening none here moves)

abbrev to_watch_now : Options
to_watch_now = record {
  thesis = some "cash flow";
  key_question = [];
  risk_condition = [];
  waiting_for = [];
  state = some watch;
  remark = none;
}

abbrev stored : WatchlistEntry
stored = moved (record opened { thesis = some "cash flow" }) watch noon none

watched :
    Store.watch entry_codec "600519" to_watch_now noon []
    ≡ Store.ok (stored, ("600519.json", stored) ∷ [])
unfolding Store.watch Store.read Store.path_for get Store.write put open_entry require_aware
    transition earlier allowed_transitions
watched = refl

watch-IsKept_example : IsKept entry_codec (("600519.json", stored) ∷ [])
unfolding Store.read Store.path_for get
watch-IsKept_example =
    watch-IsKept entry_codec "600519" to_watch_now noon [] (("600519.json", stored) ∷ []) stored
      (λ symbol entry h. absurd (ground arith)) (λ entry h. absurd (ground arith)) watched

watch-replaces_example :
    Nodup (keys (("600519.json", stored) ∷ []))
    × (under (Store.path_for "600519") (("600519.json", stored) ∷ [])
        ≡ (Store.path_for "600519", stored) ∷ [])
    × (elsewhere (Store.path_for "600519") (("600519.json", stored) ∷ [])
        ≡ elsewhere (Store.path_for "600519") [])
    × (Store.read entry_codec "000001" (("600519.json", stored) ∷ []) ≡ (
        if text_eq "600519" "000001"
        then Store.ok (some stored)
        else Store.read entry_codec "000001" []))
watch-replaces_example =
    watch-replaces entry_codec "600519" to_watch_now noon [] (("600519.json", stored) ∷ []) stored
      "000001" Nodup-nil watched
