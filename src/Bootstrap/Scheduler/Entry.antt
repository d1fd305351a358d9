-- ===== src/Bootstrap/Scheduler/Entry.antt =====
-- `fetch_symbols_bounded` is its loop, behind the checks of its two bounds.
use a_stock_lens.Base.{
  ℕ, ◌<◌, ◌≡◌, inl, inr, false, Option, some, List, String, ◌==◌, arith, Bool-cases,
}
use a_stock_lens.Base.Raise.{ok}
use a_stock_lens.Bootstrap.Scheduler.{
  World, Schedule, submit_until_full, run, initial, fetch_symbols_bounded,
}

module _ (world : World) (max_inflight operation_timeout fuel : ℕ) (symbols : List String) where
  abbrev pub loop : Option Schedule
  loop =
      run world max_inflight operation_timeout fuel 1
        (submit_until_full world max_inflight operation_timeout 0 (initial symbols))

  pub fetch_symbols_bounded-run :
      0 < max_inflight
      → 0 < operation_timeout
      → fetch_symbols_bounded world max_inflight operation_timeout fuel symbols ≡ ok loop
  unfolding fetch_symbols_bounded
  fetch_symbols_bounded-run room time =
      let a : (max_inflight == 0) ≡ false = ground arith in
      let b : (operation_timeout == 0) ≡ false = ground arith in rw (a, b)

  pub run-fetch_symbols_bounded :
      {r : Schedule}
      → fetch_symbols_bounded world max_inflight operation_timeout fuel symbols ≡ ok (some r)
      → loop ≡ some r
  unfolding fetch_symbols_bounded
  run-fetch_symbols_bounded h = elim (Bool-cases (max_inflight == 0)) [
    | inl no_room ↦ cc (rw no_room at h)
    | inr room ↦ elim (Bool-cases (operation_timeout == 0)) [
      | inl no_time ↦ cc (rw (room, no_time) at h)
      | inr time ↦ cc (rw (room, time) at h)
    ]
  ]

  pub fetch_symbols_bounded-room :
      {r : Schedule}
      → fetch_symbols_bounded world max_inflight operation_timeout fuel symbols ≡ ok (some r)
      → 0 < max_inflight
  unfolding fetch_symbols_bounded
  fetch_symbols_bounded-room h = elim (Bool-cases (max_inflight == 0)) [
    | inl no_room ↦ absurd (cc (rw no_room at h))
    | inr room ↦ ground arith
  ]
