-- ===== src/Bootstrap/Scheduler/Completeness.antt =====
-- What a run of the scheduler has done when it returns, for each stock.
use mathlib.Core.List.{Perm, append-nil}
use a_stock_lens.Base.{
  ℕ, zero, suc, ◌-◌, ◌≤◌, ◌<◌, ◌≡◌, refl, sym, ap, subst, ◌∙◌, inl, inr, true, false, ◌&&◌, not,
  some, List, [], ◌∷◌, ◌++◌, String, length, length-append, ltb, leb, All, is_nil, arith,
  Bool-cases, Option-cases,
}
use a_stock_lens.Base.Dict.{keys}
use a_stock_lens.Base.Distinct.{unique}
use a_stock_lens.Base.Raise.{ok}
use a_stock_lens.Bootstrap.Scheduler.{
  World, Schedule, start, submit_from, submit_until_full, finish, give_up, poll, poll_all, settle,
  round_of, run, initial, fetch_symbols_bounded,
}
use a_stock_lens.Bootstrap.Scheduler.Accounts.{
  IsAccounted, attempted, poll-late, poll-early, poll-message, resume-cases,
}
use a_stock_lens.Bootstrap.Scheduler.Rounds.{
  run-IsAccounted, submit_until_full-IsAccounted, initial-IsAccounted,
}
use a_stock_lens.Bootstrap.Scheduler.Entry.{run-fetch_symbols_bounded, fetch_symbols_bounded-room}

-- Without a timeout so far nothing keeps the scheduler from submitting.
record IsFlowing (s : Schedule) : Type 0 where
  waits : s.timed_out ≡ 0 → s.exhausted ≡ true → s.pending ≡ []
  flows : s.timed_out ≡ 0 → s.draining_after_timeout ≡ false
  idle : s.timed_out ≡ 0 → s.active ≡ [] → s.pending ≡ []

-- What looking at a worker leaves alone, and how its timeouts grow.
record Looked (s s' : Schedule) : Type 0 where
  pending : s'.pending ≡ s.pending
  exhausted : s'.exhausted ≡ s.exhausted
  draining : s'.draining_after_timeout ≡ s.draining_after_timeout
  timeouts : s.timed_out ≤ s'.timed_out
  this_round : s.timed_out_this_round ≤ s.timed_out → s'.timed_out_this_round ≤ s'.timed_out

module _ (world : World) (max_inflight operation_timeout : ℕ) where
  poll-Looked :
      (round : ℕ) (x : String) (t : ℕ) (s : Schedule)
      → Looked s (poll world max_inflight operation_timeout round x t s)
  unfolding finish give_up
  poll-Looked round x t s = elim (Option-cases (world.message round x)) [
    | inl silent ↦ elim (Bool-cases (leb operation_timeout (world.now round x - t))) [
      | inl late ↦
          rw (poll-late world max_inflight operation_timeout round x t s silent late) (record {
            pending = refl;
            exhausted = refl;
            draining = refl;
            timeouts = omega arith;
            this_round = λ h. omega arith;
          })
      | inr early ↦
          rw (poll-early world max_inflight operation_timeout round x t s silent early) (record {
            pending = refl;
            exhausted = refl;
            draining = refl;
            timeouts = omega arith;
            this_round = λ h. h;
          })
    ]
    | inr (m, there) ↦
        rw (poll-message world max_inflight operation_timeout round x t s there) (record {
          pending = refl;
          exhausted = refl;
          draining = refl;
          timeouts = omega arith;
          this_round = λ h. h;
        })
  ]

  poll_all-Looked :
      (round : ℕ) (ws : List (String × ℕ)) (s : Schedule)
      → Looked s (poll_all world max_inflight operation_timeout round ws s)
  unfolding poll_all
  poll_all-Looked round [] s = record {
    pending = refl;
    exhausted = refl;
    draining = refl;
    timeouts = omega arith;
    this_round = λ h. h;
  }
  poll_all-Looked round ((x, t) ∷ ws) s =
      let one = poll-Looked round x t s in
      let more = poll_all-Looked round ws (poll world max_inflight operation_timeout round x t s) in
      record {
        pending = more.pending ∙ one.pending;
        exhausted = more.exhausted ∙ one.exhausted;
        draining = more.draining ∙ one.draining;
        timeouts = omega (arith, one.timeouts, more.timeouts);
        this_round = λ h. more.this_round (one.this_round h);
      }

  submit_from-longer :
      (round : ℕ) (waiting : List String) (s : Schedule)
      → let s' = submit_from world max_inflight operation_timeout round waiting s in
        (length s.active ≤ length s'.active)
        × (s'.timed_out ≡ s.timed_out)
        × (s'.draining_after_timeout ≡ s.draining_after_timeout)
  unfolding submit_from start
  submit_from-longer round [] s = ground arith
  submit_from-longer round (x ∷ rest) s =
      elim (Bool-cases (not s.exhausted && ltb (length s.active) max_inflight)) [
        | inl go ↦
            let (a, b, c) = submit_from-longer round rest (start world round x rest s) in
            rw go (omega (arith, a, length-append s.active ((x, world.started round x) ∷ [])), b, c)
        | inr stop ↦ rw stop (omega arith, refl, refl)
      ]

  submit_from-waits :
      (round : ℕ) (waiting : List String) (s : Schedule)
      → s.pending ≡ waiting
      → (s.exhausted ≡ true → s.pending ≡ [])
      → let s' = submit_from world max_inflight operation_timeout round waiting s in
        s'.exhausted ≡ true → s'.pending ≡ []
  unfolding submit_from start
  submit_from-waits round [] s e h =
      elim (Bool-cases (not s.exhausted && ltb (length s.active) max_inflight)) [
        | inl go ↦ rw go (λ k. e)
        | inr stop ↦ rw stop h
      ]
  submit_from-waits round (x ∷ rest) s e h =
      elim (Bool-cases (not s.exhausted && ltb (length s.active) max_inflight)) [
        | inl go ↦ rw go (
            submit_from-waits round rest (start world round x rest s) refl
              (λ k. absurd (ground (arith, go, k))))
        | inr stop ↦ rw stop h
      ]

  submit_from-idle :
      (round : ℕ) (waiting : List String) (s : Schedule)
      → s.pending ≡ waiting
      → 0 < max_inflight
      → (s.exhausted ≡ true → s.pending ≡ [])
      → let s' = submit_from world max_inflight operation_timeout round waiting s in
        s'.active ≡ [] → s'.pending ≡ []
  unfolding submit_from start
  submit_from-idle round [] s e room h =
      elim (Bool-cases (not s.exhausted && ltb (length s.active) max_inflight)) [
        | inl go ↦ rw go (λ k. e)
        | inr stop ↦ rw stop (λ k. e)
      ]
  submit_from-idle round (x ∷ rest) s e room h =
      elim (Bool-cases (not s.exhausted && ltb (length s.active) max_inflight)) [
        | inl go ↦ rw go (λ k. absurd (running k))
        | inr stop ↦ rw stop (λ k. h (ground (arith, stop, ap length k)))
      ]
    where
      running :
          (submit_from world max_inflight operation_timeout round rest
              (start world round x rest s)).active
            ≡ []
          → ⊥
      running k = omega (
        arith,
        ap length k,
        (submit_from-longer round rest (start world round x rest s)).0,
        length-append s.active ((x, world.started round x) ∷ []),
      )

  module _ (room : 0 < max_inflight) where
    submit_until_full-IsFlowing :
        (round : ℕ) (s : Schedule)
        → (s.timed_out ≡ 0 → s.exhausted ≡ true → s.pending ≡ [])
        → (s.timed_out ≡ 0 → s.draining_after_timeout ≡ false)
        → IsFlowing (submit_until_full world max_inflight operation_timeout round s)
    unfolding submit_until_full
    submit_until_full-IsFlowing round s w f =
        let (_, same, drain) = submit_from-longer round s.pending s in
        record {
          waits = λ z. submit_from-waits round s.pending s refl (w (sym same ∙ z));
          flows = λ z. drain ∙ f (sym same ∙ z);
          idle = λ z. submit_from-idle round s.pending s refl room (w (sym same ∙ z));
        }

    -- After the workers have been looked at: the flags, if nothing has timed out.
    settle-flows :
        (s s' : Schedule)
        → IsFlowing s
        → Looked (record s { completed_this_round = 0; timed_out_this_round = 0 }) s'
        → (settle s').timed_out ≡ 0
        → ((settle s').exhausted ≡ true → (settle s').pending ≡ [])
          × ((settle s').draining_after_timeout ≡ false)
    unfolding settle
    settle-flows s s' f l z =
        let zero_before : s.timed_out ≡ 0 = omega (arith, l.timeouts, z) in
        let none_now : s'.timed_out_this_round ≡ 0 = omega (arith, l.this_round (omega arith), z) in
        (
          rw none_now (λ k. l.pending ∙ f.waits zero_before (sym l.exhausted ∙ k)),
          rw none_now (ground (arith, l.draining, f.flows zero_before)),
        )

    round_of-IsFlowing :
        (round : ℕ) (s : Schedule)
        → IsFlowing s
        → IsFlowing (round_of world max_inflight operation_timeout round s)
    unfolding round_of
    round_of-IsFlowing round s f =
        let fresh = record s { completed_this_round = 0; timed_out_this_round = 0 } in
        let s' = poll_all world max_inflight operation_timeout round s.active fresh in
        let flags = settle-flows s s' f (poll_all-Looked round s.active fresh) in
        elim (resume-cases world max_inflight operation_timeout round (settle s')) [
          | inl (drain, e) ↦ rw e (record {
            waits = λ z. (flags z).0;
            flows = λ z. (flags z).1;
            idle = λ z k. cc ((flags z).1, drain);
          })
          | inr (go, e) ↦
              rw e (
                submit_until_full-IsFlowing round (settle s') (λ z. (flags z).0) (λ z. (flags z).1))
        ]

    run-IsFlowing :
        (fuel round : ℕ) (s : Schedule) {r : Schedule}
        → IsFlowing s
        → run world max_inflight operation_timeout fuel round s ≡ some r
        → IsFlowing r
    unfolding run
    run-IsFlowing zero round s f h = cc
    run-IsFlowing (suc fuel) round s f h = elim (Bool-cases (is_nil s.active)) [
      | inl stop ↦ subst IsFlowing (cc (rw stop at h)) f
      | inr go ↦ run-IsFlowing fuel (suc round) _ (round_of-IsFlowing round s f) (rw go at h)
    ]

module _ (world : World) (max_inflight operation_timeout fuel : ℕ) (symbols : List String)
    (r : Schedule)
    (returned : fetch_symbols_bounded world max_inflight operation_timeout fuel symbols
      ≡ ok (some r)) where
  accounted : IsAccounted max_inflight symbols r × (r.active ≡ [])
  accounted =
      run-IsAccounted world max_inflight operation_timeout symbols fuel 1 _
        (submit_until_full-IsAccounted world max_inflight operation_timeout symbols 0 _
          (initial-IsAccounted world max_inflight operation_timeout symbols))
        (run-fetch_symbols_bounded world max_inflight operation_timeout fuel symbols returned)

  flowing : IsFlowing r
  unfolding initial
  flowing =
      let room =
        fetch_symbols_bounded-room world max_inflight operation_timeout fuel symbols returned in
      run-IsFlowing world max_inflight operation_timeout room fuel 1 _
        (submit_until_full-IsFlowing world max_inflight operation_timeout room 0 (initial symbols)
          (λ z k. cc) (λ z. refl))
        (run-fetch_symbols_bounded world max_inflight operation_timeout fuel symbols returned)

  -- When the scheduler returns, each different stock either has exactly one attempt or still waits;
  -- every worker has been accounted for, at no moment did more than `max_inflight` run, also in what
  -- `on_inflight` was told, and each timeout counts as an error of the source.
  pub fetch_symbols_bounded-each_once :
      Perm (attempted r.results ++ r.pending) (unique symbols)
      × (r.submitted ≡ length r.results)
      × (r.completed ≡ length r.results)
      × (r.max_observed ≤ max_inflight)
      × All (λ n. n ≤ max_inflight) r.inflight
      × (r.timed_out ≤ r.source_errors)
      × (r.source_errors ≤ length r.results)
  fetch_symbols_bounded-each_once =
      let (inv, stopped) = accounted in
      (
        subst (λ w. Perm (attempted r.results ++ (keys w ++ r.pending)) (unique symbols)) stopped
            inv.each_once,
        omega (arith, inv.started, inv.done, ap length stopped),
        inv.done,
        inv.observed,
        inv.reported,
        inv.timeouts,
        omega (arith, inv.errors, inv.done),
      )

  -- If no attempt has timed out when the scheduler returns, every stock has been attempted, exactly
  -- once.
  pub fetch_symbols_bounded-complete : r.timed_out ≡ 0 → Perm (attempted r.results) (unique symbols)
  fetch_symbols_bounded-complete z =
      let (inv, stopped) = accounted in
      let none_waits = flowing.idle z stopped in
      subst (λ l. Perm l (unique symbols))
        (rw (stopped, none_waits) (append-nil (attempted r.results))) inv.each_once
