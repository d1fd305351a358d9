-- ===== src/Bootstrap/Scheduler/Termination.antt =====
-- The loop of `fetch_symbols_bounded` ends, however the workers answer: a worker that stays silent
-- is given up, and a stock that was given up is not tried again.
use a_stock_lens.Base.{
  ℕ, zero, suc, ◌+◌, ◌-◌, ◌*◌, ◌≤◌, ◌<◌, ◌≡◌, refl, ap, subst, ◌∙◌, ◌⊎◌, inl, inr, ◌&&◌, not, some,
  List, [], ◌∷◌, String, length, ltb, leb, All, All-append, All-each, All-mem, is_nil, arith,
  Bool-cases, Option-cases,
}
use a_stock_lens.Base.Distinct.{unique, length-unique-le}
use a_stock_lens.Base.Raise.{ok}
use a_stock_lens.Bootstrap.Scheduler.{
  World, Schedule, start, submit_from, submit_until_full, finish, give_up, poll, poll_all, settle,
  resume, round_of, run, initial, fetch_symbols_bounded,
}
use a_stock_lens.Bootstrap.Scheduler.Accounts.{
  IsAccounted, flagged-IsAccounted, resume-cases, poll-late, poll-early, poll-message,
}
use a_stock_lens.Bootstrap.Scheduler.Rounds.{
  HasTime, poll_all-IsAccounted, round_of-IsAccounted, submit_until_full-IsAccounted,
  initial-IsAccounted,
}
use a_stock_lens.Bootstrap.Scheduler.Entry.{fetch_symbols_bounded-run}

module _ (world : World) (max_inflight operation_timeout : ℕ) where
  -- In `d` rounds from this one on the time of the worker is up.
  abbrev pub IsDue : ℕ → ℕ → String × ℕ → Type 0
  IsDue round d w = (t : String) → w.1 + operation_timeout ≤ world.now round t + d

  pending-submit_from-le :
      (round : ℕ) (waiting : List String) (s : Schedule)
      → s.pending ≡ waiting
      → length (submit_from world max_inflight operation_timeout round waiting s).pending
        ≤ length waiting
  unfolding submit_from start
  pending-submit_from-le round [] s e = ground (arith, e)
  pending-submit_from-le round (x ∷ rest) s e =
      elim (Bool-cases (not s.exhausted && ltb (length s.active) max_inflight)) [
        | inl go ↦
            rw go
              (omega (arith, pending-submit_from-le round rest (start world round x rest s) refl))
        | inr stop ↦ rw (stop, e) (omega arith)
      ]

  -- Either nothing is submitted, or fewer stocks wait.
  submit_from-cases :
      (round : ℕ) (waiting : List String) (s : Schedule)
      → s.pending ≡ waiting
      → let s' = submit_from world max_inflight operation_timeout round waiting s in
        ((s'.active ≡ s.active) × (s'.pending ≡ s.pending)) ⊎ (length s'.pending < length s.pending)
  unfolding submit_from start
  submit_from-cases round [] s e = inl (ground arith, ground arith)
  submit_from-cases round (x ∷ rest) s e =
      elim (Bool-cases (not s.exhausted && ltb (length s.active) max_inflight)) [
        | inl go ↦
            rw (go, e)
              (inr (
                omega (arith, pending-submit_from-le round rest (start world round x rest s) refl)))
        | inr stop ↦ rw stop (inl (refl, refl))
      ]

  submit_from-All :
      (P : String × ℕ → Type 0) (round : ℕ) (waiting : List String) (s : Schedule)
      → ((x : String) → P (x, world.started round x))
      → All P s.active
      → All P (submit_from world max_inflight operation_timeout round waiting s).active
  unfolding submit_from start
  submit_from-All P round [] s new a =
      elim (Bool-cases (not s.exhausted && ltb (length s.active) max_inflight)) [
        | inl go ↦ rw go a
        | inr stop ↦ rw stop a
      ]
  submit_from-All P round (x ∷ rest) s new a =
      elim (Bool-cases (not s.exhausted && ltb (length s.active) max_inflight)) [
        | inl go ↦ rw go (
            submit_from-All P round rest (start world round x rest s) new
              (All-append P s.active _ a (new x, tt)))
        | inr stop ↦ rw stop a
      ]

  pending-poll :
      (round : ℕ) (x : String) (t : ℕ) (s : Schedule)
      → (poll world max_inflight operation_timeout round x t s).pending ≡ s.pending
  unfolding finish give_up
  pending-poll round x t s = elim (Option-cases (world.message round x)) [
    | inl silent ↦ elim (Bool-cases (leb operation_timeout (world.now round x - t))) [
      | inl late ↦ rw (poll-late world max_inflight operation_timeout round x t s silent late)
      | inr early ↦ rw (poll-early world max_inflight operation_timeout round x t s silent early)
    ]
    | inr (m, there) ↦ rw (poll-message world max_inflight operation_timeout round x t s there)
  ]

  pending-poll_all :
      (round : ℕ) (ws : List (String × ℕ)) (s : Schedule)
      → (poll_all world max_inflight operation_timeout round ws s).pending ≡ s.pending
  unfolding poll_all
  pending-poll_all round [] s = refl
  pending-poll_all round ((x, t) ∷ ws) s = pending-poll_all round ws _ ∙ pending-poll round x t s

  -- The clock moves between two rounds: the loop sleeps while a worker runs.
  module _ (symbols : List String) (positive : 0 < operation_timeout)
      (rested : (n : ℕ) (x y : String) → world.started n x < world.now (suc n) y)
      (advances : (n : ℕ) (x y : String) → world.now n x < world.now (suc n) y) where
    IsDue-next :
        (round d : ℕ) (w : String × ℕ)
        → HasTime world max_inflight operation_timeout symbols round w × IsDue round d w
        → IsDue (suc round) (d - 1) w × (0 < d)
    IsDue-next round d w (early, due) = (
      λ t. ground (arith, due w.0, advances round w.0 t, early),
      ground (arith, due w.0, early, positive),
    )

    IsDue-start :
        (round : ℕ) (x : String)
        → IsDue (suc round) (operation_timeout - 1) (x, world.started round x)
    IsDue-start round x t = omega (arith, rested round x t, positive)

    IsDue-le : (round d e : ℕ) (w : String × ℕ) → d ≤ e → IsDue round d w → IsDue round e w
    IsDue-le round d e w h due t = omega (arith, due t)

    some_time :
        (round d : ℕ) (ws : List (String × ℕ))
        → All
            (λ w. HasTime world max_inflight operation_timeout symbols round w × IsDue round d w)
            ws
        → (ws ≡ []) ⊎ (0 < d)
    some_time round d [] h = inl refl
    some_time round d (w ∷ ws) h = inr (IsDue-next round d w h.0).1

    -- What a round leaves: deadlines in `e` rounds, and less to do than at the measure `m`.
    abbrev IsNearer : ℕ → ℕ → Schedule → Type 0
    IsNearer round m s =
        (e : ℕ) × (e < operation_timeout)
        × All (IsDue (suc round) e) s.active
        × ((s.active ≡ []) ⊎ (length s.pending * operation_timeout + e < m))

    resume-IsNearer :
        (round d : ℕ) (s : Schedule)
        → d < operation_timeout
        → All (IsDue (suc round) (d - 1)) s.active
        → (s.active ≡ []) ⊎ (0 < d)
        → IsNearer round
            (length s.pending * operation_timeout + d)
            (resume world max_inflight operation_timeout round s)
    unfolding submit_until_full
    resume-IsNearer round d s h due left =
        elim (resume-cases world max_inflight operation_timeout round s) [
          | inl (drain, e) ↦ rw e (
            d - 1,
            omega arith,
            due,
            elim left [ inl none_left ↦ inl none_left | inr more ↦ inr (omega arith) ],
          )
          | inr (go, e) ↦ rw e (elim (submit_from-cases round s.pending s refl) [
            | inl (same, same') ↦ (
              d - 1,
              omega arith,
              rw same due,
              elim left [
                | inl none_left ↦ inl (same ∙ none_left)
                | inr more ↦ inr (rw same' (omega arith))
              ],
            )
            | inr fewer ↦ (
              operation_timeout - 1,
              omega (arith, positive),
              submit_from-All (IsDue (suc round) (operation_timeout - 1)) round s.pending s
                  (IsDue-start round)
                  (All-each s.active (λ w m.
                    IsDue-le (suc round) (d - 1) _ w (omega arith) (All-mem _ s.active due m))),
              inr (shorter (length s.pending) _ fewer),
            )
          ])
        ]
      where
        shorter :
            (p p' : ℕ)
            → p' < p
            → p' * operation_timeout + (operation_timeout - 1) < p * operation_timeout + d
        shorter p p' f = grind (arith, positive)

    -- A round without a new worker brings every deadline nearer, and one with a new worker leaves
    -- fewer stocks to wait.
    round_of-IsNearer :
        (round d : ℕ) (s : Schedule)
        → d < operation_timeout
        → IsAccounted max_inflight symbols s
        → All (IsDue round d) s.active
        → IsNearer round
            (length s.pending * operation_timeout + d)
            (round_of world max_inflight operation_timeout round s)
    unfolding round_of settle
    round_of-IsNearer round d s h inv due =
        let fresh = record s { completed_this_round = 0; timed_out_this_round = 0 } in
        let (_, left) =
          poll_all-IsAccounted world max_inflight operation_timeout symbols (IsDue round d) round []
            s.active fresh refl tt due (flagged-IsAccounted s _ _ _ _ inv) in
        let s' = poll_all world max_inflight operation_timeout round s.active fresh in
        subst
          (λ n.
            IsNearer round (length n * operation_timeout + d)
              (round_of world max_inflight operation_timeout round s))
          (pending-poll_all round s.active fresh)
          (resume-IsNearer round d (settle s') h
            (All-each s'.active (λ w m. (IsDue-next round d w (All-mem _ s'.active left m)).0))
            (some_time round d s'.active left))

    run-stop :
        (fuel round : ℕ) (s : Schedule)
        → 0 < fuel
        → s.active ≡ []
        → run world max_inflight operation_timeout fuel round s ≡ some s
    unfolding run
    run-stop zero round s h e = absurd (omega arith)
    run-stop (suc fuel) round s h e = simp e

    run-ends :
        (fuel round d : ℕ) (s : Schedule)
        → d < operation_timeout
        → IsAccounted max_inflight symbols s
        → All (IsDue round d) s.active
        → length s.pending * operation_timeout + d + 1 < fuel
        → (r : Schedule) × (run world max_inflight operation_timeout fuel round s ≡ some r)
    unfolding run
    run-ends zero round d s h inv due enough = absurd (omega arith)
    run-ends (suc fuel) round d s h inv due enough = elim (Bool-cases (is_nil s.active)) [
      | inl stop ↦ (s, rw stop)
      | inr go ↦
          let s' = round_of world max_inflight operation_timeout round s in
          let (e, h', due', left) = round_of-IsNearer round d s h inv due in
          rw go (elim left [
            | inl none_left ↦ (s', run-stop fuel (suc round) s' (omega arith) none_left)
            | inr less ↦
                run-ends fuel (suc round) e s' h'
                  (round_of-IsAccounted world max_inflight operation_timeout symbols round s inv)
                  due' (omega (arith, less))
          ])
    ]

    -- With a positive bound and a positive deadline the loop ends and returns, whatever the workers
    -- answer: the rounds are fewer than the stocks and one, times the ticks of the deadline, and one.
    -- The clock moves between two rounds.
    pub fetch_symbols_bounded-ends :
        (fuel : ℕ)
        → 0 < max_inflight
        → (length symbols + 1) * operation_timeout < fuel
        → (r : Schedule) × (fetch_symbols_bounded world max_inflight operation_timeout fuel symbols
            ≡ ok (some r))
    unfolding submit_until_full initial
    fetch_symbols_bounded-ends fuel room enough =
        let s = submit_until_full world max_inflight operation_timeout 0 (initial symbols) in
        let (r, e) =
          run-ends fuel 1 (operation_timeout - 1) s (omega (arith, positive))
            (submit_until_full-IsAccounted world max_inflight operation_timeout symbols 0 _
              (initial-IsAccounted world max_inflight operation_timeout symbols))
            (submit_from-All (IsDue 1 (operation_timeout - 1)) 0 (unique symbols) (initial symbols)
              (IsDue-start 0) tt)
            (few_enough (length (unique symbols)) (length s.pending) (length-unique-le symbols)
              (pending-submit_from-le 0 (unique symbols) (initial symbols) refl)) in
        (
          r,
          fetch_symbols_bounded-run world max_inflight operation_timeout fuel symbols room positive
              ∙ ap ok e,
        )
      where
        few_enough :
            (u p : ℕ)
            → u ≤ length symbols
            → p ≤ u
            → p * operation_timeout + (operation_timeout - 1) + 1 < fuel
        few_enough u p h k = grind (arith, positive, enough)
