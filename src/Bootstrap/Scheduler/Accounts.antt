-- ===== src/Bootstrap/Scheduler/Accounts.antt =====
-- What every step on one stock keeps: each stock waits, runs or is done, once, and the counters count
-- what they say.
use mathlib.Core.List.{Perm, Nodup, append_assoc, perm_middle}
use mathlib.Core.List.Perm
use a_stock_lens.Base.{
  ℕ, ◌+◌, ◌≤◌, ◌<◌, ◌≡◌, refl, inl, inr, ◌⊎◌, ◌-◌, Bool, true, false, ◌&&◌, not, none, some, List,
  [], ◌∷◌, ◌++◌, map, String, length, length-append, ltb, leb, All, arith, Bool-cases, Option-cases,
}
use a_stock_lens.Base.Dict.{keys, remove}
use a_stock_lens.Base.Distinct.{
  unique, unique-Nodup, keys-append, remove-middle, Nodup-left, Nodup-right,
}
use a_stock_lens.Bootstrap.Scheduler.{
  Message, fetched, failed, FallbackAttempt, World, Schedule, attempt_from_message, start,
  submit_from, submit_until_full, finish, give_up, poll, resume,
}

abbrev pub attempted : List FallbackAttempt → List String
attempted = map (λ a. a.symbol)

-- The stocks that are done, run or wait.
abbrev pub held : Schedule → List String
held s = attempted s.results ++ (keys s.active ++ s.pending)

module _ (max_inflight : ℕ) (symbols : List String) where
  pub record IsAccounted (s : Schedule) : Type 0 where
    pub each_once : Perm (held s) (unique symbols)
    pub running : length s.active ≤ max_inflight
    pub observed : s.max_observed ≤ max_inflight
    pub reported : All (λ n. n ≤ max_inflight) s.inflight
    pub done : s.completed ≡ length s.results
    pub started : s.submitted ≡ s.completed + length s.active
    pub errors : s.source_errors ≤ s.completed
    pub timeouts : s.timed_out ≤ s.source_errors

-- A stock moves from the front of those that wait to the end of those that run.
start-perm :
    {all : List String} (done : List String) (active : List (String × ℕ)) (symbol : String) (t : ℕ)
    (rest : List String)
    → Perm (done ++ (keys active ++ symbol ∷ rest)) all
    → Perm (done ++ (keys (active ++ (symbol, t) ∷ []) ++ rest)) all
start-perm done active symbol t rest p =
    rw (keys-append active ((symbol, t) ∷ []), append_assoc (keys active) (symbol ∷ []) rest) p

-- A stock moves from the middle of those that run to the front of those that are done.
done-perm :
    {all : List String} (done : List String) (before : List (String × ℕ)) (symbol : String) (t : ℕ)
    (after : List (String × ℕ)) (waiting : List String)
    → Perm (done ++ (keys (before ++ (symbol, t) ∷ after) ++ waiting)) all
    → Perm ((symbol ∷ done) ++ (keys (before ++ after) ++ waiting)) all
done-perm done before symbol t after waiting p =
    Perm.trans (Perm.symm (perm_middle done _))
      (Perm.trans (Perm.append_left done (Perm.append_right waiting moved)) p)
  where
    moved : Perm (symbol ∷ keys (before ++ after)) (keys (before ++ (symbol, t) ∷ after))
    moved =
        rw (keys-append before after, keys-append before ((symbol, t) ∷ after))
          (Perm.symm (perm_middle (keys before) (keys after)))

-- The flags are not counted.
pub flagged-IsAccounted :
    {max_inflight : ℕ} {symbols : List String} (s : Schedule) (stop drain : Bool) (c t : ℕ)
    → IsAccounted max_inflight symbols s
    → IsAccounted max_inflight symbols (record s {
      exhausted = stop;
      draining_after_timeout = drain;
      completed_this_round = c;
      timed_out_this_round = t;
    })
flagged-IsAccounted s stop drain c t inv = record {
  each_once = inv.each_once;
  running = inv.running;
  observed = inv.observed;
  reported = inv.reported;
  done = inv.done;
  started = inv.started;
  errors = inv.errors;
  timeouts = inv.timeouts;
}

module _ (world : World) (max_inflight operation_timeout round : ℕ) where
  module _ (symbol : String) (t : ℕ) (s : Schedule) where
    pub poll-message :
        {m : Message}
        → world.message round symbol ≡ some m
        → poll world max_inflight operation_timeout round symbol t s ≡ finish symbol m s
    unfolding poll
    poll-message e = rw (e, poll)

    pub poll-late :
        world.message round symbol ≡ none
        → leb operation_timeout (world.now round symbol - t) ≡ true
        → poll world max_inflight operation_timeout round symbol t s ≡ give_up symbol s
    unfolding poll
    poll-late e late = rw (e, poll) (rw late)

    pub poll-early :
        world.message round symbol ≡ none
        → leb operation_timeout (world.now round symbol - t) ≡ false
        → poll world max_inflight operation_timeout round symbol t s ≡ s
    unfolding poll
    poll-early e early = rw (e, poll) (rw early)

  pub resume-cases :
      (s : Schedule)
      → ((s.draining_after_timeout ≡ true)
          × (resume world max_inflight operation_timeout round s ≡ s))
        ⊎ ((s.draining_after_timeout ≡ false)
            × (resume world max_inflight operation_timeout round s
                ≡ submit_until_full world max_inflight operation_timeout round s))
  unfolding resume
  resume-cases s = elim (Bool-cases s.draining_after_timeout) [
    | inl d ↦ inl (d, ground (arith, d))
    | inr go ↦ inr (go, ground (arith, go))
  ]

module _ (world : World) (max_inflight operation_timeout : ℕ) (symbols : List String) where
  pub start-IsAccounted :
      (round : ℕ) (symbol : String) (rest : List String) (s : Schedule)
      → s.pending ≡ symbol ∷ rest
      → length s.active < max_inflight
      → IsAccounted max_inflight symbols s
      → IsAccounted max_inflight symbols (start world round symbol rest s)
  unfolding start
  start-IsAccounted round symbol rest s e room inv =
      let counted : length (s.active ++ (symbol, world.started round symbol) ∷ [])
          ≡ length s.active + 1 =
        length-append s.active _ in
      record {
        each_once =
            start-perm (attempted s.results) s.active symbol _ rest (rw (← e) inv.each_once);
        running = omega (arith, counted);
        observed = ground (arith, counted);
        reported = (omega (arith, counted), inv.reported);
        done = inv.done;
        started = omega (arith, counted, inv.started);
        errors = inv.errors;
        timeouts = inv.timeouts;
      }

  pub submit_from-IsAccounted :
      (round : ℕ) (waiting : List String) (s : Schedule)
      → s.pending ≡ waiting
      → IsAccounted max_inflight symbols s
      → IsAccounted max_inflight symbols
          (submit_from world max_inflight operation_timeout round waiting s)
  unfolding submit_from start
  submit_from-IsAccounted round [] s e inv =
      elim (Bool-cases (not s.exhausted && ltb (length s.active) max_inflight)) [
        | inl go ↦ rw go (flagged-IsAccounted s _ _ _ _ inv)
        | inr stop ↦ rw stop inv
      ]
  submit_from-IsAccounted round (symbol ∷ rest) s e inv =
      elim (Bool-cases (not s.exhausted && ltb (length s.active) max_inflight)) [
        | inl go ↦ rw go (
            submit_from-IsAccounted round rest (start world round symbol rest s) refl
              (start-IsAccounted round symbol rest s e (ground (arith, go)) inv))
        | inr stop ↦ rw stop inv
      ]

  -- One worker is looked at: those before it that still run, it, and those after it.
  module _ (s : Schedule) (before : List (String × ℕ)) (symbol : String) (t : ℕ)
      (after : List (String × ℕ)) (running : s.active ≡ before ++ (symbol, t) ∷ after)
      (inv : IsAccounted max_inflight symbols s) where
    keys-Nodup : Nodup (keys (before ++ (symbol, t) ∷ after))
    keys-Nodup = rw (← running) (
        Nodup-left _ s.pending (
          Nodup-right (attempted s.results) _
            (Perm.nodup (Perm.symm inv.each_once) (unique-Nodup symbols))))

    removed : remove symbol s.active ≡ before ++ after
    removed = rw running (remove-middle symbol t before after keys-Nodup)

    fewer : length s.active ≡ length (before ++ after) + 1
    fewer =
        rw running
          (omega (arith, length-append before ((symbol, t) ∷ after), length-append before after))

    each_once_done :
        Perm
          (symbol ∷ (attempted s.results ++ (keys (remove symbol s.active) ++ s.pending)))
          (unique symbols)
    each_once_done = rw removed (
        done-perm (attempted s.results) before symbol t after s.pending
          (rw (← running) inv.each_once))

    symbol-attempt : (message : Message) → (attempt_from_message symbol message).symbol ≡ symbol
    symbol-attempt (fetched dataset) = refl
    symbol-attempt (failed error) = refl

    finish-IsAccounted :
        (message : Message) → IsAccounted max_inflight symbols (finish symbol message s)
    unfolding finish
    finish-IsAccounted message = record {
      each_once = rw (symbol-attempt message) each_once_done;
      running = rw removed (omega (arith, fewer, inv.running));
      observed = inv.observed;
      reported = (rw removed (omega (arith, fewer, inv.running)), inv.reported);
      done = omega (arith, inv.done);
      started = rw removed (omega (arith, fewer, inv.started));
      errors = ground (arith, inv.errors);
      timeouts = ground (arith, inv.timeouts);
    }

    give_up-IsAccounted : IsAccounted max_inflight symbols (give_up symbol s)
    unfolding give_up
    give_up-IsAccounted = record {
      each_once = each_once_done;
      running = rw removed (omega (arith, fewer, inv.running));
      observed = inv.observed;
      reported = (rw removed (omega (arith, fewer, inv.running)), inv.reported);
      done = omega (arith, inv.done);
      started = rw removed (omega (arith, fewer, inv.started));
      errors = omega (arith, inv.errors);
      timeouts = omega (arith, inv.timeouts);
    }

    active-finish : (message : Message) → (finish symbol message s).active ≡ before ++ after
    unfolding finish
    active-finish message = removed

    active-give_up : (give_up symbol s).active ≡ before ++ after
    unfolding give_up
    active-give_up = removed

    -- What a look at a worker does: the worker goes, or it waits on with time left.
    pub poll-IsAccounted :
        (round : ℕ)
        → IsAccounted max_inflight symbols
            (poll world max_inflight operation_timeout round symbol t s)
          × (((poll world max_inflight operation_timeout round symbol t s).active ≡ before ++ after)
              ⊎ (((poll world max_inflight operation_timeout round symbol t s).active
                    ≡ before ++ (symbol, t) ∷ after)
                  × (leb operation_timeout (world.now round symbol - t) ≡ false)))
    poll-IsAccounted round = elim (Option-cases (world.message round symbol)) [
      | inl silent ↦ elim (Bool-cases (leb operation_timeout (world.now round symbol - t))) [
        | inl late ↦
            rw (poll-late world max_inflight operation_timeout round symbol t s silent late)
              (give_up-IsAccounted, inl active-give_up)
        | inr early ↦
            rw (poll-early world max_inflight operation_timeout round symbol t s silent early)
              (inv, inr (running, early))
      ]
      | inr (message, there) ↦
          rw (poll-message world max_inflight operation_timeout round symbol t s there)
            (finish-IsAccounted message, inl (active-finish message))
    ]
