-- ===== src/Bootstrap/Scheduler/Rounds.antt =====
-- What every round of the scheduler keeps.
use mathlib.Core.List.{append-nil, append_assoc}
use mathlib.Core.List.Perm
use a_stock_lens.Base.{
  ℕ, zero, suc, ◌≡◌, refl, sym, subst, ◌∙◌, inl, inr, ◌-◌, All-append, false, some, List, [], ◌∷◌,
  ◌++◌, String, leb, All, All-each, is_nil, eq_nil, arith, Bool-cases,
}
use a_stock_lens.Bootstrap.Scheduler.{
  World, Schedule, submit_until_full, poll, poll_all, settle, resume, round_of, run, initial,
}
use a_stock_lens.Bootstrap.Scheduler.Accounts.{
  IsAccounted, flagged-IsAccounted, poll-IsAccounted, resume-cases, submit_from-IsAccounted,
}

module _ (world : World) (max_inflight operation_timeout : ℕ) (symbols : List String) where
  -- A worker that is left after a round had time left when it was looked at.
  abbrev pub HasTime : ℕ → String × ℕ → Type 0
  HasTime round w = leb operation_timeout (world.now round w.0 - w.1) ≡ false

  pub poll_all-IsAccounted :
      (Q : String × ℕ → Type 0) (round : ℕ) (before after : List (String × ℕ)) (s : Schedule)
      → s.active ≡ before ++ after
      → All (λ w. HasTime round w × Q w) before
      → All Q after
      → IsAccounted max_inflight symbols s
      → IsAccounted max_inflight symbols
          (poll_all world max_inflight operation_timeout round after s)
        × All
            (λ w. HasTime round w × Q w)
            (poll_all world max_inflight operation_timeout round after s).active
  unfolding poll_all
  poll_all-IsAccounted Q round before [] s e b a inv = (inv, rw (e, append-nil before) b)
  poll_all-IsAccounted Q round before ((symbol, t) ∷ after) s e b a inv =
      let s' = poll world max_inflight operation_timeout round symbol t s in
      let (inv', left) =
        poll-IsAccounted world max_inflight operation_timeout symbols s before symbol t after e inv
          round in
      elim left [
        | inl gone ↦ poll_all-IsAccounted Q round before after s' gone b a.1 inv'
        | inr (stays, early) ↦
            poll_all-IsAccounted Q round (before ++ (symbol, t) ∷ []) after s'
              (stays ∙ sym (append_assoc before ((symbol, t) ∷ []) after))
              (All-append _ before _ b ((early, a.0), tt)) a.1 inv'
      ]

  pub settle-IsAccounted :
      (s : Schedule)
      → IsAccounted max_inflight symbols s
      → IsAccounted max_inflight symbols (settle s)
  unfolding settle
  settle-IsAccounted s inv = flagged-IsAccounted s _ _ _ _ inv

  pub submit_until_full-IsAccounted :
      (round : ℕ) (s : Schedule)
      → IsAccounted max_inflight symbols s
      → IsAccounted max_inflight symbols
          (submit_until_full world max_inflight operation_timeout round s)
  unfolding submit_until_full
  submit_until_full-IsAccounted round s inv =
      submit_from-IsAccounted world max_inflight operation_timeout symbols round s.pending s refl
        inv

  resume-IsAccounted :
      (round : ℕ) (s : Schedule)
      → IsAccounted max_inflight symbols s
      → IsAccounted max_inflight symbols (resume world max_inflight operation_timeout round s)
  resume-IsAccounted round s inv =
      elim (resume-cases world max_inflight operation_timeout round s) [
        | inl (d, e) ↦ rw e inv
        | inr (go, e) ↦ rw e (submit_until_full-IsAccounted round s inv)
      ]

  pub round_of-IsAccounted :
      (round : ℕ) (s : Schedule)
      → IsAccounted max_inflight symbols s
      → IsAccounted max_inflight symbols (round_of world max_inflight operation_timeout round s)
  unfolding round_of
  round_of-IsAccounted round s inv = resume-IsAccounted round _ (
      settle-IsAccounted _
        (poll_all-IsAccounted (λ w. Unit) round [] s.active _ refl tt
          (All-each s.active (λ a m. tt)) (flagged-IsAccounted s _ _ _ _ inv)).0)

  pub initial-IsAccounted : IsAccounted max_inflight symbols (initial symbols)
  unfolding initial
  initial-IsAccounted = record {
    each_once = Perm.rfl;
    running = omega arith;
    observed = omega arith;
    reported = tt;
    done = refl;
    started = omega arith;
    errors = omega arith;
    timeouts = omega arith;
  }

  -- The invariant holds of what the loop returns, and no worker runs then.
  pub run-IsAccounted :
      (fuel round : ℕ) (s : Schedule) {r : Schedule}
      → IsAccounted max_inflight symbols s
      → run world max_inflight operation_timeout fuel round s ≡ some r
      → IsAccounted max_inflight symbols r × (r.active ≡ [])
  unfolding run
  run-IsAccounted zero round s inv h = cc
  run-IsAccounted (suc fuel) round s inv h = elim (Bool-cases (is_nil s.active)) [
    | inl stop ↦
        subst (λ x. IsAccounted max_inflight symbols x × (x.active ≡ [])) (cc (rw stop at h))
          (inv, eq_nil s.active stop)
    | inr go ↦ run-IsAccounted fuel (suc round) _ (round_of-IsAccounted round s inv) (rw go at h)
  ]
