-- ===== src/Calendar/Nearest.antt =====
-- How both searches end: with the nearest trading day, without one in 60 days, or at the end of the dates.
use a_stock_lens.Base.{
  ℕ, zero, suc, ◌+◌, ◌-◌, ◌≤◌, ◌<◌, ◌≡◌, refl, ap, ◌∙◌, subst, ◌⊎◌, inl, inr, true, false, leb,
  Bool-cases, arith,
}
use a_stock_lens.Base.Raise.{Result, ok, raised}
use a_stock_lens.Calendar.{
  ChinaTradingCalendar, is_trade_date, look_back, get_latest_trade_date, look_ahead, first_date,
  last_date, out_of_range, get_next_trade_date,
}

module _ (calendar : ChinaTradingCalendar) where
  -- From one day to another there is no trading day.
  abbrev pub NoneFrom : ℕ → ℕ → Type 0
  NoneFrom first last = (day : ℕ) → first ≤ day → day ≤ last → is_trade_date calendar day ≡ false

  widen_down :
      (first last : ℕ)
      → is_trade_date calendar first ≡ false
      → NoneFrom (first + 1) last
      → NoneFrom first last
  widen_down first last shut closed day h k = elim (Bool-cases (leb (first + 1) day)) [
    | inl later ↦ closed day (ground arith) k
    | inr same ↦ subst (λ x. is_trade_date calendar x ≡ false) (ground (arith, same, h)) shut
  ]

  widen_up :
      (first last : ℕ)
      → is_trade_date calendar (last + 1) ≡ false
      → NoneFrom first last
      → NoneFrom first (last + 1)
  widen_up first last shut closed day h k = elim (Bool-cases (leb day last)) [
    | inl sooner ↦ closed day h (ground arith)
    | inr same ↦ subst (λ x. is_trade_date calendar x ≡ false) (ground (arith, same, k)) shut
  ]

  -- How the search backwards from a day ends, with the rounds that are left there.
  abbrev pub EndsBack : (target rounds current : ℕ) → Result ℕ → Type 0
  EndsBack target rounds current result =
      ((r : ℕ) × (result ≡ ok r)
        × (r ≤ current)
        × (current < r + rounds)
        × (is_trade_date calendar r ≡ true)
        × NoneFrom (r + 1) target)
      ⊎ (((result ≡ ok target) × (rounds < current) × NoneFrom (current + 1 - rounds) target)
          ⊎ ((result ≡ raised out_of_range) × (current ≤ rounds) × NoneFrom first_date target))

  look_back-nearest :
      (target rounds current : ℕ)
      → 1 ≤ current
      → NoneFrom (current + 1) target
      → EndsBack target rounds current (look_back calendar target rounds current)
  unfolding look_back
  look_back-nearest target zero current dated closed =
      inr (inl (refl, dated, λ day h k. closed day (omega (arith, h)) k))
  look_back-nearest target (suc rounds) current dated closed =
      elim (Bool-cases (is_trade_date calendar current)) [
        | inl found ↦ inl (current, rw found, omega arith, omega arith, found, closed)
        | inr shut ↦ elim (Bool-cases (leb current 1)) [
          | inl first ↦ inr (
              inr (
                rw (shut, first),
                ground (arith, first),
                λ day h k. widen_down current target shut closed day (ground (arith, first, h)) k,
              ))
          | inr later ↦
              rw (shut, later)
                (farther (ground (arith, later)) (
                  look_back-nearest target rounds (current - 1) (ground (arith, later)) (λ day h k.
                    widen_down current target shut closed day (ground (arith, later, h)) k)))
        ]
      ]
    where
      farther :
          2 ≤ current
          → {result : Result ℕ} → EndsBack target rounds (current - 1) result
          → EndsBack target (suc rounds) current result
      farther far (inl (r, e, h, k, found, none_there)) =
          inl (r, e, omega (arith, h), omega (arith, k, far), found, none_there)
      farther far (inr (inl (e, h, none_there))) =
          inr (inl (e, omega (arith, h), λ day k l. none_there day (omega (arith, k, far)) l))
      farther far (inr (inr (e, h, none_there))) = inr (inr (e, omega (arith, h), none_there))

  -- How the search forwards ends.
  abbrev pub EndsAhead : (target rounds current : ℕ) → Result ℕ → Type 0
  EndsAhead target rounds current result =
      ((r : ℕ) × (result ≡ ok r)
        × (current ≤ r)
        × (r < current + rounds)
        × (is_trade_date calendar r ≡ true)
        × NoneFrom (target + 1) (r - 1))
      ⊎ (((result ≡ ok (current + rounds))
            × (current + rounds ≤ last_date)
            × NoneFrom (target + 1) (current + rounds - 1))
          ⊎ ((result ≡ raised out_of_range)
              × (last_date < current + rounds)
              × NoneFrom (target + 1) last_date))

  look_ahead-nearest :
      (target rounds current : ℕ)
      → target ≤ current
      → current < last_date
      → NoneFrom (target + 1) current
      → EndsAhead target rounds (current + 1) (look_ahead calendar rounds (current + 1))
  unfolding look_ahead
  look_ahead-nearest target zero current above dated closed =
      inr (
        inl (ap ok (omega arith), omega (arith, dated), λ day h k. closed day h (omega (arith, k))))
  look_ahead-nearest target (suc rounds) current above dated closed =
      elim (Bool-cases (is_trade_date calendar (current + 1))) [
        | inl found ↦ inl (
          current + 1,
          rw found,
          omega arith,
          omega arith,
          found,
          λ day h k. closed day h (omega (arith, k)),
        )
        | inr shut ↦ elim (Bool-cases (leb last_date (current + 1))) [
          | inl last ↦ inr (
              inr (
                rw (shut, last),
                ground (arith, last),
                λ day h k.
                    widen_up (target + 1) current shut closed day h (ground (arith, dated, k)),
              ))
          | inr sooner ↦
              rw (shut, sooner)
                (farther (
                  look_ahead-nearest target rounds (current + 1) (omega (arith, above))
                    (ground (arith, sooner)) (widen_up (target + 1) current shut closed)))
        ]
      ]
    where
      farther :
          {result : Result ℕ}
          → EndsAhead target rounds (current + 1 + 1) result
          → EndsAhead target (suc rounds) (current + 1) result
      farther (inl (r, e, h, k, found, none_there)) =
          inl (r, e, omega (arith, h), omega (arith, k), found, none_there)
      farther (inr (inl (e, h, none_there))) = inr (
          inl (
            e ∙ ap ok (omega arith),
            omega (arith, h),
            λ day k l. none_there day k (omega (arith, l)),
          ))
      farther (inr (inr (e, h, none_there))) = inr (inr (e, omega (arith, h), none_there))

  -- For every date: the latest trading day is one of the date and the 59 days before it, with none
  -- behind it up to the date; or none of these 60 days is one, and the date itself is returned; or
  -- there is none back to the first date there is, which is at most 59 days away, and the search
  -- raises. The next trading day is one of the 60 days after the date, with none between; or none of
  -- them is one, and the day behind them is returned; or there is none up to the last date there is,
  -- which is at most 60 days away, and the search raises.
  pub get_trade_dates-nearest :
      (target : ℕ)
      → first_date ≤ target
      → target ≤ last_date
      → EndsBack target 60 target (get_latest_trade_date calendar target)
        × EndsAhead target 60 (target + 1) (get_next_trade_date calendar target)
  unfolding get_latest_trade_date get_next_trade_date
  get_trade_dates-nearest target dated within = (
    look_back-nearest target 60 target dated (λ day h k. absurd (omega (arith, h, k))),
    elim (Bool-cases (leb last_date target)) [
      | inl last ↦
          inr (inr (rw last, ground (arith, last), λ day h k. absurd (ground (arith, last, h, k))))
      | inr sooner ↦ rw sooner (
          look_ahead-nearest target 60 target (omega arith) (ground (arith, sooner))
            (λ day h k. absurd (omega (arith, h, k))))
    ],
  )
