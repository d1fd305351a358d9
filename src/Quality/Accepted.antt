-- ===== src/Quality/Accepted.antt =====
-- Which bars pass the gate, and that the report counts them.
use a_stock_lens.Base.{
  ◌-◌, ◌≡◌, refl, sym, ap, ◌∙◌, inl, inr, Bool, true, false, not, ◌&&◌, none, some, List, [], ◌∷◌,
  ◌++◌, String, length, length-keep-add, keep, any, any-append, any_of_mem, any-mem, is_nil, ◌==◌,
  arith, text_iff, text_refl, Memᴰ, mem-keep_of, &&-eq-true, ◌<◌, Bool-cases, Option-cases,
}
use a_stock_lens.Number.{Double, ◌≺◌, zero_float, IsOrdered}
use a_stock_lens.Domain.{Moment}
use a_stock_lens.Domain.Records.{DailyBar}
use a_stock_lens.Quality.{
  QualityIssue, NormalizedDataset, same_key, key_count, close_issues, volume_issues,
  duplicate_issues, bar_issues, all_issues, flagged_count, check, names_key, valid_bars,
}

length-mem {ℓ} : {A : Type ℓ} {x : A} (xs : List A) → Memᴰ x xs → 0 < length xs
length-mem [] m = elim m [ ]
length-mem (x ∷ xs) m = omega arith

-- A list of one item has one member.
same_member {ℓ} :
    {A : Type ℓ} {x y : A} (xs : List A) → length xs ≡ 1 → Memᴰ x xs → Memᴰ y xs → x ≡ y
same_member [] h m n = elim m [ ]
same_member (z ∷ []) h (Memᴰ.head e) (Memᴰ.head e') = e ∙ sym e'
same_member (z ∷ []) h (Memᴰ.head e) (Memᴰ.tail n) = elim n [ ]
same_member (z ∷ []) h (Memᴰ.tail m) n = elim m [ ]
same_member (z ∷ w ∷ xs) h m n = absurd (omega arith)

keep-same {ℓ} :
    {A : Type ℓ} (p q : A → Bool) (xs : List A)
    → ((x : A) → Memᴰ x xs → p x ≡ q x)
    → keep p xs ≡ keep q xs
keep-same p q [] h = refl
keep-same p q (x ∷ xs) h = rw (h x (Memᴰ.head refl), keep-same p q xs (λ y m. h y (Memᴰ.tail m)))

module _ ⦃d : Double⦄ where
  -- What a bar that passes is like: a positive close, no negative volume, and no other bar of the
  -- stock and the day.
  abbrev pub is_sound : List DailyBar → DailyBar → Bool
  is_sound bars b =
      (elim b.close [ none ↦ false | some c ↦ zero_float ≺ c ])
      && ((elim b.volume [ none ↦ true | some v ↦ not (v ≺ zero_float) ]) && key_count bars b == 1)

  -- Findings that all name the key of `b`.
  abbrev Names : DailyBar → DailyBar → List QualityIssue → Type 0
  Names b c l = any (names_key c) l ≡ (not (is_nil l) && same_key b c)

  is_nil-append : (l m : List QualityIssue) → is_nil (l ++ m) ≡ (is_nil l && is_nil m)
  is_nil-append [] m = refl
  is_nil-append (x ∷ l) m = refl

  Names-append :
      (b c : DailyBar) (l m : List QualityIssue) → Names b c l → Names b c m → Names b c (l ++ m)
  Names-append b c l m h k =
      rw (any-append (names_key c) l m, is_nil-append l m, h, k) (ground arith)

  close_issues-Names : (b c : DailyBar) → Names b c (close_issues b)
  unfolding close_issues
  close_issues-Names b c = ground arith

  volume_issues-Names : (b c : DailyBar) → Names b c (volume_issues b)
  unfolding volume_issues
  volume_issues-Names b c = ground arith

  duplicate_issues-Names :
      (bars : List DailyBar) (b c : DailyBar) → Names b c (duplicate_issues bars b)
  unfolding duplicate_issues
  duplicate_issues-Names bars b c = ground arith

  -- A finding on a bar names the key of the bar, and no other.
  bar_issues-Names : (bars : List DailyBar) (b c : DailyBar) → Names b c (bar_issues bars b)
  unfolding bar_issues
  bar_issues-Names bars b c = Names-append b c (close_issues b) _ (close_issues-Names b c) (
      Names-append b c (volume_issues b) (duplicate_issues bars b) (volume_issues-Names b c)
        (duplicate_issues-Names bars b c))

  same_key_refl : (b : DailyBar) → same_key b b ≡ true
  same_key_refl b = ground (arith, text_refl b.symbol)

  is_nil-close_issues :
      IsOrdered d
      → (b : DailyBar)
      → is_nil (close_issues b) ≡ elim b.close [ none ↦ false | some c ↦ zero_float ≺ c ]
  unfolding close_issues
  is_nil-close_issues o b = elim (Option-cases b.close) [
    | inl absent ↦ ground (arith, absent)
    | inr (c, there) ↦ ground (arith, there, o.lt-eq-not-le zero_float c)
  ]

  is_nil-volume_issues :
      (b : DailyBar)
      → is_nil (volume_issues b) ≡ elim b.volume [ none ↦ true | some v ↦ not (v ≺ zero_float) ]
  unfolding volume_issues
  is_nil-volume_issues b = ground arith

  is_nil-duplicate_issues :
      (bars : List DailyBar) (b : DailyBar)
      → Memᴰ b bars
      → is_nil (duplicate_issues bars b) ≡ (key_count bars b == 1)
  unfolding duplicate_issues
  is_nil-duplicate_issues bars b m = ground (
    arith,
    length-mem (keep (same_key b) bars) (mem-keep_of (same_key b) bars m (same_key_refl b)),
  )

  -- A bar without a finding is sound, and one with a finding is not.
  is_nil-bar_issues :
      IsOrdered d
      → (bars : List DailyBar) (b : DailyBar) → Memᴰ b bars
      → is_nil (bar_issues bars b) ≡ is_sound bars b
  unfolding bar_issues
  is_nil-bar_issues o bars b m =
      is_nil-append (close_issues b) _
      ∙ rw (
        is_nil-append (volume_issues b) (duplicate_issues bars b),
        is_nil-close_issues o b,
        is_nil-volume_issues b,
        is_nil-duplicate_issues bars b m,
      )

  -- The key of a bar is named by the findings exactly when some bar of that key has one.
  all_issues-any :
      (bars bs : List DailyBar) (c : DailyBar)
      → any (names_key c) (all_issues bars bs)
        ≡ any (λ b. not (is_nil (bar_issues bars b)) && same_key b c) bs
  unfolding all_issues
  all_issues-any bars [] c = refl
  all_issues-any bars (b ∷ bs) c =
      any-append (names_key c) (bar_issues bars b) (all_issues bars bs)
      ∙ rw (bar_issues-Names bars b c, all_issues-any bars bs c)

  same_key-sym : (b c : DailyBar) → same_key b c ≡ true → same_key c b ≡ true
  same_key-sym b c h = ground (arith, h, text_iff b.symbol c.symbol, text_iff c.symbol b.symbol)

  module _ (o : IsOrdered d) (bars : List DailyBar) where
    -- A sound bar is alone with its key, so no finding names it.
    sound-unnamed :
        (c : DailyBar)
        → Memᴰ c bars
        → is_sound bars c ≡ true
        → any (names_key c) (all_issues bars bars) ≡ false
    sound-unnamed c m good =
        elim (Bool-cases (any (λ b. not (is_nil (bar_issues bars b)) && same_key b c) bars)) [
          | inr none_names ↦ all_issues-any bars bars c ∙ none_names
          | inl some_names ↦
              let (b, m', h) = any-mem _ bars some_names in
              let (faulty, same) = &&-eq-true (not (is_nil (bar_issues bars b))) (same_key b c) h in
              let alone : key_count bars c ≡ 1 = ground (arith, good) in
              let b-c : b ≡ c =
                same_member (keep (same_key c) bars) alone
                  (mem-keep_of (same_key c) bars m' (same_key-sym b c same))
                  (mem-keep_of (same_key c) bars m (same_key_refl c)) in
              let clean : is_nil (bar_issues bars b) ≡ true =
                rw b-c (is_nil-bar_issues o bars c m ∙ good) in
              absurd (ground (arith, faulty, clean))
        ]

    unsound-named :
        (c : DailyBar)
        → Memᴰ c bars
        → is_sound bars c ≡ false
        → any (names_key c) (all_issues bars bars) ≡ true
    unsound-named c m bad =
        all_issues-any bars bars c
        ∙ any_of_mem _ bars m (rw (is_nil-bar_issues o bars c m ∙ bad, same_key_refl c))

    unnamed-eq_sound :
        (c : DailyBar)
        → Memᴰ c bars
        → not (any (names_key c) (all_issues bars bars)) ≡ is_sound bars c
    unnamed-eq_sound c m = elim (Bool-cases (is_sound bars c)) [
      | inl good ↦ rw (sound-unnamed c m good, good)
      | inr bad ↦ rw (unsound-named c m bad, bad)
    ]

    flagged_count-keep :
        (bs : List DailyBar)
        → ((b : DailyBar) → Memᴰ b bs → Memᴰ b bars)
        → flagged_count bars bs ≡ length (keep (λ b. not (is_sound bars b)) bs)
    unfolding flagged_count
    flagged_count-keep [] within = refl
    flagged_count-keep (b ∷ bs) within = ground (
      arith,
      is_nil-bar_issues o bars b (within b (Memᴰ.head refl)),
      flagged_count-keep bs (λ c m. within c (Memᴰ.tail m)),
    )

  accepted-keep :
      (o : IsOrdered d) (bars : List DailyBar)
      → length bars - flagged_count bars bars ≡ length (keep (is_sound bars) bars)
  accepted-keep o bars =
      omega (arith, flagged_count-keep o bars bars (λ b m. m), length-keep-add (is_sound bars) bars)

  judged :
      (o : IsOrdered d) (rules_version : String) (name : String) (at : Moment)
      (bars : List DailyBar)
      → let ds : NormalizedDataset = record { dataset = name; as_of = at; daily_bars = bars } in
        (valid_bars ds (check rules_version ds) ≡ keep (is_sound bars) bars)
        × ((check rules_version ds).accepted ≡ length (keep (is_sound bars) bars))
        × ((check rules_version ds).checked ≡ length bars)
  unfolding check valid_bars
  judged o rules_version name at [] = (refl, refl, refl)
  judged o rules_version name at (b ∷ bs) = (
    keep-same _ (is_sound (b ∷ bs)) (b ∷ bs) (unnamed-eq_sound o (b ∷ bs)),
    accepted-keep o (b ∷ bs),
    refl,
  )

  -- Among floats that are ordered, `valid_bars` returns exactly the bars with a positive close and no negative volume whose stock
  -- and day stand once in the dataset, in their order; and the report counts them, whatever the bars
  -- are.
  pub check-accepted :
      (o : IsOrdered d) (rules_version : String) (ds : NormalizedDataset)
      → (valid_bars ds (check rules_version ds) ≡ keep (is_sound ds.daily_bars) ds.daily_bars)
        × ((check rules_version ds).accepted ≡ length (valid_bars ds (check rules_version ds)))
        × ((check rules_version ds).checked ≡ length ds.daily_bars)
  check-accepted o rules_version ds =
      let (bars, count, all) = judged o rules_version ds.dataset ds.as_of ds.daily_bars in
      (bars, count ∙ ap length (sym bars), all)
