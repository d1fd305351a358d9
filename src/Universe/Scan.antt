-- ===== src/Universe/Scan.antt =====
-- The loop over the sorted profiles: which stocks it includes, and what it says of the others.
use mathlib.Core.List.{Nodup, Nodup-cons, Nodup-nil}
use mathlib.Core.Logic.{∥∥₁_elim}
use mathlib.Core.HLevel.{⊥_prop}
use a_stock_lens.Base.{
  ◌≡◌, refl, sym, ◌∙◌, ◌⊎◌, inl, inr, true, false, List, [], ◌∷◌, String, any, any-append, is_nil,
  contains, text_refl, Memᴰ, mem-cons, ||-true, arith, Bool-cases,
}
use a_stock_lens.Universe.{SecurityProfile, UniverseExclusion, scan}
use a_stock_lens.Universe.Exclusions.{names, Tells}

module _ (evaluation : SecurityProfile → List UniverseExclusion) where
  included-unseen :
      {s : String} (seen : List String) (ps : List SecurityProfile)
      → Memᴰ s (scan evaluation seen ps).included
      → contains seen s ≡ false
  unfolding scan
  included-unseen seen [] m = elim m [ ]
  included-unseen {s} seen (p ∷ ps) m = elim (Bool-cases (contains seen p.symbol)) [
    | inl again ↦ included-unseen seen ps (rw again at m)
    | inr new ↦ elim (Bool-cases (is_nil (evaluation p))) [
      | inl good ↦ elim (mem-cons (rw (new, good) at m)) [
        | inl e ↦ rw e new
        | inr n ↦ unseen_before (included-unseen (p.symbol ∷ seen) ps n)
      ]
      | inr bad ↦ unseen_before (included-unseen (p.symbol ∷ seen) ps (rw (new, bad) at m))
    ]
  ]
    where
      unseen_before : contains (p.symbol ∷ seen) s ≡ false → contains seen s ≡ false
      unseen_before h = ground (arith, h)

  pub scan-Nodup :
      (seen : List String) (ps : List SecurityProfile) → Nodup (scan evaluation seen ps).included
  unfolding scan
  scan-Nodup seen [] = Nodup-nil
  scan-Nodup seen (p ∷ ps) = elim (Bool-cases (contains seen p.symbol)) [
    | inl again ↦ rw again (scan-Nodup seen ps)
    | inr new ↦ elim (Bool-cases (is_nil (evaluation p))) [
      | inl good ↦
          rw (new, good)
            (Nodup-cons.1 (
              λ m. ∥∥₁_elim m ⊥_prop (λ m'.
                  ground (arith, included-unseen (p.symbol ∷ seen) ps m', text_refl p.symbol)),
              scan-Nodup (p.symbol ∷ seen) ps,
            ))
      | inr bad ↦ rw (new, bad) (scan-Nodup (p.symbol ∷ seen) ps)
    ]
  ]

  -- What is included is a profile that fails no rule.
  pub scan-included :
      {s : String} (seen : List String) (ps : List SecurityProfile)
      → Memᴰ s (scan evaluation seen ps).included
      → (p : SecurityProfile) × Memᴰ p ps × (p.symbol ≡ s) × (is_nil (evaluation p) ≡ true)
  unfolding scan
  scan-included seen [] m = elim m [ ]
  scan-included {s} seen (p ∷ ps) m = elim (Bool-cases (contains seen p.symbol)) [
    | inl again ↦ farther (scan-included seen ps (rw again at m))
    | inr new ↦ elim (Bool-cases (is_nil (evaluation p))) [
      | inl good ↦ elim (mem-cons (rw (new, good) at m)) [
        | inl e ↦ (p, Memᴰ.head refl, sym e, good)
        | inr n ↦ farther (scan-included (p.symbol ∷ seen) ps n)
      ]
      | inr bad ↦ farther (scan-included (p.symbol ∷ seen) ps (rw (new, bad) at m))
    ]
  ]
    where
      farther :
          (q : SecurityProfile) × Memᴰ q ps × (q.symbol ≡ s) × (is_nil (evaluation q) ≡ true)
          → (q : SecurityProfile) × Memᴰ q (p ∷ ps)
            × (q.symbol ≡ s)
            × (is_nil (evaluation q) ≡ true)
      farther (q, m', e, good) = (q, Memᴰ.tail m', e, good)

  -- No profile is passed over: it is included, or an exclusion names it.
  module _ (tells : (p : SecurityProfile) → Tells p.symbol (evaluation p)) where
    pub scan-told :
        {q : SecurityProfile} (seen : List String) (ps : List SecurityProfile)
        → Memᴰ q ps
        → Memᴰ q.symbol (scan evaluation seen ps).included
          ⊎ (any (names q.symbol) (scan evaluation seen ps).excluded ≡ true)
    unfolding scan
    scan-told seen [] m = elim m [ ]
    scan-told {q} seen (p ∷ ps) (Memᴰ.head e) = rw e (elim (Bool-cases (contains seen p.symbol)) [
      | inl again ↦ rw again (inr (rw (text_refl p.symbol)))
      | inr new ↦ elim (Bool-cases (is_nil (evaluation p))) [
        | inl good ↦ rw (new, good) (inl (Memᴰ.head refl))
        | inr bad ↦
            rw (new, bad)
              (inr (
                rw (
                  any-append (names p.symbol) (evaluation p)
                      (scan evaluation (p.symbol ∷ seen) ps).excluded,
                  tells p,
                  bad,
                )))
      ]
    ])
    scan-told {q} seen (p ∷ ps) (Memᴰ.tail m) = elim (Bool-cases (contains seen p.symbol)) [
      | inl again ↦ rw again (elim (scan-told seen ps m) [
        | inl i ↦ inl i
        | inr x ↦ inr (rw (x, ||-true (names q.symbol _)))
      ])
      | inr new ↦ elim (Bool-cases (is_nil (evaluation p))) [
        | inl good ↦
            rw (new, good)
              (elim (scan-told (p.symbol ∷ seen) ps m) [
                | inl i ↦ inl (Memᴰ.tail i)
                | inr x ↦ inr x
              ])
        | inr bad ↦
            rw (new, bad)
              (elim (scan-told (p.symbol ∷ seen) ps m) [
                | inl i ↦ inl i
                | inr x ↦ inr (
                    any-append (names q.symbol) (evaluation p) _
                    ∙ rw (x, ||-true (any (names q.symbol) (evaluation p))))
              ])
      ]
    ]
