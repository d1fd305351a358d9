-- ===== src/Watchlist/Path.antt =====
-- Which moves `transition` accepts, and what it makes of them.
use a_stock_lens.Base.{
  ℕ, ◌≤◌, ◌≡◌, refl, sym, ap, ◌∙◌, ◌↔◌, true, false, Option, some, [], ◌∷◌, ◌++◌, String, arith,
}
use a_stock_lens.Domain.{
  WatchlistState, discovered, watch, deep_research, track_signal, Moment, aware, naive,
}
use a_stock_lens.Watchlist.{
  WatchlistEntry, ok, transition, is_reserved, member, allowed_transitions, earlier, require_aware,
}

-- The path that the design confirms, one arrow at a time.
pub data Next : WatchlistState → WatchlistState → Type 0 where
  to_watch : Next discovered watch
  to_research : Next watch deep_research
  to_signal : Next deep_research track_signal

-- Both moments are aware, and the second is not before the first.
pub data InOrder : Moment → Moment → Type 0 where
  in_order : {w u w' u' : ℕ} → u ≤ u' → InOrder (aware w u) (aware w' u')

abbrev pub moved : WatchlistEntry → WatchlistState → Moment → Option String → WatchlistEntry
moved entry to at note = record entry {
  state = to;
  updated_at = at;
  timeline =
      entry.timeline
      ++ record { at = at; to_state = to; from_state = some entry.state; note = note } ∷ [];
}

member-Next : (s to : WatchlistState) → member to (allowed_transitions s) ≡ true → Next s to
unfolding allowed_transitions
member-Next discovered watch h = to_watch
member-Next watch deep_research h = to_research
member-Next deep_research track_signal h = to_signal
member-Next _ _ h = cc

Next-member :
    {s to : WatchlistState}
    → Next s to
    → (member to (allowed_transitions s) ≡ true) × (is_reserved to ≡ false)
unfolding allowed_transitions
Next-member to_watch = (refl, refl)
Next-member to_research = (refl, refl)
Next-member to_signal = (refl, refl)

pub ok-injective : {a b : WatchlistEntry} → ok a ≡ ok b → a ≡ b
ok-injective h = cc

transition-InOrder :
    (entry : WatchlistEntry) (to : WatchlistState) (at last : Moment) (remark : Option String)
    {after : WatchlistEntry}
    → entry.updated_at ≡ last
    → transition entry to at remark ≡ ok after
    → InOrder last at
unfolding transition
transition-InOrder entry to (aware w u) (aware w' u') remark e h = in_order (ground arith)
transition-InOrder entry to (aware w u) (naive w') remark e h = absurd (ground arith)
transition-InOrder entry to (naive w) last remark e h = absurd (ground arith)

transition-moved :
    (entry : WatchlistEntry) (to : WatchlistState) (at : Moment) (remark : Option String)
    {after : WatchlistEntry}
    → transition entry to at remark ≡ ok after
    → (member to (allowed_transitions entry.state) ≡ true) × (after ≡ moved entry to at remark)
unfolding transition earlier require_aware
transition-moved entry to at remark h = ground arith

moved-transition :
    (entry : WatchlistEntry) (to : WatchlistState) (at last : Moment) (remark : Option String)
    → entry.updated_at ≡ last
    → InOrder last at
    → (member to (allowed_transitions entry.state) ≡ true) × (is_reserved to ≡ false)
    → transition entry to at remark ≡ ok (moved entry to at remark)
unfolding transition
moved-transition entry to at last remark e (in_order h) m = ground arith

-- `transition` succeeds exactly when the new state is the next one of the confirmed path and the
-- move is stamped by an aware moment that is not before the last one; then the entry has the new
-- state and stamp and one more event, and is otherwise the old one.
pub transition-ok_iff :
    (entry : WatchlistEntry) (to : WatchlistState) (at : Moment) (remark : Option String)
    (after : WatchlistEntry)
    → (transition entry to at remark ≡ ok after)
      ↔ (Next entry.state to × InOrder entry.updated_at at × (after ≡ moved entry to at remark))
transition-ok_iff entry to at remark after = (
  λ h.
      let (allowed, made) = transition-moved entry to at remark h in
      (member-Next entry.state to allowed, transition-InOrder entry to at _ remark refl h, made),
  λ (next, order, made).
      moved-transition entry to at _ remark refl order (Next-member next) ∙ ap ok (sym made),
)
