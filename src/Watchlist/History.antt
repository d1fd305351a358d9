-- ===== src/Watchlist/History.antt =====
-- What every entry reached from `open_entry` by accepted transitions satisfies.
use a_stock_lens.Base.{
  ℕ, suc, ◌≤◌, ◌≡◌, refl, sym, ap, subst, ◌∙◌, false, Option, none, some, List, [], ◌∷◌, ◌++◌,
  String, arith, length, length-append,
}
use a_stock_lens.Domain.{
  WatchlistState, discovered, watch, deep_research, track_signal, Moment, aware, naive,
}
use a_stock_lens.Watchlist.{
  WatchlistEntry, WatchlistTimelineEvent, ok, open_entry, transition, is_reserved, require_aware,
}
use a_stock_lens.Watchlist.Path.{
  Next, to_watch, to_research, to_signal, InOrder, in_order, transition-ok_iff, ok-injective,
}

-- A timeline that starts with the creation, whose events follow the path, each stamped no earlier
-- than the one before it; with the state and the stamp of the last event.
pub data History (created : Moment)
    : List WatchlistTimelineEvent → WatchlistState → Moment → Type 0 where
  begin :
      {es : List WatchlistTimelineEvent} (ev : WatchlistTimelineEvent)
      → InOrder created created
      → ev.at ≡ created
      → ev.from_state ≡ none
      → ev.to_state ≡ discovered
      → es ≡ ev ∷ []
      → History created es discovered created
  then :
      {es es' : List WatchlistTimelineEvent} {s s' : WatchlistState} {last at : Moment}
      (ev : WatchlistTimelineEvent)
      → History created es s last
      → Next s s'
      → InOrder last at
      → ev.at ≡ at
      → ev.from_state ≡ some s
      → ev.to_state ≡ s'
      → es' ≡ es ++ ev ∷ []
      → History created es' s' at

-- The timeline explains the state, and the entry was not changed before its last event.
pub record IsTracked (entry : WatchlistEntry) : Type 0 where
  pub last : Moment
  pub history : History entry.created_at entry.timeline entry.state last
  pub in_time : InOrder last entry.updated_at

pub InOrder-trans : {a b c : Moment} → InOrder a b → InOrder b c → InOrder a c
InOrder-trans (in_order h) (in_order k) = in_order (omega arith)

InOrder-self : {a b : Moment} → InOrder a b → InOrder b b
InOrder-self (in_order h) = in_order (omega arith)

abbrev opened :
    String → ℕ → ℕ → Option String → List String → List String → List String → WatchlistEntry
opened symbol w u thesis questions risks waiting = record {
  symbol = symbol;
  state = discovered;
  created_at = aware w u;
  updated_at = aware w u;
  thesis = thesis;
  key_questions = questions;
  risk_conditions = risks;
  waiting_for = waiting;
  timeline =
      record { at = aware w u; to_state = discovered; from_state = none; note = some "discovered" }
      ∷ [];
}

pub open_entry-IsTracked :
    (symbol : String) (at : Moment) (thesis : Option String) (questions risks waiting : List String)
    {entry : WatchlistEntry}
    → open_entry symbol at thesis questions risks waiting ≡ ok entry
    → IsTracked entry
unfolding open_entry require_aware
open_entry-IsTracked symbol (aware w u) thesis questions risks waiting h =
    let start = opened symbol w u thesis questions risks waiting in
    let made : ok start ≡ ok _ = h in
    subst IsTracked (ok-injective made) (record {
      last = aware w u;
      history = begin _ (in_order (omega arith)) refl refl refl refl;
      in_time = in_order (omega arith);
    })
open_entry-IsTracked symbol (naive w) thesis questions risks waiting h = cc

pub transition-IsTracked :
    (entry : WatchlistEntry) (to : WatchlistState) (at : Moment) (remark : Option String)
    {after : WatchlistEntry}
    → IsTracked entry
    → transition entry to at remark ≡ ok after
    → IsTracked after
transition-IsTracked entry to at remark {after} tracked h =
    let (next, order, made) = (transition-ok_iff entry to at remark after).0 h in
    subst IsTracked (sym made) (record {
      last = at;
      history =
          then _ tracked.history next (InOrder-trans tracked.in_time order) refl refl refl refl;
      in_time = InOrder-self order;
    })

-- Accepted transitions, one after another.
pub data Reach (start : WatchlistEntry) : WatchlistEntry → ℕ → Type 0 where
  here : Reach start start 0
  move :
      {before after : WatchlistEntry} {n : ℕ} (to : WatchlistState) (at : Moment)
      (remark : Option String)
      → Reach start before n
      → transition before to at remark ≡ ok after
      → Reach start after (suc n)

pub Reach-IsTracked :
    {start entry : WatchlistEntry} {n : ℕ} → IsTracked start → Reach start entry n → IsTracked entry
Reach-IsTracked tracked here = tracked
Reach-IsTracked tracked (move to at remark r h) =
    transition-IsTracked _ to at remark (Reach-IsTracked tracked r) h

-- How far along the path a state stands, counted in events; the reserved ones stand nowhere.
abbrev pub depth : WatchlistState → ℕ
depth discovered = 1
depth watch = 2
depth deep_research = 3
depth track_signal = 4
depth _ = 0

Next-depth : {s s' : WatchlistState} → Next s s' → depth s' ≡ suc (depth s)
Next-depth to_watch = refl
Next-depth to_research = refl
Next-depth to_signal = refl

Next-depth_bound : {s s' : WatchlistState} → Next s s' → depth s' ≤ 4
Next-depth_bound to_watch = omega arith
Next-depth_bound to_research = omega arith
Next-depth_bound to_signal = omega arith

Next-is_reserved : {s s' : WatchlistState} → Next s s' → is_reserved s' ≡ false
Next-is_reserved to_watch = refl
Next-is_reserved to_research = refl
Next-is_reserved to_signal = refl

History-length :
    {created last : Moment} {es : List WatchlistTimelineEvent} {s : WatchlistState}
    → History created es s last
    → length es ≡ depth s
History-length (begin ev order stamped opens first made) = ap length made
History-length (then {es = es} ev h next order stamped from to made) =
    ap length made ∙ length-append es _ ∙ omega (arith, History-length h, Next-depth next)

History-InOrder :
    {created last : Moment} {es : List WatchlistTimelineEvent} {s : WatchlistState}
    → History created es s last
    → InOrder created last
History-InOrder (begin ev order stamped opens first made) = order
History-InOrder (then ev h next order stamped from to made) =
    InOrder-trans (History-InOrder h) order

History-depth :
    {created last : Moment} {es : List WatchlistTimelineEvent} {s : WatchlistState}
    → History created es s last
    → (1 ≤ depth s) × (depth s ≤ 4) × (is_reserved s ≡ false)
History-depth (begin ev order stamped opens first made) = (omega arith, omega arith, refl)
History-depth (then ev h next order stamped from to made) =
    (omega (arith, Next-depth next), Next-depth_bound next, Next-is_reserved next)

-- Whatever transitions are accepted after an entry was opened: its history follows the confirmed
-- path, its state is not a reserved one, it has as many events as its state is deep (at most four),
-- and its last change is not before its creation.
pub lifecycle :
    (symbol : String) (at : Moment) (thesis : Option String) (questions risks waiting : List String)
    (start entry : WatchlistEntry) (n : ℕ)
    → open_entry symbol at thesis questions risks waiting ≡ ok start
    → Reach start entry n
    → IsTracked entry
      × (is_reserved entry.state ≡ false)
      × (length entry.timeline ≡ depth entry.state)
      × (length entry.timeline ≤ 4)
      × InOrder entry.created_at entry.updated_at
lifecycle symbol at thesis questions risks waiting start entry n opened r =
    let tracked : IsTracked entry =
      Reach-IsTracked (open_entry-IsTracked symbol at thesis questions risks waiting opened) r in
    let (low, high, active) = History-depth tracked.history in
    let count = History-length tracked.history in
    (
      tracked,
      active,
      count,
      omega (arith, count, high),
      InOrder-trans (History-InOrder tracked.history) tracked.in_time,
    )
