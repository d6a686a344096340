-- ===== src/Core/Forged.antt =====
-- primary/src/core.rs, `is_valid`: a Prepare with an empty timeout certificate.
use native.Mathlib.Nat.{mod-eq_of_lt}
use auto_pilot.Messages.Types.{
  some_tc, new_tc, no_timeouts, prepare, Slot, View, CommitQc, Proposals,
}
use auto_pilot.Messages.Winning.{get_winning_proposals}
use auto_pilot.Messages.Certificates.{verify_tc}
use auto_pilot.Core.State.{Node, Core, add_u64}
use auto_pilot.Core.Validity.{
  checked, check_tc, current_view, raise_view, may_vote, finish_prepare, is_valid,
}
use auto_pilot.Prelude.{
  ◌==◌, lt→ltb, ==_iff, nat_eq, pair_eq, contains, lookup, insert, lookup-insert, ◌+◌, ◌^◌, ◌<◌,
  ◌≡◌, refl, ap, ◌∙◌, true, false, Option, none, some, List,
}

check_tc-empty :
    (n : Node) (slot : Slot) (view : View) (proposals : Proposals)
    → view + 1 < 2 ^ 64
    → check_tc n (view + 1) (new_tc slot view no_timeouts) proposals ≡ some (checked true)
unfolding check_tc get_winning_proposals verify_tc
check_tc-empty n slot view proposals fits =
    let e : add_u64 view 1 ≡ view + 1 = mod-eq_of_lt fits in
    let same : (add_u64 view 1 == view + 1) ≡ true = (==_iff (add_u64 view 1) (view + 1)).1 e in
    rw same refl

raise_view-later :
    (s : Core) (slot : Slot) (view : View)
    → current_view s slot < view
    → raise_view s slot view ≡ record s { views = insert slot view s.views }
unfolding raise_view
raise_view-later s slot view later = rw (lt→ltb (current_view s slot) view later) refl

may_vote-here :
    (s : Core) (slot : Slot) (view : View)
    → contains {A = Slot × View} s.last_voted_consensus (slot, view) ≡ false
    → lookup slot s.views ≡ some view
    → may_vote s slot view true ≡ some (s, true)
unfolding may_vote
may_vote-here s slot view fresh here =
    let same : (view == view) ≡ true = (==_iff view view).1 refl in rw (fresh, here, same) refl

lookup-insert_same :
    (slot : Slot) (view : View) (views : List (Slot × View))
    → lookup slot (insert slot view views) ≡ some view
lookup-insert_same slot view views =
    let same : (slot == slot) ≡ true = (==_iff slot slot).1 refl in
    lookup-insert slot slot view views ∙ rw same refl

may_vote-raised :
    (s : Core) (slot : Slot) (view : View)
    → current_view s slot < view
    → contains {A = Slot × View} s.last_voted_consensus (slot, view) ≡ false
    → may_vote (raise_view s slot view) slot view true
      ≡ some (record s { views = insert slot view s.views }, true)
may_vote-raised s slot view later fresh =
    ap (λ t. may_vote t slot view true) (raise_view-later s slot view later)
    ∙ may_vote-here (record s { views = insert slot view s.views }) slot view fresh
        (lookup-insert_same slot view s.views)

-- A primary in an earlier view accepts a Prepare of any later view, with any proposals, on the strength
-- of a timeout certificate with no timeouts, and moves to that view.
pub is_valid_forged_tc :
    (n : Node) (s : Core) (slot : Slot) (view : View) (ticket : Option CommitQc)
    (proposals : Proposals)
    → view + 1 < 2 ^ 64
    → current_view s slot < view + 1
    → contains {A = Slot × View} s.last_voted_consensus (slot, view + 1) ≡ false
    → is_valid n s
        (prepare slot (view + 1) (some_tc (new_tc slot view no_timeouts)) ticket proposals none)
      ≡ some (record s { views = insert slot (view + 1) s.views }, true)
unfolding is_valid
is_valid_forged_tc n s slot view ticket proposals fits later fresh =
    ap (λ c. finish_prepare n s slot (view + 1) none c) (check_tc-empty n slot view proposals fits)
    ∙ may_vote-raised s slot (view + 1) later fresh
