-- ===== src/Core/Views.antt =====
-- primary/src/core.rs, `handle_timeout`: the views before and after a timeout.
use auto_pilot.Prelude.{
  ltb, ◌==◌, ==_iff, Bool-cases, nat_eq, pair_eq, IsDistinct, lookup, insert, contains_key,
  lookup-insert, ok, err, ℕ, ◌+◌, ◌^◌, ◌≤◌, ◌<◌, ◌≡◌, refl, ◌⊎◌, inl, inr, true, false, Option,
  none, some, List, arith,
}
use native.Mathlib.Nat.{mod-eq_of_lt}
use auto_pilot.Config.Committee
use auto_pilot.Config.Stakes.{IsValid, weight}
use auto_pilot.Messages.Errors.{DagResult}
use auto_pilot.Messages.Types.{
  View, Slot, Tc, Timeout, tc_slot, tc_view, tc_timeouts, timeout_slot, timeout_view,
  timeout_authors,
}
use auto_pilot.Messages.Certificates.{verify_timeout}
use auto_pilot.Aggregators.{TcMaker, new_tc_maker, append_timeout}
use auto_pilot.Aggregators.Expiry.{Inv, Counts, append_timeout-Counts, new_tc_maker-Inv}
use auto_pilot.Core.State.{Node, Core, add_u64, get_or}
use auto_pilot.Core.ViewChange.{
  is_stale, generate_prepare_from_tc, send_consensus_req, after_timeout, enter_view, add_timeout,
  once_verified, handle_timeout,
}

-- `*self.views.get(slot).unwrap_or(&0)`.
abbrev pub view_of : Core → Slot → View
view_of s slot = get_or 0 (lookup slot s.views)

-- Every maker has the invariant of `TCMaker`.
pub record HasMakers (n : Node) (s : Core) : Type 0 where
  pub makers :
      (key : Slot × View) (m : TcMaker)
      → lookup key s.tc_makers ≡ some m
      → (spent : ℕ) × Inv n.committee m spent

views-generate : (n : Node) (tc : Tc) (s : Core) → (generate_prepare_from_tc n tc s).views ≡ s.views
unfolding generate_prepare_from_tc send_consensus_req
views-generate n tc s = ground arith

-- A timeout leaves the views as they are, or it completes a quorum for its slot and view, and moves
-- the slot to the next view.
abbrev pub Moves : Node → Timeout → Core → Core → Type 0
Moves n t s s' =
    (s'.views ≡ s.views)
    ⊎ ((s'.views ≡ insert (timeout_slot t) (add_u64 (timeout_view t) 1) s.views)
        × ((tc : Tc) × (tc_slot tc ≡ timeout_slot t)
            × (tc_view tc ≡ timeout_view t)
            × IsDistinct (timeout_authors (tc_timeouts tc))
            × (Committee.quorum_threshold n.committee
                ≤ weight n.committee (timeout_authors (tc_timeouts tc)))))

after_timeout-Moves :
    (n : Node) (t : Timeout) (m : TcMaker) (spent : ℕ) (r : TcMaker × DagResult (Option Tc))
    (s : Core)
    → Counts n.committee m spent t r
    → Moves n t s (after_timeout n t r.1 s).0
unfolding after_timeout
after_timeout-Moves n t m spent (m', ok (some tc)) s h =
    inr (views-generate n tc (enter_view t tc s), (tc, h.1, h.2, h.4, omega arith))
after_timeout-Moves n t m spent (m', ok none) s h = inl refl
after_timeout-Moves n t m spent (m', err e) s h = inl refl

pub maker_or_new :
    (n : Node) (s : Core) (key : Slot × View) (o : Option TcMaker)
    → lookup key s.tc_makers ≡ o
    → HasMakers n s
    → (spent : ℕ) × Inv n.committee (get_or new_tc_maker o) spent
maker_or_new n s key none e h = (0, new_tc_maker-Inv n.committee)
maker_or_new n s key (some m) e h = h.makers key m e

add_timeout-Moves :
    (n : Node) (t : Timeout) (s : Core)
    → IsValid n.committee
    → HasMakers n s
    → Moves n t s (add_timeout n t s).0
unfolding add_timeout
add_timeout-Moves n t s v h =
    let key : Slot × View = (timeout_slot t, timeout_view t) in
    let o = lookup key s.tc_makers in
    let (spent, i) = maker_or_new n s key o refl h in
    let r = append_timeout (get_or new_tc_maker o) t n.committee in
    after_timeout-Moves n t (get_or new_tc_maker o) spent r
      (record s { tc_makers = insert key r.0 s.tc_makers })
      (append_timeout-Counts n.committee (get_or new_tc_maker o) spent t v i)

after_checks :
    (n : Node) (t : Timeout) (s : Core) (r : DagResult (Unit {0}))
    → IsValid n.committee
    → HasMakers n s
    → Moves n t s (once_verified n t s r).0
unfolding once_verified
after_checks n t s (ok _) v h = add_timeout-Moves n t s v h
after_checks n t s (err _) v h = inl refl

pub handle_timeout-Moves :
    (n : Node) (t : Timeout) (s : Core)
    → s.use_ride_share ≡ true
    → IsValid n.committee
    → HasMakers n s
    → ((handle_timeout n t s).0.views ≡ s.views)
      ⊎ ((is_stale s (timeout_slot t) (timeout_view t) ≡ false)
          × Moves n t s (handle_timeout n t s).0)
unfolding handle_timeout
handle_timeout-Moves n t s _ v h =
    elim (Bool-cases (is_stale s (timeout_slot t) (timeout_view t))) [
      | inl e ↦ inl (rw e refl)
      | inr e ↦ elim (Bool-cases (contains_key (timeout_slot t) s.committed_slots)) [
        | inl c ↦ inl (simp (e, c))
        | inr c ↦ inr (e, rw (e, c) (after_checks n t s (verify_timeout n.dalek n.committee t) v h))
      ]
    ]

ltb_false→le : (a b : ℕ) → ltb a b ≡ false → b ≤ a
ltb_false→le a b e = ground arith

view-not_stale :
    (o : Option View) (v : View)
    → elim o [ none ↦ false | some w ↦ ltb v w ] ≡ false
    → get_or 0 o ≤ v
view-not_stale none v e = omega arith
view-not_stale (some w) v e = ltb_false→le v w e

pub view-insert :
    (m : List (Slot × View)) (a b : Slot) (w : View)
    → get_or 0 (lookup a m) ≤ w
    → get_or 0 (lookup b m) ≤ get_or 0 (lookup b (insert a w m))
view-insert m a b w h = elim (Bool-cases (b == a)) [
  | inl e ↦ (let b≡a = (==_iff b a).0 e in rw (lookup-insert a b w m, e, b≡a) h)
  | inr e ↦ rw (lookup-insert a b w m, e) (omega arith)
]

next_view : (v : View) → v + 1 < 2 ^ 64 → add_u64 v 1 ≡ v + 1
next_view v h = mod-eq_of_lt h

-- With ride sharing, a timeout whose next view fits a `u64` never lowers the view of any slot.
pub view_of-handle_timeout :
    (n : Node) (t : Timeout) (s : Core) (slot : Slot)
    → s.use_ride_share ≡ true
    → IsValid n.committee
    → HasMakers n s
    → timeout_view t + 1 < 2 ^ 64
    → view_of s slot ≤ view_of (handle_timeout n t s).0 slot
view_of-handle_timeout n t s slot ride v h fits = elim (handle_timeout-Moves n t s ride v h) [
  | inl e ↦ rw e (omega arith)
  | inr (fresh, inl e) ↦ rw e (omega arith)
  | inr (fresh, inr (e, _)) ↦
      (rw (e, next_view (timeout_view t) fits)
        (view-insert s.views (timeout_slot t) slot (timeout_view t + 1) (
          let l = view-not_stale (lookup (timeout_slot t) s.views) (timeout_view t) fresh in
          omega arith)))
]
