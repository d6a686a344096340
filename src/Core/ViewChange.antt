-- ===== src/Core/ViewChange.antt =====
-- primary/src/core.rs: timeouts and the change of view (`local_timeout_round`, `handle_timeout`,
-- `generate_prepare_from_tc`).
use auto_pilot.Crypto.{default}
use auto_pilot.Messages.Errors.{DagResult}
use auto_pilot.Messages.Types.{
  View, Slot, Proposals, ConsensusMessage, OptionTc, Tc, Timeout, tc_slot, tc_view, timeout_slot,
  timeout_view, from_option, prepare, no_tc, some_tc, new_timeout,
}
use auto_pilot.Messages.Digests.{timeout_digest}
use auto_pilot.Messages.Certificates.{verify_timeout}
use auto_pilot.Messages.Winning.{get_winning_proposals}
use auto_pilot.Aggregators.{new_tc_maker, append_timeout}
use auto_pilot.Core.Leader.{get_leader}
use auto_pilot.Core.Slots.{epoch_index_for_slot}
use auto_pilot.Core.State.{
  Node, Core, start_timer, send_timeout, send_info, send_request, set_insert, emit, add_u64, get_or,
}
use auto_pilot.Prelude.{
  ltb, ◌==◌, if◌then◌else◌, nat_eq, pair_eq, contains, lookup, insert, contains_key, ok, err, ℕ,
  ◌-◌, ◌*◌, ◌/◌, ◌^◌, Bool, true, false, not, ◌&&◌, ◌||◌, Option, none, some, [], ◌∷◌, ◌++◌,
}

-- `2.0_f64.powi((view - 1) as i32)` times the delay, cast to `u64`: exact for a view up to 2^31 and a
-- delay below 2^53, where the cast saturates. For view 0 the exponent wraps to -1.
unfoldable pub backed_off : ℕ → View → ℕ
backed_off delay view =
    let long = delay * 2 ^ (view - 1) in
    if view == 0 then delay / 2 else if ltb long (2 ^ 64) then long else 2 ^ 64 - 1

unfoldable pub calculate_timeout : Core → Slot → View → ℕ
calculate_timeout s slot view =
    if ltb 4 slot && s.use_exponential_timeouts
    then backed_off s.timeout_delay view
    else s.timeout_delay

-- `self.name == leader`; an empty committee, for which the source panics, has no leader.
abbrev pub is_leader : Node → Slot → View → Bool
is_leader n slot view = elim (get_leader n.committee slot view) [
  | none ↦ false
  | some l ↦ n.name == l
]

-- The tips that a new Prepare proposes.
abbrev pub current_tips : Core → Proposals
current_tips s = if s.use_optimistic_tips then s.current_proposal_tips else s.current_certified_tips

abbrev no_tc? : OptionTc → Bool
no_tc? no_tc = true
no_tc? (some_tc _) = false

abbrev no_proposals? : Proposals → Bool
no_proposals? [] = true
no_proposals? (_ ∷ _) = false

-- `set_consensus_proposal`.
unfoldable pub set_consensus_proposal : Node → Core → ConsensusMessage → ConsensusMessage
set_consensus_proposal n s (prepare slot view tc ticket proposals report) =
    if no_tc? tc || no_proposals? proposals
    then prepare slot view tc ticket
        (insert n.name
          (record { header_digest = s.current_header.id; height = s.current_header.height })
          (current_tips s))
        report
    else prepare slot view tc ticket proposals report
set_consensus_proposal n s m = m

-- `send_consensus_req` sends the message with its proposals set. The processing of the primary's own
-- request, which ends it in the source, stands apart: Tally makes it for the messages that votes form,
-- and for a Prepare (no ride sharing) it is an event of its own.
unfoldable pub send_consensus_req : Node → ConsensusMessage → Core → Core
unfolding set_consensus_proposal
send_consensus_req n m s = emit s (send_request (set_consensus_proposal n s m))

-- A message to the proposer or, without ride sharing, to the other primaries.
abbrev pub share : Node → ConsensusMessage → Core → Core
share n m s = if s.use_ride_share then emit s (send_info m) else send_consensus_req n m s

unfoldable pub generate_prepare_from_tc : Node → Tc → Core → Core
generate_prepare_from_tc n tc s =
    let view = add_u64 (tc_view tc) 1 in
    let report = lookup (epoch_index_for_slot s (tc_slot tc)) s.pending_aggregate_reports in
    let m =
      prepare (tc_slot tc) view (some_tc tc) none (get_winning_proposals n.dalek n.committee tc)
        report in
    if is_leader n (tc_slot tc) view then share n m s else s

-- The next view and its timer.
abbrev pub enter_view : Timeout → Tc → Core → Core
enter_view t tc s =
    let next = add_u64 (tc_view tc) 1 in
    record s {
      views = insert (timeout_slot t) (add_u64 (timeout_view t) 1) s.views;
      timers = set_insert {A = Slot × View} (tc_slot tc, next) s.timers;
      out = s.out ++ start_timer (tc_slot tc) next (calculate_timeout s (tc_slot tc) next) ∷ [];
    }

-- `handle_timeout` once the maker has answered.
unfoldable pub after_timeout :
    Node → Timeout → DagResult (Option Tc) → Core → Core × DagResult (Unit {0})
unfolding generate_prepare_from_tc
after_timeout n t (ok (some tc)) s = (generate_prepare_from_tc n tc (enter_view t tc s), ok tt)
after_timeout n t (ok none) s = (s, ok tt)
after_timeout n t (err e) s = (s, err e)

-- `timeout.view < *view`, for a slot with a view.
abbrev pub is_stale : Core → Slot → View → Bool
is_stale s slot view = elim (lookup slot s.views) [ none ↦ false | some v ↦ ltb view v ]

-- The part of `handle_timeout` after its checks.
unfoldable pub add_timeout : Node → Timeout → Core → Core × DagResult (Unit {0})
unfolding after_timeout
add_timeout n t s =
    let key : Slot × View = (timeout_slot t, timeout_view t) in
    let (maker, result) =
      append_timeout (get_or new_tc_maker (lookup key s.tc_makers)) t n.committee in
    after_timeout n t result (record s { tc_makers = insert key maker s.tc_makers })

-- `timeout.verify(&self.committee)?` and what follows it.
unfoldable pub once_verified :
    Node → Timeout → Core → DagResult (Unit {0}) → Core × DagResult (Unit {0})
unfolding add_timeout
once_verified n t s (ok _) = add_timeout n t s
once_verified n t s (err e) = (s, err e)

unfoldable pub handle_timeout : Node → Timeout → Core → Core × DagResult (Unit {0})
unfolding once_verified
handle_timeout n t s =
    if is_stale s (timeout_slot t) (timeout_view t)
    then (s, ok tt)
    else if contains_key (timeout_slot t) s.committed_slots
    then (s, ok tt)
    else once_verified n t s (verify_timeout n.dalek n.committee t)

-- The timeout that a primary signs for a slot and view.
unfoldable pub own_timeout : Node → Slot → View → Core → Timeout
own_timeout n slot view s =
    let unsigned =
      new_timeout slot view (from_option (lookup slot s.high_qcs))
        (from_option (lookup slot s.high_proposals)) n.name default in
    new_timeout slot view (from_option (lookup slot s.high_qcs))
      (from_option (lookup slot s.high_proposals)) n.name (n.sign (timeout_digest n.dalek unsigned))

unfoldable pub local_timeout_round : Node → Slot → View → Core → Core × DagResult (Unit {0})
unfolding own_timeout handle_timeout
local_timeout_round n slot view s =
    if not (contains s.timers (slot, view))
    then (s, ok tt)
    else if is_stale s slot view
    then (s, ok tt)
    else if contains_key slot s.committed_slots
    then (s, ok tt)
    else (let t = own_timeout n slot view s in handle_timeout n t (emit s (send_timeout t)))
