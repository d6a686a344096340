-- ===== src/Tests/Voting.antt =====
-- The theorems on Prepare tickets, accepted messages and votes (primary/src/core.rs) at a concrete
-- primary.
use auto_pilot.Messages.Types.{ConsensusMessage, prepare, no_tc, some_tc, new_tc, no_timeouts}
use auto_pilot.Core.State.{Core, add_u64, get_or}
use auto_pilot.Config.Committee
use auto_pilot.Core.Leader.{get_leader}
use auto_pilot.Core.ViewChange.{current_tips}
use auto_pilot.Core.Tickets.{is_prepare_ticket_ready, try_prepare_waiting_slots}
use auto_pilot.Core.Proposing.{Waits, Starts, is_prepare_ticket_ready_cases, ticket_proposals}
use auto_pilot.Core.Queue.{IsOnce, try_prepare_waiting_slots-IsOnce}
use auto_pilot.Core.Coverage.{Covers, try_prepare_waiting_slots_returns}
use auto_pilot.Core.Validity.{is_valid, current_view}
use auto_pilot.Core.Accepted.{IsVotable, is_valid-IsVotable, is_valid-current_view}
use auto_pilot.Core.Voting.{process_prepare_message, Ballot}
use auto_pilot.Core.Ballots.{Run, start, vote, IsUnrepeated, Run-IsUnrepeated}
use auto_pilot.Core.Forged.{is_valid_forged_tc}
use auto_pilot.Tests.Rounds.{idle, first_node}
use auto_pilot.Prelude.{
  nat_eq, pair_eq, All, lookup, insert, contains_key, ◌+◌, ◌≤◌, ◌<◌, ◌≡◌, refl, ◌⊎◌, true, none,
  some, List, [], ◌∷◌, arith,
}

-- The Prepare of slot 2, whose ticket lets the authority 1 lead slot 3.
abbrev ticket : ConsensusMessage
ticket = prepare 2 1 no_tc none ((1, record { header_digest = 4; height = 2 }) ∷ []) none

-- A primary with a new tip, one waiting ticket, and a cut of one tip.
abbrev eager : Core
eager = record idle {
  cut_condition_type = 1;
  current_proposal_tips = (1, record { header_digest = 5; height = 3 }) ∷ [];
  prepare_tickets = ticket ∷ [];
}

abbrev eager_after : Core
eager_after = get_or idle (is_prepare_ticket_ready first_node eager ticket)

eager-ready : is_prepare_ticket_ready first_node eager ticket ≡ some eager_after
unfolding is_prepare_ticket_ready get_leader Committee.new Committee.size
eager-ready = refl

is_prepare_ticket_ready_cases_example :
    Waits eager eager_after
    ⊎ Starts first_node eager (ticket_proposals ticket) (add_u64 2 1) eager_after
is_prepare_ticket_ready_cases_example =
    is_prepare_ticket_ready_cases first_node eager eager_after ticket refl eager-ready

-- Slot 3 is proposed.
eager_after-proposed : eager_after.already_proposed_slots ≡ 3 ∷ []
unfolding is_prepare_ticket_ready get_leader Committee.new Committee.size
eager_after-proposed = refl

abbrev eager_run : Core
eager_run = get_or idle (try_prepare_waiting_slots first_node eager)

eager-runs : try_prepare_waiting_slots first_node eager ≡ some eager_run
unfolding try_prepare_waiting_slots get_leader Committee.new Committee.size
eager-runs = refl

try_prepare_waiting_slots-IsOnce_example : IsOnce eager eager_run
try_prepare_waiting_slots-IsOnce_example =
    try_prepare_waiting_slots-IsOnce first_node eager eager_run refl tt eager-runs

eager-covered : All (Covers (current_tips eager)) eager.prepare_tickets
unfolding contains_key
eager-covered = ((refl, tt), tt)

try_prepare_waiting_slots_returns_example :
    (s' : Core) × (try_prepare_waiting_slots first_node eager ≡ some s')
try_prepare_waiting_slots_returns_example =
    try_prepare_waiting_slots_returns first_node eager refl eager-covered

abbrev first_prepare : ConsensusMessage
first_prepare = prepare 1 1 no_tc none [] none

abbrev accepting : Core
accepting = record idle { views = (1, 1) ∷ [] }

first-accepted : is_valid first_node idle first_prepare ≡ some (accepting, true)
unfolding is_valid
first-accepted = refl

is_valid-IsVotable_example : IsVotable idle accepting 1 1
is_valid-IsVotable_example =
    is_valid-IsVotable first_node idle accepting 1 1 no_tc none [] none first-accepted

is_valid-current_view_example : current_view idle 1 ≤ current_view accepting 1
is_valid-current_view_example =
    is_valid-current_view first_node idle accepting first_prepare true 1 first-accepted

abbrev voting : Core × List Ballot
voting = get_or (idle, []) (process_prepare_message first_node accepting first_prepare)

first-voted : process_prepare_message first_node accepting first_prepare ≡ some voting
unfolding process_prepare_message get_leader Committee.new Committee.size
first-voted = refl

abbrev first_run : Run first_node idle ((1, 1) ∷ []) voting.0
first_run = vote idle accepting 1 1 no_tc none [] none voting.1 start first-accepted first-voted

Run-IsUnrepeated_example : IsUnrepeated ((1, 1) ∷ [])
Run-IsUnrepeated_example = Run-IsUnrepeated first_run

early : current_view idle 6 < 8 + 1
unfolding lookup
early = omega arith

is_valid_forged_tc_example :
    is_valid first_node idle (prepare 6 9 (some_tc (new_tc 6 8 no_timeouts)) none [] none)
    ≡ some (record idle { views = (6, 9) ∷ [] }, true)
unfolding insert
is_valid_forged_tc_example =
    is_valid_forged_tc first_node idle 6 8 none [] (ground arith) early refl
