-- ===== src/Tests/Tallies.antt =====
-- The theorems on votes, requests and state reports (primary/src/core.rs) at a concrete primary.
use auto_pilot.Prelude.{
  nat_eq, pair_eq, contains, lookup, ok, err, ◌+◌, ◌<◌, ◌≡◌, refl, ◌⊎◌, true, false, none, some, [],
  ◌∷◌, arith,
}
use auto_pilot.Crypto.{Digest, le_bytes, verify}
use auto_pilot.Config.Committee
use auto_pilot.Config.Stakes.{full_stake, masked}
use auto_pilot.Messages.Errors.{DagError, DagResult}
use auto_pilot.Messages.Types.{
  Slot, Proposals, StateReport, ConsensusMessage, Vote, ConsensusVote, prepare, no_tc,
}
use auto_pilot.Messages.Digests.{report_digest, digest, prepare_digest}
use auto_pilot.Messages.Verify.{verify_request}
use auto_pilot.Aggregators.Cars.{new_votes-Inv}
use auto_pilot.Synchronizer.{StoreView, SyncState, new_synchronizer}
use auto_pilot.Core.State.{Core, get_or}
use auto_pilot.Core.Tally.{process_vote, process_consensus_vote}
use auto_pilot.Core.Phases.{HasQcMakers, Advances, process_consensus_vote-Advances}
use auto_pilot.Core.HandOver.{HandsOver, process_vote-HandsOver}
use auto_pilot.Core.Requests.{World, WorldHandler, process_own_request, process_consensus_request}
use auto_pilot.Core.Overwritten.{process_consensus_request_overwrites}
use auto_pilot.Core.Collection.{handle_state_report, expire_collection_timer}
use auto_pilot.Core.Collected.{IsCollected, handle_state_report-IsCollected}
use auto_pilot.Core.Expiring.{Expires, expire_collection_timer-Expires}
use auto_pilot.Tests.{toy, four, four-IsValid}
use auto_pilot.Tests.Rounds.{idle, first_node}

abbrev own_prepare : ConsensusMessage
own_prepare = prepare 1 1 no_tc none [] none

abbrev own_digest : Digest
own_digest = prepare_digest toy 1 1 none

-- A primary that proposed slot 1.
abbrev leading : Core
leading = record idle { consensus_instances = ((1, own_digest), own_prepare) ∷ [] }

leading-HasQcMakers : HasQcMakers first_node leading
unfolding lookup
leading-HasQcMakers = record { makers = λ key m e. absurd (ground arith) }

-- The vote of the authority 2 for it.
abbrev second_vote : ConsensusVote
second_vote = record { author = 2; slot = 1; digest = own_digest; sig = own_digest + 2 }

abbrev empty_store : StoreView
empty_store = record {
  header_of = λ _. ok none;
  has_batch = λ _ _. ok false;
  has_tip = λ _. ok false;
}

abbrev lanes : SyncState
lanes = new_synchronizer 1 four true

abbrev keep_world : Core → World
keep_world s = (s, lanes)

-- The own requests are processed, three calls deep.
abbrev own_request : ConsensusMessage → Core → WorldHandler (Unit {0})
own_request m s = process_own_request 3 first_node empty_store m (s, lanes)

abbrev counted : World × DagResult (Unit {0})
counted =
    get_or ((idle, lanes), ok tt)
      (process_consensus_vote keep_world own_request first_node second_vote false leading)

second_vote-counted :
    process_consensus_vote keep_world own_request first_node second_vote false leading
    ≡ some (counted.0, counted.1)
unfolding process_consensus_vote prepare_digest le_bytes verify Committee.fast_threshold
    Committee.total_votes Committee.new Committee.stake Committee.quorum_threshold
second_vote-counted = refl

four-staked : 0 < full_stake four
unfolding Committee.new masked
four-staked = ground arith

process_consensus_vote-Advances_example :
    (counted.0 ≡ keep_world leading)
    ⊎ ((inst : ConsensusMessage) × (lookup {K = Slot × Digest}
            (1, own_digest)
            leading.consensus_instances
          ≡ some inst)
        × Advances keep_world own_request first_node
            (1, own_digest)
            inst
            leading
            counted.0
            counted.1)
process_consensus_vote-Advances_example =
    process_consensus_vote-Advances keep_world own_request first_node second_vote false leading
      counted.0 counted.1 four-IsValid four-staked leading-HasQcMakers second_vote-counted

-- A vote for the header of the primary that also votes for its Prepare.
abbrev header_vote : Vote
header_vote = record {
  id = idle.current_header.id;
  origin = 1;
  height = 0;
  author = 2;
  signature = 2;
  consensus_votes = (1, own_digest, own_digest + 2) ∷ [];
}

process_vote-HandsOver_example :
    HandsOver four leading (process_vote first_node header_vote false leading).0
process_vote-HandsOver_example =
    process_vote-HandsOver first_node header_vote false leading four-IsValid (new_votes-Inv four)

abbrev intruding : Proposals
intruding = (1, record { header_digest = 7; height = 9 }) ∷ []

-- The author of the request is no authority.
intruder-refused :
    verify_request toy four
      (record { author = 9; message = prepare 1 1 no_tc none intruding none; sig = 0 })
    ≡ err (DagError.unknown_authority 9)
unfolding verify_request Committee.stake Committee.new
intruder-refused = refl

process_consensus_request_overwrites_example :
    (s' : Core) × (process_consensus_request
        (process_own_request 3 first_node empty_store)
        first_node
        empty_store
        (record { author = 9; message = prepare 1 1 no_tc none intruding none; sig = 0 })
        (leading, lanes)
      ≡ some ((s', lanes), err (DagError.unknown_authority 9)))
    × (lookup {K = Slot × Digest} (1, digest toy own_prepare) s'.consensus_instances
        ≡ some (prepare 1 1 no_tc none intruding none))
process_consensus_request_overwrites_example =
    process_consensus_request_overwrites (process_own_request 3 first_node empty_store) first_node
      empty_store 9 0 1 1 no_tc no_tc none none intruding [] none (DagError.unknown_authority 9)
      leading lanes refl intruder-refused

idle-IsCollected : IsCollected first_node idle
unfolding lookup
idle-IsCollected = record {
  reports = λ epoch rs e. absurd (ground arith);
  pending = λ epoch r e. absurd (ground arith);
}

abbrev some_report : StateReport
some_report = record { epoch = 4; state = []; author = 2; signature = 2 }

handle_state_report-IsCollected_example :
    IsCollected first_node (handle_state_report first_node some_report idle)
handle_state_report-IsCollected_example =
    handle_state_report-IsCollected first_node some_report idle idle-IsCollected

-- A primary that three authorities have reported to.
abbrev reported : Core
reported =
    handle_state_report first_node (record some_report { author = 4; signature = 4 })
      (handle_state_report first_node (record some_report { author = 3; signature = 3 })
        (handle_state_report first_node some_report idle))

reported-IsCollected : IsCollected first_node reported
reported-IsCollected =
    handle_state_report-IsCollected first_node (record some_report { author = 4; signature = 4 }) _
      (handle_state_report-IsCollected first_node (record some_report { author = 3; signature = 3 })
        _ (handle_state_report-IsCollected first_node some_report idle idle-IsCollected))

reported-open : contains reported.aggregated_epochs 4 ≡ false
unfolding handle_state_report Committee.stake Committee.new verify report_digest le_bytes
reported-open = refl

expire_collection_timer-Expires_example :
    Expires first_node 4 reported (expire_collection_timer first_node 4 reported)
expire_collection_timer-Expires_example =
    expire_collection_timer-Expires first_node 4 reported reported-IsCollected reported-open
