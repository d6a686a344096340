-- ===== src/Tests/Rounds.antt =====
-- The theorems on timeouts, views and coordination reports (primary/src/core.rs and
-- primary/src/messages.rs) at a concrete primary.
use auto_pilot.Crypto.{verify, PublicKey}
use auto_pilot.Config.Committee
use auto_pilot.Messages.Types.{
  Proposals, Qc, StateReport, AggregateReport, ConsensusMessage, Tc, Timeout, default_header,
  confirm, commit, new_tc, no_timeouts, cons_timeout, new_timeout, no_message, some_message,
}
use auto_pilot.Messages.Digests.{timeout_digest}
use auto_pilot.Messages.Certificates.{verify_timeout}
use auto_pilot.Core.Leader.{get_leader}
use auto_pilot.Messages.Winning.{get_winning_proposals}
use auto_pilot.Messages.Recovery.{
  append_timeouts, get_winning_proposals-commit, get_winning_proposals-first_confirm,
}
use auto_pilot.Messages.Reports.{verify_aggregate}
use auto_pilot.Messages.Coordination.{IsCoordinated, verify_aggregate_iff}
use auto_pilot.Aggregators.{append_timeout, new_tc_maker, new_votes}
use auto_pilot.Core.State.{Core, Node}
use auto_pilot.Core.ViewChange.{handle_timeout}
use auto_pilot.Tests.{toy, four}
use auto_pilot.Prelude.{
  nat_eq, pair_eq, lookup, insert, contains_key, ok, ℕ, ◌+◌, ◌≡◌, refl, ◌↔◌, true, false, none,
  some, [], ◌∷◌, arith,
}

-- A primary at its start, with ride sharing.
abbrev pub idle : Core
idle = record {
  current_header = default_header;
  sent_cert_to_proposer = false;
  votes_aggregator = new_votes;
  current_proposal_tips = [];
  current_certified_tips = [];
  consensus_instances = [];
  views = [];
  timers = [];
  last_voted_consensus = [];
  high_proposals = [];
  high_qcs = [];
  qc_makers = [];
  current_qcs_formed = 0;
  tc_makers = [];
  prepare_tickets = [];
  already_proposed_slots = [];
  timeout_delay = 5000;
  committed_slots = [];
  use_fast_path = true;
  use_optimistic_tips = true;
  use_parallel_proposals = true;
  k = 4;
  last_used_k = 8;
  k_transition_end_slot = some 20;
  fast_path_timeout = 100;
  use_ride_share = true;
  car_timeout = 100;
  cut_condition_type = 3;
  use_exponential_timeouts = true;
  epoch_slots = 10;
  applied_begin = 3;
  state_reports = [];
  active_collection_timers = [];
  pending_aggregate_reports = [];
  certifiable_aggregate_reports = [];
  certified_aggregate_epochs = [];
  aggregated_epochs = [];
  collection_timeout_ms = 200;
  last_committed_slot = 0;
  window_size = 5;
  last_triggered_slot = 0;
  last_voted = [];
  out = [];
}

abbrev pub first_node : Node
first_node = record { name = 1; committee = four; dalek = toy; sign = λ d. d + 1 }

-- The timeout of the authority `k` for slot 3 and view 1.
abbrev timeout_of : PublicKey → Timeout
timeout_of k = new_timeout 3 1 no_message no_message k k

abbrev after_one : Core
after_one = (handle_timeout first_node (timeout_of 1) idle).0

abbrev after_two : Core
after_two = (handle_timeout first_node (timeout_of 2) after_one).0

-- The third timeout moves slot 3 to view 2.
after_three-views : (handle_timeout first_node (timeout_of 3) after_two).0.views ≡ (3, 2) ∷ []
unfolding handle_timeout lookup contains_key verify_timeout Committee.stake Committee.new verify
    timeout_digest append_timeout new_tc_maker Committee.quorum_threshold Committee.total_votes
    insert get_leader Committee.size
after_three-views = refl

abbrev tips : ℕ → Proposals
tips h = (1, record { header_digest = h; height = h }) ∷ []

abbrev no_qc : Qc
no_qc = record { id = 0; votes = [] }

-- A timeout of view 5 whose high QC is the given message.
abbrev holding : PublicKey → ConsensusMessage → Timeout
holding k m = new_timeout 3 5 (some_message m) no_message k k

get_winning_proposals-commit_example :
    get_winning_proposals toy four (
      new_tc 3 5 (
        append_timeouts
          (cons_timeout (holding 1 (confirm 3 4 no_qc (tips 1) none)) no_timeouts)
          (cons_timeout (holding 2 (commit 3 2 no_qc (tips 2) none)) no_timeouts)))
    ≡ tips 2
get_winning_proposals-commit_example =
    get_winning_proposals-commit toy four 3 5
      (cons_timeout (holding 1 (confirm 3 4 no_qc (tips 1) none)) no_timeouts) no_timeouts 3 3 5 2
      no_qc (tips 2) none no_message 2 2 (tt, tt)

-- The Confirm of view 1 wins over the one of view 4.
get_winning_proposals-first_confirm_example :
    get_winning_proposals toy four (
      new_tc 3 5 (
        cons_timeout
          (holding 1 (confirm 3 1 no_qc (tips 1) none))
          (cons_timeout (holding 2 (confirm 3 4 no_qc (tips 2) none)) no_timeouts)))
    ≡ tips 1
get_winning_proposals-first_confirm_example =
    get_winning_proposals-first_confirm toy four 3 5 3 3 5 1 no_qc (tips 1) none no_message 1 1
      (cons_timeout (holding 2 (confirm 3 4 no_qc (tips 2) none)) no_timeouts) (ground arith) tt
      (ground arith, tt, tt)

abbrev two_holders : Tc
two_holders = new_tc 3 5 (
    cons_timeout (holding 1 (confirm 3 1 no_qc (tips 1) none))
      (cons_timeout (holding 2 (confirm 3 4 no_qc (tips 2) none)) no_timeouts))

abbrev report_of : PublicKey → StateReport
report_of k = record { epoch = 0; state = []; author = k; signature = k }

abbrev two_reports : AggregateReport
two_reports = record { epoch = 0; reports = report_of 1 ∷ report_of 2 ∷ [] }

abbrev epoch_zero : ℕ
epoch_zero = 0

verify_aggregate_iff_example :
    (verify_aggregate toy four two_reports epoch_zero ≡ ok tt)
    ↔ ((two_reports.epoch ≡ epoch_zero) × IsCoordinated toy four two_reports)
verify_aggregate_iff_example = verify_aggregate_iff toy four two_reports epoch_zero
