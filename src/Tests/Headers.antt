-- ===== src/Tests/Headers.antt =====
-- The theorem on votes for headers (primary/src/core.rs) at a concrete primary.
use auto_pilot.Crypto.{be_bytes, le_bytes}
use auto_pilot.Config.Committee
use auto_pilot.Messages.Errors.{DagResult}
use auto_pilot.Messages.Types.{Proposal, Header, default_certificate, default_header}
use auto_pilot.Messages.Digests.{header_digest}
use auto_pilot.Synchronizer.{StoreView, SyncState, new_synchronizer}
use auto_pilot.Core.State.{Core, get_or}
use auto_pilot.Core.Requests.{World}
use auto_pilot.Core.Headers.{process_header}
use auto_pilot.Core.VotesOnce.{IsVotedOnce, process_header-IsVotedOnce}
use auto_pilot.Tests.{toy, four}
use auto_pilot.Tests.Rounds.{idle, first_node}
use auto_pilot.Prelude.{nat_eq, pair_eq, ok, ◌≡◌, refl, true, false, none, some, [], ◌∷◌}

-- The first header of the authority 2, over its genesis header.
abbrev second_header : Header
second_header = record default_header {
  author = 2;
  height = 1;
  id = 9;
  parent_cert = record default_certificate {
    author = 2;
    header_digest = header_digest toy (record default_header { author = 2 });
  };
}

abbrev no_tip : Proposal
no_tip = record { header_digest = 0; height = 0 }

-- A primary that knows the lane of the authority 2.
abbrev listening : Core
listening = record idle {
  current_proposal_tips = (2, no_tip) ∷ [];
  current_certified_tips = (2, no_tip) ∷ [];
}

abbrev all_stored : StoreView
all_stored = record { header_of = λ _. ok none; has_batch = λ _ _. ok true; has_tip = λ _. ok true }

abbrev lanes_of_four : SyncState
lanes_of_four = new_synchronizer 1 four true

abbrev voted : World × DagResult (Unit {0})
voted =
    get_or ((idle, lanes_of_four), ok tt)
      (process_header first_node all_stored second_header false (listening, lanes_of_four))

second_header-voted :
    process_header first_node all_stored second_header false (listening, lanes_of_four)
    ≡ some ((voted.0.0, voted.0.1), voted.1)
unfolding process_header Committee.validity_threshold Committee.total_votes Committee.new
    new_synchronizer header_digest be_bytes le_bytes
second_header-voted = refl

-- The vote is recorded.
second_header-recorded : voted.0.0.last_voted ≡ (1, 2 ∷ []) ∷ []
unfolding process_header Committee.validity_threshold Committee.total_votes Committee.new
    new_synchronizer header_digest be_bytes le_bytes
second_header-recorded = refl

listening-IsVotedOnce : IsVotedOnce listening
listening-IsVotedOnce = record {
  distinct = tt;
  recorded = λ height author there. absurd (let bad = there in cc);
}

process_header-IsVotedOnce_example : IsVotedOnce voted.0.0
process_header-IsVotedOnce_example =
    process_header-IsVotedOnce first_node all_stored second_header false listening voted.0.0
      lanes_of_four voted.0.1 voted.1 listening-IsVotedOnce second_header-voted
