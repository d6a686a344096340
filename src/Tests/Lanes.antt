-- ===== src/Tests/Lanes.antt =====
-- The theorems on the synchronizer, commits, the proposer and the worker at concrete states.
use auto_pilot.Crypto.{be_bytes, le_bytes}
use auto_pilot.Config.Committee
use auto_pilot.Messages.Errors.{DagResult}
use auto_pilot.Messages.Types.{
  Proposals, Header, default_certificate, default_header, default_qc, commit,
}
use auto_pilot.Messages.Digests.{header_digest}
use auto_pilot.Synchronizer.{
  StoreView, SyncState, new_synchronizer, get_proposals, get_all_headers_for_proposal,
}
use auto_pilot.Synchronizer.Search.{find_proposals}
use auto_pilot.Synchronizer.Missing.{Requests, get_proposals-find_proposals}
use auto_pilot.Synchronizer.Ancestors.{
  parent_of, IsLinked, IsTracked, IsStored, Descends, get_all_headers_for_proposal-Descends,
}
use auto_pilot.Core.State.{Core, get_or}
use auto_pilot.Core.Commits.{process_commit, persist_coordination_certificate}
use auto_pilot.Core.Committed.{Commits, commit_of, process_commit-Commits}
use auto_pilot.Core.Certificates.{IsCertifiedOnce, persist_coordination_certificate-IsCertifiedOnce}
use auto_pilot.Worker.BatchMaker.{Transaction, Event, step, run, new_batch_maker}
use auto_pilot.Worker.Batches.{Allows, stream_of, concat, received, step-Allows, run-concat}
use auto_pilot.Proposer.{Proposer, Input, new_proposer, run_proposer, genesis_cert}
use auto_pilot.Proposer.Lane.{heights, run_proposer-IsDistinct}
use auto_pilot.Core.Accepted.{some_injective}
use auto_pilot.Tests.{toy, four, empty_report}
use auto_pilot.Tests.Rounds.{idle, first_node}
use auto_pilot.Prelude.{
  ◌==◌, if◌then◌else◌, Bool-cases, nat_eq, pair_eq, IsDistinct, lookup, ok, suc, ◌≡◌, refl, sym,
  ◌⊎◌, inl, inr, true, false, none, some, List, [], ◌∷◌, ◌++◌, arith,
}

abbrev transaction : Transaction
transaction = record { data_bytes = 1 ∷ 2 ∷ []; created_at = 5; size = 2 }

abbrev two_events : List Event
two_events = Event.receive transaction ∷ Event.delay_passed ∷ []

run-concat_example :
    concat (run (new_batch_maker 10 100 []) two_events).tx_batch
      ++ (run (new_batch_maker 10 100 []) two_events).current_batch
    ≡ received two_events
run-concat_example = run-concat 10 100 [] two_events

step-Allows_example :
    Allows
      (stream_of (new_batch_maker 1 100 []))
      (Event.receive transaction)
      (stream_of (step (new_batch_maker 1 100 []) (Event.receive transaction)))
step-Allows_example = step-Allows (new_batch_maker 1 100 []) (Event.receive transaction)

-- A batch, a full payload and the certificate of the first header.
abbrev three_inputs : List Input
three_inputs =
    Input.batch 3 0 ∷ Input.timer ∷ Input.parent (genesis_cert toy four) ∷ Input.timer ∷ []

run_proposer-IsDistinct_example :
    (s : Proposer) × (run_proposer first_node three_inputs (new_proposer first_node 32 100)
      ≡ some s)
    × IsDistinct (heights s.tx_core)
run_proposer-IsDistinct_example =
    run_proposer-IsDistinct first_node 32 100 three_inputs (ground arith)

-- A primary whose Prepare of slot 3 and view 1 carried the report of epoch 0.
abbrev certifying : Core
certifying = record idle { certifiable_aggregate_reports = ((3, 1), empty_report) ∷ [] }

certifying-IsCertifiedOnce : IsCertifiedOnce certifying
certifying-IsCertifiedOnce = record {
  distinct = tt;
  recorded = λ epoch e. absurd (let bad = e in cc);
}

persist_coordination_certificate-IsCertifiedOnce_example :
    IsCertifiedOnce (persist_coordination_certificate first_node 3 1 default_qc certifying)
persist_coordination_certificate-IsCertifiedOnce_example =
    persist_coordination_certificate-IsCertifiedOnce first_node 3 1 default_qc certifying
      certifying-IsCertifiedOnce

abbrev bare_store : StoreView
bare_store = record {
  header_of = λ _. ok none;
  has_batch = λ _ _. ok false;
  has_tip = λ _. ok false;
}

abbrev tracked : SyncState
tracked = new_synchronizer 1 four true

-- A Commit of a car that the store lacks.
abbrev lacking : Proposals
lacking = (2, record { header_digest = 7; height = 3 }) ∷ []

abbrev committing : Core × SyncState
committing =
    get_or (idle, tracked)
      (process_commit first_node bare_store (commit 3 1 default_qc lacking none) default_header
        (idle, tracked))

committing-returns :
    process_commit first_node bare_store
      (commit 3 1 default_qc lacking none)
      default_header
      (idle, tracked)
    ≡ some (committing.0, committing.1)
unfolding process_commit new_synchronizer Committee.new header_digest be_bytes le_bytes
committing-returns = refl

process_commit-Commits_example : Commits 3 (commit_of 3 1 default_qc lacking none) idle committing.0
process_commit-Commits_example =
    process_commit-Commits first_node bare_store 3 1 default_qc lacking none default_header idle
      committing.0 tracked committing.1 refl committing-returns

abbrev gathered : SyncState × DagResult (List Header)
gathered =
    get_or (tracked, ok [])
      (get_proposals toy bare_store (commit 3 1 default_qc lacking none) default_header tracked)

gathered-nothing :
    get_proposals toy bare_store (commit 3 1 default_qc lacking none) default_header tracked
    ≡ some (gathered.0, ok [])
unfolding get_proposals new_synchronizer Committee.new header_digest be_bytes le_bytes
gathered-nothing = refl

get_proposals-find_proposals_example :
    ((find_proposals toy bare_store
          (commit 3 1 default_qc lacking none)
          default_header
          tracked.genesis_headers
          lacking
        ≡ some [])
      × (tracked ≡ gathered.0))
    ⊎ ((find_proposals toy bare_store
            (commit 3 1 default_qc lacking none)
            default_header
            tracked.genesis_headers
            lacking
          ≡ none)
        × Requests toy bare_store
            (commit 3 1 default_qc lacking none)
            default_header
            tracked
            gathered.0
            [])
get_proposals-find_proposals_example =
    get_proposals-find_proposals toy bare_store (commit 3 1 default_qc lacking none) default_header
      tracked gathered.0 [] gathered-nothing

-- The first header of the lane of the authority 1, over its genesis header.
abbrev genesis_of_lane : Header
genesis_of_lane = record default_header { author = 1 }

abbrev first_header : Header
first_header = record default_header {
  author = 1;
  height = 1;
  parent_cert = record default_certificate { header_digest = header_digest toy genesis_of_lane };
}

-- A store that holds it under one digest.
abbrev one_header : StoreView
one_header = record bare_store {
  header_of = λ dig. ok (if dig == 77 then some first_header else none);
}

first_header-IsLinked :
    (p : Header) × (parent_of toy one_header tracked.genesis_headers first_header ≡ some p)
    × (suc p.height ≡ first_header.height)
    × (p.author ≡ first_header.author)
    × IsStored toy one_header p
unfolding new_synchronizer Committee.new header_digest be_bytes le_bytes lookup
first_header-IsLinked = (genesis_of_lane, refl, refl, refl, inl refl)

one_header-IsLinked : IsLinked toy one_header tracked.genesis_headers
one_header-IsLinked = record {
  parent = λ h stored positive. elim stored [
    | inl genesis ↦ absurd (ground arith)
    | inr (dig, e) ↦ elim (Bool-cases (dig == 77)) [
      | inl here ↦
          let same : first_header ≡ h = some_injective (let read = rw here at e in cc) in
          rw (sym same) first_header-IsLinked
      | inr other ↦ absurd (let bad = rw other at e in cc)
    ]
  ];
}

first_lane-IsTracked : IsTracked 1 tracked
unfolding new_synchronizer Committee.new lookup
first_lane-IsTracked = (1, refl)

get_all_headers_for_proposal-Descends_example :
    (s' : SyncState) × (hs : List Header) × (get_all_headers_for_proposal toy one_header 1
        (record { header_digest = 77; height = 1 })
        0
        tracked
      ≡ some (s', ok hs))
    × Descends toy one_header tracked.genesis_headers 0 first_header hs
get_all_headers_for_proposal-Descends_example =
    get_all_headers_for_proposal-Descends toy one_header (record { header_digest = 77; height = 1 })
      0 first_header tracked one_header-IsLinked first_lane-IsTracked refl refl (ground arith)
