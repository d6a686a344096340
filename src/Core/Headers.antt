-- ===== src/Core/Headers.antt =====
-- primary/src/core.rs: headers and certificates (`process_certificate`, `process_header`,
-- `process_own_header`, and the checks on arrival). `none` is a panic of the source. In
-- `process_own_header` the last headers, which serve simulated equivocation, are left out.
use auto_pilot.Crypto.{Digest, PublicKey, default}
use auto_pilot.Config.Committee
use auto_pilot.Config.Committee.{Committee, Stake, add_u32}
use auto_pilot.Messages.Errors.{DagError, DagResult}
use auto_pilot.Messages.Types.{
  Height, Slot, Proposal, ConsensusMessage, Certificate, Header, Vote, prepare, confirm, commit,
}
use auto_pilot.Messages.Digests.{digest, header_digest, vote_digest, certificate_digest}
use auto_pilot.Messages.Verify.{verify_vote}
use auto_pilot.Messages.Certificates.{verify_certificate}
use auto_pilot.Aggregators.{new_votes}
use auto_pilot.Synchronizer.{
  StoreView, SyncState, get_proposals, missing_payload, get_parent_header,
}
use auto_pilot.Core.State.{
  Node, Core, send_vote, send_header, write_certificate, write_header, write_tip, set_insert, emit,
  add_u64, get_or, ◌and_then◌,
}
use auto_pilot.Core.ViewChange.{set_consensus_proposal}
use auto_pilot.Core.Tickets.{try_prepare_waiting_slots}
use auto_pilot.Core.Validity.{is_valid}
use auto_pilot.Core.Voting.{Ballot, process_prepare_message, process_confirm_message}
use auto_pilot.Core.Tally.{process_vote}
use auto_pilot.Core.Commits.{process_commit}
use auto_pilot.Core.Requests.{World, WorldHandler}
use auto_pilot.Prelude.{
  ltb, leb, ◌==◌, if◌then◌else◌, nat_eq, pair_eq, contains, keys, values, lookup, insert, ◌>>◌,
  ensure, is_ok, ok, err, Bool, true, false, ◌&&◌, ◌||◌, Option, none, some, List, [], ◌∷◌, ◌++◌,
  map,
}

abbrev pub tip_of : Digest → Height → Proposal
tip_of digest height = record { header_digest = digest; height = height }

-- The tips of lanes without an entry make the source panic.
unfoldable pub process_certificate : Node → Certificate → Core → Option Core
unfolding lookup insert try_prepare_waiting_slots
process_certificate n cert s =
    let stored = emit s (write_certificate cert) in
    lookup cert.author stored.current_certified_tips and_then λ (tip : Proposal).
    if ltb tip.height cert.height
    then try_prepare_waiting_slots n (record stored {
      current_certified_tips =
          insert cert.author (tip_of cert.header_digest cert.height) stored.current_certified_tips;
    })
    else some stored

-- The store after a header was written.
abbrev pub with_header : Node → Header → StoreView → StoreView
with_header n header view = record view {
  header_of =
      λ dig. if dig == header_digest n.dalek header then ok (some header) else view.header_of dig;
}

-- `is_consensus_ready`: the proposals of every Prepare are there; the first that lacks one ends the
-- search, and an error of the synchronizer is a panic.
unfoldable pub are_prepares_ready :
    Node → StoreView → Header → List ConsensusMessage → SyncState → Option (SyncState × Bool)
unfolding get_proposals
are_prepares_ready n view header [] sync = some (sync, true)
are_prepares_ready n view header (prepare slot v tc ticket proposals report ∷ ms) sync =
    get_proposals n.dalek view (prepare slot v tc ticket proposals report) header sync and_then λ r.
    elim (r.1) [
      | err _ ↦ none
      | ok [] ↦ some (r.0, false)
      | ok (_ ∷ _) ↦ are_prepares_ready n view header ms (r.0)
    ]
are_prepares_ready n view header (_ ∷ ms) sync = are_prepares_ready n view header ms sync

-- One message of a header that is valid, and its vote.
unfoldable pub process_instance :
    Node → StoreView → Header → ConsensusMessage → World → WorldHandler (List Ballot)
unfolding process_prepare_message process_confirm_message get_proposals process_commit
process_instance n view header (prepare slot v tc ticket proposals report) (s, sync) =
    process_prepare_message n s (prepare slot v tc ticket proposals report) and_then λ r.
    some ((r.0, sync), ok r.1)
process_instance n view header (confirm slot v qc proposals report) (s, sync) =
    let m = confirm slot v qc proposals report in
    get_proposals n.dalek view m header sync and_then λ r. elim (r.1) [
      | err e ↦ some ((s, r.0), err e)
      | ok _ ↦ let (s', ballots) = process_confirm_message n s m in some ((s', r.0), ok ballots)
    ]
process_instance n view header (commit slot v qc proposals report) w =
    process_commit n view (commit slot v qc proposals report) header w and_then λ w'.
    some (w', ok [])

-- `process_consensus_messages`: the votes for the valid messages of a header.
unfoldable pub process_consensus_messages :
    Node
    → StoreView
    → Header
    → List ConsensusMessage
    → List Ballot
    → World
    → WorldHandler (List Ballot)
unfolding is_valid process_instance
process_consensus_messages n view header [] ballots w = some (w, ok ballots)
process_consensus_messages n view header (m ∷ ms) ballots (s, sync) = is_valid n s m and_then λ r.
    (if r.1 then process_instance n view header m (r.0, sync) else some ((r.0, sync), ok []))
    and_then λ q. elim (q.1) [
      | err e ↦ some (q.0, err e)
      | ok more ↦ process_consensus_messages n view header ms (ballots ++ more) (q.0)
    ]

-- `Vote::new`.
unfoldable pub new_vote : Node → Header → List Ballot → Vote
unfolding vote_digest
new_vote n header ballots =
    let unsigned : Vote = record {
      id = header.id;
      height = header.height;
      origin = header.author;
      author = n.name;
      signature = default;
      consensus_votes = ballots;
    } in
    record unsigned { signature = n.sign (vote_digest n.dalek unsigned) }

-- The vote is sent to the author of the header, or counted if that is the primary itself, where an
-- error is a panic.
unfoldable pub cast_vote : Node → Header → Vote → World → WorldHandler (Unit {0})
unfolding process_vote
cast_vote n header vote (s, sync) =
    if vote.origin == n.name
    then (let (s', result) = process_vote n vote false s in
        if is_ok result then some ((s', sync), ok tt) else none)
    else some ((emit s (send_vote header.author vote), sync), ok tt)

-- The authors whose header of a height was voted for.
abbrev pub voted_at : Height → Core → List PublicKey
voted_at height s = get_or [] (lookup height s.last_voted)

unfoldable pub has_voted : Header → Core → Bool
has_voted header s = contains (voted_at header.height s) header.author

-- The end of `process_header`: the first header of an author at a height gets the vote.
unfoldable pub vote_once : Node → StoreView → Header → World → WorldHandler (Unit {0})
unfolding has_voted insert process_consensus_messages new_vote cast_vote
vote_once n view header (s, sync) =
    if has_voted header s
    then some ((s, sync), ok tt)
    else (process_consensus_messages n view header (values header.consensus_messages) [] (
      record s {
        last_voted =
            insert header.height (set_insert header.author (voted_at header.height s)) s.last_voted;
      },
      sync,
    )
        and_then λ r. elim (r.1) [
          | err e ↦ some (r.0, err e)
          | ok ballots ↦ cast_vote n header (new_vote n header ballots) (r.0)
        ])

-- A higher header of a lane is its new optimistic tip; a lane without one is a panic.
unfoldable pub raise_tip : Node → Header → Core → Option Core
unfolding lookup insert try_prepare_waiting_slots
raise_tip n header s =
    if s.use_optimistic_tips
    then (lookup header.author s.current_proposal_tips and_then λ (tip : Proposal).
        if ltb tip.height header.height
        then try_prepare_waiting_slots n (record s {
          current_proposal_tips =
              insert header.author (tip_of (header_digest n.dalek header) header.height)
                s.current_proposal_tips;
        })
        else some s)
    else some s

-- `process_header` once the payload is there.
unfoldable pub accept_header : Node → StoreView → Header → World → WorldHandler (Unit {0})
unfolding get_parent_header are_prepares_ready raise_tip vote_once
accept_header n view header (s, sync) =
    let tipped =
      if s.use_optimistic_tips then emit s (write_tip (header_digest n.dalek header)) else s in
    get_parent_header n.dalek view header sync and_then λ r. elim (r.1) [
      | err e ↦ some ((tipped, r.0), err e)
      | ok none ↦ some ((tipped, r.0), ok tt)
      | ok (some _) ↦
          are_prepares_ready n view header (values header.consensus_messages) (r.0) and_then λ q.
          if q.1
          then (raise_tip n header (emit tipped (write_header header)) and_then λ s'.
              vote_once n (with_header n header view) header (s', q.0))
          else some ((tipped, q.0), ok tt)
    ]

-- The stake of the voters of a certificate.
unfoldable pub votes_stake : Committee → List PublicKey → Stake
unfolding Committee.stake
votes_stake c [] = 0
votes_stake c (k ∷ ks) = add_u32 (Committee.stake c k) (votes_stake c ks)

-- The checks on the parent certificate.
unfoldable pub check_parent : Node → Header → DagResult (Unit {0})
unfolding votes_stake
check_parent n header = do
  ensure (add_u64 header.parent_cert.height 1 == header.height)
      (DagError.malformed_header header.id)
  ensure
      (leb (Committee.validity_threshold n.committee)
          (votes_stake n.committee (keys header.parent_cert.votes))
        || (header.parent_cert.height == 0))
      (DagError.header_requires_quorum header.id)

unfoldable pub process_header : Node → StoreView → Header → Bool → World → WorldHandler (Unit {0})
unfolding check_parent process_certificate missing_payload accept_header
process_header n view header force_sync (s, sync) = elim (check_parent n header) [
  | err e ↦ some ((s, sync), err e)
  | ok _ ↦ process_certificate n header.parent_cert s and_then λ s'.
      let (sync', missing) = missing_payload view header force_sync sync in
      elim missing [
        | err e ↦ some ((s', sync'), err e)
        | ok true ↦ some ((s', sync'), ok tt)
        | ok false ↦ accept_header n view header (s', sync')
      ]
]

-- The consensus messages of the own header, with the latest tips proposed.
abbrev propose_tips :
    Node → Core → List (Digest × ConsensusMessage) → List (Digest × ConsensusMessage)
propose_tips n s ms = map (λ e. (e.0, set_consensus_proposal n s (e.1))) ms

-- The Prepares and Confirms of the own header are the instances to collect votes for.
unfoldable pub enter_instances : List (Digest × ConsensusMessage) → Core → Core
unfolding insert
enter_instances [] s = s
enter_instances ((dig, commit _ _ _ _ _) ∷ ms) s = enter_instances ms s
enter_instances ((dig, prepare slot view tc ticket proposals report) ∷ ms) s =
    enter_instances ms (record s {
      consensus_instances =
          insert {K = Slot × Digest} (slot, dig) (prepare slot view tc ticket proposals report)
            s.consensus_instances;
    })
enter_instances ((dig, confirm slot view qc proposals report) ∷ ms) s =
    enter_instances ms (record s {
      consensus_instances =
          insert {K = Slot × Digest} (slot, dig) (confirm slot view qc proposals report)
            s.consensus_instances;
    })

-- The own header starts a new collection of votes, and is a tip of its own lane.
unfoldable pub start_header : Node → Header → Core → Core
unfolding insert header_digest
start_header n header s =
    let tip = tip_of (header_digest n.dalek header) header.height in
    record s {
      current_header = header;
      sent_cert_to_proposer = false;
      votes_aggregator = new_votes;
      current_proposal_tips =
          if s.use_optimistic_tips
          then insert header.author tip s.current_proposal_tips
          else s.current_proposal_tips;
      current_certified_tips =
          if s.use_optimistic_tips
          then s.current_certified_tips
          else insert header.author tip s.current_certified_tips;
    }

unfoldable pub process_own_header : Node → StoreView → Header → World → WorldHandler (Unit {0})
unfolding start_header enter_instances process_header set_consensus_proposal
process_own_header n view header (s, sync) =
    let started = start_header n header s in
    let own = record header {
      consensus_messages = propose_tips n started header.consensus_messages;
    } in
    process_header n view own false
      (emit (enter_instances own.consensus_messages started) (send_header own), sync)

-- `sanitize_vote`: a vote for a complete header is not verified.
unfoldable pub sanitize_vote : Node → Core → Vote → DagResult (Unit {0})
unfolding verify_vote
sanitize_vote n s vote =
    if (s.current_header.id == vote.id) && s.votes_aggregator.complete
    then (elim (vote.consensus_votes) [ [] ↦ err DagError.car_already_satisfied | _ ∷ _ ↦ ok tt ])
    else verify_vote n.dalek n.committee vote

-- `sanitize_certificate`; `gc_round` is a field of the core.
unfoldable pub sanitize_certificate : Node → Height → Certificate → DagResult (Unit {0})
unfolding verify_certificate
sanitize_certificate n gc_round cert =
    if leb gc_round cert.height
    then verify_certificate n.dalek n.committee cert
    else err (DagError.certificate_too_old (certificate_digest n.dalek cert) cert.height)
