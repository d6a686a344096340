-- ===== src/Core/Tally.antt =====
-- primary/src/core.rs: the votes on the own header and on the own consensus messages
-- (`process_vote`, `process_consensus_vote`). `none` is a panic of the source.
use auto_pilot.Crypto.{Digest, PublicKey, Signature, verify}
use auto_pilot.Config.Committee.{Committee}
use auto_pilot.Messages.Errors.{DagError, DagResult}
use auto_pilot.Messages.Types.{
  Slot, Qc, ConsensusMessage, Certificate, Vote, ConsensusVote, prepare, confirm, commit,
}
use auto_pilot.Messages.Digests.{digest}
use auto_pilot.Aggregators.{
  VotesAggregator, append_vote, get_certificate, QcMaker, new_maker, append_qc, get_qc,
}
use auto_pilot.Core.State.{
  Node, Core, start_fast_timer, start_car_timer, send_info, send_proposer, emit, add_u64, get_or,
}
use auto_pilot.Core.ViewChange.{set_consensus_proposal, send_consensus_req}
use auto_pilot.Core.Voting.{Ballot}
use auto_pilot.Prelude.{
  ◌==◌, if◌then◌else◌, nat_eq, pair_eq, lookup, insert, is_ok, ok, err, Bool, true, false, not,
  ◌&&◌, ◌||◌, Option, none, some, List, [], ◌∷◌, ◌++◌,
}

-- Only a certificate of a Prepare may be a fast one.
unfoldable pub set_try_fast : Core → ConsensusMessage → QcMaker → QcMaker
set_try_fast s (prepare _ _ _ _ _ _) m = record m {
  try_fast = s.use_fast_path && not m.fast_path_disabled;
}
set_try_fast s _ m = record m { try_fast = false }

-- A vote is counted; a loopback asks for the slow certificate.
unfoldable pub tally :
    Committee
    → PublicKey
    → Digest
    → Signature
    → Bool
    → QcMaker
    → QcMaker × DagResult (Bool × Option Qc)
unfolding append_qc get_qc
tally c author dig sig true m =
    let slow = record m { try_fast = false; fast_path_disabled = true } in (slow, get_qc slow)
tally c author dig sig false m = append_qc m author (dig, sig) c

-- The maker of an instance, its fast path set, and its answer to a vote.
unfoldable pub tally_instance :
    Node
    → PublicKey
    → Signature
    → Bool
    → Slot × Digest
    → ConsensusMessage
    → Core
    → QcMaker × DagResult (Bool × Option Qc)
unfolding set_try_fast tally lookup new_maker
tally_instance n author sig loopback key inst s =
    tally n.committee author key.1 sig loopback
      (set_try_fast s inst (get_or new_maker (lookup key s.qc_makers)))

-- The state with the maker stored.
abbrev pub with_maker : Slot × Digest → QcMaker → Core → Core
with_maker key m s = record s { qc_makers = insert key m s.qc_makers }

-- A vote that is not a loopback and not the own one is refused on a bad signature.
abbrev pub is_refused : Node → PublicKey → Signature → Digest → Bool → Bool
is_refused n author sig dig loopback =
    not loopback && (not (author == n.name) && not (verify n.dalek sig dig author))

-- `own` is `process_consensus_request` for a request of the primary's own, which `send_consensus_req`
-- ends with; `keep` is the state that a handler returns where it makes no such call.
module _ {W : Type 0} (keep : Core → W)
    (own : ConsensusMessage → Core → Option (W × DagResult (Unit {0}))) where
  -- `send_consensus_req`: the message is sent, and then processed by the primary itself.
  unfoldable pub send_and_process :
      Node → ConsensusMessage → Core → Option (W × DagResult (Unit {0}))
  unfolding send_consensus_req set_consensus_proposal
  send_and_process n m s = own (set_consensus_proposal n s m) (send_consensus_req n m s)

  -- The part of `process_consensus_vote` for a certificate.
  unfoldable pub after_qc :
      Node
      → Slot × Digest
      → ConsensusMessage
      → QcMaker
      → Qc
      → Core
      → Option (W × DagResult (Unit {0}))
  unfolding send_and_process insert
  after_qc n key (prepare slot view _ _ proposals report) m qc s =
      if m.try_fast
      then send_and_process n (commit slot view qc proposals report) s
      else if m.sent_confirm || m.completed_fast
      then some (keep s, ok tt)
      else send_and_process n (confirm slot view qc proposals report)
          (record s { qc_makers = insert key (record m { sent_confirm = true }) s.qc_makers })
  after_qc n key (confirm slot view _ proposals report) m qc s =
      send_and_process n (commit slot view qc proposals report) s
  after_qc n key (commit _ _ _ _ _) m qc s = none

  -- `process_consensus_vote` once the maker has answered; `s` holds the maker.
  unfoldable pub after_tally :
      Node
      → Slot × Digest
      → ConsensusMessage
      → QcMaker
      → DagResult (Bool × Option Qc)
      → Core
      → Option (W × DagResult (Unit {0}))
  unfolding after_qc
  after_tally n key inst m (ok (true, some qc)) s = after_qc n key inst m qc s
  after_tally n key inst m (ok (true, none)) s =
      some (keep (if s.use_fast_path then emit s (start_fast_timer key.0 key.1) else s), ok tt)
  after_tally n key inst m (ok (false, _)) s = some (keep s, ok tt)
  after_tally n key inst m (err e) s = some (keep s, err e)

  unfoldable pub process_instance_vote :
      Node → ConsensusVote → Bool → ConsensusMessage → Core → Option (W × DagResult (Unit {0}))
  unfolding tally_instance after_tally
  process_instance_vote n vote loopback inst s =
      let key : Slot × Digest = (vote.slot, vote.digest) in
      let (m, result) = tally_instance n vote.author vote.sig loopback key inst s in
      if is_refused n vote.author vote.sig vote.digest loopback
      then some (keep s, err DagError.invalid_signature)
      else after_tally n key inst m result (with_maker key m s)

  unfoldable pub process_consensus_vote :
      Node → ConsensusVote → Bool → Core → Option (W × DagResult (Unit {0}))
  unfolding process_instance_vote
  process_consensus_vote n vote loopback s =
      elim (lookup (vote.slot, vote.digest) s.consensus_instances) [
        | none ↦ some (keep s, ok tt)
        | some inst ↦ process_instance_vote n vote loopback inst s
      ]

-- The message of the next phase, which `process_vote` sends to the proposer.
unfoldable pub next_info : ConsensusMessage → QcMaker → Qc → Core → Core
next_info (prepare slot view _ _ proposals report) m qc s = emit s (
    send_info (
      if m.try_fast
      then commit slot view qc proposals report
      else confirm slot view qc proposals report))
next_info (confirm slot view _ proposals report) m qc s =
    emit s (send_info (commit slot view qc proposals report))
next_info (commit _ _ _ _ _) m qc s = s

-- The body of the loop of `process_vote`, once the maker has answered.
unfoldable pub after_ballot :
    Slot × Digest
    → ConsensusMessage
    → QcMaker
    → DagResult (Bool × Option Qc)
    → Core
    → Core × DagResult (Unit {0})
unfolding next_info
after_ballot key inst m (ok (true, some qc)) s =
    (next_info inst m qc (record s { current_qcs_formed = add_u64 s.current_qcs_formed 1 }), ok tt)
after_ballot key inst m (ok (true, none)) s =
    (if s.use_fast_path then emit s (start_fast_timer key.0 key.1) else s, ok tt)
after_ballot key inst m (ok (false, _)) s = (s, ok tt)
after_ballot key inst m (err e) s = (s, err e)

-- The body of the loop for a vote on an own consensus message.
unfoldable pub count_instance :
    Node
    → PublicKey
    → Bool
    → Slot × Digest
    → Signature
    → ConsensusMessage
    → Core
    → Core × DagResult (Unit {0})
unfolding tally_instance after_ballot digest
count_instance n author loopback key sig inst s =
    let (m, result) = tally_instance n author sig loopback key inst s in
    if is_refused n author sig (digest n.dalek inst) loopback
    then (s, err DagError.invalid_signature)
    else after_ballot key inst m result (with_maker key m s)

unfoldable pub count_ballot : Node → PublicKey → Bool → Ballot → Core → Core × DagResult (Unit {0})
unfolding count_instance
count_ballot n author loopback (slot, dig, sig) s =
    elim (lookup {K = Slot × Digest} (slot, dig) s.consensus_instances) [
      | none ↦ (s, ok tt)
      | some inst ↦ count_instance n author loopback (slot, dig) sig inst s
    ]

-- The loop over the consensus votes of a vote: the first error ends it.
unfoldable pub count_ballots :
    Node → PublicKey → Bool → List Ballot → Core → Core × DagResult (Unit {0})
unfolding count_ballot
count_ballots n author loopback [] s = (s, ok tt)
count_ballots n author loopback (b ∷ bs) s =
    let (s', result) = count_ballot n author loopback b s in
    let rest = count_ballots n author loopback bs s' in if is_ok result then rest else (s', result)

abbrev pub empty? {ℓ} : {A : Type ℓ} → List A → Bool
empty? [] = true
empty? (_ ∷ _) = false

-- Every active instance of the current header has a certificate, or there is none.
unfoldable pub is_consensus_ready : Core → Bool
is_consensus_ready s =
    empty? s.current_header.consensus_messages
    || (s.current_qcs_formed == s.current_header.num_active_instances)

-- The last part of `process_vote`: `found` is the certificate that was taken from the aggregator.
unfoldable pub hand_over :
    Digest
    → Bool
    → Bool
    → Bool
    → DagResult (Option Certificate)
    → Core
    → Core × DagResult (Unit {0})
hand_over id ready consensus first (err e) s = (s, err e)
hand_over id ready consensus first (ok none) s = (s, ok tt)
hand_over id ready consensus first (ok (some cert)) s =
    let s' = if ready && (not consensus && first) then emit s (start_car_timer id) else s in
    if not s'.sent_cert_to_proposer && (ready && consensus)
    then (
      record s' {
        sent_cert_to_proposer = true;
        current_qcs_formed = 0;
        out = s'.out ++ send_proposer cert ∷ [];
      },
      ok tt,
    )
    else (s', ok tt)

-- `process_vote` once the votes aggregator has answered; `consensus` is `consensus_ready`.
unfoldable pub after_append :
    Digest → Bool → VotesAggregator → DagResult (Bool × Bool) → Core → Core × DagResult (Unit {0})
unfolding hand_over get_certificate
after_append id consensus m (err e) s = (record s { votes_aggregator = m }, err e)
after_append id consensus m (ok (ready, first)) s =
    let (m', found) = if ready && consensus then get_certificate m else (m, ok none) in
    hand_over id ready consensus first found (record s { votes_aggregator = m' })

-- `process_vote` after its loop.
unfoldable pub append_header_vote : Node → Vote → Bool → Core → Core × DagResult (Unit {0})
unfolding is_consensus_ready append_vote after_append
append_header_vote n vote loopback s =
    let car_timeout = loopback && empty? vote.consensus_votes in
    let (m, result) = append_vote s.votes_aggregator vote n.committee in
    after_append vote.id (is_consensus_ready s || car_timeout) m result s

unfoldable pub process_vote : Node → Vote → Bool → Core → Core × DagResult (Unit {0})
unfolding count_ballots append_header_vote
process_vote n vote loopback s =
    if not (vote.id == s.current_header.id) || (loopback && not (empty? vote.consensus_votes))
    then (s, ok tt)
    else (let (s', result) = count_ballots n vote.author loopback vote.consensus_votes s in
        if is_ok result then append_header_vote n vote loopback s' else (s', result))
