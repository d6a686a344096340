-- ===== src/Core/Requests.antt =====
-- primary/src/core.rs: consensus messages that come in a request of their own
-- (`process_consensus_request`, `process_consensus_message`). `none` is a panic of the source.
use auto_pilot.Crypto.{PublicKey}
use auto_pilot.Messages.Errors.{DagResult}
use auto_pilot.Messages.Types.{
  ConsensusMessage, Header, ConsensusVote, ConsensusRequest, default_header, prepare, confirm,
  commit,
}
use auto_pilot.Messages.Digests.{digest}
use auto_pilot.Messages.Verify.{verify_request}
use auto_pilot.Synchronizer.{StoreView, SyncState, get_proposals}
use auto_pilot.Synchronizer.Tips.{optimistic_tips_ready}
use auto_pilot.Core.State.{Node, Core, send_consensus_vote, emit, ◌and_then◌}
use auto_pilot.Core.Validity.{is_valid}
use auto_pilot.Core.Voting.{Ballot, process_prepare_message, process_confirm_message}
use auto_pilot.Core.Tally.{process_consensus_vote}
use auto_pilot.Core.Commits.{process_commit}
use auto_pilot.Prelude.{
  ◌==◌, if◌then◌else◌, nat_eq, pair_eq, insert, ok, err, ℕ, zero, suc, Bool, true, false, Option,
  none, some, List, [], ◌∷◌,
}

-- The core and its synchronizer.
abbrev pub World : Type 0
World = Core × SyncState

abbrev pub WorldHandler : Type 0 → Type 0
WorldHandler A = Option (World × DagResult A)

-- A Prepare that waits for its tips is left, and one without optimistic tips starts their sync.
unfoldable pub are_tips_ready :
    Node → StoreView → ConsensusMessage → Header → World → Option (SyncState × DagResult Bool)
unfolding optimistic_tips_ready get_proposals
are_tips_ready n view m header (s, sync) =
    if s.use_optimistic_tips
    then optimistic_tips_ready n.dalek view m header sync
    else (get_proposals n.dalek view m header sync and_then λ r. elim (r.1) [
      | ok _ ↦ some (r.0, ok true)
      | err e ↦ some (r.0, err e)
    ])

-- A Prepare or a Confirm is entered under its slot and digest.
unfoldable pub enter_instance : Node → ConsensusMessage → Core → Core
unfolding digest insert
enter_instance n (commit _ _ _ _ _) s = s
enter_instance n (prepare slot view tc ticket proposals report) s =
    let m = prepare slot view tc ticket proposals report in
    record s { consensus_instances = insert (slot, digest n.dalek m) m s.consensus_instances }
enter_instance n (confirm slot view qc proposals report) s =
    let m = confirm slot view qc proposals report in
    record s { consensus_instances = insert (slot, digest n.dalek m) m s.consensus_instances }

-- `verify` of a request, which the primary skips for its own.
abbrev pub check_request : Node → ConsensusRequest → DagResult (Unit {0})
check_request n req = if req.author == n.name then ok tt else verify_request n.dalek n.committee req

-- `own` processes a request of the primary's own, for the message that is sent.
module _ (own : ConsensusMessage → World → WorldHandler (Unit {0})) where
  -- The only vote of a request is sent to its author, or counted if that is the primary itself, where
  -- an error is a panic.
  unfoldable pub send_ballot : Node → PublicKey → List Ballot → World → WorldHandler (Unit {0})
  unfolding process_consensus_vote
  send_ballot n author [] w = some (w, ok tt)
  send_ballot n author (_ ∷ b ∷ bs) w = send_ballot n author (b ∷ bs) w
  send_ballot n author ((slot, dig, sig) ∷ []) (s, sync) =
      let vote : ConsensusVote = record { author = n.name; slot = slot; digest = dig; sig = sig } in
      if author == n.name
      then (process_consensus_vote (λ t. (t, sync)) (λ m t. own m (t, sync)) n vote false s
          and_then λ r. elim (r.1) [ ok _ ↦ some (r.0, ok tt) | err _ ↦ none ])
      else some ((emit s (send_consensus_vote author vote), sync), ok tt)

  unfoldable pub prepare_if_ready :
      Node → PublicKey → ConsensusMessage → DagResult Bool → World → WorldHandler (Unit {0})
  unfolding process_prepare_message send_ballot
  prepare_if_ready n author m (err e) w = some (w, err e)
  prepare_if_ready n author m (ok false) w = some (w, ok tt)
  prepare_if_ready n author m (ok true) (s, sync) =
      process_prepare_message n s m and_then λ r. send_ballot n author (r.1) (r.0, sync)

  unfoldable pub confirm_if_read :
      Node
      → PublicKey
      → ConsensusMessage
      → DagResult (List Header)
      → World
      → WorldHandler (Unit {0})
  unfolding process_confirm_message send_ballot
  confirm_if_read n author m (err e) w = some (w, err e)
  confirm_if_read n author m (ok _) (s, sync) =
      let (s', ballots) = process_confirm_message n s m in send_ballot n author ballots (s', sync)

  unfoldable pub process_consensus_message :
      Node → StoreView → ConsensusMessage → PublicKey → World → WorldHandler (Unit {0})
  unfolding are_tips_ready prepare_if_ready confirm_if_read get_proposals process_commit
  process_consensus_message n view (prepare slot v tc ticket proposals report) author (s, sync) =
      let m = prepare slot v tc ticket proposals report in
      let header = record default_header { author = author } in
      are_tips_ready n view m header (s, sync) and_then λ r.
      prepare_if_ready n author m (r.1) (s, r.0)
  process_consensus_message n view (confirm slot v qc proposals report) author (s, sync) =
      let m = confirm slot v qc proposals report in
      let header = record default_header { author = author } in
      get_proposals n.dalek view m header sync and_then λ r.
      confirm_if_read n author m (r.1) (s, r.0)
  process_consensus_message n view (commit slot v qc proposals report) author w =
      process_commit n view (commit slot v qc proposals report)
        (record default_header { author = author }) w
      and_then λ w'. some (w', ok tt)

  unfoldable pub once_checked :
      Node → StoreView → ConsensusRequest → DagResult (Unit {0}) → World → WorldHandler (Unit {0})
  unfolding is_valid process_consensus_message
  once_checked n view req (err e) w = some (w, err e)
  once_checked n view req (ok _) (s, sync) = is_valid n s req.message and_then λ r.
      if r.1
      then process_consensus_message n view req.message req.author (r.0, sync)
      else some ((r.0, sync), ok tt)

  unfoldable pub process_consensus_request :
      Node → StoreView → ConsensusRequest → World → WorldHandler (Unit {0})
  unfolding enter_instance once_checked verify_request
  process_consensus_request n view req (s, sync) =
      once_checked n view req (check_request n req) (enter_instance n req.message s, sync)

-- `process_consensus_request` for the primary's own request, on fuel for the calls within calls; it
-- also gives `none` where the fuel has run out.
unfoldable pub process_own_request :
    ℕ → Node → StoreView → ConsensusMessage → World → WorldHandler (Unit {0})
unfolding process_consensus_request digest
process_own_request zero n view m w = none
process_own_request (suc fuel) n view m w =
    process_consensus_request (process_own_request fuel n view) n view
      (record { author = n.name; message = m; sig = n.sign (digest n.dalek m) }) w
