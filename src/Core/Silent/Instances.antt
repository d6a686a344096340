-- ===== src/Core/Silent/Instances.antt =====
-- primary/src/core.rs, `process_consensus_messages`, and the votes on headers that a primary has sent.
use auto_pilot.Messages.Errors.{DagResult, DagError}
use auto_pilot.Messages.Types.{ConsensusMessage, Header, prepare, confirm, commit}
use auto_pilot.Synchronizer.{StoreView, SyncState, get_proposals}
use auto_pilot.Core.State.{Node, Core}
use auto_pilot.Core.Validity.{is_valid}
use auto_pilot.Core.Voting.{Ballot, process_prepare_message, process_confirm_message}
use auto_pilot.Core.Quiet.{header_votes, Quiet, Quiet-trans, Quiet-same}
use auto_pilot.Core.Accepted.{some_injective}
use auto_pilot.Core.Committed.{process_commit-Quiet}
use auto_pilot.Core.Commits.{process_commit}
use auto_pilot.Core.Requests.{World}
use auto_pilot.Core.Headers.{process_instance, process_consensus_messages}
use auto_pilot.Committer.Order.{and_then_some}
use auto_pilot.Prelude.{
  Bool-cases, nat_eq, pair_eq, ok, err, ◌≡◌, refl, sym, ap, inl, inr, Option, some, List, [], ◌∷◌,
  if◌then◌else◌, ◌⊎◌, ◌++◌,
}
use auto_pilot.Core.Silent.{process_prepare_message-Quiet, is_valid-Quiet}

pub answer_cases :
    {A : Type 0} (r : DagResult A) → ((e : DagError) × (r ≡ err e)) ⊎ ((a : A) × (r ≡ ok a))
answer_cases (err e) = inl (e, refl)
answer_cases (ok a) = inr (a, refl)

process_instance-Quiet :
    (n : Node) (view : StoreView) (header : Header) (m : ConsensusMessage) (s s' : Core)
    (sync sync' : SyncState) (r : DagResult (List Ballot))
    → process_instance n view header m (s, sync) ≡ some ((s', sync'), r)
    → Quiet s s'
unfolding process_instance process_confirm_message
process_instance-Quiet n view header (prepare slot v tc ticket proposals report) s s' sync sync' r
      h =
    let m = prepare slot v tc ticket proposals report in
    let (t, one, rest) = and_then_some (process_prepare_message n s m) _ ((s', sync'), r) h in
    Quiet-trans s t.0 s' (process_prepare_message-Quiet n s t.0 m t.1 one)
      (Quiet-same t.0 s' (ap (λ q. q.0.0) (some_injective rest)))
process_instance-Quiet n view header (confirm slot v qc proposals report) s s' sync sync' r h =
    let m = confirm slot v qc proposals report in
    let (found, _, rest) =
      and_then_some (get_proposals n.dalek view m header sync) _ ((s', sync'), r) h in
    from found.1 found.0 rest
  where
    from :
        (answer : DagResult (List Header)) (t : SyncState)
        → (let o : Option (World × DagResult (List Ballot)) = elim answer [
          | err e ↦ some ((s, t), err e)
          | ok _ ↦
              let (s1, ballots) =
                process_confirm_message n s (confirm slot v qc proposals report) in
              some ((s1, t), ok ballots)
        ] in
            o ≡ some ((s', sync'), r))
        → Quiet s s'
    from (err e) t k = Quiet-same s s' (ap (λ q. q.0.0) (some_injective k))
    from (ok _) t k =
        let e = ap (λ q. q.0.0) (some_injective k) in
        record {
          voted = ap (λ u. u.last_voted) (sym e);
          votes = ap (λ u. header_votes u.out) (sym e);
        }
process_instance-Quiet n view header (commit slot v qc proposals report) s s' sync sync' r h =
    let (w, one, rest) =
      and_then_some (process_commit n view (commit slot v qc proposals report) header (s, sync)) _
        ((s', sync'), r) h in
    Quiet-trans s w.0 s'
      (process_commit-Quiet n view slot v qc proposals report header s w.0 sync w.1 one)
      (Quiet-same w.0 s' (ap (λ q. q.0.0) (some_injective rest)))

pub process_consensus_messages-Quiet :
    (n : Node) (view : StoreView) (header : Header) (ms : List ConsensusMessage)
    (ballots : List Ballot) (s s' : Core) (sync sync' : SyncState) (r : DagResult (List Ballot))
    → process_consensus_messages n view header ms ballots (s, sync) ≡ some ((s', sync'), r)
    → Quiet s s'
unfolding process_consensus_messages
process_consensus_messages-Quiet n view header [] ballots s s' sync sync' r h =
    Quiet-same s s' (ap (λ q. q.0.0) (some_injective h))
process_consensus_messages-Quiet n view header (m ∷ ms) ballots s s' sync sync' r h =
    let (v, one, rest) = and_then_some (is_valid n s m) _ ((s', sync'), r) h in
    let (q, two, last) =
      and_then_some
        (if v.1 then process_instance n view header m (v.0, sync) else some ((v.0, sync), ok [])) _
        ((s', sync'), r) rest in
    let valid : Quiet s v.0 = is_valid-Quiet n s v.0 m v.1 one in
    let handled : Quiet v.0 q.0.0 = elim (Bool-cases v.1) [
      | inl fine ↦ process_instance-Quiet n view header m v.0 q.0.0 sync q.0.1 q.1 (rw fine at two)
      | inr bad ↦ Quiet-same v.0 q.0.0 (ap (λ u. u.0.0) (some_injective (rw bad at two)))
    ] in
    Quiet-trans s v.0 s' valid (
      Quiet-trans v.0 q.0.0 s' handled (elim (answer_cases q.1) [
        | inl (e, failed) ↦
            Quiet-same q.0.0 s' (ap (λ u. u.0.0) (some_injective (rw failed at last)))
        | inr (more, fine) ↦
            process_consensus_messages-Quiet n view header ms (ballots ++ more) q.0.0 s' q.0.1 sync'
              r (rw fine at last)
      ]))
