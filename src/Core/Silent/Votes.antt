-- ===== src/Core/Silent/Votes.antt =====
-- primary/src/core.rs, `process_vote`, and the votes on headers that a primary has sent.
use mathlib.Core.List.{append_assoc}
use auto_pilot.Crypto.{Digest}
use auto_pilot.Messages.Errors.{DagResult}
use auto_pilot.Messages.Types.{Certificate, Vote}
use auto_pilot.Aggregators.{VotesAggregator, append_vote, get_certificate}
use auto_pilot.Core.State.{Node, Core, send_proposer, start_car_timer}
use auto_pilot.Core.Tally.{
  count_ballots, hand_over, after_append, append_header_vote, process_vote, empty?,
}
use auto_pilot.Core.HandOver.{count_ballots-SendsPhases}
use auto_pilot.Core.Quiet.{Quiet, Quiet-trans, Quiet-same, Quiet-emits, phases-no_votes}
use auto_pilot.Prelude.{
  ◌==◌, if◌then◌else◌, Bool-cases, nat_eq, pair_eq, is_ok, ok, err, refl, inl, inr, Bool, not, ◌&&◌,
  ◌||◌, Option, none, some, [], ◌∷◌,
}

hand_over-Quiet :
    (id : Digest) (ready consensus first : Bool) (found : DagResult (Option Certificate)) (s : Core)
    → Quiet s (hand_over id ready consensus first found s).0
unfolding hand_over
hand_over-Quiet id ready consensus first (err e) s = Quiet-same s s refl
hand_over-Quiet id ready consensus first (ok none) s = Quiet-same s s refl
hand_over-Quiet id ready consensus first (ok (some cert)) s =
    elim (Bool-cases (ready && (not consensus && first))) [
      | inl timer ↦
          rw timer (elim (Bool-cases (not s.sent_cert_to_proposer && (ready && consensus))) [
            | inl sends ↦ rw sends (
                Quiet-emits s _ (start_car_timer id ∷ send_proposer cert ∷ []) refl
                  (append_assoc s.out (start_car_timer id ∷ []) (send_proposer cert ∷ [])) refl)
            | inr keeps ↦ rw keeps (Quiet-emits s _ (start_car_timer id ∷ []) refl refl refl)
          ])
      | inr no_timer ↦
          rw no_timer (elim (Bool-cases (not s.sent_cert_to_proposer && (ready && consensus))) [
            | inl sends ↦ rw sends (Quiet-emits s _ (send_proposer cert ∷ []) refl refl refl)
            | inr keeps ↦ rw keeps (Quiet-same s s refl)
          ])
    ]

after_append-Quiet :
    (id : Digest) (consensus : Bool) (m : VotesAggregator) (answer : DagResult (Bool × Bool))
    (s : Core)
    → Quiet s (after_append id consensus m answer s).0
unfolding after_append
after_append-Quiet id consensus m (err e) s = record { voted = refl; votes = refl }
after_append-Quiet id consensus m (ok (ready, first)) s =
    let got = if ready && consensus then get_certificate m else (m, ok none) in
    let q =
      hand_over-Quiet id ready consensus first got.1 (record s { votes_aggregator = got.0 }) in
    record { voted = q.voted; votes = q.votes }

append_header_vote-Quiet :
    (n : Node) (vote : Vote) (loopback : Bool) (s : Core)
    → Quiet s (append_header_vote n vote loopback s).0
unfolding append_header_vote
append_header_vote-Quiet n vote loopback s =
    let r = append_vote s.votes_aggregator vote n.committee in
    after_append-Quiet vote.id _ r.0 r.1 s

pub process_vote-Quiet :
    (n : Node) (vote : Vote) (loopback : Bool) (s : Core)
    → Quiet s (process_vote n vote loopback s).0
unfolding process_vote
process_vote-Quiet n vote loopback s =
    let ballots = count_ballots n vote.author loopback vote.consensus_votes s in
    let p = count_ballots-SendsPhases n vote.author loopback vote.consensus_votes s in
    let counted : Quiet s ballots.0 =
      Quiet-emits s ballots.0 p.phases (phases-no_votes p.phases p.are_phases) p.sent p.voted in
    elim (Bool-cases
      (not (vote.id == s.current_header.id) || (loopback && not (empty? vote.consensus_votes)))) [
        | inl other ↦ rw other (Quiet-same s s refl)
        | inr here ↦ rw here (elim (Bool-cases (is_ok ballots.1)) [
          | inl fine ↦ rw fine (
              Quiet-trans s ballots.0 _ counted
                (append_header_vote-Quiet n vote loopback ballots.0))
          | inr bad ↦ rw bad counted
        ])
      ]
