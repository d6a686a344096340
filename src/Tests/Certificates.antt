-- ===== src/Tests/Certificates.antt =====
-- The theorems on certificates (primary/src/messages.rs) at concrete messages.
use auto_pilot.Config.Committee
use auto_pilot.Config.Committee.{Committee}
use auto_pilot.Messages.Voters.{add_voters}
use auto_pilot.Crypto.{be_bytes, le_bytes, verify_batch, PublicKey, Dalek}
use auto_pilot.Messages.Types.{Proposals, Qc, confirm, new_tc, no_timeouts}
use auto_pilot.Messages.Digests.{aggregate_digest, prepare_digest}
use auto_pilot.Messages.Certificates.{verify_qc, verify_tc}
use auto_pilot.Messages.Verify.{verify_confirm}
use auto_pilot.Messages.Quorums.{confirm_conflict_honest, verify_tc_accepts_all}
use auto_pilot.Messages.Bytes.{byte_bound}
use auto_pilot.Messages.Binding.{prepare_digest_binds, report_id}
use auto_pilot.Tests.{toy, four, four-IsValid, prepare_qc, empty_report, not_two, not_two-few}
use auto_pilot.Prelude.{
  nat_eq, pair_eq, contains, keys, ok, ℕ, ◌<◌, ◌≡◌, refl, true, none, some, List, [], ◌∷◌, arith,
}

abbrev left : Qc
left = prepare_qc none (1 ∷ 2 ∷ 3 ∷ [])

abbrev right : Qc
right = prepare_qc (some empty_report) (2 ∷ 3 ∷ 4 ∷ [])

left-accepted : verify_qc toy four left ≡ ok tt
unfolding Committee.new verify_qc prepare_digest add_voters Committee.stake
    Committee.quorum_threshold Committee.total_votes verify_batch le_bytes
left-accepted = refl

right-accepted : verify_qc toy four right ≡ ok tt
unfolding Committee.new verify_qc prepare_digest add_voters Committee.stake
    Committee.quorum_threshold Committee.total_votes verify_batch le_bytes be_bytes aggregate_digest
right-accepted = refl

left-confirmed : verify_confirm toy four (confirm 1 1 left [] none) ≡ true
unfolding verify_confirm Committee.new verify_qc prepare_digest add_voters Committee.stake
    Committee.quorum_threshold Committee.total_votes verify_batch le_bytes
left-confirmed = refl

right-confirmed : verify_confirm toy four (confirm 1 1 right [] (some empty_report)) ≡ true
unfolding verify_confirm Committee.new verify_qc prepare_digest add_voters Committee.stake
    Committee.quorum_threshold Committee.total_votes verify_batch le_bytes be_bytes aggregate_digest
right-confirmed = refl

confirm_conflict_honest_example :
    (k : PublicKey) × (contains (keys left.votes) k ≡ true)
    × (contains (keys right.votes) k ≡ true)
    × (not_two k ≡ true)
    × (left.id ≡ prepare_digest toy 1 1 none)
    × (right.id ≡ prepare_digest toy 1 1 (some empty_report))
confirm_conflict_honest_example =
    confirm_conflict_honest toy four not_two 1 1 left right [] [] none (some empty_report)
      four-IsValid not_two-few left-confirmed right-confirmed

verify_tc_accepts_all_example : verify_tc toy four (new_tc 7 3 no_timeouts) ≡ ok tt
verify_tc_accepts_all_example = verify_tc_accepts_all toy four (new_tc 7 3 no_timeouts)

abbrev some_proposals : Proposals
some_proposals = (1, record { header_digest = 5; height = 2 }) ∷ []

toy-sha512-small : (bytes : List ℕ) → toy.sha512 bytes < byte_bound 32
toy-sha512-small bytes = ground arith

abbrev one : ℕ
one = 1

abbrev two : ℕ
two = 2

prepare_digest_binds_example :
    (one ≡ one)
    × (two ≡ two)
    × (report_id toy (some empty_report) ≡ report_id toy (some empty_report))
prepare_digest_binds_example =
    prepare_digest_binds toy one two one two (some empty_report) (some empty_report)
      toy-sha512-small (ground arith) (ground arith) (ground arith) (ground arith) (λ same. refl)
      refl

-- A hash that maps everything to one digest.
abbrev blind : Dalek
blind = record toy { sha512 = λ _. 0 }
