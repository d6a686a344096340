-- ===== src/Tests/Makers.antt =====
-- The theorems on the aggregators (primary/src/aggregators.rs) at concrete votes.
use auto_pilot.Config.Committee
use auto_pilot.Config.Committee.{Committee}
use auto_pilot.Config.Stakes.{masked, weight, full_stake}
use auto_pilot.Crypto.{PublicKey, Digest, Signature, le_bytes, be_bytes}
use auto_pilot.Messages.Errors.{DagError}
use auto_pilot.Messages.Types.{Qc, Timeout, Certificate, Vote, new_timeout, no_message}
use auto_pilot.Messages.Digests.{header_digest}
use auto_pilot.Messages.Voters.{HaveStake}
use auto_pilot.Messages.Certificates.{
  verify_certificate, genesis_certificates, any_certificate, certificate_eq,
}
use auto_pilot.Aggregators.{new_votes, append_vote, new_maker, new_tc_maker, append_timeout}
use auto_pilot.Aggregators.Once.{emitted, emitted_once}
use auto_pilot.Aggregators.Cars
use auto_pilot.Aggregators.Cars.{
  append_vote-Inv, append_vote_flags, new_votes-Inv, verify_certificate_small,
}
use auto_pilot.Aggregators.Expiry.{Counts, append_timeout-Counts, new_tc_maker-Inv}
use auto_pilot.Tests.{toy, four, four-IsValid, signed_by}
use auto_pilot.Prelude.{
  nat_eq, pair_eq, length, All, IsDistinct, keys, ok, err, ◌+◌, ◌≤◌, ◌<◌, ◌≡◌, refl, true, false,
  List, [], ◌∷◌, arith,
}

four_staked : 0 < full_stake four
unfolding masked Committee.new
four_staked = ground arith

abbrev three_votes : List (PublicKey × Digest × Signature)
three_votes = (1, 9, 10) ∷ (1, 9, 10) ∷ (2, 9, 11) ∷ (3, 9, 12) ∷ (4, 9, 13) ∷ []

emitted_once_example :
    (length (emitted (record new_maker { try_fast = true }) three_votes four) ≤ 1)
    × All
        (λ (qc : Qc).
          IsDistinct (keys qc.votes)
          × (Committee.quorum_threshold four ≤ weight four (keys qc.votes)))
        (emitted (record new_maker { try_fast = true }) three_votes four)
emitted_once_example = emitted_once four four-IsValid four_staked true three_votes

-- A certificate with a voter that has no stake.
abbrev poisoned : Qc
poisoned = record { id = 9; votes = signed_by 9 (1 ∷ 2 ∷ 7 ∷ 3 ∷ []) }

poisoned-quorum : Committee.quorum_threshold four ≤ weight four (keys poisoned.votes)
unfolding weight Committee.stake Committee.quorum_threshold Committee.total_votes Committee.new
poisoned-quorum = ground arith

abbrev vote_of : PublicKey → Vote
vote_of k = record {
  id = 9;
  height = 1;
  origin = 1;
  author = k;
  signature = 9 + k;
  consensus_votes = [];
}

append_vote-Inv_example : Cars.Inv four (append_vote new_votes (vote_of 1) four).0
append_vote-Inv_example =
    append_vote-Inv four new_votes (vote_of 1) four-IsValid (new_votes-Inv four)

first-vote : (append_vote new_votes (vote_of 1) four).1 ≡ ok (false, false)
unfolding append_vote Committee.new new_votes Committee.validity_threshold Committee.total_votes
    Committee.stake
first-vote = refl

abbrev small_car : Certificate
small_car = record { author = 1; header_digest = 9; height = 1; votes = signed_by 9 (1 ∷ 2 ∷ []) }

small_car-IsAvailable : Cars.IsAvailable four small_car
unfolding weight Committee.stake Committee.validity_threshold Committee.total_votes Committee.new
small_car-IsAvailable = ((refl, (refl, tt)), ground arith)

small_car-staked : HaveStake four (keys small_car.votes)
unfolding Committee.stake Committee.new
small_car-staked = (ground arith, (ground arith, tt))

small_car-below : weight four (keys small_car.votes) < Committee.quorum_threshold four
unfolding weight Committee.stake Committee.quorum_threshold Committee.total_votes Committee.new
small_car-below = ground arith

small_car-new : any_certificate toy four small_car (genesis_certificates toy four) ≡ false
unfolding genesis_certificates Committee.new certificate_eq header_digest be_bytes le_bytes
small_car-new = refl

verify_certificate_small_example :
    verify_certificate toy four small_car ≡ err DagError.certificate_requires_quorum
verify_certificate_small_example =
    verify_certificate_small toy four small_car four-IsValid small_car-IsAvailable small_car-staked
      small_car-below small_car-new

abbrev timeout_of : PublicKey → Timeout
timeout_of k = new_timeout 3 1 no_message no_message k (k + 0)

append_timeout-Counts_example :
    Counts four new_tc_maker 0 (timeout_of 1) (append_timeout new_tc_maker (timeout_of 1) four)
append_timeout-Counts_example =
    append_timeout-Counts four new_tc_maker 0 (timeout_of 1) four-IsValid (new_tc_maker-Inv four)
