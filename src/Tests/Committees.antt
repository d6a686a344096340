-- ===== src/Tests/Committees.antt =====
-- The theorems on committees (config/src/lib.rs), leaders and epochs (primary/src/leader.rs and
-- primary/src/core.rs) at concrete values.
use auto_pilot.Crypto.{PublicKey}
use auto_pilot.Config.Committee
use auto_pilot.Config.Committee.{Committee, Authority, SocketAddr, Stake, map_some}
use auto_pilot.Config.Stakes.{masked, weight, full_stake}
use auto_pilot.Config.Thresholds.{quorum_threshold_wraps}
use auto_pilot.Core.Leader.{get_leader, get_leader_rotates}
use auto_pilot.Core.Slots.{epoch_start_slot, epoch_slot_index, epoch_index_for_slot}
use auto_pilot.Core.Epochs.{epoch_round_trip}
use auto_pilot.Tests.{four}
use auto_pilot.Tests.Rounds.{idle}
use auto_pilot.Prelude.{
  nat_eq, pair_eq, get_elem?, keys, ℕ, ◌+◌, ◌*◌, ◌^◌, ◌≤◌, ◌<◌, ◌≡◌, refl, some, List, [], ◌∷◌,
  arith,
}

four-full_stake : full_stake four ≡ 3 * 1 + 1 + 0
unfolding Committee.new masked
four-full_stake = refl

left-quorum : Committee.quorum_threshold four ≤ weight four (1 ∷ 2 ∷ 3 ∷ [])
unfolding Committee.new weight Committee.stake Committee.quorum_threshold Committee.total_votes
left-quorum = ground arith

right-quorum : Committee.quorum_threshold four ≤ weight four (2 ∷ 3 ∷ 4 ∷ [])
unfolding Committee.new weight Committee.stake Committee.quorum_threshold Committee.total_votes
right-quorum = ground arith

-- Two authorities with a stake of 2^30 each.
abbrev rich : Committee
rich = Committee.new ((1, 2 ^ 30, 10) ∷ (2, 2 ^ 30, 20) ∷ [])

rich-many : 2 ^ 31 ≤ Committee.total_votes rich
unfolding Committee.new Committee.total_votes
rich-many = ground arith

rich-few : Committee.total_votes rich < 2 ^ 32
unfolding Committee.new Committee.total_votes
rich-few = ground arith

quorum_threshold_wraps_example :
    3 * Committee.quorum_threshold rich ≤ Committee.total_votes rich + 3
quorum_threshold_wraps_example = quorum_threshold_wraps rich rich-many rich-few

abbrev entries : List (PublicKey × Stake × SocketAddr)
entries = (4, 1, 40) ∷ (2, 1, 20) ∷ (4, 7, 41) ∷ []

four-third : get_elem? (keys four.authorities) 2 ≡ some 3
unfolding Committee.new
four-third = refl

small_view : 1 + 7 + Committee.size four < 2 ^ 64
unfolding Committee.size Committee.new
small_view = ground arith

third_index : 2 < Committee.size four
unfolding Committee.size Committee.new
third_index = ground arith

get_leader_rotates_example :
    (j : ℕ) × (j < Committee.size four) × (get_leader four 7 (1 + j) ≡ some 3)
get_leader_rotates_example = get_leader_rotates four 7 1 2 3 small_view four-third third_index

epoch_round_trip_example :
    (start : ℕ) × (pos : ℕ) × (epoch_start_slot idle (epoch_index_for_slot idle 37) ≡ some start)
    × (epoch_slot_index idle 37 ≡ some pos)
    × (start + pos ≡ 37 + 1)
    × (0 < pos)
    × (pos ≤ idle.epoch_slots)
epoch_round_trip_example = epoch_round_trip idle 37 (ground arith) (ground arith) (ground arith)
