-- ===== src/Core/Epochs.antt =====
-- primary/src/core.rs: the slots of an epoch and the bound `k` in force.
use auto_pilot.Messages.Types.{Slot}
use auto_pilot.Core.State.{Core}
use auto_pilot.Core.Slots.{
  epoch_index_for_slot, epoch_slot_index, epoch_start_slot, effective_k_for_prepare_slot,
}
use auto_pilot.Prelude.{
  nat_eq, pair_eq, ℕ, ◌+◌, ◌-◌, ◌*◌, ◌/◌, ◌%◌, ◌^◌, ◌≤◌, ◌<◌, ◌≡◌, ◌⊎◌, some, arith,
}

-- A slot above 0 is the first slot of its epoch plus its position there less one, and the position is
-- from 1 to the number of slots of an epoch, where epochs have slots and the slot fits a `u64`.
pub epoch_round_trip :
    (s : Core) (slot : Slot)
    → 0 < s.epoch_slots
    → 0 < slot
    → slot < 2 ^ 64
    → (start : ℕ) × (pos : ℕ) × (epoch_start_slot s (epoch_index_for_slot s slot) ≡ some start)
      × (epoch_slot_index s slot ≡ some pos)
      × (start + pos ≡ slot + 1)
      × (0 < pos)
      × (pos ≤ s.epoch_slots)
unfolding epoch_start_slot epoch_index_for_slot epoch_slot_index
epoch_round_trip s slot he hs hb =
    let n = s.epoch_slots in
    let q = (slot - 1) / n in
    let r = (slot - 1) % n in
    let whole : q * n + r ≡ slot - 1 = grind arith in
    let small : r < n = grind arith in
    (q * n + 1, r + 1, ground arith, ground arith, omega arith, omega arith, omega arith)

-- The bound in force is the current one or the one used before, and while the transition lasts it is
-- not below the one used before.
pub effective_k_cases :
    (s : Core) (slot : Slot)
    → ((effective_k_for_prepare_slot s slot ≡ s.k)
        ⊎ (effective_k_for_prepare_slot s slot ≡ s.last_used_k))
      × ((end_slot : Slot)
          → s.k_transition_end_slot ≡ some end_slot
          → slot ≤ end_slot
          → s.last_used_k ≤ effective_k_for_prepare_slot s slot)
unfolding effective_k_for_prepare_slot
effective_k_cases s slot = (ground arith, λ end_slot e h. ground arith)
