-- ===== src/Core/Slots.antt =====
-- primary/src/core.rs: the slots of an epoch, and the bound `k` on open instances that is in force at
-- a slot. `u64` multiplication and addition saturate where the source says so.
use auto_pilot.Messages.Types.{Slot}
use auto_pilot.Core.State.{Core}
use auto_pilot.Prelude.{
  ltb, leb, ◌==◌, if◌then◌else◌, nat_eq, pair_eq, ℕ, ◌+◌, ◌-◌, ◌*◌, ◌/◌, ◌%◌, ◌^◌, ◌&&◌, ◌||◌,
  Option, none, some,
}

abbrev u64_max : ℕ
u64_max = 2 ^ 64 - 1

abbrev pub saturate : ℕ → ℕ
saturate n = if leb n u64_max then n else u64_max

unfoldable pub epoch_index_for_slot : Core → Slot → ℕ
epoch_index_for_slot s slot =
    if (s.epoch_slots == 0) || (slot == 0) then 0 else (slot - 1) / s.epoch_slots

unfoldable pub epoch_slot_index : Core → Slot → Option ℕ
epoch_slot_index s slot =
    if (s.epoch_slots == 0) || (slot == 0) then none else some ((slot - 1) % s.epoch_slots + 1)

unfoldable pub epoch_start_slot : Core → ℕ → Option Slot
epoch_start_slot s epoch =
    if s.epoch_slots == 0 then none else some (saturate (saturate (epoch * s.epoch_slots) + 1))

unfoldable pub base_k_for_slot : Core → Slot → ℕ
unfolding epoch_slot_index
base_k_for_slot s slot =
    if (s.epoch_slots == 0) || (s.applied_begin == 0) then s.k else elim (epoch_slot_index s slot) [
      | some pos_in_epoch ↦ if ltb pos_in_epoch s.applied_begin then s.last_used_k else s.k
      | none ↦ s.k
    ]

unfoldable pub k_with_transition_guard : Core → Slot → ℕ → ℕ
k_with_transition_guard s slot base_k = elim s.k_transition_end_slot [
  | some transition_end ↦
      if leb slot transition_end && ltb base_k s.last_used_k then s.last_used_k else base_k
  | none ↦ base_k
]

-- `effective_k_for_prepare_slot`, and `effective_k_for_qc_slot`, which has the same body.
unfoldable pub effective_k_for_prepare_slot : Core → Slot → ℕ
unfolding base_k_for_slot k_with_transition_guard
effective_k_for_prepare_slot s slot = k_with_transition_guard s slot (base_k_for_slot s slot)

unfoldable pub effective_k_for_qc_slot : Core → Slot → ℕ
unfolding base_k_for_slot k_with_transition_guard
effective_k_for_qc_slot s slot = k_with_transition_guard s slot (base_k_for_slot s slot)
