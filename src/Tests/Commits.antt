-- ===== src/Tests/Commits.antt =====
-- The theorems on the committer (primary/src/committer.rs) at a concrete log.
use auto_pilot.Prelude.{
  ◌==◌, Bool-cases, nat_eq, pair_eq, length, lookup, insert, ℕ, suc, ◌+◌, ◌^◌, ◌≤◌, ◌<◌, ◌≡◌, refl,
  sym, inl, inr, none, some, [], ◌∷◌, arith,
}
use auto_pilot.Messages.Types.{Proposals, ConsensusMessage, default_header, default_qc, commit}
use auto_pilot.Core.State.{get_or}
use auto_pilot.Committer.{Synchronizer, State, process_commit_message}
use auto_pilot.Committer.Order.{Executes, process_commit_message-Executes}
use auto_pilot.Committer.Returns.{
  Finds, LogIsFound, AreKnown, LogIsKnown, process_commit_message_returns,
}
use auto_pilot.Committer.Heights.{height_of, process_commit_message-height_of}

-- The car of a proposal has one header, whose height is that of the proposal.
abbrev one_header : Synchronizer
one_header = record {
  get_all_headers_for_proposal = λ p stop. some (record default_header { height = p.height } ∷ []);
}

abbrev tip : ℕ → Proposals
tip h = (1, record { header_digest = h; height = h }) ∷ []

-- Slot 2 is committed before slot 1.
abbrev ahead : State
ahead = record {
  last_executed_heights = (1, 0) ∷ [];
  log = (2, tip 3) ∷ [];
  last_executed_slot = 0;
  output = [];
}

abbrev first_commit : ConsensusMessage
first_commit = commit 1 1 default_qc (tip 2) none

abbrev caught_up : State
caught_up = get_or ahead (process_commit_message one_header ahead first_commit)

caught_up-returns : process_commit_message one_header ahead first_commit ≡ some caught_up
unfolding process_commit_message
caught_up-returns = refl

-- Both slots are executed.
caught_up-slot : caught_up.last_executed_slot ≡ 2
unfolding process_commit_message
caught_up-slot = refl

short_log : ahead.last_executed_slot + length (insert 1 (tip 2) ahead.log) < 2 ^ 64
unfolding insert
short_log = ground arith

process_commit_message-Executes_example :
    Executes (record ahead { log = insert 1 (tip 2) ahead.log }) caught_up
process_commit_message-Executes_example =
    process_commit_message-Executes one_header ahead caught_up 1 1 default_qc (tip 2) none
      (ground arith) short_log caught_up-returns

process_commit_message-height_of_example : height_of ahead 1 ≤ height_of caught_up 1
process_commit_message-height_of_example =
    process_commit_message-height_of one_header ahead caught_up first_commit 1 caught_up-returns

tip-Finds : (h : ℕ) → Finds one_header (tip h)
tip-Finds h = (λ stop below. (record default_header { height = h } ∷ [], refl), tt)

ahead-LogIsFound : LogIsFound one_header ahead.log
unfolding lookup
ahead-LogIsFound slot ps e = elim (Bool-cases (slot == 2)) [
  | inl two ↦
      let hit : some (tip 3) ≡ some ps = rw two at e in
      let same : tip 3 ≡ ps = cc in rw (sym same) (tip-Finds 3)
  | inr other ↦ absurd (let bad = rw other at e in cc)
]

ahead-LogIsKnown : LogIsKnown ahead.last_executed_heights ahead.log
unfolding lookup
ahead-LogIsKnown slot ps e = elim (Bool-cases (slot == 2)) [
  | inl two ↦
      let hit : some (tip 3) ≡ some ps = rw two at e in
      let same : tip 3 ≡ ps = cc in rw (sym same) ((0, refl), tt)
  | inr other ↦ absurd (let bad = rw other at e in cc)
]

mine-AreKnown : AreKnown ahead.last_executed_heights (tip 2)
unfolding lookup
mine-AreKnown = ((0, refl), tt)

fitting_log : ahead.last_executed_slot + suc (length (insert 1 (tip 2) ahead.log)) < 2 ^ 64
unfolding insert
fitting_log = ground arith

process_commit_message_returns_example :
    (s' : State) × (process_commit_message one_header ahead (commit 1 1 default_qc (tip 2) none)
      ≡ some s')
process_commit_message_returns_example =
    process_commit_message_returns one_header ahead 1 1 default_qc (tip 2) none fitting_log
      ahead-LogIsFound (tip-Finds 2) ahead-LogIsKnown mine-AreKnown
