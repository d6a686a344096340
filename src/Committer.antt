-- ===== src/Committer.antt =====
-- primary/src/committer.rs: the execution of committed slots in their order. `none` is a panic of the
-- source: the `unwrap` of an authority that has no executed height, or a header that is missing.
use auto_pilot.Crypto.{PublicKey}
use auto_pilot.Messages.Types.{
  Height, View, Slot, Proposal, Proposals, Votes, Qc, StateReport, AggregateReport, CommitQc,
  ConsensusMessage, OptionTc, Tc, Timeouts, Timeout, OptionMessage, tc_slot, tc_view, tc_timeouts,
  timeout_slot, timeout_view, timeout_author, timeout_signature, timeout_authors, push_timeout,
  from_option, transform_commit_qc, Certificate, Header, Vote, ConsensusVote, ConsensusRequest,
  default_certificate, default_header, default_qc, prepare, confirm, commit, no_tc, some_tc, new_tc,
  no_timeouts, cons_timeout, new_timeout, no_message, some_message,
}
use auto_pilot.Core.State.{add_u64, ◌and_then◌}
use auto_pilot.Prelude.{
  ltb, leb, ◌==◌, if◌then◌else◌, ltb→lt, lt→ltb, le→ltb_false, lt→leb_false, leb→le, le→leb, ==_iff,
  Bool-cases, Option-cases, nat_eq, pair_beq, pair_beq_iff, pair_eq, Eq, length, get_elem?, filter,
  all, All, length-append, contains, IsDistinct, contains-append, IsDistinct-snoc, snoc_congr, keys,
  values, lookup, insert, contains_key, lookup-insert, ◌>>=◌, ◌>>◌, ensure, is_ok, Result, ok, err,
  ℕ, zero, suc, ◌+◌, ◌-◌, ◌*◌, ◌/◌, ◌%◌, ◌^◌, ◌≤◌, ◌<◌, ◌≡◌, refl, sym, ap, ◌∙◌, ◌≢◌, ◌↔◌, ◌⊎◌, inl,
  inr, Bool, true, false, not, ◌&&◌, ◌||◌, Option, none, some, List, [], ◌∷◌, ◌++◌, map, arith,
}
pub mod Order
pub mod Heights
pub mod Returns

-- The synchronizer, which reads the headers of a car from the store: those of a proposal that are
-- above a height, or `none` for an error, which the `expect` of the committer turns into a panic.
pub record Synchronizer : Type 0 where
  pub get_all_headers_for_proposal : Proposal → Height → Option (List Header)

-- `State`, as far as the committer reads it. Only a Commit is put into the log, which keeps its
-- proposals; `output` is what went out on `tx_output`.
pub record State : Type 0 where
  pub last_executed_heights : List (PublicKey × Height)
  pub log : List (Slot × Proposals)
  pub last_executed_slot : Slot
  pub output : List Header

-- The executed heights start at 0 for the authors of the genesis certificates.
unfoldable pub new_state : List Certificate → State
new_state genesis = record {
  last_executed_heights = map (λ x. (x.author, 0)) genesis;
  log = [];
  last_executed_slot = 0;
  output = [];
}

module _ (sync : Synchronizer) where
  -- One proposal of the Commit, from the height at which its car was executed last.
  unfoldable pub execute_proposal : PublicKey → Proposal → Height → State → Option State
  unfolding insert
  execute_proposal pk proposal stop_height s =
      if leb proposal.height stop_height
      then some s
      else sync.get_all_headers_for_proposal proposal stop_height and_then λ headers.
          some (record s {
            last_executed_heights = insert pk proposal.height s.last_executed_heights;
            output = s.output ++ headers;
          })

  unfoldable pub execute_proposals : Proposals → State → Option State
  unfolding execute_proposal lookup
  execute_proposals [] s = some s
  execute_proposals ((pk, proposal) ∷ proposals) s =
      lookup pk s.last_executed_heights and_then λ stop_height.
      execute_proposal pk proposal stop_height s and_then execute_proposals proposals

  -- One turn of the `while` loop; `rest` is the loop after it.
  unfoldable pub execute_next : (State → Option State) → Option Proposals → State → Option State
  unfolding execute_proposals
  execute_next rest none s = some s
  execute_next rest (some proposals) s = execute_proposals proposals s and_then λ s'.
      rest (record s' { last_executed_slot = add_u64 s'.last_executed_slot 1 })

  -- The `while` loop, on fuel; it also gives `none` where the fuel has run out.
  unfoldable pub execute_slots : ℕ → State → Option State
  unfolding execute_next lookup
  execute_slots zero s = elim (lookup (add_u64 s.last_executed_slot 1) s.log) [
    | none ↦ some s
    | some _ ↦ none
  ]
  execute_slots (suc fuel) s =
      execute_next (execute_slots fuel) (lookup (add_u64 s.last_executed_slot 1) s.log) s

  -- A slot that the log has executed is not executed again. Each turn of the loop takes another slot of
  -- the log.
  unfoldable pub process_commit_message : State → ConsensusMessage → Option State
  unfolding execute_slots insert
  process_commit_message s (commit slot view qc proposals report) =
      if leb slot s.last_executed_slot
      then some s
      else (let s' = record s { log = insert slot proposals s.log } in
          execute_slots (length s'.log) s')
  process_commit_message s _ = some s
