-- ===== src/Core/State.antt =====
-- primary/src/core.rs, `Core`: the state that the modelled handlers read and write. What a handler
-- sends on a channel, over the network or to a timer is appended to `out`.
use auto_pilot.Crypto.{Digest, PublicKey, Signature, Dalek}
use auto_pilot.Config.Committee.{Committee}
use auto_pilot.Messages.Types.{
  View, Slot, Proposals, StateReport, AggregateReport, CommitQc, ConsensusMessage, Timeout,
  Certificate, Header, Vote, ConsensusVote,
}
use auto_pilot.Aggregators.{VotesAggregator, QcMaker, TcMaker}
use auto_pilot.Prelude.{
  if◌then◌else◌, nat_eq, pair_eq, Eq, contains, ℕ, ◌+◌, ◌%◌, ◌^◌, Bool, Option, none, some, List,
  [], ◌∷◌, ◌++◌,
}

-- The primary's identity, fixed at start; `sign` is its signature service.
pub record Node : Type 0 where
  pub name : PublicKey
  pub committee : Committee
  pub dalek : Dalek
  pub sign : Digest → Signature

pub data CoordinationPath : Type 0 where
  fast : CoordinationPath
  slow : CoordinationPath

pub record CoordinationCertificate : Type 0 where
  pub epoch : ℕ
  pub slot : Slot
  pub view : View
  pub aggregate_report_digest : Digest
  pub path : CoordinationPath
  pub qc_votes : ℕ

pub data Effect : Type 0 where
  -- a `Timer` of a slot and view, for a duration
  start_timer : Slot → View → ℕ → Effect
  -- a `CarTimer` that loops back a vote for one consensus instance
  start_fast_timer : Slot → Digest → Effect
  -- a `CarTimer` that loops back a vote for a header
  start_car_timer : Digest → Effect
  start_collection_timer : ℕ → Effect
  send_timeout : Timeout → Effect
  -- a message to the `Proposer`, on `tx_info`
  send_info : ConsensusMessage → Effect
  -- `send_consensus_req`: the message goes out in a `ConsensusRequest`
  send_request : ConsensusMessage → Effect
  -- a certificate to the `Proposer`, on `tx_proposer`
  send_proposer : Certificate → Effect
  -- a vote for a header, to its author
  send_vote : PublicKey → Vote → Effect
  send_consensus_vote : PublicKey → ConsensusVote → Effect
  -- the own header, broadcast
  send_header : Header → Effect
  -- a Commit to the `Committer`, on `tx_committer`
  send_committer : ConsensusMessage → Effect
  -- `store.write` of a certificate, of a header, of an optimistic tip and of the coordination
  -- certificate of an epoch
  write_certificate : Certificate → Effect
  write_header : Header → Effect
  write_tip : Digest → Effect
  write_coordination : CoordinationCertificate → Effect
  request_metrics : Slot → Effect

pub record Core : Type 0 where
  pub current_header : Header
  pub sent_cert_to_proposer : Bool
  pub votes_aggregator : VotesAggregator
  pub current_proposal_tips : Proposals
  pub current_certified_tips : Proposals
  pub consensus_instances : List ((Slot × Digest) × ConsensusMessage)
  pub views : List (Slot × View)
  pub timers : List (Slot × View)
  pub last_voted_consensus : List (Slot × View)
  pub high_proposals : List (Slot × ConsensusMessage)
  pub high_qcs : List (Slot × ConsensusMessage)
  pub qc_makers : List ((Slot × Digest) × QcMaker)
  pub current_qcs_formed : ℕ
  pub tc_makers : List ((Slot × View) × TcMaker)
  pub prepare_tickets : List ConsensusMessage
  pub already_proposed_slots : List Slot
  pub timeout_delay : ℕ
  pub committed_slots : List (Slot × CommitQc)
  pub use_fast_path : Bool
  pub use_optimistic_tips : Bool
  pub use_parallel_proposals : Bool
  pub k : ℕ
  pub last_used_k : ℕ
  pub k_transition_end_slot : Option ℕ
  pub fast_path_timeout : ℕ
  pub use_ride_share : Bool
  pub car_timeout : ℕ
  pub cut_condition_type : ℕ
  pub use_exponential_timeouts : Bool
  pub epoch_slots : ℕ
  pub applied_begin : ℕ
  pub state_reports : List (ℕ × List (PublicKey × StateReport))
  pub active_collection_timers : List ℕ
  pub pending_aggregate_reports : List (ℕ × AggregateReport)
  pub certifiable_aggregate_reports : List ((Slot × View) × AggregateReport)
  pub certified_aggregate_epochs : List ℕ
  pub aggregated_epochs : List ℕ
  pub collection_timeout_ms : ℕ
  pub last_committed_slot : Slot
  pub window_size : ℕ
  pub last_triggered_slot : Slot
  pub last_voted : List (ℕ × List PublicKey)
  pub out : List Effect

-- `HashSet::insert`.
abbrev pub set_insert {ℓ} : {A : Type ℓ} ⦃e : Eq A⦄ → A → List A → List A
set_insert a xs = if contains xs a then xs else a ∷ xs

abbrev pub emit : Core → Effect → Core
emit s e = record s { out = s.out ++ e ∷ [] }

-- A handler: `none` is a panic of the source, and an `err` is returned by `?`. The state is the one
-- at the return.
abbrev pub Handler : Type 0 → Type 0
Handler A = Option (Core × A)

infixl 5 ◌and_then◌
abbrev pub ◌and_then◌ {ℓ} : {A : Type ℓ} {B : Type 0} → Option A → (A → Option B) → Option B
none and_then f = none
some a and_then f = f a

-- `u64` addition in a release build.
abbrev pub add_u64 : ℕ → ℕ → ℕ
add_u64 a b = (a + b) % 2 ^ 64

abbrev pub get_or {ℓ} : {A : Type ℓ} → A → Option A → A
get_or d none = d
get_or d (some a) = a
