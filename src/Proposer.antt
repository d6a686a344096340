-- ===== src/Proposer.antt =====
-- primary/src/proposer.rs: when a primary makes the next header of its lane. `none` is a panic of
-- the source. `timer_expired` tells whether the timer of `run` has elapsed since it was last reset.
-- The metadata of batches, which headers carry for statistics, is left out.
use auto_pilot.Crypto.{Digest, PublicKey, Signature, Dalek, default}
use auto_pilot.Config.Committee.{Committee, WorkerId}
use auto_pilot.Messages.Types.{
  Height, View, Slot, Proposal, Proposals, Votes, Qc, StateReport, AggregateReport, CommitQc,
  ConsensusMessage, OptionTc, Tc, Timeouts, Timeout, OptionMessage, tc_slot, tc_view, tc_timeouts,
  timeout_slot, timeout_view, timeout_author, timeout_signature, timeout_authors, push_timeout,
  from_option, transform_commit_qc, Certificate, Header, Vote, ConsensusVote, ConsensusRequest,
  default_certificate, default_header, default_qc, prepare, confirm, commit, no_tc, some_tc, new_tc,
  no_timeouts, cons_timeout, new_timeout, no_message, some_message,
}
use auto_pilot.Messages.Digests.{digest, header_digest}
use auto_pilot.Messages.Certificates.{genesis_header}
use auto_pilot.Core.State.{Node, add_u64, ◌and_then◌}
use auto_pilot.Prelude.{
  ltb, leb, ◌==◌, if◌then◌else◌, ltb→lt, lt→ltb, le→ltb_false, lt→leb_false, ltb_false→le, leb→le,
  le→leb, ==_iff, Bool-cases, Option-cases, nat_eq, pair_beq, pair_beq_iff, pair_eq, Eq, length,
  get_elem?, filter, all, All, length-append, contains, IsDistinct, contains-append,
  IsDistinct-snoc, snoc_congr, keys, values, lookup, insert, contains_key, lookup-insert, ◌>>=◌,
  ◌>>◌, ensure, is_ok, Result, ok, err, ℕ, zero, suc, ◌+◌, ◌-◌, ◌*◌, ◌/◌, ◌%◌, ◌^◌, ◌≤◌, ◌<◌, ◌≡◌,
  refl, sym, ap, ◌∙◌, ◌≢◌, ◌↔◌, ◌⊎◌, inl, inr, Bool, true, false, not, ◌&&◌, ◌||◌, Option, none,
  some, List, [], ◌∷◌, ◌++◌, map, arith,
}
pub mod Lane

-- `tx_core` holds the headers sent to the core.
pub record Proposer : Type 0 where
  pub header_size : ℕ
  pub max_header_delay : ℕ
  pub height : Height
  pub last_parent : Option Certificate
  pub consensus_instances : List (Digest × ConsensusMessage)
  pub digests : List (Digest × WorkerId)
  pub payload_size : ℕ
  pub num_active_instances : ℕ
  pub use_special_rule : Bool
  pub is_special : Bool
  pub timer_expired : Bool
  pub tx_core : List Header

-- What the loop of `run` may receive.
pub data Input : Type 0 where
  instance_info : ConsensusMessage → Input
  parent : Certificate → Input
  batch : Digest → WorkerId → Input
  parameters : ℕ → ℕ → Input
  timer : Input

-- `Certificate::genesis_cert`.
unfoldable pub genesis_cert : Dalek → Committee → Certificate
unfolding genesis_header header_digest
genesis_cert d c = record default_certificate {
  header_digest = header_digest d (genesis_header d c);
}

-- `Proposer::spawn`.
unfoldable pub new_proposer : Node → ℕ → ℕ → Proposer
unfolding genesis_cert
new_proposer n header_size max_header_delay = record {
  header_size = header_size;
  max_header_delay = max_header_delay;
  height = 0;
  last_parent = some (genesis_cert n.dalek n.committee);
  consensus_instances = [];
  digests = [];
  payload_size = 0;
  num_active_instances = 0;
  use_special_rule = false;
  is_special = false;
  timer_expired = false;
  tx_core = [];
}

-- `BTreeMap::insert` of a batch.
unfoldable pub insert_batch :
    Digest → WorkerId → List (Digest × WorkerId) → List (Digest × WorkerId)
insert_batch k v [] = (k, v) ∷ []
insert_batch k v ((j, w) ∷ m) =
    let rest = insert_batch k v m in
    if ltb k j then (k, v) ∷ (j, w) ∷ m else if k == j then (k, v) ∷ m else (j, w) ∷ rest

-- The payload of a header: a batch that came twice stands once.
unfoldable pub collect_payload :
    List (Digest × WorkerId) → List (Digest × WorkerId) → List (Digest × WorkerId)
unfolding insert_batch
collect_payload [] m = m
collect_payload ((k, v) ∷ digests) m = collect_payload digests (insert_batch k v m)

-- `Header::new`.
unfoldable pub new_header : Node → Height → Certificate → Proposer → Header
unfolding collect_payload header_digest
new_header n height parent_cert s =
    let unsigned : Header = record {
      author = n.name;
      height = height;
      payload = collect_payload s.digests [];
      parent_cert = parent_cert;
      id = default;
      signature = default;
      consensus_messages = s.consensus_instances;
      num_active_instances = s.num_active_instances;
      special = false;
    } in
    let id = header_digest n.dalek unsigned in record unsigned { id = id; signature = n.sign id }

unfoldable pub make_header : Node → Proposer → Option Proposer
unfolding new_header
make_header n s = s.last_parent and_then λ cert. some (record s {
  digests = [];
  tx_core = s.tx_core ++ record (new_header n s.height cert s) { special = s.is_special } ∷ [];
  last_parent = none;
  consensus_instances = [];
  num_active_instances = 0;
})

abbrev some? {ℓ} : {A : Type ℓ} → Option A → Bool
some? none = false
some? (some _) = true

-- The conditions under which `run` makes a header.
unfoldable pub is_ready : Proposer → Bool
is_ready s =
    (s.timer_expired || leb s.header_size s.payload_size) && (some? s.last_parent || s.is_special)

unfoldable pub propose_if_ready : Node → Proposer → Option Proposer
unfolding is_ready make_header
propose_if_ready n s =
    if is_ready s
    then (make_header n s and_then λ s'.
        some (record s' { payload_size = 0; timer_expired = false }))
    else some s

-- A Prepare or a Confirm is an active instance.
unfoldable pub add_instance : Dalek → ConsensusMessage → Proposer → Proposer
unfolding digest insert
add_instance d (commit slot view qc proposals report) s = record s {
  consensus_instances =
      insert (digest d (commit slot view qc proposals report))
        (commit slot view qc proposals report) s.consensus_instances;
}
add_instance d m s = record s {
  is_special = if s.use_special_rule then true else s.is_special;
  num_active_instances = add_u64 s.num_active_instances 1;
  consensus_instances = insert (digest d m) m s.consensus_instances;
}

-- The `select!` of the loop.
unfoldable pub receive_input : Node → Input → Proposer → Proposer
unfolding add_instance
receive_input n (instance_info m) s = add_instance n.dalek m s
receive_input n (parent cert) s =
    if ltb cert.height s.height
    then s
    else record s { height = add_u64 s.height 1; last_parent = some cert }
receive_input n (batch dig worker_id) s = record s {
  payload_size = add_u64 s.payload_size 32;
  digests = s.digests ++ (dig, worker_id) ∷ [];
}
receive_input n (parameters header_size max_header_delay) s = record s {
  header_size = header_size;
  max_header_delay = max_header_delay;
}
receive_input n timer s = record s { timer_expired = true }

-- One turn of the loop.
unfoldable pub turn : Node → Input → Proposer → Option Proposer
unfolding propose_if_ready receive_input
turn n input s = propose_if_ready n s and_then λ s'. some (receive_input n input s')

unfoldable pub run_proposer : Node → List Input → Proposer → Option Proposer
unfolding turn
run_proposer n [] s = some s
run_proposer n (i ∷ inputs) s = turn n i s and_then run_proposer n inputs
