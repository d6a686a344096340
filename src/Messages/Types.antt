-- ===== src/Messages/Types.antt =====
-- primary/src/messages.rs: the data of the messages. `proposals` maps and the consensus messages of
-- a header are association lists; the batch metadata of a header, which no decision reads, is left
-- out.
use auto_pilot.Crypto.{Digest, PublicKey, Signature, default}
use auto_pilot.Config.Committee.{WorkerId}
use auto_pilot.Prelude.{nat_eq, pair_eq, ℕ, Bool, false, Option, none, some, List, [], ◌∷◌}

abbrev pub Height : Type 0
Height = ℕ

abbrev pub View : Type 0
View = ℕ

abbrev pub Slot : Type 0
Slot = ℕ

pub record Proposal : Type 0 where
  pub header_digest : Digest
  pub height : Height

abbrev pub Proposals : Type 0
Proposals = List (PublicKey × Proposal)

abbrev pub Votes : Type 0
Votes = List (PublicKey × Signature)

pub record Qc : Type 0 where
  pub id : Digest
  pub votes : Votes

-- `state` is the text of the report, as bytes.
pub record StateReport : Type 0 where
  pub epoch : ℕ
  pub state : List ℕ
  pub author : PublicKey
  pub signature : Signature

pub record AggregateReport : Type 0 where
  pub epoch : ℕ
  pub reports : List StateReport

pub record CommitQc : Type 0 where
  pub slot : Slot
  pub view : View
  pub qc : Qc
  pub proposals : Proposals
  pub aggregate_report : Option AggregateReport

-- A Prepare may carry a timeout certificate, whose timeouts carry consensus messages. `OptionTC`,
-- `Timeouts` and `OptionMessage` are `Option<TC>`, `Vec<Timeout>` and `Option<ConsensusMessage>`.
mutual
  pub data ConsensusMessage : Type 0 where
    prepare :
        Slot
        → View
        → OptionTc
        → Option CommitQc
        → Proposals
        → Option AggregateReport
        → ConsensusMessage
    confirm : Slot → View → Qc → Proposals → Option AggregateReport → ConsensusMessage
    commit : Slot → View → Qc → Proposals → Option AggregateReport → ConsensusMessage

  pub data OptionTc : Type 0 where
    no_tc : OptionTc
    some_tc : Tc → OptionTc

  pub data Tc : Type 0 where
    new_tc : Slot → View → Timeouts → Tc

  pub data Timeouts : Type 0 where
    no_timeouts : Timeouts
    cons_timeout : Timeout → Timeouts → Timeouts

  -- slot, view, high_qc, high_prop, author, signature
  pub data Timeout : Type 0 where
    new_timeout : Slot → View → OptionMessage → OptionMessage → PublicKey → Signature → Timeout

  pub data OptionMessage : Type 0 where
    no_message : OptionMessage
    some_message : ConsensusMessage → OptionMessage

abbrev pub tc_slot : Tc → Slot
tc_slot (new_tc s v ts) = s

abbrev pub tc_view : Tc → View
tc_view (new_tc s v ts) = v

abbrev pub tc_timeouts : Tc → Timeouts
tc_timeouts (new_tc s v ts) = ts

abbrev pub timeout_slot : Timeout → Slot
timeout_slot (new_timeout s v q p a g) = s

abbrev pub timeout_view : Timeout → View
timeout_view (new_timeout s v q p a g) = v

abbrev pub timeout_author : Timeout → PublicKey
timeout_author (new_timeout s v q p a g) = a

abbrev pub timeout_signature : Timeout → Signature
timeout_signature (new_timeout s v q p a g) = g

abbrev pub timeout_authors : Timeouts → List PublicKey
timeout_authors no_timeouts = []
timeout_authors (cons_timeout t ts) = timeout_author t ∷ timeout_authors ts

abbrev pub push_timeout : Timeouts → Timeout → Timeouts
push_timeout no_timeouts t = cons_timeout t no_timeouts
push_timeout (cons_timeout u ts) t = cons_timeout u (push_timeout ts t)

abbrev pub from_option : Option ConsensusMessage → OptionMessage
from_option none = no_message
from_option (some m) = some_message m

-- `transform_commitQC`.
unfoldable pub transform_commit_qc : CommitQc → ConsensusMessage
transform_commit_qc c = commit c.slot c.view c.qc c.proposals c.aggregate_report

pub record Certificate : Type 0 where
  pub author : PublicKey
  pub header_digest : Digest
  pub height : Height
  pub votes : Votes

pub record Header : Type 0 where
  pub author : PublicKey
  pub height : Height
  pub payload : List (Digest × WorkerId)
  pub parent_cert : Certificate
  pub id : Digest
  pub signature : Signature
  pub consensus_messages : List (Digest × ConsensusMessage)
  pub num_active_instances : ℕ
  pub special : Bool

pub record Vote : Type 0 where
  pub id : Digest
  pub height : Height
  pub origin : PublicKey
  pub author : PublicKey
  pub signature : Signature
  pub consensus_votes : List (Slot × Digest × Signature)

pub record ConsensusVote : Type 0 where
  pub author : PublicKey
  pub slot : Slot
  pub digest : Digest
  pub sig : Signature

pub record ConsensusRequest : Type 0 where
  pub author : PublicKey
  pub message : ConsensusMessage
  pub sig : Signature

-- The values of the derived `Default`.
abbrev pub default_certificate : Certificate
default_certificate = record { author = default; header_digest = default; height = 0; votes = [] }

abbrev pub default_header : Header
default_header = record {
  author = default;
  height = 0;
  payload = [];
  parent_cert = default_certificate;
  id = default;
  signature = default;
  consensus_messages = [];
  num_active_instances = 0;
  special = false;
}

abbrev pub default_qc : Qc
default_qc = record { id = default; votes = [] }
