-- ===== src/Messages/Errors.antt =====
-- primary/src/error.rs: the errors that the modelled code returns.
use auto_pilot.Crypto.{Digest, PublicKey}
use auto_pilot.Prelude.{nat_eq, pair_eq, Result, ℕ}

pub data DagError : Type 0 where
  invalid_signature : DagError
  invalid_header_id : DagError
  malformed_header : Digest → DagError
  unknown_authority : PublicKey → DagError
  authority_reuse : PublicKey → DagError
  certificate_requires_quorum : DagError
  header_requires_quorum : Digest → DagError
  certificate_too_old : Digest → ℕ → DagError
  invalid_slow_qc_request : DagError
  car_already_satisfied : DagError
  invalid_qc_ticket : DagError

pub data ConsensusError : Type 0 where
  invalid_signature : ConsensusError
  authority_reuse : PublicKey → ConsensusError
  unknown_authority : PublicKey → ConsensusError
  qc_requires_quorum : ConsensusError
  tc_requires_quorum : ConsensusError
  -- a `DagError` that `?` turns into a `ConsensusError`
  dag_error : DagError → ConsensusError

abbrev pub DagResult : Type 0 → Type 0
DagResult A = Result DagError A

abbrev pub ConsensusResult : Type 0 → Type 0
ConsensusResult A = Result ConsensusError A
