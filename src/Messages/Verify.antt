-- ===== src/Messages/Verify.antt =====
-- primary/src/messages.rs: `verify_commit`, `verify_confirm` and the `verify` of headers, votes and
-- consensus requests.
use auto_pilot.Crypto.{Digest, Dalek, verify}
use auto_pilot.Config.Committee
use auto_pilot.Config.Committee.{Committee}
use auto_pilot.Messages.Errors.{DagError, DagResult}
use auto_pilot.Messages.Types.{
  ConsensusMessage, Header, Vote, ConsensusVote, ConsensusRequest, confirm, commit,
}
use auto_pilot.Messages.Digests.{digest, header_digest, vote_digest, prepare_digest, confirm_digest}
use auto_pilot.Messages.Certificates.{verify_qc}
use auto_pilot.Prelude.{
  ltb, ◌==◌, if◌then◌else◌, nat_eq, pair_eq, length, ◌>>◌, ensure, is_ok, ok, err, ℕ, Bool, false,
  ◌&&◌, List, [], ◌∷◌,
}

module _ (d : Dalek) (c : Committee) where
  unfoldable pub verify_confirm : ConsensusMessage → Bool
  verify_confirm (confirm slot view qc proposals report) =
      (prepare_digest d slot view report == qc.id) && is_ok (verify_qc d c qc)
  verify_confirm _ = false

  -- A certificate with as many votes as the committee has members is taken for a fast one.
  unfoldable pub verify_commit : ConsensusMessage → Bool
  verify_commit (commit slot view qc proposals report) =
      let prepare_id = prepare_digest d slot view report in
      if length qc.votes == Committee.size c
      then (prepare_id == qc.id) && is_ok (verify_qc d c qc)
      else (confirm_digest d slot view prepare_id == qc.id) && is_ok (verify_qc d c qc)
  verify_commit _ = false

  -- The loop of `Header::verify` over the workers of the payload.
  unfoldable pub check_workers : Header → List (Digest × ℕ) → DagResult (Unit {0})
  check_workers h [] = ok tt
  check_workers h ((_, worker_id) ∷ payload) = elim (Committee.worker c h.author worker_id) [
    | ok _ ↦ check_workers h payload
    | err _ ↦ err (DagError.malformed_header h.id)
  ]

  unfoldable pub verify_header : Header → DagResult (Unit {0})
  unfolding check_workers
  verify_header h = do
    ensure (header_digest d h == h.id) DagError.invalid_header_id
    ensure (ltb 0 (Committee.stake c h.author)) (DagError.unknown_authority h.author)
    check_workers h h.payload
    ensure (verify d h.signature h.id h.author) DagError.invalid_signature

  unfoldable pub verify_vote : Vote → DagResult (Unit {0})
  verify_vote v = do
    ensure (ltb 0 (Committee.stake c v.author)) (DagError.unknown_authority v.author)
    ensure (verify d v.signature (vote_digest d v) v.author) DagError.invalid_signature

  unfoldable pub verify_consensus_vote : ConsensusVote → DagResult (Unit {0})
  verify_consensus_vote v = do
    ensure (ltb 0 (Committee.stake c v.author)) (DagError.unknown_authority v.author)
    ensure (verify d v.sig v.digest v.author) DagError.invalid_signature

  unfoldable pub verify_request : ConsensusRequest → DagResult (Unit {0})
  verify_request r = do
    ensure (ltb 0 (Committee.stake c r.author)) (DagError.unknown_authority r.author)
    ensure (verify d r.sig (digest d r.message) r.author) DagError.invalid_signature
