-- ===== src/Messages/Certificates.antt =====
-- primary/src/messages.rs: `QC::verify`, `Certificate::verify`, `Timeout::verify`, `TC::verify`, and
-- the partial equalities that they use.
use auto_pilot.Crypto.{Dalek, u64_bytes, array_bytes, verify, verify_batch, verify_batch_multi}
use auto_pilot.Config.Committee
use auto_pilot.Config.Committee.{Committee}
use auto_pilot.Messages.Errors.{DagError, ConsensusError, DagResult, ConsensusResult}
use auto_pilot.Messages.Types.{
  Qc, Tc, Timeouts, Timeout, tc_timeouts, timeout_author, timeout_signature, timeout_authors,
  Certificate, Header, default_certificate, default_header, default_qc, new_tc, no_timeouts,
  cons_timeout,
}
use auto_pilot.Messages.Digests.{header_digest, timeout_digest}
use auto_pilot.Messages.Voters.{Refusals, add_voters}
use auto_pilot.Prelude.{
  ltb, leb, ◌==◌, if◌then◌else◌, nat_eq, pair_eq, keys, ◌>>=◌, ◌>>◌, ensure, ok, err, Bool, true,
  false, ◌&&◌, ◌||◌, List, [], ◌∷◌, ◌++◌, map,
}

abbrev pub dag_refusals : Refusals DagError
dag_refusals = record { reuse = DagError.authority_reuse; unknown = DagError.unknown_authority }

abbrev pub consensus_refusals : Refusals ConsensusError
consensus_refusals = record {
  reuse = ConsensusError.authority_reuse;
  unknown = ConsensusError.unknown_authority;
}

-- `QC::eq` is `false` whatever it compares.
unfoldable pub qc_eq : Qc → Qc → Bool
qc_eq _ _ = false

-- `TC::eq` is `true` whatever it compares.
unfoldable pub tc_eq : Tc → Tc → Bool
tc_eq _ _ = true

-- `Certificate::eq` compares the header and the height, and not the author.
unfoldable pub certificate_eq : Certificate → Certificate → Bool
certificate_eq a b = (a.header_digest == b.header_digest) && (a.height == b.height)

-- `TC::genesis`.
unfoldable pub tc_genesis : Tc
tc_genesis = new_tc 0 0 no_timeouts

module _ (d : Dalek) (c : Committee) where
  unfoldable pub verify_qc : Qc → ConsensusResult (Unit {0})
  unfolding qc_eq
  verify_qc qc = if qc_eq default_qc qc then ok tt else do
    weight ← add_voters consensus_refusals c [] 0 (keys qc.votes)
    ensure (leb (Committee.quorum_threshold c) weight) ConsensusError.qc_requires_quorum
    ensure (verify_batch d qc.id qc.votes) ConsensusError.invalid_signature

  -- `Header::genesis`: the author is the first authority in key order. An empty committee makes the
  -- source panic; the model then keeps the default author.
  unfoldable pub genesis_header : Header
  genesis_header = elim (keys c.authorities) [
    | [] ↦ default_header
    | name ∷ _ ↦ record default_header { author = name }
  ]

  -- `Certificate::genesis`.
  unfoldable pub genesis_certificates : List Certificate
  unfolding genesis_header
  genesis_certificates =
      map
        (λ name. record default_certificate {
          header_digest = header_digest d (record genesis_header { author = name });
          author = name;
        })
        (keys c.authorities)

  abbrev pub any_certificate : Certificate → List Certificate → Bool
  any_certificate x [] = false
  any_certificate x (g ∷ gs) = certificate_eq g x || any_certificate x gs

  unfoldable pub verify_certificate : Certificate → DagResult (Unit {0})
  unfolding genesis_certificates certificate_eq
  verify_certificate x = if any_certificate x genesis_certificates then ok tt else do
    weight ← add_voters dag_refusals c [] 0 (keys x.votes)
    ensure (leb (Committee.quorum_threshold c) weight) DagError.certificate_requires_quorum
    let vote_digest = d.sha512 (array_bytes x.header_digest ++ u64_bytes x.height)
    ensure (verify_batch_multi d (map (λ _. vote_digest) x.votes) x.votes)
        DagError.invalid_signature

  unfoldable pub verify_timeout : Timeout → DagResult (Unit {0})
  verify_timeout t = do
    ensure (ltb 0 (Committee.stake c (timeout_author t)))
        (DagError.unknown_authority (timeout_author t))
    ensure (verify d (timeout_signature t) (timeout_digest d t) (timeout_author t))
        DagError.invalid_signature

  -- The second loop of `TC::verify`.
  unfoldable pub verify_timeouts : Timeouts → ConsensusResult (Unit {0})
  unfolding verify_timeout
  verify_timeouts no_timeouts = ok tt
  verify_timeouts (cons_timeout t ts) = elim (verify_timeout t) [
    | ok _ ↦ verify_timeouts ts
    | err e ↦ err (ConsensusError.dag_error e)
  ]

  unfoldable pub verify_tc : Tc → ConsensusResult (Unit {0})
  unfolding tc_eq verify_timeouts
  verify_tc tc = if tc_eq tc_genesis tc then ok tt else do
    weight ← add_voters consensus_refusals c [] 0 (timeout_authors (tc_timeouts tc))
    ensure (leb (Committee.quorum_threshold c) weight) ConsensusError.tc_requires_quorum
    verify_timeouts (tc_timeouts tc)
