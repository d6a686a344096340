-- ===== src/Messages/Digests.antt =====
-- primary/src/messages.rs: the bytes that each message feeds to the hasher, and its digest.
use auto_pilot.Crypto.{Digest, Dalek, le_bytes, u64_bytes, array_bytes}
use auto_pilot.Messages.Types.{
  View, Slot, Proposals, StateReport, AggregateReport, ConsensusMessage, Timeout, Certificate,
  Header, Vote, prepare, confirm, commit,
}
use auto_pilot.Prelude.{nat_eq, pair_eq, ℕ, Option, none, some, List, [], ◌∷◌, ◌++◌}

-- `worker_id.to_le_bytes()`, a `u32`.
abbrev pub u32_bytes : ℕ → List ℕ
u32_bytes = le_bytes 4

abbrev pub payload_bytes : List (Digest × ℕ) → List ℕ
payload_bytes [] = []
payload_bytes ((x, y) ∷ p) = array_bytes x ++ (u32_bytes y ++ payload_bytes p)

abbrev pub proposals_bytes : Proposals → List ℕ
proposals_bytes [] = []
proposals_bytes ((_, p) ∷ ps) = array_bytes p.header_digest ++ proposals_bytes ps

module _ (d : Dalek) where
  -- `StateReport::digest_for`.
  unfoldable pub report_digest : StateReport → Digest
  report_digest r = d.sha512 (u64_bytes r.epoch ++ r.state)

  abbrev pub reports_bytes : List StateReport → List ℕ
  reports_bytes [] = []
  reports_bytes (r ∷ rs) = array_bytes (report_digest r) ++ reports_bytes rs

  -- `AggregateReport::digest`.
  unfoldable pub aggregate_digest : AggregateReport → Digest
  aggregate_digest r = d.sha512 (u64_bytes r.epoch ++ reports_bytes r.reports)

  abbrev pub aggregate_bytes : Option AggregateReport → List ℕ
  aggregate_bytes none = []
  aggregate_bytes (some r) = array_bytes (aggregate_digest r)

  unfoldable pub prepare_bytes : Slot → View → Option AggregateReport → List ℕ
  prepare_bytes slot view report =
      u64_bytes slot ++ (u64_bytes view ++ (aggregate_bytes report ++ 0 ∷ []))

  unfoldable pub prepare_digest : Slot → View → Option AggregateReport → Digest
  unfolding prepare_bytes
  prepare_digest slot view report = d.sha512 (prepare_bytes slot view report)

  -- The bytes of a Confirm (`tag` 1) and of a Commit (`tag` 2).
  unfoldable pub tagged_bytes : ℕ → Slot → View → Digest → List ℕ
  tagged_bytes tag slot view id = u64_bytes slot ++ (u64_bytes view ++ (array_bytes id ++ tag ∷ []))

  unfoldable pub confirm_digest : Slot → View → Digest → Digest
  unfolding tagged_bytes
  confirm_digest slot view prepare_id = d.sha512 (tagged_bytes 1 slot view prepare_id)

  -- `ConsensusMessage::digest`.
  unfoldable pub digest : ConsensusMessage → Digest
  unfolding prepare_digest tagged_bytes
  digest (prepare slot view _ _ _ report) = prepare_digest slot view report
  digest (confirm slot view qc _ _) = d.sha512 (tagged_bytes 1 slot view qc.id)
  digest (commit slot view qc _ _) = d.sha512 (tagged_bytes 2 slot view qc.id)

  -- `proposal_digest`.
  unfoldable pub proposal_digest : ConsensusMessage → Digest
  proposal_digest (prepare _ _ _ _ proposals _) = d.sha512 (proposals_bytes proposals)
  proposal_digest (confirm _ _ _ proposals _) = d.sha512 (proposals_bytes proposals)
  proposal_digest (commit _ _ _ proposals _) = d.sha512 (proposals_bytes proposals)

  -- `Header::digest`.
  unfoldable pub header_digest : Header → Digest
  header_digest h = d.sha512 (
      array_bytes h.author
      ++ (u64_bytes h.height
          ++ (payload_bytes h.payload ++ array_bytes h.parent_cert.header_digest)))

  -- `Vote::digest`.
  unfoldable pub vote_digest : Vote → Digest
  vote_digest v = d.sha512 (array_bytes v.id ++ u64_bytes v.height)

  -- `Certificate::digest`.
  unfoldable pub certificate_digest : Certificate → Digest
  certificate_digest c = d.sha512 (array_bytes c.header_digest ++ u64_bytes c.height)

  -- `Timeout::digest`: the hasher is fed nothing.
  unfoldable pub timeout_digest : Timeout → Digest
  timeout_digest t = d.sha512 []
