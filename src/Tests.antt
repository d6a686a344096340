-- ===== src/Tests.antt =====
-- A committee of four, a toy signature scheme and messages on which the theorems are tried.
use auto_pilot.Crypto.{Dalek, Digest, PublicKey, Signature}
use auto_pilot.Config.Committee
use auto_pilot.Config.Committee.{Committee}
use auto_pilot.Config.Stakes.{IsValid, full_stake, masked}
use auto_pilot.Messages.Types.{
  Height, View, Slot, Proposal, Proposals, Votes, Qc, StateReport, AggregateReport, CommitQc,
  ConsensusMessage, OptionTc, Tc, Timeouts, Timeout, OptionMessage, tc_slot, tc_view, tc_timeouts,
  timeout_slot, timeout_view, timeout_author, timeout_signature, timeout_authors, push_timeout,
  from_option, transform_commit_qc, Certificate, Header, Vote, ConsensusVote, ConsensusRequest,
  default_certificate, default_header, default_qc, prepare, confirm, commit, no_tc, some_tc, new_tc,
  no_timeouts, cons_timeout, new_timeout, no_message, some_message,
}
use auto_pilot.Messages.Digests.{prepare_digest}
use auto_pilot.Messages.Bytes.{byte_bound}
use auto_pilot.Prelude.{
  ltb, leb, ◌==◌, if◌then◌else◌, ltb→lt, lt→ltb, le→ltb_false, lt→leb_false, leb→le, le→leb, ==_iff,
  Bool-cases, Option-cases, nat_eq, pair_beq, pair_beq_iff, pair_eq, Eq, length, get_elem?, filter,
  all, All, length-append, contains, IsDistinct, contains-append, IsDistinct-snoc, snoc_congr, keys,
  values, lookup, insert, contains_key, lookup-insert, ◌>>=◌, ◌>>◌, ensure, is_ok, Result, ok, err,
  ℕ, zero, suc, ◌+◌, ◌-◌, ◌*◌, ◌/◌, ◌%◌, ◌^◌, ◌≤◌, ◌<◌, ◌≡◌, refl, sym, ap, ◌∙◌, ◌≢◌, ◌↔◌, ◌⊎◌, inl,
  inr, Bool, true, false, not, ◌&&◌, ◌||◌, Option, none, some, List, [], ◌∷◌, ◌++◌, map, arith,
}
pub mod Certificates
pub mod Makers
pub mod Rounds
pub mod Committees
pub mod Voting
pub mod Stores
pub mod Commits
pub mod Tallies
pub mod Lanes
pub mod Headers

abbrev checksum : List ℕ → ℕ
checksum [] = 0
checksum (b ∷ bs) = b + 257 * checksum bs

abbrev batch_of : List Digest → List Signature → List PublicKey → Bool
batch_of [] [] [] = true
batch_of (d ∷ ds) (s ∷ ss) (k ∷ ks) = (s == d + k) && batch_of ds ss ks
batch_of _ _ _ = false

-- The key `k` signs the digest `d` by `d + k`.
abbrev pub toy : Dalek
toy = record {
  sha512 = λ bytes. checksum bytes % byte_bound 32;
  key_ok = λ _. true;
  signature_ok = λ _. true;
  verify_strict = λ key digest sig. sig == digest + key;
  batch = batch_of;
}

abbrev pub four : Committee
four = Committee.new ((4, 1, 40) ∷ (2, 1, 20) ∷ (1, 1, 10) ∷ (3, 1, 30) ∷ [])

pub four-IsValid : IsValid four
unfolding Committee.new masked
four-IsValid = record { distinct = (refl, (refl, (refl, (refl, tt)))); fits = ground arith }

abbrev pub signed_by : Digest → List PublicKey → Votes
signed_by d [] = []
signed_by d (k ∷ ks) = (k, d + k) ∷ signed_by d ks

-- The votes of `ks` for the Prepare of slot 1 and view 1.
abbrev pub prepare_qc : Option AggregateReport → List PublicKey → Qc
prepare_qc report ks = record {
  id = prepare_digest toy 1 1 report;
  votes = signed_by (prepare_digest toy 1 1 report) ks;
}

abbrev pub empty_report : AggregateReport
empty_report = record { epoch = 0; reports = [] }

-- Everyone but the authority 2.
abbrev pub not_two : PublicKey → Bool
not_two k = not (k == 2)

pub not_two-few : masked (λ k. not (not_two k)) four.authorities < Committee.validity_threshold four
unfolding Committee.new masked Committee.validity_threshold Committee.total_votes
not_two-few = ground arith
