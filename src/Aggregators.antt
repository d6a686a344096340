-- ===== src/Aggregators.antt =====
-- primary/src/aggregators.rs: the aggregators of votes, of consensus votes and of timeouts. A method
-- that mutates `self` returns the new aggregator beside its result.
use auto_pilot.Crypto.{Digest, PublicKey, Signature, default}
use auto_pilot.Config.Committee
use auto_pilot.Config.Committee.{Committee, Stake, add_u32}
use auto_pilot.Messages.Errors.{DagError, DagResult}
use auto_pilot.Messages.Types.{
  Height, View, Slot, Proposal, Proposals, Votes, Qc, StateReport, AggregateReport, CommitQc,
  ConsensusMessage, OptionTc, Tc, Timeouts, Timeout, OptionMessage, tc_slot, tc_view, tc_timeouts,
  timeout_slot, timeout_view, timeout_author, timeout_signature, timeout_authors, push_timeout,
  from_option, transform_commit_qc, Certificate, Header, Vote, ConsensusVote, ConsensusRequest,
  default_certificate, default_header, default_qc, prepare, confirm, commit, no_tc, some_tc, new_tc,
  no_timeouts, cons_timeout, new_timeout, no_message, some_message,
}
use auto_pilot.Prelude.{
  ltb, leb, ◌==◌, if◌then◌else◌, ltb→lt, lt→ltb, le→ltb_false, leb→le, le→leb, ==_iff, Bool-cases,
  Option-cases, nat_eq, pair_beq, pair_beq_iff, pair_eq, Eq, length, get_elem?, filter, all, All,
  length-append, contains, IsDistinct, contains-append, IsDistinct-snoc, keys, values, lookup,
  insert, contains_key, lookup-insert, ◌>>=◌, ◌>>◌, ensure, is_ok, Result, ok, err, ℕ, zero, suc,
  ◌+◌, ◌-◌, ◌*◌, ◌/◌, ◌%◌, ◌^◌, ◌≤◌, ◌<◌, ◌≡◌, refl, sym, ap, ◌∙◌, ◌≢◌, ◌↔◌, ◌⊎◌, inl, inr, Bool,
  true, false, not, ◌&&◌, ◌||◌, Option, none, some, List, [], ◌∷◌, ◌++◌, map, arith,
}
pub mod Quorum
pub mod Once
pub mod Cars
pub mod Expiry

pub record VotesAggregator : Type 0 where
  pub dissemination_weight : Stake
  pub votes : Votes
  pub used : List PublicKey
  pub diss_cert : Option Certificate
  pub complete : Bool
  pub get_once : Bool

-- `VotesAggregator::new`.
unfoldable pub new_votes : VotesAggregator
new_votes = record {
  dissemination_weight = 0;
  votes = [];
  used = [];
  diss_cert = none;
  complete = false;
  get_once = true;
}

-- The first certificate is kept.
abbrev keep_or : Option Certificate → Certificate → Option Certificate
keep_or none x = some x
keep_or (some y) x = some y

-- `VotesAggregator::append`; the header argument is not read.
unfoldable pub append_vote :
    VotesAggregator → Vote → Committee → VotesAggregator × DagResult (Bool × Bool)
append_vote m vote c =
    if m.complete
    then (m, ok (true, false))
    else if contains m.used vote.author
    then (m, err (DagError.authority_reuse vote.author))
    else (let votes = m.votes ++ (vote.author, vote.signature) ∷ [] in
        let weight = add_u32 m.dissemination_weight (Committee.stake c vote.author) in
        let added = record m {
          dissemination_weight = weight;
          votes = votes;
          used = m.used ++ vote.author ∷ [];
        } in
        let cert : Certificate = record {
          author = vote.origin;
          header_digest = vote.id;
          height = vote.height;
          votes = votes;
        } in
        if leb (Committee.validity_threshold c) weight
        then (
          record added { diss_cert = keep_or m.diss_cert cert; complete = true },
          ok (true, true),
        )
        else (added, ok (false, false)))

-- `VotesAggregator::get`.
unfoldable pub get_certificate : VotesAggregator → VotesAggregator × DagResult (Option Certificate)
get_certificate m =
    if m.get_once then (record m { get_once = false }, ok m.diss_cert) else (m, ok none)

pub record QcMaker : Type 0 where
  pub weight : Stake
  pub votes : Votes
  pub used : List PublicKey
  pub try_fast : Bool
  pub qc_dig : Digest
  pub first : Bool
  pub completed_fast : Bool
  pub fast_path_disabled : Bool
  pub sent_confirm : Bool

-- `QCMaker::new`.
unfoldable pub new_maker : QcMaker
new_maker = record {
  weight = 0;
  votes = [];
  used = [];
  try_fast = false;
  qc_dig = default;
  first = true;
  completed_fast = false;
  fast_path_disabled = false;
  sent_confirm = false;
}

abbrev pub qc_of : QcMaker → Digest → Qc
qc_of m id = record { id = id; votes = m.votes }

unfoldable pub check_fast_qc : QcMaker → Digest → Committee → QcMaker × DagResult (Bool × Option Qc)
check_fast_qc m vote_dig c =
    if leb (Committee.fast_threshold c) m.weight
    then (record m { weight = 0; completed_fast = true }, ok (true, some (qc_of m vote_dig)))
    else if leb (Committee.quorum_threshold c) m.weight
    then (record m { qc_dig = vote_dig; first = false }, ok (m.first, none))
    else (m, ok (false, none))

-- `QCMaker::append` once the vote is counted.
unfoldable pub check_qc : QcMaker → Digest → Committee → QcMaker × DagResult (Bool × Option Qc)
unfolding check_fast_qc
check_qc m vote_dig c =
    if m.try_fast
    then check_fast_qc m vote_dig c
    else if leb (Committee.quorum_threshold c) m.weight
    then (record m { weight = 0 }, ok (true, some (qc_of m vote_dig)))
    else (m, ok (false, none))

-- The maker with one more vote.
unfoldable pub count_vote : QcMaker → PublicKey → Signature → Committee → QcMaker
count_vote m author sig c = record m {
  weight = add_u32 m.weight (Committee.stake c author);
  votes = m.votes ++ (author, sig) ∷ [];
  used = m.used ++ author ∷ [];
}

-- `QCMaker::append`.
unfoldable pub append_qc :
    QcMaker → PublicKey → Digest × Signature → Committee → QcMaker × DagResult (Bool × Option Qc)
unfolding check_qc count_vote
append_qc m author (dig, sig) c =
    if contains m.used author
    then (m, err (DagError.authority_reuse author))
    else check_qc (count_vote m author sig c) dig c

unfoldable pub get_qc : QcMaker → DagResult (Bool × Option Qc)
get_qc m =
    if m.completed_fast
    then ok (false, none)
    else if m.qc_dig == default
    then err DagError.invalid_slow_qc_request
    else ok (true, some (qc_of m m.qc_dig))

pub record TcMaker : Type 0 where
  pub weight : Stake
  pub votes : Timeouts
  pub used : List PublicKey

-- `TCMaker::new`.
unfoldable pub new_tc_maker : TcMaker
new_tc_maker = record { weight = 0; votes = no_timeouts; used = [] }

-- `TCMaker::append`.
unfoldable pub append_timeout : TcMaker → Timeout → Committee → TcMaker × DagResult (Option Tc)
append_timeout m timeout c =
    let author = timeout_author timeout in
    if contains m.used author
    then (m, err (DagError.authority_reuse author))
    else (let weight = add_u32 m.weight (Committee.stake c author) in
        let votes = push_timeout m.votes timeout in
        let added : TcMaker = record {
          weight = weight;
          votes = votes;
          used = m.used ++ author ∷ [];
        } in
        if leb (Committee.quorum_threshold c) weight
        then (
          record added { weight = 0 },
          ok (some (new_tc (timeout_slot timeout) (timeout_view timeout) votes)),
        )
        else (added, ok none))
