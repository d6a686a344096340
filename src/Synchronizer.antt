-- ===== src/Synchronizer.antt =====
-- primary/src/synchronizer.rs: what a primary lacks of a header or of a consensus message, and the
-- requests it sends for that to the header waiter. `none` is a panic of the source: the `unwrap` of
-- an authority without a genesis header or without a fast sync height.
use auto_pilot.Crypto.{Digest, PublicKey, Dalek}
use auto_pilot.Config.Committee.{Committee, WorkerId}
use auto_pilot.Messages.Errors.{DagResult}
use auto_pilot.Messages.Types.{
  Height, View, Slot, Proposal, Proposals, Votes, Qc, StateReport, AggregateReport, CommitQc,
  ConsensusMessage, OptionTc, Tc, Timeouts, Timeout, OptionMessage, tc_slot, tc_view, tc_timeouts,
  timeout_slot, timeout_view, timeout_author, timeout_signature, timeout_authors, push_timeout,
  from_option, transform_commit_qc, Certificate, Header, Vote, ConsensusVote, ConsensusRequest,
  default_certificate, default_header, default_qc, prepare, confirm, commit, no_tc, some_tc, new_tc,
  no_timeouts, cons_timeout, new_timeout, no_message, some_message,
}
use auto_pilot.Messages.Digests.{header_digest}
use auto_pilot.Core.State.{◌and_then◌}
use auto_pilot.Prelude.{
  ltb, leb, ◌==◌, if◌then◌else◌, ltb→lt, lt→ltb, le→ltb_false, lt→leb_false, leb→le, le→leb, ==_iff,
  Bool-cases, Option-cases, nat_eq, pair_beq, pair_beq_iff, pair_eq, Eq, length, get_elem?, filter,
  all, All, length-append, contains, IsDistinct, contains-append, IsDistinct-snoc, snoc_congr, keys,
  values, lookup, insert, contains_key, lookup-insert, ◌>>=◌, ◌>>◌, ensure, is_ok, Result, ok, err,
  ℕ, zero, suc, ◌+◌, ◌-◌, ◌*◌, ◌/◌, ◌%◌, ◌^◌, ◌≤◌, ◌<◌, ◌≡◌, refl, sym, ap, ◌∙◌, ◌≢◌, ◌↔◌, ◌⊎◌, inl,
  inr, Bool, true, false, not, ◌&&◌, ◌||◌, Option, none, some, List, [], ◌∷◌, ◌++◌, map, arith,
}
pub mod Search
pub mod Missing
pub mod Ancestors
pub mod Tips

-- What the store holds, which the synchronizer only reads: headers under their digests, batches
-- under a digest and a worker, optimistic tips. An `err` is an error of the database or of decoding.
pub record StoreView : Type 0 where
  pub header_of : Digest → DagResult (Option Header)
  pub has_batch : Digest → WorkerId → DagResult Bool
  pub has_tip : Digest → DagResult Bool

-- primary/src/header_waiter.rs, `WaiterMessage`.
pub data WaiterMessage : Type 0 where
  sync_batches : List (Digest × WorkerId) → Header → Bool → WaiterMessage
  sync_proposals : List (PublicKey × Proposal × Height) → ConsensusMessage → Header → WaiterMessage
  sync_parent : Digest → Header → Height → WaiterMessage
  sync_header : Digest → WaiterMessage

-- `Synchronizer`; `sent` is what went out on `tx_header_waiter`.
pub record SyncState : Type 0 where
  pub name : PublicKey
  pub genesis_headers : List (PublicKey × Header)
  pub last_fast_sync_heights : List (PublicKey × Height)
  pub use_fast_sync : Bool
  pub sent : List WaiterMessage

abbrev pub SyncHandler : Type 0 → Type 0
SyncHandler A = Option (SyncState × DagResult A)

-- `Header::genesis_headers`.
unfoldable pub genesis_headers : Committee → List (PublicKey × Header)
genesis_headers c = map (λ pk. (pk, record default_header { author = pk })) (keys c.authorities)

-- `Synchronizer::new`.
unfoldable pub new_synchronizer : PublicKey → Committee → Bool → SyncState
unfolding genesis_headers
new_synchronizer name c use_fast_sync = record {
  name = name;
  genesis_headers = genesis_headers c;
  last_fast_sync_heights = map (λ pk. (pk, 1)) (keys c.authorities);
  use_fast_sync = use_fast_sync;
  sent = [];
}

abbrev pub send_waiter : SyncState → WaiterMessage → SyncState
send_waiter s m = record s { sent = s.sent ++ m ∷ [] }

-- `u64` subtraction of one in a release build.
abbrev pub pred_u64 : ℕ → ℕ
pred_u64 n = if n == 0 then 2 ^ 64 - 1 else n - 1

module _ (view : StoreView) where
  -- The batches of a payload that the store lacks.
  unfoldable pub missing_batches :
      List (Digest × WorkerId) → List (Digest × WorkerId) → DagResult (List (Digest × WorkerId))
  unfolding insert
  missing_batches [] missing = ok missing
  missing_batches ((digest, worker_id) ∷ payload) missing =
      view.has_batch digest worker_id >>= λ here.
      missing_batches payload (if here then missing else insert digest worker_id missing)

  -- `missing_payload` once the payload has been looked up.
  unfoldable pub request_batches :
      Header → Bool → DagResult (List (Digest × WorkerId)) → SyncState → SyncState × DagResult Bool
  request_batches header force_sync (err e) s = (s, err e)
  request_batches header force_sync (ok []) s = (s, ok false)
  request_batches header force_sync (ok (b ∷ missing)) s =
      (send_waiter s (sync_batches (b ∷ missing) header force_sync), ok true)

  unfoldable pub missing_payload : Header → Bool → SyncState → SyncState × DagResult Bool
  unfolding missing_batches request_batches
  missing_payload header force_sync s =
      if header.author == s.name
      then (s, ok false)
      else request_batches header force_sync (missing_batches header.payload []) s

-- The variables of `get_proposals`.
pub record Gathering : Type 0 where
  pub proposals_vector : List Header
  pub missing : List (PublicKey × Proposal × Height)
  pub missing_proposals : Bool

abbrev pub push_header : Gathering → Header → Gathering
push_header g h = record g { proposals_vector = g.proposals_vector ++ h ∷ [] }

-- A proposal that is not stored is asked for, with fast sync from the last height asked for.
unfoldable pub miss_proposal :
    PublicKey → Proposal → SyncState → Gathering → Option (SyncState × Gathering)
unfolding insert lookup
miss_proposal pk proposal s g =
    let ask = λ (lower_bound : Height). record g {
      missing = g.missing ++ (pk, proposal, lower_bound) ∷ [];
      missing_proposals = true;
    } in
    if s.use_fast_sync
    then (lookup pk s.last_fast_sync_heights and_then λ lower_bound. some (
      record s { last_fast_sync_heights = insert pk proposal.height s.last_fast_sync_heights },
      ask lower_bound,
    ))
    else some (s, ask 1)

abbrev pub proposals_of : ConsensusMessage → Proposals
proposals_of (prepare _ _ _ _ proposals _) = proposals
proposals_of (confirm _ _ _ proposals _) = proposals
proposals_of (commit _ _ _ proposals _) = proposals

-- Only a Commit passes over proposals of height 0.
abbrev pub is_passed : ConsensusMessage → Proposal → Bool
is_passed (commit _ _ _ _ _) proposal = proposal.height == 0
is_passed _ proposal = false

module _ (d : Dalek) (view : StoreView) where
  -- Only a Prepare may propose the header that delivers it.
  abbrev pub is_delivered : ConsensusMessage → Header → Proposal → Bool
  is_delivered (prepare _ _ _ _ _ _) delivered proposal =
      proposal.header_digest == header_digest d delivered
  is_delivered _ delivered proposal = false

  -- The proposal once the store has been read.
  unfoldable pub take_stored :
      PublicKey
      → Proposal
      → DagResult (Option Header)
      → SyncState
      → Gathering
      → SyncHandler Gathering
  unfolding miss_proposal
  take_stored pk proposal (err e) s g = some (s, err e)
  take_stored pk proposal (ok (some h)) s g = some (s, ok (push_header g h))
  take_stored pk proposal (ok none) s g =
      miss_proposal pk proposal s g and_then λ r. some (r.0, ok r.1)

  -- The body of the loops of `get_proposals`, for a proposal that is not passed over.
  unfoldable pub take_proposal :
      ConsensusMessage
      → Header
      → PublicKey
      → Proposal
      → SyncState
      → Gathering
      → SyncHandler Gathering
  unfolding take_stored lookup
  take_proposal m delivered pk proposal s g =
      lookup pk s.genesis_headers and_then λ (genesis : Header).
      if proposal.header_digest == header_digest d genesis
      then some (s, ok (push_header g genesis))
      else if is_delivered m delivered proposal
      then some (s, ok (push_header g delivered))
      else take_stored pk proposal (view.header_of proposal.header_digest) s g

  unfoldable pub gather :
      ConsensusMessage → Header → Proposals → SyncState → Gathering → SyncHandler Gathering
  unfolding take_proposal
  gather m delivered [] s g = some (s, ok g)
  gather m delivered ((pk, proposal) ∷ proposals) s g =
      (if is_passed m proposal then some (s, ok g) else take_proposal m delivered pk proposal s g)
      and_then λ r. elim (r.1) [
        | ok g' ↦ gather m delivered proposals r.0 g'
        | err e ↦ some (r.0, err e)
      ]

  -- The end of `get_proposals`.
  unfoldable pub conclude :
      ConsensusMessage → Header → Gathering → SyncState → SyncState × DagResult (List Header)
  conclude m delivered g s = elim (g.missing) [
    | [] ↦ (s, ok (if g.missing_proposals then [] else g.proposals_vector))
    | x ∷ missing ↦ (send_waiter s (sync_proposals (x ∷ missing) m delivered), ok [])
  ]

  unfoldable pub get_proposals : ConsensusMessage → Header → SyncState → SyncHandler (List Header)
  unfolding gather conclude
  get_proposals m delivered s =
      gather m delivered (proposals_of m) s
        (record { proposals_vector = []; missing = []; missing_proposals = false })
      and_then λ r. elim (r.1) [
        | ok g ↦ some (conclude m delivered g r.0)
        | err e ↦ some (r.0, err e)
      ]

  -- `get_parent_header` once the parent has been read.
  unfoldable pub take_parent :
      Header → DagResult (Option Header) → SyncState → SyncHandler (Option Header)
  unfolding insert lookup
  take_parent header (err e) s = some (s, err e)
  take_parent header (ok (some parent)) s =
      lookup header.author s.last_fast_sync_heights and_then λ last. some (
        if ltb last (pred_u64 header.height)
            then record s {
              last_fast_sync_heights =
                  insert header.author (pred_u64 header.height) s.last_fast_sync_heights;
            }
            else s,
        ok (some parent),
      )
  take_parent header (ok none) s =
      lookup header.author s.last_fast_sync_heights and_then λ lower_bound. some (
        record s {
          last_fast_sync_heights =
              insert header.author (pred_u64 header.height) s.last_fast_sync_heights;
          sent = s.sent ++ sync_parent header.parent_cert.header_digest header lower_bound ∷ [];
        },
        ok none,
      )

  unfoldable pub get_parent_header : Header → SyncState → SyncHandler (Option Header)
  unfolding take_parent lookup
  get_parent_header header s = lookup header.author s.genesis_headers and_then λ (genesis : Header).
      if header.parent_cert.header_digest == header_digest d genesis
      then some (s, ok (some genesis))
      else take_parent header (view.header_of header.parent_cert.header_digest) s

  -- The loop of `get_all_headers_for_proposal`; it also gives `none` where the fuel has run out.
  unfoldable pub climb_down :
      ℕ → Header → Height → Height → List Header → SyncState → SyncHandler (List Header)
  unfolding get_parent_header
  climb_down zero header current_height stop_height ancestors s =
      if leb current_height stop_height then some (s, ok ancestors) else none
  climb_down (suc left) header current_height stop_height ancestors s =
      if leb current_height stop_height
      then some (s, ok ancestors)
      else (get_parent_header header s and_then λ r. elim (r.1) [
        | err e ↦ some (r.0, err e)
        | ok none ↦ none
        | ok (some parent) ↦
            climb_down left parent parent.height stop_height (ancestors ++ header ∷ []) r.0
      ])

  unfoldable pub get_all_headers_for_proposal :
      ℕ → Proposal → Height → SyncState → SyncHandler (List Header)
  unfolding climb_down
  get_all_headers_for_proposal fuel proposal stop_height s =
      elim (view.header_of proposal.header_digest) [
        | err e ↦ none
        | ok none ↦ none
        | ok (some header) ↦ climb_down fuel header proposal.height stop_height [] s
      ]
