-- ===== src/Committer/Heights.antt =====
-- primary/src/committer.rs, `last_executed_heights`: the heights to which cars are executed.
use auto_pilot.Crypto.{PublicKey}
use auto_pilot.Messages.Types.{
  Height, Proposal, Proposals, ConsensusMessage, prepare, confirm, commit,
}
use auto_pilot.Core.Accepted.{some_injective}
use auto_pilot.Core.State.{add_u64, ◌and_then◌, get_or}
use auto_pilot.Committer.Order.{and_then_some}
use auto_pilot.Messages.Types.{Header}
use auto_pilot.Committer.{
  Synchronizer, State, execute_proposal, execute_proposals, execute_next, execute_slots,
  process_commit_message,
}
use auto_pilot.Prelude.{
  leb, ◌==◌, ==_iff, Bool-cases, Option-cases, nat_eq, pair_eq, length, lookup, insert,
  lookup-insert, ℕ, zero, suc, ◌≤◌, ◌<◌, ◌≡◌, sym, inl, inr, Option, none, some, List, [], ◌∷◌,
  ◌++◌, arith,
}

-- The height to which a car is executed.
abbrev pub height_of : State → PublicKey → Height
height_of s pk = get_or 0 (lookup pk s.last_executed_heights)

-- A step that returns raises.
abbrev Raises : (State → Option State) → Type 0
Raises f = (s s' : State) → f s ≡ some s' → (pk : PublicKey) → height_of s pk ≤ height_of s' pk

insert_raises :
    (pk other : PublicKey) (new old : Height) (m : List (PublicKey × Height))
    → lookup pk m ≡ some old
    → old < new
    → get_or 0 (lookup other m) ≤ get_or 0 (lookup other (insert pk new m))
insert_raises pk other new old m h less = elim (Bool-cases (other == pk)) [
  | inl e ↦
      (let here : other ≡ pk = (==_iff other pk).0 e in
        let there : lookup other m ≡ some old = rw here h in
        rw (lookup-insert pk other new m, e, there) (omega arith))
  | inr e ↦ rw (lookup-insert pk other new m, e) (omega arith)
]

headers_raise :
    (pk : PublicKey) (p : Proposal) (stop : Height) (s s' : State) (o : Option (List Header))
    (other : PublicKey)
    → lookup pk s.last_executed_heights ≡ some stop
    → stop < p.height
    → (o and_then λ headers. some (record s {
      last_executed_heights = insert pk p.height s.last_executed_heights;
      output = s.output ++ headers;
    }))
      ≡ some s'
    → height_of s other ≤ height_of s' other
headers_raise pk p stop s s' none other found less h = absurd (let bad = h in cc)
headers_raise pk p stop s s' (some headers) other found less h =
    let e = some_injective h in
    rw (sym e) (insert_raises pk other p.height stop s.last_executed_heights found less)

proposal_raises :
    (sync : Synchronizer) (pk : PublicKey) (p : Proposal) (stop : Height) (s s' : State)
    (other : PublicKey)
    → lookup pk s.last_executed_heights ≡ some stop
    → execute_proposal sync pk p stop s ≡ some s'
    → height_of s other ≤ height_of s' other
unfolding execute_proposal
proposal_raises sync pk p stop s s' other found h = elim (Bool-cases (leb p.height stop)) [
  | inl e ↦ (let same = some_injective (rw e at h) in rw (sym same) (omega arith))
  | inr e ↦
      headers_raise pk p stop s s' (sync.get_all_headers_for_proposal p stop) other found
        (ground arith) (rw e at h)
]

execute_proposals-Raises :
    (sync : Synchronizer) (ps : Proposals) → Raises (execute_proposals sync ps)
unfolding execute_proposals
execute_proposals-Raises sync [] s s' h other = let e = some_injective h in rw (sym e) (omega arith)
execute_proposals-Raises sync ((pk, p) ∷ ps) s s' h other =
    let (stop, found, one) = and_then_some (lookup pk s.last_executed_heights) _ s' h in
    let (t, run, others) =
      and_then_some (execute_proposal sync pk p stop s) (execute_proposals sync ps) s' one in
    let a = proposal_raises sync pk p stop s t other found run in
    let b = execute_proposals-Raises sync ps t s' others other in omega arith

next-Raises :
    (sync : Synchronizer) (rest : State → Option State) (o : Option Proposals)
    → Raises rest
    → Raises (execute_next sync rest o)
unfolding execute_next
next-Raises sync rest none r s s' h other = let e = some_injective h in rw (sym e) (omega arith)
next-Raises sync rest (some ps) r s s' h other =
    let (t, run, later) =
      and_then_some (execute_proposals sync ps s)
        (λ t. rest (record t { last_executed_slot = add_u64 t.last_executed_slot 1 })) s' h in
    let a = execute_proposals-Raises sync ps s t run other in
    let b = r (record t { last_executed_slot = add_u64 t.last_executed_slot 1 }) s' later other in
    omega arith

execute_slots-Raises : (sync : Synchronizer) (fuel : ℕ) → Raises (execute_slots sync fuel)
unfolding execute_slots
execute_slots-Raises sync zero s s' h other =
    elim (Option-cases (lookup (add_u64 s.last_executed_slot 1) s.log)) [
      | inl n ↦ (let e = some_injective (rw (execute_slots, n) at h) in rw (sym e) (omega arith))
      | inr (q, f) ↦ absurd (let bad = rw (execute_slots, f) at h in cc)
    ]
execute_slots-Raises sync (suc fuel) s s' h other =
    next-Raises sync (execute_slots sync fuel) (lookup (add_u64 s.last_executed_slot 1) s.log)
      (execute_slots-Raises sync fuel) s s' h other

-- No message that the committer handles lowers the height to which any car is executed.
pub process_commit_message-height_of :
    (sync : Synchronizer) (s s' : State) (m : ConsensusMessage) (pk : PublicKey)
    → process_commit_message sync s m ≡ some s'
    → height_of s pk ≤ height_of s' pk
unfolding process_commit_message
process_commit_message-height_of sync s s' (prepare a b c d e f) pk h =
    let e = some_injective h in rw (sym e) (omega arith)
process_commit_message-height_of sync s s' (confirm a b c d e) pk h =
    let e = some_injective h in rw (sym e) (omega arith)
process_commit_message-height_of sync s s' (commit slot view qc p r) pk h =
    elim (Bool-cases (leb slot s.last_executed_slot)) [
      | inl old ↦ (let e = some_injective (rw old at h) in rw (sym e) (omega arith))
      | inr new ↦
          execute_slots-Raises sync (length (insert slot p s.log))
            (record s { log = insert slot p s.log }) s' (rw new at h) pk
    ]
