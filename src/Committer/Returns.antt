-- ===== src/Committer/Returns.antt =====
-- primary/src/committer.rs: when a Commit is handled with no panic.
use auto_pilot.Crypto.{PublicKey}
use auto_pilot.Messages.Types.{
  Height, View, Slot, Proposal, Proposals, Qc, AggregateReport, Header, commit,
}
use auto_pilot.Core.State.{add_u64, ◌and_then◌}
use auto_pilot.Committer.Order.{above, above-le-length, above_found, next_slot, proposals_keep}
use auto_pilot.Committer.{
  Synchronizer, State, execute_proposal, execute_proposals, execute_next, execute_slots,
  process_commit_message,
}
use auto_pilot.Prelude.{
  leb, ◌==◌, Bool-cases, Option-cases, nat_eq, pair_eq, length, all, All, keys, lookup, insert,
  lookup-insert, ℕ, zero, suc, ◌+◌, ◌^◌, ◌≤◌, ◌<◌, ◌≡◌, refl, sym, ap, ◌∙◌, inl, inr, Option, none,
  some, List, [], ◌∷◌, ◌++◌, arith,
}

-- Every authority of the proposals has an executed height.
abbrev pub AreKnown : List (PublicKey × Height) → Proposals → Type 0
AreKnown heights ps = All (λ pk. (h : Height) × (lookup pk heights ≡ some h)) (keys ps)

-- The synchronizer finds the headers of every proposal, above every height below the proposal's.
abbrev pub Finds : Synchronizer → Proposals → Type 0
Finds sync ps =
    All
      (λ (e : PublicKey × Proposal).
        (stop : Height)
        → stop < e.1.height
        → (headers : List Header) × (sync.get_all_headers_for_proposal e.1 stop ≡ some headers))
      ps

insert_known :
    (k j : PublicKey) (h : Height) (m : List (PublicKey × Height))
    → (x : Height) × (lookup j m ≡ some x)
    → (x : Height) × (lookup j (insert k h m) ≡ some x)
insert_known k j h m (x, e) = elim (Bool-cases (j == k)) [
  | inl same ↦ (h, rw (lookup-insert k j h m, same) refl)
  | inr new ↦ (x, rw (lookup-insert k j h m, new) e)
]

-- A step that returns and keeps the authorities known and the log.
abbrev Survives : State → Option State → Type 0
Survives s o =
    (s' : State) × (o ≡ some s')
    × (s'.log ≡ s.log)
    × ((j : PublicKey)
        → (x : Height) × (lookup j s.last_executed_heights ≡ some x)
        → (x : Height) × (lookup j s'.last_executed_heights ≡ some x))

execute_proposal-Survives :
    (sync : Synchronizer) (pk : PublicKey) (p : Proposal) (stop : Height) (s : State)
    → ((h : Height)
        → h < p.height
        → (headers : List Header) × (sync.get_all_headers_for_proposal p h ≡ some headers))
    → Survives s (execute_proposal sync pk p stop s)
unfolding execute_proposal
execute_proposal-Survives sync pk p stop s finds = elim (Bool-cases (leb p.height stop)) [
  | inl e ↦ (s, rw e refl, refl, λ j known. known)
  | inr e ↦
      let (headers, found) = finds stop (ground arith) in
      (
        record s {
          last_executed_heights = insert pk p.height s.last_executed_heights;
          output = s.output ++ headers;
        },
        rw (e, found) refl,
        refl,
        λ j known. insert_known pk j p.height s.last_executed_heights known,
      )
]

known_map :
    (ks : List PublicKey) (m m' : List (PublicKey × Height))
    → ((j : PublicKey)
        → (x : Height) × (lookup j m ≡ some x)
        → (x : Height) × (lookup j m' ≡ some x))
    → All (λ pk. (h : Height) × (lookup pk m ≡ some h)) ks
    → All (λ pk. (h : Height) × (lookup pk m' ≡ some h)) ks
known_map [] m m' f a = tt
known_map (k ∷ ks) m m' f a = (f k a.0, known_map ks m m' f a.1)

chain_two :
    {A B : Type 0} {a : A} {r : Option B} (o : Option A) (f : A → Option B)
    → o ≡ some a
    → f a ≡ r
    → (o and_then f) ≡ r
chain_two o f e h = rw e h

execute_proposals-Survives :
    (sync : Synchronizer) (ps : Proposals) (s : State)
    → Finds sync ps
    → AreKnown s.last_executed_heights ps
    → Survives s (execute_proposals sync ps s)
unfolding execute_proposals
execute_proposals-Survives sync [] s finds known = (s, refl, refl, λ j k. k)
execute_proposals-Survives sync ((pk, p) ∷ ps) s finds known =
    let (stop, found) = known.0 in
    let (t, run, log, keep) = execute_proposal-Survives sync pk p stop s finds.0 in
    let (s', run', log', keep') =
      execute_proposals-Survives sync ps t finds.1
        (known_map (keys ps) s.last_executed_heights t.last_executed_heights keep known.1) in
    (s', chain_two _ _ found (chain_two _ _ run run'), log' ∙ log, λ j k. keep' j (keep j k))

-- The proposals of every slot in the log are known.
abbrev pub LogIsKnown : List (PublicKey × Height) → List (Slot × Proposals) → Type 0
LogIsKnown heights log =
    (slot : Slot) (ps : Proposals) → lookup slot log ≡ some ps → AreKnown heights ps

-- The headers of the proposals of every slot in the log are found.
abbrev pub LogIsFound : Synchronizer → List (Slot × Proposals) → Type 0
LogIsFound sync log = (slot : Slot) (ps : Proposals) → lookup slot log ≡ some ps → Finds sync ps

-- What holds of every slot of a log, and of the proposals that are inserted.
log_insert :
    (P : Proposals → Type 0) (slot : Slot) (p : Proposals) (log : List (Slot × Proposals))
    → ((j : Slot) (ps : Proposals) → lookup j log ≡ some ps → P ps)
    → P p
    → (j : Slot) (ps : Proposals) → lookup j (insert slot p log) ≡ some ps
    → P ps
log_insert P slot p log all mine j ps e = elim (Bool-cases (j == slot)) [
  | inl same ↦
      let here : some p ≡ some ps =
        (let l = lookup-insert slot j p log in sym (rw same at l) ∙ e) in
      let eq : p ≡ ps = cc in rw (sym eq) mine
  | inr new ↦ all j ps (let l = lookup-insert slot j p log in sym (rw new at l) ∙ e)
]

slots_return :
    (sync : Synchronizer) (fuel : ℕ) (s : State)
    → above s.last_executed_slot s.log ≤ fuel
    → s.last_executed_slot + suc fuel < 2 ^ 64
    → LogIsFound sync s.log
    → LogIsKnown s.last_executed_heights s.log
    → (s' : State) × (execute_slots sync fuel s ≡ some s')
unfolding execute_slots execute_next
slots_return sync zero s enough fits finds known =
    elim (Option-cases (lookup (s.last_executed_slot + 1) s.log)) [
      | inl e ↦
          let stop : lookup (add_u64 s.last_executed_slot 1) s.log ≡ none =
            ap (λ l. lookup l s.log) (next_slot s.last_executed_slot zero fits) ∙ e in
          (s, rw (execute_slots, stop) refl)
      | inr (p, e) ↦ absurd (let less = above_found s.last_executed_slot s.log p e in omega arith)
    ]
slots_return sync (suc fuel) s enough fits finds known =
    let next = next_slot s.last_executed_slot (suc fuel) fits in
    elim (Option-cases (lookup (s.last_executed_slot + 1) s.log)) [
      | inl e ↦
          let stop : lookup (add_u64 s.last_executed_slot 1) s.log ≡ none =
            ap (λ l. lookup l s.log) next ∙ e in
          (s, rw (execute_slots, execute_next, stop) refl)
      | inr (ps, e) ↦
          let found : lookup (add_u64 s.last_executed_slot 1) s.log ≡ some ps =
            ap (λ l. lookup l s.log) next ∙ e in
          let (t, run, log, keep) =
            execute_proposals-Survives sync ps s (finds (s.last_executed_slot + 1) ps e)
              (known (s.last_executed_slot + 1) ps e) in
          let slot : t.last_executed_slot ≡ s.last_executed_slot =
            (proposals_keep sync ps s t run).1 in
          let t' = record t { last_executed_slot = add_u64 t.last_executed_slot 1 } in
          let at : t'.last_executed_slot ≡ s.last_executed_slot + 1 =
            ap (λ l. add_u64 l 1) slot ∙ next in
          let less = above_found s.last_executed_slot s.log ps e in
          let (s', later) =
            slots_return sync fuel t' (rw (log, at) (omega arith)) (rw at (omega arith))
              (λ j qs f. finds j qs (ap (λ l. lookup j l) (sym log) ∙ f))
              (λ j qs f.
                known_map (keys qs) s.last_executed_heights t.last_executed_heights keep
                  (known j qs (ap (λ l. lookup j l) (sym log) ∙ f))) in
          (s', rw (execute_slots, execute_next, found) (chain_two _ _ run later))
    ]

-- While slots fit a `u64`: if the synchronizer finds the headers of the proposals in the log and in
-- the Commit, above every height below theirs, and every authority of these proposals has an
-- executed height, then handling a Commit returns, and as many turns of the loop as the log has
-- slots are enough.
pub process_commit_message_returns :
    (sync : Synchronizer) (s : State) (slot : Slot) (view : View) (qc : Qc) (p : Proposals)
    (r : Option AggregateReport)
    → s.last_executed_slot + suc (length (insert slot p s.log)) < 2 ^ 64
    → LogIsFound sync s.log
    → Finds sync p
    → LogIsKnown s.last_executed_heights s.log
    → AreKnown s.last_executed_heights p
    → (s' : State) × (process_commit_message sync s (commit slot view qc p r) ≡ some s')
unfolding process_commit_message
process_commit_message_returns sync s slot view qc p r fits found finds known mine =
    elim (Bool-cases (leb slot s.last_executed_slot)) [
      | inl old ↦ (s, rw old refl)
      | inr new ↦
          let log = insert slot p s.log in
          let (s', run) =
            slots_return sync (length log) (record s { log = log })
              (above-le-length s.last_executed_slot log) fits
              (log_insert (Finds sync) slot p s.log found finds)
              (log_insert (AreKnown s.last_executed_heights) slot p s.log known mine) in
          (s', rw new run)
    ]
