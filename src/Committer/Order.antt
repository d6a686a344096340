-- ===== src/Committer/Order.antt =====
-- primary/src/committer.rs: which slots of the log are executed.
use auto_pilot.Crypto.{PublicKey}
use auto_pilot.Messages.Types.{Height, View, Slot, Proposal, Proposals, Qc, AggregateReport, commit}
use native.Mathlib.Nat.{mod-eq_of_lt}
use auto_pilot.Core.Accepted.{some_injective}
use auto_pilot.Core.State.{add_u64, ◌and_then◌}
use auto_pilot.Messages.Types.{Header}
use auto_pilot.Committer.{
  Synchronizer, State, execute_proposal, execute_proposals, execute_next, execute_slots,
  process_commit_message,
}
use auto_pilot.Prelude.{
  ltb, leb, ◌==◌, if◌then◌else◌, lt→leb_false, ==_iff, Bool-cases, Option-cases, nat_eq, pair_eq,
  length, lookup, insert, ℕ, zero, suc, ◌+◌, ◌^◌, ◌≤◌, ◌<◌, ◌≡◌, refl, sym, ap, ◌∙◌, inl, inr,
  false, Option, none, some, List, [], ◌∷◌, ◌++◌, arith,
}

-- The slots of the log above a slot.
abbrev pub above : Slot → List (Slot × Proposals) → ℕ
above l [] = 0
above l ((k, _) ∷ log) = (if ltb l k then 1 else 0) + above l log

pub above-le-length : (l : Slot) (log : List (Slot × Proposals)) → above l log ≤ length log
above-le-length l [] = omega arith
above-le-length l ((k, p) ∷ log) = ground (arith, above-le-length l log)

above-suc : (l : Slot) (log : List (Slot × Proposals)) → above (l + 1) log ≤ above l log
above-suc l [] = omega arith
above-suc l ((k, p) ∷ log) = ground (arith, above-suc l log)

pub above_found :
    (l : Slot) (log : List (Slot × Proposals)) (p : Proposals)
    → lookup (l + 1) log ≡ some p
    → above (l + 1) log < above l log
unfolding lookup
above_found l [] p h = absurd (let bad = h in cc)
above_found l ((k, q) ∷ log) p h = elim (Bool-cases (l + 1 == k)) [
  | inl e ↦ let same : l + 1 ≡ k = (==_iff (l + 1) k).0 e in ground (arith, above-suc l log)
  | inr e ↦
      let found : lookup (l + 1) log ≡ some p = rw e at h in
      ground (arith, above_found l log p found)
]

headers_keep :
    (pk : PublicKey) (p : Proposal) (s s' : State) (o : Option (List Header))
    → (o and_then λ headers. some (record s {
      last_executed_heights = insert pk p.height s.last_executed_heights;
      output = s.output ++ headers;
    }))
      ≡ some s'
    → (s'.log ≡ s.log) × (s'.last_executed_slot ≡ s.last_executed_slot)
headers_keep pk p s s' none h = absurd (let bad = h in cc)
headers_keep pk p s s' (some headers) h =
    let e = some_injective h in (ap (λ t. t.log) (sym e), ap (λ t. t.last_executed_slot) (sym e))

proposal_keeps :
    (sync : Synchronizer) (pk : PublicKey) (p : Proposal) (stop : Height) (s s' : State)
    → execute_proposal sync pk p stop s ≡ some s'
    → (s'.log ≡ s.log) × (s'.last_executed_slot ≡ s.last_executed_slot)
unfolding execute_proposal
proposal_keeps sync pk p stop s s' h = elim (Bool-cases (leb p.height stop)) [
  | inl e ↦
      let same = some_injective (rw e at h) in
      (ap (λ t. t.log) (sym same), ap (λ t. t.last_executed_slot) (sym same))
  | inr e ↦ headers_keep pk p s s' (sync.get_all_headers_for_proposal p stop) (rw e at h)
]

-- What a chain that returns went through.
pub and_then_some :
    {A B : Type 0} (o : Option A) (f : A → Option B) (b : B)
    → (o and_then f) ≡ some b
    → (a : A) × (o ≡ some a) × (f a ≡ some b)
and_then_some none f b h = absurd (let bad = h in cc)
and_then_some (some a) f b h = (a, refl, h)

pub proposals_keep :
    (sync : Synchronizer) (ps : Proposals) (s s' : State)
    → execute_proposals sync ps s ≡ some s'
    → (s'.log ≡ s.log) × (s'.last_executed_slot ≡ s.last_executed_slot)
unfolding execute_proposals
proposals_keep sync [] s s' h =
    let e = some_injective h in (ap (λ t. t.log) (sym e), ap (λ t. t.last_executed_slot) (sym e))
proposals_keep sync ((pk, p) ∷ ps) s s' h =
    let (stop, _, one) = and_then_some (lookup pk s.last_executed_heights) _ s' h in
    let (t, run, others) =
      and_then_some (execute_proposal sync pk p stop s) (execute_proposals sync ps) s' one in
    let (log, slot) = proposal_keeps sync pk p stop s t run in
    let (log', slot') = proposals_keep sync ps t s' others in (log' ∙ log, slot' ∙ slot)

-- The slots executed between two states are the next ones, each of them is in the log, and the slot
-- after them is not.
pub record Executes (s s' : State) : Type 0 where
  pub same_log : s'.log ≡ s.log
  pub grows : s.last_executed_slot ≤ s'.last_executed_slot
  pub committed :
      (slot : Slot)
      → s.last_executed_slot < slot
      → slot ≤ s'.last_executed_slot
      → (p : Proposals) × (lookup slot s.log ≡ some p)
  pub complete : lookup (s'.last_executed_slot + 1) s'.log ≡ none

stops-Executes :
    (s s' : State) → lookup (s.last_executed_slot + 1) s.log ≡ none → s ≡ s' → Executes s s'
stops-Executes s s' h e = rw (sym e) (record {
  same_log = refl;
  grows = omega arith;
  committed = λ slot after upto. absurd (omega arith);
  complete = h;
})

turn-Executes :
    (s mid s' : State) (p : Proposals)
    → lookup (s.last_executed_slot + 1) s.log ≡ some p
    → mid.log ≡ s.log
    → mid.last_executed_slot ≡ s.last_executed_slot + 1
    → Executes mid s'
    → Executes s s'
turn-Executes s mid s' p found log slot h = record {
  same_log = h.same_log ∙ log;
  grows = let g = h.grows in omega arith;
  committed = λ j after upto. elim (Bool-cases (j == s.last_executed_slot + 1)) [
    | inl e ↦
        (let here : j ≡ s.last_executed_slot + 1 = (==_iff j (s.last_executed_slot + 1)).0 e in
          (p, rw here found))
    | inr e ↦
        (let later : mid.last_executed_slot < j =
            ground (arith, ==_iff j (s.last_executed_slot + 1)) in
          let (q, there) = h.committed j later upto in (q, ap (λ m. lookup j m) (sym log) ∙ there))
  ];
  complete = h.complete;
}

pub next_slot : (slot fuel : ℕ) → slot + suc fuel < 2 ^ 64 → add_u64 slot 1 ≡ slot + 1
next_slot slot fuel h = mod-eq_of_lt (omega arith)

-- A turn of the loop that finds proposals executes them and goes on from the next slot.
turn_of :
    (sync : Synchronizer) (rest : State → Option State) (s s' : State) (p : Proposals)
    → execute_next sync rest (some p) s ≡ some s'
    → (t : State) × (t.log ≡ s.log)
      × (t.last_executed_slot ≡ add_u64 s.last_executed_slot 1)
      × (rest t ≡ some s')
unfolding execute_next
turn_of sync rest s s' p h =
    let (t, run, h') =
      and_then_some (execute_proposals sync p s)
        (λ t. rest (record t { last_executed_slot = add_u64 t.last_executed_slot 1 })) s' h in
    let (log, slot) = proposals_keep sync p s t run in
    (
      record t { last_executed_slot = add_u64 t.last_executed_slot 1 },
      log,
      ap (λ l. add_u64 l 1) slot,
      h',
    )

execute_slots-Executes :
    (sync : Synchronizer) (fuel : ℕ) (s s' : State)
    → above s.last_executed_slot s.log ≤ fuel
    → s.last_executed_slot + fuel < 2 ^ 64
    → execute_slots sync fuel s ≡ some s'
    → Executes s s'
unfolding execute_slots
execute_slots-Executes sync zero s s' enough fits h =
    elim (Option-cases (lookup (s.last_executed_slot + 1) s.log)) [
      | inl e ↦ elim (Option-cases (lookup (add_u64 s.last_executed_slot 1) s.log)) [
        | inl n ↦ stops-Executes s s' e (some_injective (rw (execute_slots, n) at h))
        | inr (q, f) ↦ absurd (let bad = rw (execute_slots, f) at h in cc)
      ]
      | inr (p, e) ↦ absurd (let less = above_found s.last_executed_slot s.log p e in omega arith)
    ]
execute_slots-Executes sync (suc fuel) s s' enough fits h =
    let next = next_slot s.last_executed_slot fuel fits in
    let turn : execute_next sync (execute_slots sync fuel) (lookup (s.last_executed_slot + 1) s.log)
          s
        ≡ some s' =
      ap (λ l. execute_next sync (execute_slots sync fuel) (lookup l s.log) s) (sym next) ∙ h in
    elim (Option-cases (lookup (s.last_executed_slot + 1) s.log)) [
      | inl e ↦ stops-Executes s s' e (
          some_injective (ap (λ o. execute_next sync (execute_slots sync fuel) o s) (sym e) ∙ turn))
      | inr (p, e) ↦
          let (mid, log, slot, run) =
            turn_of sync (execute_slots sync fuel) s s' p
              (ap (λ o. execute_next sync (execute_slots sync fuel) o s) (sym e) ∙ turn) in
          let less = above_found s.last_executed_slot s.log p e in
          let at : mid.last_executed_slot ≡ s.last_executed_slot + 1 = slot ∙ next in
          turn-Executes s mid s' p e log at (
            execute_slots-Executes sync fuel mid s' (rw (log, at) (omega arith))
              (rw at (omega arith)) run)
    ]

-- Handling a Commit of a later slot puts it into the log and executes, one after the other, exactly the
-- slots that follow the last executed one in the log, as long as slots fit a `u64`: each of them is in
-- the log, and the one after them is not.
pub process_commit_message-Executes :
    (sync : Synchronizer) (s s' : State) (slot : Slot) (view : View) (qc : Qc) (p : Proposals)
    (r : Option AggregateReport)
    → s.last_executed_slot < slot
    → s.last_executed_slot + length (insert slot p s.log) < 2 ^ 64
    → process_commit_message sync s (commit slot view qc p r) ≡ some s'
    → Executes (record s { log = insert slot p s.log }) s'
unfolding process_commit_message
process_commit_message-Executes sync s s' slot view qc p r later fits h =
    let new : leb slot s.last_executed_slot ≡ false =
      lt→leb_false s.last_executed_slot slot later in
    execute_slots-Executes sync (length (insert slot p s.log))
      (record s { log = insert slot p s.log }) s'
      (above-le-length s.last_executed_slot (insert slot p s.log)) fits (rw new at h)
