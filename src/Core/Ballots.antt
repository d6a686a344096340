-- ===== src/Core/Ballots.antt =====
-- primary/src/core.rs: the votes of a primary for Prepare messages, over a run.
use auto_pilot.Prelude.{
  Bool-cases, nat_eq, pair_beq, pair_beq_iff, pair_eq, contains, ◌≡◌, refl, sym, ap, ◌∙◌, inl, inr,
  Bool, true, false, ◌||◌, Option, none, some, List, [], ◌∷◌, arith,
}
use auto_pilot.Messages.Types.{
  View, Slot, Proposals, AggregateReport, CommitQc, ConsensusMessage, OptionTc, prepare,
}
use auto_pilot.Core.State.{Node, Core, add_u64, set_insert, ◌and_then◌}
use auto_pilot.Core.Tickets.{is_prepare_ticket_ready}
use auto_pilot.Core.Proposing.{ticket_cases}
use auto_pilot.Core.Validity.{is_valid}
use auto_pilot.Core.Accepted.{some_injective, is_valid-IsVotable}
use auto_pilot.Core.Voting.{
  cast_ballot, Ballot, ballot_for, start_next_timer, record_vote, process_prepare_message,
}

ticket_voted :
    (n : Node) (s s' : Core) (m : ConsensusMessage)
    → is_prepare_ticket_ready n s m ≡ some s'
    → s'.last_voted_consensus ≡ s.last_voted_consensus
ticket_voted n s s' m h = elim (ticket_cases n s s' m h) [ inl w ↦ w.voted | inr p ↦ p.voted ]

start_next_timer_voted :
    (s : Core) (next : Slot)
    → (start_next_timer s next).last_voted_consensus ≡ s.last_voted_consensus
unfolding start_next_timer
start_next_timer_voted s next = ground arith

record_vote_voted :
    (s : Core) (slot : Slot) (view : View) (proposals : Proposals) (report : Option AggregateReport)
    → (record_vote s slot view proposals report).last_voted_consensus
      ≡ set_insert {A = Slot × View} (slot, view) s.last_voted_consensus
unfolding record_vote
record_vote_voted s slot view proposals report = refl

after_ticket_voted :
    (n : Node) (s s' : Core) (slot : Slot) (view : View) (m : ConsensusMessage)
    (proposals : Proposals) (report : Option AggregateReport) (bs : List Ballot) (o : Option Core)
    → is_prepare_ticket_ready n s m ≡ o
    → (o and_then λ x. some (cast_ballot n slot view m proposals report x)) ≡ some (s', bs)
    → (s'.last_voted_consensus ≡ set_insert {A = Slot × View} (slot, view) s.last_voted_consensus)
      × (bs ≡ ballot_for n slot m ∷ [])
unfolding cast_ballot
after_ticket_voted n s s' slot view m proposals report bs none r h = absurd (let bad = h in cc)
after_ticket_voted n s s' slot view m proposals report bs (some x) r h =
    let e = some_injective h in
    let next = add_u64 slot 1 in
    let kept : (start_next_timer x next).last_voted_consensus ≡ s.last_voted_consensus =
      start_next_timer_voted x next ∙ ticket_voted n s x m r in
    (
      ap (λ t. t.0.last_voted_consensus) (sym e)
          ∙ (record_vote_voted (start_next_timer x next) slot view proposals report
              ∙ ap (λ vs. set_insert {A = Slot × View} (slot, view) vs) kept),
      ap (λ t. t.1) (sym e),
    )

-- Handling a Prepare records its slot and view, and votes for its digest.
process_prepare_message_voted :
    (n : Node) (s s' : Core) (slot : Slot) (view : View) (tc : OptionTc) (ticket : Option CommitQc)
    (proposals : Proposals) (report : Option AggregateReport) (bs : List Ballot)
    → process_prepare_message n s (prepare slot view tc ticket proposals report) ≡ some (s', bs)
    → (s'.last_voted_consensus ≡ set_insert {A = Slot × View} (slot, view) s.last_voted_consensus)
      × (bs ≡ ballot_for n slot (prepare slot view tc ticket proposals report) ∷ [])
unfolding process_prepare_message
process_prepare_message_voted n s s' slot view tc ticket proposals report bs h =
    let m = prepare slot view tc ticket proposals report in
    after_ticket_voted n s s' slot view m proposals report bs (is_prepare_ticket_ready n s m) refl h

-- The steps of a primary: it checks and votes for a Prepare, or it does anything that keeps the set of
-- its Prepare votes. The list has the slot and view of each vote, the last one first.
pub data Run (n : Node) (s : Core) : List (Slot × View) → Core → Type 0 where
  start : Run n s [] s
  vote :
      {vs : List (Slot × View)} {s3 : Core} (s1 s2 : Core) (slot : Slot) (view : View)
      (tc : OptionTc) (ticket : Option CommitQc) (proposals : Proposals)
      (report : Option AggregateReport) (bs : List Ballot)
      → Run n s vs s1
      → is_valid n s1 (prepare slot view tc ticket proposals report) ≡ some (s2, true)
      → process_prepare_message n s2 (prepare slot view tc ticket proposals report) ≡ some (s3, bs)
      → Run n s ((slot, view) ∷ vs) s3
  other :
      {vs : List (Slot × View)} {s2 : Core} (s1 : Core)
      → Run n s vs s1
      → s2.last_voted_consensus ≡ s1.last_voted_consensus
      → Run n s vs s2

-- No pair stands twice.
abbrev pub IsUnrepeated : List (Slot × View) → Type 0
IsUnrepeated [] = Unit {0}
IsUnrepeated (v ∷ vs) = (contains vs v ≡ false) × IsUnrepeated vs

contains-set_insert :
    (v w : Slot × View) (vs : List (Slot × View))
    → contains (set_insert v vs) w ≡ (pair_beq w v || contains vs w)
contains-set_insert v w vs = elim (Bool-cases (contains vs v)) [
  | inr c ↦ rw c refl
  | inl c ↦ elim (Bool-cases (pair_beq w v)) [
    | inl e ↦ (let same = (pair_beq_iff w v).0 e in rw (c, e) (rw same c))
    | inr e ↦ rw (c, e) refl
  ]
]

-- A vote of a run is new, and it is recorded.
run_vote :
    (n : Node) (s1 s2 s3 : Core) (slot : Slot) (view : View) (tc : OptionTc)
    (ticket : Option CommitQc) (proposals : Proposals) (report : Option AggregateReport)
    (bs : List Ballot)
    → is_valid n s1 (prepare slot view tc ticket proposals report) ≡ some (s2, true)
    → process_prepare_message n s2 (prepare slot view tc ticket proposals report) ≡ some (s3, bs)
    → (contains {A = Slot × View} s1.last_voted_consensus (slot, view) ≡ false)
      × (s3.last_voted_consensus
          ≡ set_insert {A = Slot × View} (slot, view) s1.last_voted_consensus)
run_vote n s1 s2 s3 slot view tc ticket proposals report bs valid run =
    let v = is_valid-IsVotable n s1 s2 slot view tc ticket proposals report valid in
    let recorded =
      process_prepare_message_voted n s2 s3 slot view tc ticket proposals report bs run in
    (v.fresh, recorded.0 ∙ ap (λ vs. set_insert {A = Slot × View} (slot, view) vs) v.voted)

or_mono : (a b c : Bool) → (b ≡ true → c ≡ true) → (a || b) ≡ true → (a || c) ≡ true
or_mono true b c f h = refl
or_mono false b c f h = f h

recorded_after :
    (v w : Slot × View) (vs old new : List (Slot × View))
    → new ≡ set_insert v old
    → (contains vs w ≡ true → contains old w ≡ true)
    → contains (v ∷ vs) w ≡ true
    → contains new w ≡ true
recorded_after v w vs old new e f h =
    rw (e, contains-set_insert v w old)
      (or_mono (pair_beq w v) (contains vs w) (contains old w) f h)

unrecorded : (a b : Bool) → (a ≡ true → b ≡ true) → b ≡ false → a ≡ false
unrecorded true b f h = let bad = f refl in cc
unrecorded false b f h = refl

Run_recorded :
    {n : Node} {s s' : Core} {vs : List (Slot × View)} (w : Slot × View)
    → Run n s vs s'
    → contains vs w ≡ true
    → contains s'.last_voted_consensus w ≡ true
Run_recorded w start h = absurd (let bad = h in cc)
Run_recorded w (vote s1 s2 slot view tc ticket proposals report bs r valid run) h =
    recorded_after (slot, view) w _ s1.last_voted_consensus _
      (run_vote _ s1 s2 _ slot view tc ticket proposals report bs valid run).1
      (λ old. Run_recorded w r old) h
Run_recorded w (other s1 r e) h = rw e (Run_recorded w r h)

-- Over any run a primary votes for at most one Prepare of each slot and view.
pub Run-IsUnrepeated :
    {n : Node} {s s' : Core} {vs : List (Slot × View)} → Run n s vs s' → IsUnrepeated vs
Run-IsUnrepeated start = tt
Run-IsUnrepeated (vote s1 s2 slot view tc ticket proposals report bs r valid run) =
    let fresh = (run_vote _ s1 s2 _ slot view tc ticket proposals report bs valid run).0 in
    (unrecorded _ _ (λ old. Run_recorded (slot, view) r old) fresh, Run-IsUnrepeated r)
Run-IsUnrepeated (other s1 r e) = Run-IsUnrepeated r
