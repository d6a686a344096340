-- ===== src/Core/Coverage.antt =====
-- primary/src/core.rs: the `unwrap`s of `enough_coverage` and of `try_prepare_waiting_slots`.
use auto_pilot.Crypto.{PublicKey}
use auto_pilot.Messages.Types.{
  Slot, Proposal, Proposals, ConsensusMessage, prepare, confirm, commit,
}
use auto_pilot.Core.State.{Node, Core, add_u64, set_insert, ◌and_then◌}
use auto_pilot.Core.ViewChange.{is_leader, share, current_tips, send_consensus_req}
use auto_pilot.Core.Tickets.{
  count_new_tips, enough_coverage, next_prepare, propose_next, keep_ticket, is_bounded_out,
  is_prepare_ticket_ready, try_tickets, try_prepare_waiting_slots,
}
use auto_pilot.Core.Proposing.{ticket_proposals, last_branch, second_branch, third_branch}
use auto_pilot.Core.Queue.{tickets_cases}
use auto_pilot.Prelude.{
  ltb, leb, if◌then◌else◌, Bool-cases, Option-cases, nat_eq, pair_eq, length, all, All,
  length-append, contains, keys, lookup, contains_key, ℕ, zero, suc, ◌%◌, ◌≤◌, ◌≡◌, refl, ◌∙◌, ◌⊎◌,
  inl, inr, Bool, true, false, Option, some, List, [], ◌∷◌, ◌++◌, arith,
}

-- The ticket lists the authority of every tip.
abbrev pub Covers : Proposals → ConsensusMessage → Type 0
Covers tips m = All (λ pk. contains_key pk (ticket_proposals m) ≡ true) (keys tips)

key_found :
    (pk : PublicKey) (ticket : Proposals)
    → contains_key pk ticket ≡ true
    → (p : Proposal) × (lookup pk ticket ≡ some p)
unfolding contains_key
key_found pk ticket h = elim (Option-cases (lookup pk ticket)) [
  | inl e ↦ absurd (ground arith)
  | inr found ↦ found
]

count_new_tips_returns :
    (tips ticket : Proposals)
    → All (λ pk. contains_key pk ticket ≡ true) (keys tips)
    → (count : ℕ) × (count_new_tips tips ticket ≡ some count)
unfolding count_new_tips
count_new_tips_returns [] ticket h = (0, refl)
count_new_tips_returns ((pk, p) ∷ tips) ticket h =
    let (old, found) = key_found pk ticket h.0 in
    let (count, rest) = count_new_tips_returns tips ticket h.1 in
    (if ltb old.height p.height then suc count else count, rw (found, rest) refl)

enough_coverage_returns :
    (s : Core) (ticket : Proposals)
    → All (λ pk. contains_key pk ticket ≡ true) (keys (current_tips s))
    → (enough : Bool) × (enough_coverage s ticket ≡ some enough)
unfolding enough_coverage
enough_coverage_returns s ticket h =
    let (count, e) = count_new_tips_returns (current_tips s) ticket h in
    (leb s.cut_condition_type (count % 256), rw e refl)

-- The ticket is handled with no panic, the tips stay, and the queue keeps its tickets.
record IsHandled (n : Node) (s : Core) (m : ConsensusMessage) : Type 0 where
  after : Core
  returns : is_prepare_ticket_ready n s m ≡ some after
  tips : current_tips after ≡ current_tips s
  queue :
      (after.prepare_tickets ≡ s.prepare_tickets)
      ⊎ (after.prepare_tickets ≡ s.prepare_tickets ++ m ∷ [])

share_keeps :
    (n : Node) (m : ConsensusMessage) (s : Core)
    → (current_tips (share n m s) ≡ current_tips s)
      × ((share n m s).prepare_tickets ≡ s.prepare_tickets)
unfolding send_consensus_req
share_keeps n m s = elim (Bool-cases s.use_ride_share) [
  | inl e ↦ (simp e, simp e)
  | inr e ↦ (simp e, simp e)
]

propose_next_keeps :
    (n : Node) (s : Core) (next : Slot)
    → (current_tips (propose_next n s next) ≡ current_tips s)
      × ((propose_next n s next).prepare_tickets ≡ s.prepare_tickets)
unfolding propose_next
propose_next_keeps n s next =
    share_keeps n (next_prepare s next)
      (record s { already_proposed_slots = set_insert next s.already_proposed_slots })

covered_branch :
    (n : Node) (s : Core) (m : ConsensusMessage) (next : Slot) (o : Option Bool) (enough : Bool)
    → o ≡ some enough
    → (o and_then λ enough. some (if enough then propose_next n s next else keep_ticket m s))
      ≡ some (if enough then propose_next n s next else keep_ticket m s)
covered_branch n s m next o enough e = rw e refl

proposed_or_kept :
    (n : Node) (s : Core) (m : ConsensusMessage) (next : Slot) (enough : Bool)
    → is_prepare_ticket_ready n s m
      ≡ some (if enough then propose_next n s next else keep_ticket m s)
    → IsHandled n s m
proposed_or_kept n s m next true r =
    let (tips, queue) = propose_next_keeps n s next in
    record { after = propose_next n s next; returns = r; tips = tips; queue = inl queue }
proposed_or_kept n s m next false r = record {
  after = keep_ticket m s;
  returns = r;
  tips = refl;
  queue = inr refl;
}

unchanged :
    (n : Node) (s : Core) (m : ConsensusMessage)
    → is_prepare_ticket_ready n s m ≡ some s
    → IsHandled n s m
unchanged n s m r = record { after = s; returns = r; tips = refl; queue = inl refl }

ticket-IsHandled :
    (n : Node) (s : Core) (m : ConsensusMessage) → Covers (current_tips s) m → IsHandled n s m
unfolding is_prepare_ticket_ready
ticket-IsHandled n s (confirm a b c d e) h = unchanged n s (confirm a b c d e) refl
ticket-IsHandled n s (commit a b c d e) h = unchanged n s (commit a b c d e) refl
ticket-IsHandled n s (prepare slot view tc ticket proposals report) h =
    let next = add_u64 slot 1 in
    let m = prepare slot view tc ticket proposals report in
    elim (Bool-cases (is_leader n next 1)) [
      | inr l ↦ unchanged n s m (rw l refl)
      | inl l ↦ elim (Bool-cases (contains s.already_proposed_slots next)) [
        | inl f ↦ unchanged n s m (second_branch _ _ _ l f)
        | inr f ↦ elim (Bool-cases (is_bounded_out s next)) [
          | inl b ↦ record {
            after = keep_ticket m s;
            returns = third_branch _ _ _ _ l f b;
            tips = refl;
            queue = inr refl;
          }
          | inr b ↦
              let (enough, e) = enough_coverage_returns s proposals h in
              proposed_or_kept n s m next enough (
                last_branch _ _ _ _ l f b
                ∙ covered_branch n s m next (enough_coverage s proposals) enough e)
        ]
      ]
    ]

length_queue :
    (n : Node) (s : Core) (m : ConsensusMessage) (h : IsHandled n s m)
    → length s.prepare_tickets ≤ length h.after.prepare_tickets
length_queue n s m h = elim h.queue [
  | inl e ↦ rw e (omega arith)
  | inr e ↦ rw (e, length-append s.prepare_tickets (m ∷ [])) (omega arith)
]

Covers-snoc :
    (tips : Proposals) (ms : List ConsensusMessage) (m : ConsensusMessage)
    → All (Covers tips) ms
    → Covers tips m
    → All (Covers tips) (ms ++ m ∷ [])
Covers-snoc tips [] m h k = (k, tt)
Covers-snoc tips (x ∷ ms) m h k = (h.0, Covers-snoc tips ms m h.1 k)

Covers-queue :
    (n : Node) (s : Core) (m : ConsensusMessage) (h : IsHandled n s m)
    → All (Covers (current_tips s)) s.prepare_tickets
    → Covers (current_tips s) m
    → All (Covers (current_tips h.after)) h.after.prepare_tickets
Covers-queue n s m h all one = elim h.queue [
  | inl e ↦ rw (h.tips, e) all
  | inr e ↦ rw (h.tips, e) (Covers-snoc (current_tips s) s.prepare_tickets m all one)
]

try_step :
    (i : ℕ) (n : Node) (s next s' : Core) (m : ConsensusMessage) (ms : List ConsensusMessage)
    → s.prepare_tickets ≡ m ∷ ms
    → is_prepare_ticket_ready n (record s { prepare_tickets = ms }) m ≡ some next
    → try_tickets i n next ≡ some s'
    → try_tickets (suc i) n s ≡ some s'
unfolding try_tickets
try_step i n s next s' m ms e r run = rw (e, r) run

try_tickets_returns :
    (i : ℕ) (n : Node) (s : Core)
    → i ≤ length s.prepare_tickets
    → All (Covers (current_tips s)) s.prepare_tickets
    → (s' : Core) × (try_tickets i n s ≡ some s')
unfolding try_tickets
try_tickets_returns zero n s long all = (s, refl)
try_tickets_returns (suc i) n s long all = elim (tickets_cases s.prepare_tickets) [
  | inl e ↦ absurd (let bad = rw e at long in omega arith)
  | inr (m, ms, e) ↦
      let popped = record s { prepare_tickets = ms } in
      let (one, others) : Covers (current_tips s) m × All (Covers (current_tips s)) ms =
        rw e at all in
      let more : i ≤ length ms = (let l : suc i ≤ length (m ∷ ms) = rw e at long in omega arith) in
      let h = ticket-IsHandled n popped m one in
      let (s', run) =
        try_tickets_returns i n h.after (let l = length_queue n popped m h in omega arith)
          (Covers-queue n popped m h others one) in
      (s', try_step i n s h.after s' m ms e h.returns run)
]

-- With ride sharing, if every waiting ticket lists the authority of every current tip, the run over
-- the waiting tickets returns: it never meets an empty queue, and no proposal is missing. (Without
-- ride sharing the source goes on to handle the Prepare of each slot itself.)
pub try_prepare_waiting_slots_returns :
    (n : Node) (s : Core)
    → s.use_ride_share ≡ true
    → All (Covers (current_tips s)) s.prepare_tickets
    → (s' : Core) × (try_prepare_waiting_slots n s ≡ some s')
unfolding try_prepare_waiting_slots
try_prepare_waiting_slots_returns n s _ all =
    try_tickets_returns (length s.prepare_tickets) n s (omega arith) all
