-- ===== src/Core/Proposing.antt =====
-- primary/src/core.rs, `is_prepare_ticket_ready`: what a Prepare ticket starts.
use auto_pilot.Messages.Types.{Slot, Proposals, ConsensusMessage, prepare, confirm, commit}
use auto_pilot.Core.State.{
  Node, Core, Effect, send_info, send_request, set_insert, add_u64, ◌and_then◌,
}
use auto_pilot.Core.ViewChange.{is_leader, share, send_consensus_req, set_consensus_proposal}
use auto_pilot.Core.Tickets.{
  enough_coverage, next_prepare, propose_next, keep_ticket, is_bounded_out, is_prepare_ticket_ready,
}
use auto_pilot.Prelude.{
  if◌then◌else◌, Bool-cases, nat_eq, pair_eq, contains, ◌≡◌, refl, sym, ap, ◌∙◌, ◌⊎◌, inl, inr,
  Bool, true, false, not, Option, none, some, [], ◌∷◌, ◌++◌, arith,
}

-- The Prepare of a slot goes out, to the proposer or to the other primaries.
abbrev pub prepare_sent : Node → Core → Slot → Effect
prepare_sent n s next =
    if s.use_ride_share
    then send_info (next_prepare s next)
    else send_request (
        set_consensus_proposal n
          (record s { already_proposed_slots = set_insert next s.already_proposed_slots })
          (next_prepare s next))

-- The ticket started `next`: the primary leads it and had not proposed it, at most `k` instances are
-- open, the tips cover the ticket, and its Prepare goes out.
pub record Begins (n : Node) (s : Core) (proposals : Proposals) (next : Slot) (s' : Core)
    : Type 0 where
  pub leads : is_leader n next 1 ≡ true
  pub fresh : contains s.already_proposed_slots next ≡ false
  pub bounded : is_bounded_out s next ≡ false
  pub covered : enough_coverage s proposals ≡ some true
  pub proposed : s'.already_proposed_slots ≡ next ∷ s.already_proposed_slots
  pub sent : s'.out ≡ s.out ++ prepare_sent n s next ∷ []
  pub voted : s'.last_voted_consensus ≡ s.last_voted_consensus
  pub rides : s'.use_ride_share ≡ s.use_ride_share

-- Nothing is proposed.
pub record Waits (s s' : Core) : Type 0 where
  pub proposed : s'.already_proposed_slots ≡ s.already_proposed_slots
  pub silent : s'.out ≡ s.out
  pub voted : s'.last_voted_consensus ≡ s.last_voted_consensus
  pub rides : s'.use_ride_share ≡ s.use_ride_share

share_sends :
    (n : Node) (m : ConsensusMessage) (s : Core)
    → ((share n m s).already_proposed_slots ≡ s.already_proposed_slots)
      × ((share n m s).last_voted_consensus ≡ s.last_voted_consensus)
      × ((share n m s).use_ride_share ≡ s.use_ride_share)
      × ((share n m s).out
          ≡ s.out
            ++ (if s.use_ride_share
                then send_info m
                else send_request (set_consensus_proposal n s m))
              ∷ [])
unfolding send_consensus_req
share_sends n m s = elim (Bool-cases s.use_ride_share) [
  | inl e ↦ (simp e, simp e, simp e, simp e)
  | inr e ↦ (simp e, simp e, simp e, simp e)
]

first_branch : {A : Type 0} {a : Bool} (x y : A) → a ≡ true → (if a then x else y) ≡ x
first_branch x y p = rw p refl

-- The last of four branches.
pub last_branch :
    {A : Type 0} {a b c : Bool} (x y z w : A)
    → a ≡ true
    → b ≡ false
    → c ≡ false
    → (if not a then x else if b then y else if c then z else w) ≡ w
last_branch x y z w p q r = rw (p, q, r) refl

pub second_branch :
    {A : Type 0} {a b : Bool} (x y z : A)
    → a ≡ true
    → b ≡ true
    → (if not a then x else if b then y else z) ≡ y
second_branch x y z p q = rw (p, q) refl

pub third_branch :
    {A : Type 0} {a b c : Bool} (x y z w : A)
    → a ≡ true
    → b ≡ false
    → c ≡ true
    → (if not a then x else if b then y else if c then z else w) ≡ z
third_branch x y z w p q r = rw (p, q, r) refl

propose_next-Begins :
    (n : Node) (s : Core) (proposals : Proposals) (next : Slot)
    → is_leader n next 1 ≡ true
    → contains s.already_proposed_slots next ≡ false
    → is_bounded_out s next ≡ false
    → enough_coverage s proposals ≡ some true
    → Begins n s proposals next (propose_next n s next)
unfolding propose_next
propose_next-Begins n s proposals next l f b c =
    let started = record s { already_proposed_slots = set_insert next s.already_proposed_slots } in
    let (kept, voted, rides, sent) = share_sends n (next_prepare s next) started in
    record {
      leads = l;
      fresh = f;
      bounded = b;
      covered = c;
      proposed = kept ∙ rw f refl;
      sent = sent;
      voted = voted;
      rides = rides;
    }

after_coverage :
    (n : Node) (s s' : Core) (m : ConsensusMessage) (proposals : Proposals) (next : Slot)
    (o : Option Bool)
    → is_leader n next 1 ≡ true
    → contains s.already_proposed_slots next ≡ false
    → is_bounded_out s next ≡ false
    → enough_coverage s proposals ≡ o
    → (o and_then λ enough. some (if enough then propose_next n s next else keep_ticket m s))
      ≡ some s'
    → Waits s s' ⊎ Begins n s proposals next s'
after_coverage n s s' m proposals next none l f b c h = absurd (ground arith)
after_coverage n s s' m proposals next (some true) l f b c h =
    let e : propose_next n s next ≡ s' = cc in
    inr (rw (sym e) (propose_next-Begins n s proposals next l f b c))
after_coverage n s s' m proposals next (some false) l f b c h =
    let e : keep_ticket m s ≡ s' = cc in
    inl (record {
      proposed = rw (sym e) refl;
      silent = rw (sym e) refl;
      voted = rw (sym e) refl;
      rides = rw (sym e) refl;
    })

abbrev pub ticket_slot : ConsensusMessage → Slot
ticket_slot (prepare slot _ _ _ _ _) = slot
ticket_slot (confirm slot _ _ _ _) = slot
ticket_slot (commit slot _ _ _ _) = slot

abbrev pub ticket_proposals : ConsensusMessage → Proposals
ticket_proposals (prepare _ _ _ _ proposals _) = proposals
ticket_proposals (confirm _ _ _ proposals _) = proposals
ticket_proposals (commit _ _ _ proposals _) = proposals

pub Waits-same : (s s' : Core) → some s ≡ some s' → Waits s s'
Waits-same s s' h =
    let e : s ≡ s' = cc in
    record {
      proposed = rw (sym e) refl;
      silent = rw (sym e) refl;
      voted = rw (sym e) refl;
      rides = rw (sym e) refl;
    }

-- Handling a ticket proposes nothing, or it starts the slot after the ticket's.
pub ticket_cases :
    (n : Node) (s s' : Core) (m : ConsensusMessage)
    → is_prepare_ticket_ready n s m ≡ some s'
    → Waits s s' ⊎ Begins n s (ticket_proposals m) (add_u64 (ticket_slot m) 1) s'
unfolding is_prepare_ticket_ready
ticket_cases n s s' (confirm _ _ _ _ _) h = inl (Waits-same s s' h)
ticket_cases n s s' (commit _ _ _ _ _) h = inl (Waits-same s s' h)
ticket_cases n s s' (prepare slot view tc ticket proposals report) h =
    let next = add_u64 slot 1 in
    let m = prepare slot view tc ticket proposals report in
    elim (Bool-cases (is_leader n next 1)) [
      | inr l ↦ inl (Waits-same s s' (rw l at h))
      | inl l ↦ elim (Bool-cases (contains s.already_proposed_slots next)) [
        | inl f ↦ inl (Waits-same s s' (rw (l, f) at h))
        | inr f ↦ elim (Bool-cases (is_bounded_out s next)) [
          | inl b ↦
              (let e : some (keep_ticket m s) ≡ some s' = sym (third_branch _ _ _ _ l f b) ∙ h in
                let same : keep_ticket m s ≡ s' = cc in
                inl (record {
                  proposed = rw (sym same) refl;
                  silent = rw (sym same) refl;
                  voted = rw (sym same) refl;
                  rides = rw (sym same) refl;
                }))
          | inr b ↦
              after_coverage n s s' m proposals next (enough_coverage s proposals) l f b refl
                (sym (last_branch _ _ _ _ l f b) ∙ h)
        ]
      ]
    ]

-- The ticket started `next` in a primary with ride sharing: the Prepare goes to the proposer.
pub record Starts (n : Node) (s : Core) (proposals : Proposals) (next : Slot) (s' : Core)
    : Type 0 where
  leads : is_leader n next 1 ≡ true
  fresh : contains s.already_proposed_slots next ≡ false
  bounded : is_bounded_out s next ≡ false
  covered : enough_coverage s proposals ≡ some true
  proposed : s'.already_proposed_slots ≡ next ∷ s.already_proposed_slots
  pub sent : s'.out ≡ s.out ++ send_info (next_prepare s next) ∷ []
  voted : s'.last_voted_consensus ≡ s.last_voted_consensus

pub Begins-Starts :
    {n : Node} {s : Core} {proposals : Proposals} {next : Slot} {s' : Core}
    → s.use_ride_share ≡ true
    → Begins n s proposals next s'
    → Starts n s proposals next s'
Begins-Starts {s = s} ride b = record {
  leads = b.leads;
  fresh = b.fresh;
  bounded = b.bounded;
  covered = b.covered;
  proposed = b.proposed;
  sent = b.sent ∙ ap (λ e. s.out ++ e ∷ []) (first_branch _ _ ride);
  voted = b.voted;
}

-- With ride sharing, handling a ticket that returns proposes and sends nothing and keeps the set of
-- votes; or the primary leads the slot after the ticket's in view 1 and had not proposed it, at most
-- `k` instances are open and the tips cover the ticket, and then that slot alone becomes proposed, its
-- Prepare alone goes out, to the proposer, and the set of votes is kept. (Without ride sharing the
-- source goes on to handle its own Prepare.)
pub is_prepare_ticket_ready_cases :
    (n : Node) (s s' : Core) (m : ConsensusMessage)
    → s.use_ride_share ≡ true
    → is_prepare_ticket_ready n s m ≡ some s'
    → Waits s s' ⊎ Starts n s (ticket_proposals m) (add_u64 (ticket_slot m) 1) s'
is_prepare_ticket_ready_cases n s s' m ride h = elim (ticket_cases n s s' m h) [
  | inl w ↦ inl w
  | inr b ↦ inr (Begins-Starts ride b)
]
