-- ===== src/Core/Queue.antt =====
-- primary/src/core.rs, `try_prepare_waiting_slots`: a run over the waiting tickets.
use auto_pilot.Prelude.{
  nat_eq, pair_eq, length, length-append, IsDistinct, ℕ, zero, suc, ◌+◌, ◌≡◌, refl, sym, ap, ◌∙◌,
  ◌⊎◌, inl, inr, true, Option, none, some, List, [], ◌∷◌, ◌++◌, arith,
}
use auto_pilot.Messages.Types.{Slot, Proposals, ConsensusMessage}
use auto_pilot.Core.State.{Node, Core, Effect, send_info, ◌and_then◌}
use auto_pilot.Core.Tickets.{
  next_prepare, is_prepare_ticket_ready, try_tickets, try_prepare_waiting_slots,
}
use auto_pilot.Core.Proposing.{
  Begins, Begins-Starts, Waits, Waits-same, ticket_cases, ticket_slot, prepare_sent,
}

-- The messages as they go to the proposer, in this order.
abbrev pub infos : List ConsensusMessage → List Effect
infos [] = []
infos (m ∷ ms) = send_info m ∷ infos ms

-- The proposed slots after messages of these slots, the last one first.
abbrev pub propose_all : List ConsensusMessage → List Slot → List Slot
propose_all [] slots = slots
propose_all (m ∷ ms) slots = propose_all ms (ticket_slot m ∷ slots)

-- Each slot is proposed once, and what goes out is one message to the proposer for each newly proposed
-- slot, in the order in which the slots are proposed.
pub record IsOnce (s s' : Core) : Type 0 where
  pub distinct : IsDistinct s'.already_proposed_slots
  pub sent :
      (ms : List ConsensusMessage) × (s'.out ≡ s.out ++ infos ms)
      × (s'.already_proposed_slots ≡ propose_all ms s.already_proposed_slots)
  pub rides : s'.use_ride_share ≡ true
  pub balance :
      length s'.out + length s.already_proposed_slots
      ≡ length s.out + length s'.already_proposed_slots

append_infos :
    (out : List Effect) (ms ns : List ConsensusMessage)
    → (out ++ infos ms) ++ infos ns ≡ out ++ infos (ms ++ ns)
append_infos [] [] ns = refl
append_infos [] (m ∷ ms) ns = ap (λ t. send_info m ∷ t) (append_infos [] ms ns)
append_infos (e ∷ out) ms ns = ap (λ t. e ∷ t) (append_infos out ms ns)

propose_all-append :
    (ms ns : List ConsensusMessage) (slots : List Slot)
    → propose_all ns (propose_all ms slots) ≡ propose_all (ms ++ ns) slots
propose_all-append [] ns slots = refl
propose_all-append (m ∷ ms) ns slots = propose_all-append ms ns (ticket_slot m ∷ slots)

append_none : (out : List Effect) → out ≡ out ++ []
append_none [] = refl
append_none (e ∷ out) = ap (λ t. e ∷ t) (append_none out)

ticket_slot-next_prepare : (s : Core) (next : Slot) → ticket_slot (next_prepare s next) ≡ next
unfolding next_prepare
ticket_slot-next_prepare s next = refl

step-IsOnce :
    {n : Node} (s s' : Core) {proposals : Proposals} {next : Slot}
    → s.use_ride_share ≡ true
    → IsDistinct s.already_proposed_slots
    → Waits s s' ⊎ Begins n s proposals next s'
    → IsOnce s s'
step-IsOnce s s' ride d (inl w) = record {
  distinct = rw (w.proposed) d;
  sent = ([], w.silent ∙ append_none s.out, w.proposed);
  rides = w.rides ∙ ride;
  balance = rw (w.proposed, w.silent) refl;
}
step-IsOnce {n = n} s s' {next = next} ride d (inr p) = record {
  distinct = rw (p.proposed) (p.fresh, d);
  sent =
      let m = next_prepare s next in
      (
        m ∷ [],
        (Begins-Starts ride p).sent,
        p.proposed
            ∙ ap (λ slot. slot ∷ s.already_proposed_slots) (sym (ticket_slot-next_prepare s next)),
      );
  rides = p.rides ∙ ride;
  balance = rw (p.proposed, p.sent, length-append s.out (prepare_sent n s next ∷ [])) (omega arith);
}

IsOnce-trans : {a b c : Core} → IsOnce a b → IsOnce b c → IsOnce a c
IsOnce-trans {a = a} h k = record {
  distinct = k.distinct;
  sent =
      let (ms, out, slots) = h.sent in
      let (ns, out', slots') = k.sent in
      (
        ms ++ ns,
        out' ∙ (ap (λ t. t ++ infos ns) out ∙ append_infos a.out ms ns),
        slots'
            ∙ (ap (λ t. propose_all ns t) slots
                ∙ propose_all-append ms ns a.already_proposed_slots),
      );
  rides = k.rides;
  balance = let p = h.balance in let q = k.balance in omega arith;
}

pub tickets_cases :
    (ts : List ConsensusMessage)
    → (ts ≡ []) ⊎ ((m : ConsensusMessage) × (ms : List ConsensusMessage) × (ts ≡ m ∷ ms))
tickets_cases [] = inl refl
tickets_cases (m ∷ ms) = inr (m, ms, refl)

then-IsOnce :
    (i : ℕ) (n : Node) (s s' : Core) (m : ConsensusMessage) (o : Option Core)
    → s.use_ride_share ≡ true
    → IsDistinct s.already_proposed_slots
    → is_prepare_ticket_ready n s m ≡ o
    → ((next : Core)
        → next.use_ride_share ≡ true
        → IsDistinct next.already_proposed_slots
        → try_tickets i n next ≡ some s'
        → IsOnce next s')
    → (o and_then try_tickets i n) ≡ some s'
    → IsOnce s s'
then-IsOnce i n s s' m none ride d r later run = absurd (let bad = run in cc)
then-IsOnce i n s s' m (some next) ride d r later run =
    let first = step-IsOnce s next ride d (ticket_cases n s next m r) in
    IsOnce-trans first (later next first.rides first.distinct run)

try_tickets-IsOnce :
    (i : ℕ) (n : Node) (s s' : Core)
    → s.use_ride_share ≡ true
    → IsDistinct s.already_proposed_slots
    → try_tickets i n s ≡ some s'
    → IsOnce s s'
unfolding try_tickets
try_tickets-IsOnce zero n s s' ride d h =
    step-IsOnce {n = n} s s' {proposals = []} {next = 0} ride d (inl (Waits-same s s' h))
try_tickets-IsOnce (suc i) n s s' ride d h = elim (tickets_cases s.prepare_tickets) [
  | inl e ↦ absurd (let bad = rw e at h in cc)
  | inr (m, ms, e) ↦
      let popped = record s { prepare_tickets = ms } in
      let run =
        then-IsOnce i n popped s' m (is_prepare_ticket_ready n popped m) ride d refl
          (λ next. try_tickets-IsOnce i n next s') (rw e at h) in
      record { distinct = run.distinct; sent = run.sent; rides = run.rides; balance = run.balance }
]

-- With ride sharing, a run over the waiting tickets that returns proposes no slot twice, neither in
-- the run nor after an earlier one, and sends one message to the proposer for each slot that it
-- starts, of that slot and in the order in which they start. (Without ride sharing the source goes on
-- to handle the Prepare of each slot itself.)
pub try_prepare_waiting_slots-IsOnce :
    (n : Node) (s s' : Core)
    → s.use_ride_share ≡ true
    → IsDistinct s.already_proposed_slots
    → try_prepare_waiting_slots n s ≡ some s'
    → IsOnce s s'
unfolding try_prepare_waiting_slots
try_prepare_waiting_slots-IsOnce n s s' ride d h =
    try_tickets-IsOnce (length s.prepare_tickets) n s s' ride d h
