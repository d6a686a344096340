-- ===== src/Worker/Batches.antt =====
-- worker/src/batch_maker.rs against an abstract stream of transactions.
use mathlib.Core.List.{append-nil, append_assoc}
use auto_pilot.Crypto.{PublicKey}
use auto_pilot.Config.Committee.{SocketAddr}
use auto_pilot.Core.State.{add_u64}
use auto_pilot.Worker.BatchMaker.{
  Transaction, Batch, BatchMaker, Event, receive, delay_passed, update_parameters,
  toggle_asynchrony, seal, seal_unless_empty, step, run, new_batch_maker,
}
use auto_pilot.Prelude.{
  leb, Bool-cases, nat_eq, pair_eq, ℕ, ◌≡◌, refl, sym, ap, ◌∙◌, inl, inr, List, [], ◌∷◌, ◌++◌,
}

-- The abstract state: what was delivered, and what waits for the next batch.
pub record Stream : Type 0 where
  pub delivered : List Transaction
  pub waiting : List Transaction

-- The abstract steps: a transaction waits, alone or with the rest being delivered at once; what
-- waits may be delivered by the timer; nothing else changes the stream.
pub data Allows : Stream → Event → Stream → Type 0 where
  accept :
      (s : Stream) (t : Transaction)
      → Allows s (receive t) (record s { waiting = s.waiting ++ t ∷ [] })
  fill :
      (s : Stream) (t : Transaction)
      → Allows s
          (receive t)
          (record { delivered = s.delivered ++ (s.waiting ++ t ∷ []); waiting = [] })
  flush :
      (s : Stream) (x : Transaction) (xs : List Transaction)
      → s.waiting ≡ x ∷ xs
      → Allows s delay_passed (record { delivered = s.delivered ++ s.waiting; waiting = [] })
  rest : (s : Stream) → s.waiting ≡ [] → Allows s delay_passed s
  configure : (s : Stream) (size delay : ℕ) → Allows s (update_parameters size delay) s
  toggle : (s : Stream) → Allows s toggle_asynchrony s

unfoldable pub concat : List Batch → List Transaction
concat [] = []
concat (b ∷ bs) = b ++ concat bs

concat-snoc : (bs : List Batch) (b : Batch) → concat (bs ++ b ∷ []) ≡ concat bs ++ b
unfolding concat
concat-snoc [] b = append-nil b
concat-snoc (c ∷ bs) b = ap (λ l. c ++ l) (concat-snoc bs b) ∙ sym (append_assoc c (concat bs) b)

-- The stream that a batch maker stands for.
unfoldable pub stream_of : BatchMaker → Stream
unfolding concat
stream_of s = record { delivered = concat s.tx_batch; waiting = s.current_batch }

seal-stream :
    (s : BatchMaker)
    → stream_of (seal s) ≡ record { delivered = concat s.tx_batch ++ s.current_batch; waiting = [] }
unfolding stream_of seal
seal-stream s =
    ap (λ d. record { delivered = d; waiting = [] }) (concat-snoc s.tx_batch s.current_batch)

-- A sealed batch leaves an abstract state that `fill` or `flush` reach.
sealed-Allows :
    (s t : BatchMaker) (e : Event)
    → t.tx_batch ≡ s.tx_batch
    → Allows
        (stream_of s)
        e
        (record { delivered = concat s.tx_batch ++ t.current_batch; waiting = [] })
    → Allows (stream_of s) e (stream_of (seal t))
sealed-Allows s t e same a = rw (seal-stream t) (rw same a)

seal_unless_empty-Allows :
    (s : BatchMaker) (b : Batch)
    → s.current_batch ≡ b
    → Allows (stream_of s) delay_passed (stream_of (seal_unless_empty b s))
unfolding seal_unless_empty stream_of
seal_unless_empty-Allows s [] e = rest (stream_of s) e
seal_unless_empty-Allows s (x ∷ xs) e =
    sealed-Allows s s delay_passed refl (flush (stream_of s) x xs e)

-- Every turn of the loop of the batch maker is a step of the abstract stream of transactions.
pub step-Allows : (s : BatchMaker) (e : Event) → Allows (stream_of s) e (stream_of (step s e))
unfolding step stream_of
step-Allows s (receive t) =
    let size = add_u64 s.current_batch_size t.size in
    elim (Bool-cases (leb s.batch_size size)) [
      | inl full ↦ rw full (
          sealed-Allows s
            (record s { current_batch_size = size; current_batch = s.current_batch ++ t ∷ [] })
            (receive t) refl (fill (stream_of s) t))
      | inr short ↦ rw short (accept (stream_of s) t)
    ]
step-Allows s delay_passed = seal_unless_empty-Allows s s.current_batch refl
step-Allows s (update_parameters size delay) = configure (stream_of s) size delay
step-Allows s toggle_asynchrony = toggle (stream_of s)

-- The transactions of a list of events.
unfoldable pub received : List Event → List Transaction
received [] = []
received (receive t ∷ es) = t ∷ received es
received (_ ∷ es) = received es

-- Nothing is lost, repeated or reordered by an abstract step.
Allows-received :
    (a b : Stream) (e : Event)
    → Allows a e b
    → b.delivered ++ b.waiting ≡ (a.delivered ++ a.waiting) ++ received (e ∷ [])
unfolding received
Allows-received a b e (accept s t) = sym (append_assoc s.delivered s.waiting (t ∷ []))
Allows-received a b e (fill s t) =
    append-nil (s.delivered ++ (s.waiting ++ t ∷ []))
    ∙ sym (append_assoc s.delivered s.waiting (t ∷ []))
Allows-received a b e (flush s x xs h) = refl
Allows-received a b e (rest s h) = sym (append-nil (s.delivered ++ s.waiting))
Allows-received a b e (configure s size delay) = sym (append-nil (s.delivered ++ s.waiting))
Allows-received a b e (toggle s) = sym (append-nil (s.delivered ++ s.waiting))

received-cons : (e : Event) (es : List Event) → received (e ∷ es) ≡ received (e ∷ []) ++ received es
unfolding received
received-cons (receive t) es = refl
received-cons delay_passed es = refl
received-cons (update_parameters size delay) es = refl
received-cons toggle_asynchrony es = refl

run-received :
    (s : BatchMaker) (es : List Event)
    → concat (run s es).tx_batch ++ (run s es).current_batch
      ≡ (concat s.tx_batch ++ s.current_batch) ++ received es
unfolding run stream_of received
run-received s [] = sym (append-nil (concat s.tx_batch ++ s.current_batch))
run-received s (e ∷ es) =
    run-received (step s e) es
    ∙ (ap (λ l. l ++ received es)
          (Allows-received (stream_of s) (stream_of (step s e)) e (step-Allows s e))
        ∙ (append_assoc (concat s.tx_batch ++ s.current_batch) (received (e ∷ [])) (received es)
            ∙ ap (λ l. (concat s.tx_batch ++ s.current_batch) ++ l) (sym (received-cons e es))))

-- Whatever the events of a new batch maker, timers, new parameters and simulated asynchrony among
-- them, the batches it has delivered and the current one together hold exactly the transactions
-- received, in their order.
pub run-concat :
    (batch_size delay : ℕ) (workers : List (PublicKey × SocketAddr)) (es : List Event)
    → concat (run (new_batch_maker batch_size delay workers) es).tx_batch
        ++ (run (new_batch_maker batch_size delay workers) es).current_batch
      ≡ received es
unfolding new_batch_maker concat
run-concat batch_size delay workers es = run-received (new_batch_maker batch_size delay workers) es
