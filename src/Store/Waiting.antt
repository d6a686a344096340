-- ===== src/Store/Waiting.antt =====
-- store/src/lib.rs: the senders that wait for a key.
use auto_pilot.Store.{
  Sender, StoreCommand, write, read, notify_read, notify_reply, StoreState, remove, waiting,
  senders_of, answer, serve,
}
use auto_pilot.Prelude.{
  if◌then◌else◌, Bool-cases, nat_eq, pair_eq, Eq, lookup, insert, lookup-insert, Result, ok, err,
  ◌≡◌, refl, sym, ap, ◌∙◌, inl, inr, false, Option, none, some, List, [], ◌∷◌, ◌++◌, map, arith,
}

lookup-remove :
    {K V : Type 0} ⦃q : Eq K⦄ (k j : K) (m : List (K × V))
    → lookup j (remove k m) ≡ (if q.beq j k then none else lookup j m)
unfolding lookup remove
lookup-remove ⦃q⦄ k j [] = elim (Bool-cases (q.beq j k)) [ inl e ↦ rw e refl | inr e ↦ rw e refl ]
lookup-remove ⦃q⦄ k j ((i, v) ∷ m) =
    ground (arith, q.beq_iff k i, q.beq_iff j i, q.beq_iff j k, q.beq_iff k k, lookup-remove k j m)

module _ {Db K V E : Type 0} ⦃q : Eq K⦄ (get : Db → K → Result E (Option V))
    (put : Db → K → V → Db) where
  waiting-remove :
      (s : StoreState Db K) (k j : K) (db : Db)
      → waiting j (record { db = db; obligations = remove k s.obligations })
        ≡ (if q.beq j k then [] else waiting j s)
  unfolding waiting
  waiting-remove s k j db = elim (Bool-cases (q.beq j k)) [
    | inl e ↦ ap senders_of (lookup-remove k j s.obligations) ∙ rw e refl
    | inr e ↦ ap senders_of (lookup-remove k j s.obligations) ∙ rw e refl
  ]

  waiting-insert :
      (s : StoreState Db K) (k j : K) (senders : List Sender)
      → waiting j (record s { obligations = insert k senders s.obligations })
        ≡ (if q.beq j k then senders else waiting j s)
  unfolding waiting
  waiting-insert s k j senders = elim (Bool-cases (q.beq j k)) [
    | inl e ↦ ap senders_of (lookup-insert k j senders s.obligations) ∙ rw e refl
    | inr e ↦ ap senders_of (lookup-insert k j senders s.obligations) ∙ rw e refl
  ]

  -- A write answers with its value all senders that wait for its key, in their order, after which none
  -- waits for it, and the senders that wait for other keys stay.
  pub serve-write :
      (s : StoreState Db K) (k : K) (v : V)
      → ((serve get put (write k v) s).1 ≡ map (λ sender. notify_reply sender (ok v)) (waiting k s))
        × ((j : K)
            → waiting j (serve get put (write k v) s).0 ≡ (if q.beq j k then [] else waiting j s))
  unfolding serve
  serve-write s k v = (refl, λ j. waiting-remove s k j (put s.db k v))

  -- A key that a sender waits for is not stored.
  pub record WaitsForAbsent (s : StoreState Db K) : Type 0 where
    pub absent :
        (k : K) (sender : Sender) (senders : List Sender)
        → waiting k s ≡ sender ∷ senders
        → get s.db k ≡ ok none

  remove-WaitsForAbsent :
      (s : StoreState Db K) (k : K) (v : V)
      → ((db : Db) (i j : K) (w : V) → q.beq j i ≡ false → get (put db i w) j ≡ get db j)
      → WaitsForAbsent s
      → WaitsForAbsent (record { db = put s.db k v; obligations = remove k s.obligations })
  remove-WaitsForAbsent s k v put_other h = record {
    absent = λ j sender senders e. elim (Bool-cases (q.beq j k)) [
      | inl same ↦ absurd (
          let bad : [] ≡ sender ∷ senders =
            (let w = waiting-remove s k j (put s.db k v) in sym (rw same at w) ∙ e) in
          cc)
      | inr new ↦
          let kept : waiting j s ≡ sender ∷ senders =
            (let w = waiting-remove s k j (put s.db k v) in sym (rw new at w) ∙ e) in
          put_other s.db k j v new ∙ h.absent j sender senders kept
    ];
  }

  answer-WaitsForAbsent :
      (s : StoreState Db K) (k : K) (sender : Sender) (r : Result E (Option V))
      → get s.db k ≡ r
      → WaitsForAbsent s
      → WaitsForAbsent (answer get put k sender r s).0
  unfolding answer
  answer-WaitsForAbsent s k sender (ok (some v)) e h = h
  answer-WaitsForAbsent s k sender (err x) e h = h
  answer-WaitsForAbsent s k sender (ok none) e h = record {
    absent = λ j first others wait. elim (Bool-cases (q.beq j k)) [
      | inl same ↦ (let here : j ≡ k = (q.beq_iff j k).0 same in rw here e)
      | inr new ↦
          h.absent j first others
            (let w = waiting-insert s k j (waiting k s ++ sender ∷ []) in sym (rw new at w) ∙ wait)
    ];
  }

  -- Where a put changes what the database gets at its own key only, every command keeps this: no
  -- sender waits for a key that is stored.
  pub serve-WaitsForAbsent :
      (s : StoreState Db K) (command : StoreCommand K V)
      → ((db : Db) (i j : K) (w : V) → q.beq j i ≡ false → get (put db i w) j ≡ get db j)
      → WaitsForAbsent s
      → WaitsForAbsent (serve get put command s).0
  unfolding serve
  serve-WaitsForAbsent s (write k v) put_other h = remove-WaitsForAbsent s k v put_other h
  serve-WaitsForAbsent s (read k sender) put_other h = h
  serve-WaitsForAbsent s (notify_read k sender) put_other h =
      answer-WaitsForAbsent s k sender (get s.db k) refl h
