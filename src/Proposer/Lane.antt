-- ===== src/Proposer/Lane.antt =====
-- primary/src/proposer.rs: the headers that a primary makes for its own lane.
use auto_pilot.Messages.Types.{Height, Certificate, Header, prepare, confirm, commit}
use auto_pilot.Core.State.{Node, add_u64}
use auto_pilot.Proposer.{
  Proposer, Input, instance_info, parent, batch, parameters, timer, new_proposer, new_header,
  make_header, is_ready, propose_if_ready, add_instance, receive_input, turn, run_proposer,
}
use auto_pilot.Prelude.{
  ltb, Bool-cases, Option-cases, nat_eq, pair_eq, length, contains, IsDistinct, contains-append,
  IsDistinct-snoc, ℕ, suc, ◌+◌, ◌^◌, ◌≤◌, ◌<◌, ◌≡◌, refl, sym, ap, ◌∙◌, inl, inr, true, false, none,
  some, List, [], ◌∷◌, ◌++◌, map, arith,
}

-- The heights of the headers sent.
abbrev pub heights : List Header → List Height
heights = map (λ (h : Header). h.height)

-- The headers sent stand at heights of their own, none above the current one, and none at the
-- current one while there is a parent for it; headers are not special.
pub record IsLane (s : Proposer) : Type 0 where
  pub distinct : IsDistinct (heights s.tx_core)
  pub reached : (j : Height) → contains (heights s.tx_core) j ≡ true → j ≤ s.height
  pub free :
      (cert : Certificate)
      → s.last_parent ≡ some cert
      → contains (heights s.tx_core) s.height ≡ false
  pub plain : s.is_special ≡ false
  pub rule : s.use_special_rule ≡ false

heights-snoc :
    (hs : List Header) (h : Header) → heights (hs ++ h ∷ []) ≡ heights hs ++ h.height ∷ []
heights-snoc [] h = refl
heights-snoc (g ∷ hs) h = ap (λ l. g.height ∷ l) (heights-snoc hs h)

-- A state that differs in other fields only.
same-IsLane :
    (s s' : Proposer)
    → IsLane s
    → s'.tx_core ≡ s.tx_core
    → s'.height ≡ s.height
    → s'.last_parent ≡ s.last_parent
    → s'.is_special ≡ s.is_special
    → s'.use_special_rule ≡ s.use_special_rule
    → IsLane s'
same-IsLane s s' i sent height waits plain rule = record {
  distinct = rw sent (i.distinct);
  reached = rw (sent, height) (i.reached);
  free = rw (sent, height, waits) (i.free);
  plain = plain ∙ i.plain;
  rule = rule ∙ i.rule;
}

is_ready-parent :
    (s : Proposer)
    → is_ready s ≡ true
    → s.is_special ≡ false
    → (cert : Certificate) × (s.last_parent ≡ some cert)
unfolding is_ready
is_ready-parent s h plain = elim (Option-cases s.last_parent) [
  | inr found ↦ found
  | inl e ↦ absurd (let bad = rw (is_ready, e, plain) at h in ground arith)
]

-- A header made from a parent takes the current height.
make_header-IsLane :
    (n : Node) (s : Proposer) (cert : Certificate)
    → IsLane s
    → s.last_parent ≡ some cert
    → (s' : Proposer) × (make_header n s ≡ some s') × IsLane s' × (s'.height ≡ s.height)
unfolding make_header new_header
make_header-IsLane n s cert i e =
    let h = record (new_header n s.height cert s) { special = s.is_special } in
    let snoc : heights (s.tx_core ++ h ∷ []) ≡ heights s.tx_core ++ s.height ∷ [] =
      heights-snoc s.tx_core h in
    (
      record s {
        digests = [];
        tx_core = s.tx_core ++ h ∷ [];
        last_parent = none;
        consensus_instances = [];
        num_active_instances = 0;
      },
      rw (make_header, e) refl,
      record {
        distinct =
            rw snoc (IsDistinct-snoc (heights s.tx_core) s.height i.distinct (i.free cert e));
        reached = λ j there.
            let split =
              sym (contains-append (heights s.tx_core) (s.height ∷ []) j)
              ∙ (ap (λ l. contains l j) (sym snoc) ∙ there) in
            elim (Bool-cases (contains (heights s.tx_core) j)) [
              | inl old ↦ i.reached j old
              | inr new ↦ ground arith
            ];
        free = λ other bad. absurd (ground arith);
        plain = i.plain;
        rule = i.rule;
      },
      refl,
    )

propose_if_ready-IsLane :
    (n : Node) (s : Proposer)
    → IsLane s
    → (s' : Proposer) × (propose_if_ready n s ≡ some s') × IsLane s' × (s'.height ≡ s.height)
unfolding propose_if_ready
propose_if_ready-IsLane n s i = elim (Bool-cases (is_ready s)) [
  | inr wait ↦ (s, rw wait refl, i, refl)
  | inl go ↦
      let (cert, e) = is_ready-parent s go i.plain in
      let (t, made, lane, height) = make_header-IsLane n s cert i e in
      (
        record t { payload_size = 0; timer_expired = false },
        rw (propose_if_ready, go, made) refl,
        same-IsLane t _ lane refl refl refl refl refl,
        height,
      )
]

-- A certificate that is not below the current height.
parent-IsLane :
    (s : Proposer) (cert : Certificate)
    → suc s.height < 2 ^ 64
    → IsLane s
    → IsLane (record s { height = add_u64 s.height 1; last_parent = some cert })
parent-IsLane s cert fits i =
    let up : add_u64 s.height 1 ≡ suc s.height = omega (arith, fits) in
    record {
      distinct = i.distinct;
      reached = λ j there. let low = i.reached j there in omega (arith, low, up);
      free = λ other e. elim (Bool-cases (contains (heights s.tx_core) (add_u64 s.height 1))) [
        | inr new ↦ new
        | inl old ↦ absurd (let low = i.reached (add_u64 s.height 1) old in omega (arith, low, up))
      ];
      plain = i.plain;
      rule = i.rule;
    }

receive_input-IsLane :
    (n : Node) (input : Input) (s : Proposer)
    → suc s.height < 2 ^ 64
    → IsLane s
    → IsLane (receive_input n input s)
unfolding receive_input add_instance
receive_input-IsLane n (instance_info (commit _ _ _ _ _)) s fits i =
    same-IsLane s _ i refl refl refl refl refl
receive_input-IsLane n (instance_info (prepare _ _ _ _ _ _)) s fits i =
    same-IsLane s _ i refl refl refl (rw (i.rule) refl) refl
receive_input-IsLane n (instance_info (confirm _ _ _ _ _)) s fits i =
    same-IsLane s _ i refl refl refl (rw (i.rule) refl) refl
receive_input-IsLane n (parent cert) s fits i = elim (Bool-cases (ltb cert.height s.height)) [
  | inl old ↦ rw old i
  | inr new ↦ rw new (parent-IsLane s cert fits i)
]
receive_input-IsLane n (batch dig worker_id) s fits i = same-IsLane s _ i refl refl refl refl refl
receive_input-IsLane n (parameters header_size max_header_delay) s fits i =
    same-IsLane s _ i refl refl refl refl refl
receive_input-IsLane n timer s fits i = same-IsLane s _ i refl refl refl refl refl

receive_input-height :
    (n : Node) (input : Input) (s : Proposer)
    → suc s.height < 2 ^ 64
    → (receive_input n input s).height ≤ suc s.height
unfolding receive_input add_instance
receive_input-height n (instance_info (commit _ _ _ _ _)) s fits = omega arith
receive_input-height n (instance_info (prepare _ _ _ _ _ _)) s fits = omega arith
receive_input-height n (instance_info (confirm _ _ _ _ _)) s fits = omega arith
receive_input-height n (parent cert) s fits = elim (Bool-cases (ltb cert.height s.height)) [
  | inl old ↦ rw old (omega arith)
  | inr new ↦ rw new (omega (arith, fits))
]
receive_input-height n (batch dig worker_id) s fits = omega arith
receive_input-height n (parameters header_size max_header_delay) s fits = omega arith
receive_input-height n timer s fits = omega arith

-- The end of a run, which returns with a lane.
record Ends (n : Node) (inputs : List Input) (s : Proposer) : Type 0 where
  end : Proposer
  returns : run_proposer n inputs s ≡ some end
  lane : IsLane end

run_proposer-Ends :
    (n : Node) (inputs : List Input) (s : Proposer)
    → s.height + length inputs < 2 ^ 64
    → IsLane s
    → Ends n inputs s
unfolding run_proposer turn
run_proposer-Ends n [] s fits i = record { end = s; returns = refl; lane = i }
run_proposer-Ends n (input ∷ inputs) s fits i =
    let (t, proposed, lane, height) = propose_if_ready-IsLane n s i in
    let low : suc t.height < 2 ^ 64 = omega (arith, fits, height) in
    let next = receive_input n input t in
    let rest =
      run_proposer-Ends n inputs next
        (omega (arith, fits, height, receive_input-height n input t low))
        (receive_input-IsLane n input t low lane) in
    record { end = rest.end; returns = rw proposed (rest.returns); lane = rest.lane }

-- Whatever a new proposer receives, fewer than 2^64 inputs in any order, its loop does not panic: it
-- never makes a header without a parent. And it sends at most one header of each height.
pub run_proposer-IsDistinct :
    (n : Node) (header_size max_header_delay : ℕ) (inputs : List Input)
    → length inputs < 2 ^ 64
    → (s : Proposer) × (run_proposer n inputs (new_proposer n header_size max_header_delay)
        ≡ some s)
      × IsDistinct (heights s.tx_core)
unfolding new_proposer
run_proposer-IsDistinct n header_size max_header_delay inputs fits =
    let e =
      run_proposer-Ends n inputs (new_proposer n header_size max_header_delay) (omega (arith, fits))
        (record {
          distinct = tt;
          reached = λ j bad. absurd (ground arith);
          free = λ cert e. refl;
          plain = refl;
          rule = refl;
        }) in
    (e.end, e.returns, e.lane.distinct)
