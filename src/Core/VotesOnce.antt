-- ===== src/Core/VotesOnce.antt =====
-- primary/src/core.rs, `process_header`: the headers that a primary votes for.
use mathlib.Core.List.{append-nil}
use auto_pilot.Crypto.{PublicKey}
use auto_pilot.Messages.Errors.{DagResult}
use auto_pilot.Messages.Types.{Height, Header}
use auto_pilot.Messages.Digests.{header_digest}
use auto_pilot.Synchronizer.{StoreView, SyncState, missing_payload, get_parent_header}
use auto_pilot.Core.State.{Node, Core, send_vote, write_header, write_tip, emit, set_insert, get_or}
use auto_pilot.Core.Voting.{Ballot}
use auto_pilot.Core.Tally.{process_vote}
use auto_pilot.Core.Quiet.{
  header_votes, header_votes-append, Quiet, Quiet-trans, Quiet-same, Quiet-emits,
}
use auto_pilot.Core.Silent.{process_certificate-Quiet, raise_tip-Quiet}
use auto_pilot.Core.Silent.Votes.{process_vote-Quiet}
use auto_pilot.Core.Silent.Instances.{answer_cases, process_consensus_messages-Quiet}
use auto_pilot.Core.Accepted.{some_injective}
use auto_pilot.Core.Headers.{
  process_certificate, raise_tip, process_consensus_messages, cast_vote, has_voted, voted_at,
  vote_once, accept_header, process_header, are_prepares_ready, with_header, check_parent, new_vote,
}
use auto_pilot.Core.Ballots.{IsUnrepeated}
use auto_pilot.Committer.Order.{and_then_some}
use auto_pilot.Prelude.{
  ◌==◌, if◌then◌else◌, ==_iff, Bool-cases, Option-cases, nat_eq, pair_eq, contains, values, lookup,
  insert, lookup-insert, is_ok, ℕ, ◌≡◌, refl, sym, ap, ◌∙◌, inl, inr, Bool, true, false, ◌&&◌, ◌||◌,
  some, List, [], ◌∷◌, ◌++◌, arith,
}

contains_pair-append :
    (xs ys : List (ℕ × ℕ)) (a : ℕ × ℕ) → contains (xs ++ ys) a ≡ (contains xs a || contains ys a)
contains_pair-append [] ys a = refl
contains_pair-append (x ∷ xs) ys a = ground (arith, contains_pair-append xs ys a)

IsUnrepeated-snoc :
    (xs : List (ℕ × ℕ)) (a : ℕ × ℕ)
    → IsUnrepeated xs
    → contains xs a ≡ false
    → IsUnrepeated (xs ++ a ∷ [])
IsUnrepeated-snoc [] a d fresh = (refl, tt)
IsUnrepeated-snoc (x ∷ xs) a d fresh =
    (ground (arith, contains_pair-append xs (a ∷ []) x), IsUnrepeated-snoc xs a d.1 (ground arith))

-- No header is voted for twice, and those that were are recorded.
pub record IsVotedOnce (s : Core) : Type 0 where
  pub distinct : IsUnrepeated (header_votes s.out)
  pub recorded :
      (height : Height) (author : PublicKey)
      → contains {A = Height × PublicKey} (header_votes s.out) (height, author) ≡ true
      → contains (voted_at height s) author ≡ true

Quiet-IsVotedOnce : (s s' : Core) → Quiet s s' → IsVotedOnce s → IsVotedOnce s'
Quiet-IsVotedOnce s s' q h = record {
  distinct = rw (q.votes) h.distinct;
  recorded = λ height author there. rw (q.voted) (h.recorded height author (rw (q.votes) at there));
}

contains-set_insert :
    (v w : ℕ) (vs : List ℕ) → contains (set_insert v vs) w ≡ ((w == v) || contains vs w)
contains-set_insert v w vs = elim (Bool-cases (contains vs v)) [
  | inr c ↦ rw c refl
  | inl c ↦ elim (Bool-cases (w == v)) [
    | inl e ↦ (let same = (==_iff w v).0 e in rw (c, e) (rw same c))
    | inr e ↦ rw (c, e) refl
  ]
]

-- The state in which the author of a header is recorded.
abbrev marked : Header → Core → Core
marked header s = record s {
  last_voted =
      insert header.height (set_insert header.author (voted_at header.height s)) s.last_voted;
}

-- Recording keeps what is recorded, and adds the header.
voted_at-marked :
    (header : Header) (s : Core) (height : Height) (author : PublicKey)
    → ((height == header.height) && (author == header.author))
        || contains (voted_at height s) author
      ≡ true
    → contains (voted_at height (marked header s)) author ≡ true
voted_at-marked header s height author h =
    let read =
      lookup-insert header.height height (set_insert header.author (voted_at header.height s))
        s.last_voted in
    elim (Bool-cases (height == header.height)) [
      | inl here ↦
          let same = (==_iff height header.height).0 here in
          let h' : (author == header.author) || contains (voted_at header.height s) author ≡ true =
            rw same at (rw here at h) in
          let found : lookup height (marked header s).last_voted
              ≡ some (set_insert header.author (voted_at header.height s)) =
            read ∙ rw here refl in
          ap (λ o. contains (get_or [] o) author) found
          ∙ (contains-set_insert header.author author (voted_at header.height s) ∙ h')
      | inr other ↦
          let found : lookup height (marked header s).last_voted ≡ lookup height s.last_voted =
            read ∙ rw other refl in
          ap (λ o. contains (get_or [] o) author) found ∙ rw other at h
    ]

marked-IsVotedOnce : (header : Header) (s : Core) → IsVotedOnce s → IsVotedOnce (marked header s)
marked-IsVotedOnce header s h = record {
  distinct = h.distinct;
  recorded = λ height author there.
      voted_at-marked header s height author
        (let old = h.recorded height author there in ground arith);
}

-- A vote for a header that was not voted for before, and is recorded now.
cast_vote-IsVotedOnce :
    (n : Node) (header : Header) (ballots : List Ballot) (s t t' : Core) (sync sync' : SyncState)
    (r : DagResult (Unit {0}))
    → IsVotedOnce s
    → has_voted header s ≡ false
    → Quiet (marked header s) t
    → cast_vote n header (new_vote n header ballots) (t, sync) ≡ some ((t', sync'), r)
    → IsVotedOnce t'
unfolding cast_vote new_vote has_voted
cast_vote-IsVotedOnce n header ballots s t t' sync sync' r h new q k =
    let vote = new_vote n header ballots in
    let kept : IsVotedOnce t =
      Quiet-IsVotedOnce (marked header s) t q (marked-IsVotedOnce header s h) in
    elim (Bool-cases (header.author == n.name)) [
      | inl own ↦
          (let p = process_vote n vote false t in
            elim (Bool-cases (is_ok p.1)) [
              | inl fine ↦
                  let e : p.0 ≡ t' = ap (λ u. u.0.0) (some_injective (rw (own, fine) at k)) in
                  Quiet-IsVotedOnce t t'
                    (Quiet-trans t p.0 t' (process_vote-Quiet n vote false t) (Quiet-same p.0 t' e))
                    kept
              | inr bad ↦ absurd (let no_return = rw (own, bad) at k in cc)
            ])
      | inr other ↦
          let e : emit t (send_vote header.author vote) ≡ t' =
            ap (λ u. u.0.0) (some_injective (rw other at k)) in
          let sent : header_votes t'.out
              ≡ header_votes t.out ++ (header.height, header.author) ∷ [] =
            ap (λ u. header_votes u.out) (sym e)
            ∙ header_votes-append t.out (send_vote header.author vote ∷ []) in
          let fresh : contains {A = Height × PublicKey} (header_votes t.out)
                (header.height, header.author)
              ≡ false =
            elim (Bool-cases (contains (header_votes t.out) (header.height, header.author))) [
              | inl old ↦
                  absurd (
                    let before = h.recorded header.height header.author (rw (q.votes) at old) in cc)
              | inr none_before ↦ none_before
            ] in
          record {
            distinct =
                rw sent (IsUnrepeated-snoc _ (header.height, header.author) kept.distinct fresh);
            recorded = λ height author there.
                let split =
                  sym (
                    contains_pair-append (header_votes t.out) ((header.height, header.author) ∷ [])
                      (height, author))
                  ∙ (ap (λ l. contains l (height, author)) (sym sent) ∙ there) in
                elim (Bool-cases (contains (header_votes t.out) (height, author))) [
                  | inl old ↦
                      ap (λ u. contains (voted_at height u) author) (sym e)
                      ∙ kept.recorded height author old
                  | inr not_old ↦
                      ap (λ u. contains (voted_at height u) author) (sym e)
                      ∙ (ap (λ m. contains (get_or [] (lookup height m)) author) q.voted
                          ∙ voted_at-marked header s height author (ground arith))
                ];
          }
    ]

if_false : {A : Type 0} (x y z : A) (b : Bool) → b ≡ false → (if b then x else y) ≡ z → y ≡ z
if_false x y z false e h = h
if_false x y z true e h = absurd (let bad = e in cc)

vote_once-IsVotedOnce :
    (n : Node) (view : StoreView) (header : Header) (s s' : Core) (sync sync' : SyncState)
    (r : DagResult (Unit {0}))
    → IsVotedOnce s
    → vote_once n view header (s, sync) ≡ some ((s', sync'), r)
    → IsVotedOnce s'
unfolding vote_once
vote_once-IsVotedOnce n view header s s' sync sync' r v h = elim (Bool-cases (has_voted header s)) [
  | inl voted ↦
      Quiet-IsVotedOnce s s' (Quiet-same s s' (ap (λ u. u.0.0) (some_injective (rw voted at h)))) v
  | inr new ↦
      let (q, one, rest) =
        and_then_some
          (process_consensus_messages n view header (values header.consensus_messages) []
            (marked header s, sync))
          _ ((s', sync'), r) (if_false _ _ _ _ new h) in
      let quiet =
        process_consensus_messages-Quiet n view header (values header.consensus_messages) []
          (marked header s) q.0.0 sync q.0.1 q.1 one in
      elim (answer_cases q.1) [
        | inl (e, failed) ↦
            Quiet-IsVotedOnce (marked header s) s'
              (Quiet-trans (marked header s) q.0.0 s' quiet
                (Quiet-same q.0.0 s' (ap (λ u. u.0.0) (some_injective (rw failed at rest)))))
              (marked-IsVotedOnce header s v)
        | inr (ballots, fine) ↦
            cast_vote-IsVotedOnce n header ballots s q.0.0 s' q.0.1 sync' r v new quiet
              (rw fine at rest)
      ]
]

accept_header-IsVotedOnce :
    (n : Node) (view : StoreView) (header : Header) (s s' : Core) (sync sync' : SyncState)
    (r : DagResult (Unit {0}))
    → IsVotedOnce s
    → accept_header n view header (s, sync) ≡ some ((s', sync'), r)
    → IsVotedOnce s'
unfolding accept_header
accept_header-IsVotedOnce n view header s s' sync sync' r v h =
    let tip = write_tip (header_digest n.dalek header) in
    let tipped = if s.use_optimistic_tips then emit s tip else s in
    let quiet : Quiet s tipped = elim (Bool-cases s.use_optimistic_tips) [
      | inl on ↦ Quiet-emits s tipped (tip ∷ []) refl (simp on) (simp on)
      | inr off ↦ Quiet-emits s tipped [] refl (simp (off, append-nil)) (simp off)
    ] in
    let (p, _, rest) =
      and_then_some (get_parent_header n.dalek view header sync) _ ((s', sync'), r) h in
    let stops : tipped ≡ s' → IsVotedOnce s' =
      λ e. Quiet-IsVotedOnce s s' (Quiet-trans s tipped s' quiet (Quiet-same tipped s' e)) v in
    elim (answer_cases p.1) [
      | inl (e, failed) ↦ stops (ap (λ u. u.0.0) (some_injective (rw failed at rest)))
      | inr (found, fine) ↦ elim (Option-cases found) [
        | inl absent ↦ stops (ap (λ u. u.0.0) (some_injective (rw (fine, absent) at rest)))
        | inr (ancestor, there) ↦
            let (q, _, last) =
              and_then_some
                (are_prepares_ready n view header (values header.consensus_messages) (p.0)) _
                ((s', sync'), r) (rw (fine, there) at rest) in
            elim (Bool-cases q.1) [
              | inr waits ↦ stops (ap (λ u. u.0.0) (some_injective (rw waits at last)))
              | inl ready ↦
                  let written = emit tipped (write_header header) in
                  let (t, raised, end) =
                    and_then_some (raise_tip n header written) _ ((s', sync'), r)
                      (rw ready at last) in
                  let wrote : Quiet tipped written =
                    Quiet-emits tipped written (write_header header ∷ []) refl refl refl in
                  let all_quiet = Quiet-trans s tipped t quiet (
                    Quiet-trans tipped written t wrote
                      (raise_tip-Quiet n header written t raised)) in
                  vote_once-IsVotedOnce n (with_header n header view) header t s' (q.0) sync' r
                    (Quiet-IsVotedOnce s t all_quiet v) end
            ]
      ]
    ]

-- Whatever header a primary processes with a return, refused, waiting or voted for, it keeps that
-- no two votes went out for headers of one author and height, and that every author and height
-- voted for is recorded.
pub process_header-IsVotedOnce :
    (n : Node) (view : StoreView) (header : Header) (force_sync : Bool) (s s' : Core)
    (sync sync' : SyncState) (r : DagResult (Unit {0}))
    → IsVotedOnce s
    → process_header n view header force_sync (s, sync) ≡ some ((s', sync'), r)
    → IsVotedOnce s'
unfolding process_header
process_header-IsVotedOnce n view header force_sync s s' sync sync' r v h =
    elim (answer_cases (check_parent n header)) [
      | inl (e, failed) ↦
          Quiet-IsVotedOnce s s'
            (Quiet-same s s' (ap (λ u. u.0.0) (some_injective (rw (process_header, failed) at h))))
            v
      | inr (_, fine) ↦
          let (t, one, rest) =
            and_then_some (process_certificate n header.parent_cert s) _ ((s', sync'), r)
              (rw (process_header, fine) at h) in
          let kept : IsVotedOnce t =
            Quiet-IsVotedOnce s t (process_certificate-Quiet n header.parent_cert s t one) v in
          let m = missing_payload view header force_sync sync in
          let stops : t ≡ s' → IsVotedOnce s' =
            λ e. Quiet-IsVotedOnce t s' (Quiet-same t s' e) kept in
          elim (answer_cases m.1) [
            | inl (e, failed) ↦ stops (ap (λ u. u.0.0) (some_injective (rw failed at rest)))
            | inr (missing, known) ↦ elim (Bool-cases missing) [
              | inl lacks ↦ stops (ap (λ u. u.0.0) (some_injective (rw (known, lacks) at rest)))
              | inr has ↦
                  accept_header-IsVotedOnce n view header t s' m.0 sync' r kept
                    (rw (known, has) at rest)
            ]
          ]
    ]
