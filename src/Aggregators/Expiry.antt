-- ===== src/Aggregators/Expiry.antt =====
-- primary/src/aggregators.rs, `TCMaker`: what a call of `append` does.
use auto_pilot.Prelude.{
  leb, leb→le, Bool-cases, nat_eq, pair_eq, contains, IsDistinct, IsDistinct-snoc, snoc_congr, ok,
  err, ◌+◌, ◌≤◌, ◌<◌, ◌≡◌, refl, ap, inl, inr, true, false, Option, none, some, [], ◌∷◌, ◌++◌,
  arith,
}
use auto_pilot.Config.Committee
use auto_pilot.Config.Committee.{Committee, Stake, add_u32}
use auto_pilot.Config.Stakes.{IsValid, weight, weight-append, weight-le-full}
use auto_pilot.Messages.Errors.{DagResult}
use auto_pilot.Messages.Types.{
  Tc, Timeouts, Timeout, tc_slot, tc_view, tc_timeouts, timeout_slot, timeout_view, timeout_author,
  timeout_authors, push_timeout, no_timeouts, cons_timeout,
}
use auto_pilot.Aggregators.{TcMaker, append_timeout, new_tc_maker}

timeout_authors-push :
    (ts : Timeouts) (t : Timeout)
    → timeout_authors (push_timeout ts t) ≡ timeout_authors ts ++ timeout_author t ∷ []
timeout_authors-push no_timeouts t = refl
timeout_authors-push (cons_timeout u ts) t = ap (◌∷◌ (timeout_author u)) (timeout_authors-push ts t)

-- `spent` is the stake of the authors that an earlier certificate has used up.
pub record Inv (c : Committee) (m : TcMaker) (spent : Stake) : Type 0 where
  pub recorded : m.used ≡ timeout_authors m.votes
  pub distinct : IsDistinct (timeout_authors m.votes)
  pub balance : weight c (timeout_authors m.votes) ≡ spent + m.weight

-- The new maker satisfies the invariant.
pub new_tc_maker-Inv : (c : Committee) → Inv c new_tc_maker 0
unfolding new_tc_maker weight
new_tc_maker-Inv c = record { recorded = refl; distinct = tt; balance = refl }

-- What a call of `append` gives: a certificate of the timeout's slot and view, of distinct authors
-- who reach the quorum threshold, or one more counted timeout below that threshold, or a refusal of
-- a repeated author that changes nothing.
abbrev pub Counts : Committee → TcMaker → Stake → Timeout → TcMaker × DagResult (Option Tc) → Type 0
Counts c m spent t (m', ok (some tc)) =
    (contains m.used (timeout_author t) ≡ false)
    × (tc_slot tc ≡ timeout_slot t)
    × (tc_view tc ≡ timeout_view t)
    × (timeout_authors (tc_timeouts tc) ≡ timeout_authors m.votes ++ timeout_author t ∷ [])
    × IsDistinct (timeout_authors (tc_timeouts tc))
    × (spent + Committee.quorum_threshold c ≤ weight c (timeout_authors (tc_timeouts tc)))
    × Inv c m' (weight c (timeout_authors (tc_timeouts tc)))
Counts c m spent t (m', ok none) =
    (contains m.used (timeout_author t) ≡ false)
    × (timeout_authors m'.votes ≡ timeout_authors m.votes ++ timeout_author t ∷ [])
    × (m'.weight ≡ m.weight + Committee.stake c (timeout_author t))
    × (m'.weight < Committee.quorum_threshold c)
    × Inv c m' spent
Counts c m spent t (m', err e) = (m' ≡ m) × (contains m.used (timeout_author t) ≡ true)

-- In a valid committee, from a maker with its invariant, a call of `TCMaker::append` for an author
-- that was used before is refused and changes nothing. For a new author the timeout is added and
-- its stake counted: the call gives a certificate of the slot and view of the timeout, of distinct
-- authors who reach the quorum threshold beyond the stake spent before, or no certificate, and then
-- the weight is below the threshold. The invariant is kept.
pub append_timeout-Counts :
    (c : Committee) (m : TcMaker) (spent : Stake) (t : Timeout)
    → IsValid c
    → Inv c m spent
    → Counts c m spent t (append_timeout m t c)
unfolding append_timeout weight
append_timeout-Counts c m spent t v i = elim (Bool-cases (contains m.used (timeout_author t))) [
  | inl old ↦ rw old (refl, old)
  | inr new ↦
      let a = timeout_author t in
      let names = timeout_authors-push m.votes t in
      let fresh : contains (timeout_authors m.votes) a ≡ false = rw (i.recorded) at new in
      let more = IsDistinct-snoc (timeout_authors m.votes) a i.distinct fresh in
      let sum : weight c (timeout_authors m.votes ++ a ∷ [])
          ≡ spent + add_u32 m.weight (Committee.stake c a) =
        omega (
          arith,
          weight-append c (timeout_authors m.votes) (a ∷ []),
          i.balance,
          v.fits,
          weight-le-full c (timeout_authors m.votes ++ a ∷ []) v more,
        ) in
      elim (Bool-cases
        (leb (Committee.quorum_threshold c) (add_u32 m.weight (Committee.stake c a)))) [
          | inl q ↦
              simp (new, q)
                (
                  refl,
                  refl,
                  refl,
                  names,
                  rw names more,
                  rw names (omega (arith, sum, leb→le _ _ q)),
                  record {
                    recorded = snoc_congr a names i.recorded;
                    distinct = rw names more;
                    balance = omega arith;
                  },
                )
          | inr q ↦
              simp (new, q)
                (
                  refl,
                  names,
                  omega (arith, sum, i.balance, weight-append c (timeout_authors m.votes) (a ∷ [])),
                  ground (arith),
                  record {
                    recorded = snoc_congr a names i.recorded;
                    distinct = rw names more;
                    balance = rw names sum;
                  },
                )
        ]
]
