-- ===== src/Messages/Winning.antt =====
-- primary/src/messages.rs, `TC::get_winning_proposals`: the loop over the timeouts.
use auto_pilot.Crypto.{Digest, Dalek, PublicKey}
use auto_pilot.Config.Committee
use auto_pilot.Config.Committee.{Committee, add_u32}
use auto_pilot.Messages.Types.{
  View, Proposals, Tc, Timeouts, OptionMessage, tc_timeouts, prepare, confirm, commit, no_timeouts,
  cons_timeout, new_timeout, some_message,
}
use auto_pilot.Messages.Digests.{prepare_digest}
use auto_pilot.Prelude.{
  ltb, leb, if◌then◌else◌, nat_eq, pair_eq, lookup, insert, ℕ, Option, none, some, List, [],
}

-- The loop's variables.
pub record Winning : Type 0 where
  pub proposals : Proposals
  pub view : View
  pub prepared : List (Digest × ℕ)

abbrev pub nothing_won : Winning
nothing_won = record { proposals = []; view = 0; prepared = [] }

abbrev or_zero : Option ℕ → ℕ
or_zero none = 0
or_zero (some n) = n

module _ (d : Dalek) (c : Committee) where
  -- The `match` on `high_prop`, in a timeout of the given author.
  unfoldable pub count_prepare : PublicKey → OptionMessage → Winning → Winning
  count_prepare author (some_message (prepare slot view tc ticket proposals report)) w =
      if ltb w.view view
      then (let id = prepare_digest d slot view report in
          let weight = add_u32 (or_zero (lookup id w.prepared)) (Committee.stake c author) in
          let counted = record w { prepared = insert id weight w.prepared } in
          if leb (Committee.validity_threshold c) weight
          then record counted { view = view; proposals = proposals }
          else counted)
      else w
  count_prepare author _ w = w

  -- The loop over the timeouts. A Commit ends it; a Confirm of a view above `winning_view` wins, and
  -- `winning_view` becomes the view of the timeout.
  unfoldable pub winning_from : Timeouts → Winning → Winning
  unfolding count_prepare
  winning_from no_timeouts w = w
  winning_from
        (cons_timeout (new_timeout s v (some_message (commit _ _ _ proposals _)) prop a g) ts) w =
      record w { proposals = proposals }
  winning_from
        (cons_timeout (new_timeout s v (some_message (confirm _ other _ proposals _)) prop a g) ts)
        w =
      winning_from ts (
        count_prepare a prop
          (if ltb w.view other then record w { view = v; proposals = proposals } else w))
  winning_from (cons_timeout (new_timeout s v _ prop a g) ts) w =
      winning_from ts (count_prepare a prop w)

  unfoldable pub get_winning_proposals : Tc → Proposals
  unfolding winning_from
  get_winning_proposals tc = (winning_from (tc_timeouts tc) nothing_won).proposals
