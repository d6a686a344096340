-- ===== src/Core/Quiet.antt =====
-- primary/src/core.rs: the votes on headers among what a primary sends.
use mathlib.Core.List.{append-nil, append_assoc}
use auto_pilot.Crypto.{PublicKey}
use auto_pilot.Messages.Types.{Height}
use auto_pilot.Core.State.{Core, Effect, send_vote}
use auto_pilot.Core.HandOver.{IsPhase}
use auto_pilot.Prelude.{All, ◌≡◌, refl, sym, ap, ◌∙◌, List, [], ◌∷◌, ◌++◌}

abbrev voted_in : Effect → List (Height × PublicKey)
voted_in (send_vote _ vote) = (vote.height, vote.origin) ∷ []
voted_in _ = []

-- The heights and authors of the headers that were voted for.
abbrev pub header_votes : List Effect → List (Height × PublicKey)
header_votes [] = []
header_votes (e ∷ es) = voted_in e ++ header_votes es

pub header_votes-append :
    (es fs : List Effect) → header_votes (es ++ fs) ≡ header_votes es ++ header_votes fs
header_votes-append [] fs = refl
header_votes-append (e ∷ es) fs =
    ap (λ l. voted_in e ++ l) (header_votes-append es fs)
    ∙ sym (append_assoc (voted_in e) (header_votes es) (header_votes fs))

-- No header is voted for.
pub record Quiet (s s' : Core) : Type 0 where
  pub voted : s'.last_voted ≡ s.last_voted
  pub votes : header_votes s'.out ≡ header_votes s.out

pub Quiet-trans : (a b c : Core) → Quiet a b → Quiet b c → Quiet a c
Quiet-trans a b c h k = record { voted = k.voted ∙ h.voted; votes = k.votes ∙ h.votes }

pub Quiet-same : (s s' : Core) → s ≡ s' → Quiet s s'
Quiet-same s s' e = record {
  voted = ap (λ t. t.last_voted) (sym e);
  votes = ap (λ t. header_votes t.out) (sym e);
}

pub Quiet-emits :
    (s s' : Core) (es : List Effect)
    → header_votes es ≡ []
    → s'.out ≡ s.out ++ es
    → s'.last_voted ≡ s.last_voted
    → Quiet s s'
Quiet-emits s s' es none sent voted = record {
  voted = voted;
  votes =
      ap header_votes sent
      ∙ (header_votes-append s.out es
          ∙ (ap (λ l. header_votes s.out ++ l) none ∙ append-nil (header_votes s.out)));
}

pub phases-no_votes : (es : List Effect) → All IsPhase es → header_votes es ≡ []
phases-no_votes [] h = refl
phases-no_votes (e ∷ es) (p, ps) = phase_of e p ∙ phases-no_votes es ps
  where
    phase_of : (f : Effect) → IsPhase f → voted_in f ++ header_votes es ≡ header_votes es
    phase_of (Effect.start_fast_timer _ _) h = refl
    phase_of (Effect.send_info _) h = refl
    phase_of (Effect.send_vote _ _) h = absurd h
    phase_of (Effect.start_timer _ _ _) h = refl
    phase_of (Effect.start_car_timer _) h = refl
    phase_of (Effect.start_collection_timer _) h = refl
    phase_of (Effect.send_timeout _) h = refl
    phase_of (Effect.send_request _) h = refl
    phase_of (Effect.send_proposer _) h = refl
    phase_of (Effect.send_consensus_vote _ _) h = refl
    phase_of (Effect.send_header _) h = refl
    phase_of (Effect.send_committer _) h = refl
    phase_of (Effect.write_certificate _) h = refl
    phase_of (Effect.write_header _) h = refl
    phase_of (Effect.write_tip _) h = refl
    phase_of (Effect.write_coordination _) h = refl
    phase_of (Effect.request_metrics _) h = refl
