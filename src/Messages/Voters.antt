-- ===== src/Messages/Voters.antt =====
-- primary/src/messages.rs: the loop over the voters that `Certificate::verify`, `QC::verify` and
-- `TC::verify` share, and what it checks.
use auto_pilot.Prelude.{
  ltb, ltb→lt, lt→ltb, Bool-cases, nat_eq, pair_eq, All, contains, IsDistinct, ◌>>◌, ensure, Result,
  ok, ◌+◌, ◌%◌, ◌^◌, ◌<◌, ◌≡◌, refl, ap, ◌∙◌, inl, inr, false, not, List, [], ◌∷◌, arith,
}
use auto_pilot.Crypto.{PublicKey}
use auto_pilot.Config.Committee
use auto_pilot.Config.Committee.{Committee, Stake, add_u32}
use auto_pilot.Config.Stakes.{IsValid, weight, weight-le-full}

-- What the source says of a voter that it refuses.
pub record Refusals (E : Type 0) : Type 0 where
  pub reuse : PublicKey → E
  pub unknown : PublicKey → E

module _ {E : Type 0} (e : Refusals E) (c : Committee) where
  -- The `for` loop: `used` and `weight` are its variables.
  unfoldable pub add_voters : List PublicKey → Stake → List PublicKey → Result E Stake
  add_voters used w [] = ok w
  add_voters used w (name ∷ names) = do
    ensure (not (contains used name)) (e.reuse name)
    ensure (ltb 0 (Committee.stake c name)) (e.unknown name)
    add_voters (name ∷ used) (add_u32 w (Committee.stake c name)) names

-- Every voter has stake.
abbrev pub HaveStake : Committee → List PublicKey → Type 0
HaveStake c = All (λ k. 0 < Committee.stake c k)

-- No voter is among those used already.
abbrev pub AreNew : List PublicKey → List PublicKey → Type 0
AreNew used = All (λ k. contains used k ≡ false)

pub AreNew-cons :
    (used : List PublicKey) (x : PublicKey) (names : List PublicKey)
    → AreNew (x ∷ used) names
    → AreNew used names × (contains names x ≡ false)
AreNew-cons used x [] h = (tt, refl)
AreNew-cons used x (n ∷ names) h =
    let (old, absent) = AreNew-cons used x names h.1 in ((ground arith, old), ground arith)

pub cons-AreNew :
    (used : List PublicKey) (x : PublicKey) (names : List PublicKey)
    → AreNew used names
    → contains names x ≡ false
    → AreNew (x ∷ used) names
cons-AreNew used x [] h a = tt
cons-AreNew used x (n ∷ names) h a = (ground arith, cons-AreNew used x names h.1 (ground arith))

pub AreNew-nil : (names : List PublicKey) → AreNew [] names
AreNew-nil [] = tt
AreNew-nil (n ∷ names) = (refl, AreNew-nil names)

module _ {E : Type 0} (e : Refusals E) (c : Committee) where
  add_voters_sound :
      (used : List PublicKey) (w : Stake) (names : List PublicKey) {total : Stake}
      → w < 2 ^ 32
      → add_voters e c used w names ≡ ok total
      → AreNew used names
        × IsDistinct names
        × HaveStake c names
        × (total ≡ (w + weight c names) % 2 ^ 32)
  unfolding add_voters weight
  add_voters_sound used w [] lt h = (tt, tt, tt, ground arith)
  add_voters_sound used w (n ∷ names) lt h = elim (Bool-cases (contains used n)) [
    | inl old ↦ ground arith
    | inr new ↦ elim (Bool-cases (ltb 0 (Committee.stake c n))) [
      | inl pos ↦
          let (fresh, distinct, have, sum) =
            add_voters_sound (n ∷ used) (add_u32 w (Committee.stake c n)) names (omega arith)
              (rw (new, pos) at h) in
          let (old, absent) = AreNew-cons used n names fresh in
          ((new, old), (absent, distinct), (ltb→lt _ _ pos, have), omega arith)
      | inr neg ↦ let bad = rw (new, neg) at h in cc
    ]
  ]

  add_voters_complete :
      (used : List PublicKey) (w : Stake) (names : List PublicKey)
      → w < 2 ^ 32
      → AreNew used names
      → IsDistinct names
      → HaveStake c names
      → add_voters e c used w names ≡ ok ((w + weight c names) % 2 ^ 32)
  unfolding add_voters weight
  add_voters_complete used w [] lt a d h = ground arith
  add_voters_complete used w (n ∷ names) lt a d h =
      rw (a.0, lt→ltb _ _ h.0)
        (add_voters_complete (n ∷ used) (add_u32 w (Committee.stake c n)) names (omega arith)
            (cons-AreNew used n names a.1 d.0) d.1 h.1
          ∙ ap ok (omega arith))

  -- The loop from its start succeeds exactly on distinct voters that all have stake, with their
  -- stake, which does not wrap in a valid committee.
  pub add_voters-ok :
      (names : List PublicKey) {total : Stake}
      → IsValid c
      → add_voters e c [] 0 names ≡ ok total
      → IsDistinct names × HaveStake c names × (total ≡ weight c names)
  add_voters-ok names v h =
      let (_, distinct, have, sum) = add_voters_sound [] 0 names (omega arith) h in
      (distinct, have, omega (arith, weight-le-full c names v distinct, v.fits))

  pub ok-add_voters :
      (names : List PublicKey)
      → IsValid c
      → IsDistinct names
      → HaveStake c names
      → add_voters e c [] 0 names ≡ ok (weight c names)
  ok-add_voters names v d h =
      add_voters_complete [] 0 names (omega arith) (AreNew-nil names) d h
      ∙ ap ok (omega (arith, weight-le-full c names v d, v.fits))
