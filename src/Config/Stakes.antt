-- ===== src/Config/Stakes.antt =====
-- The stake of sets of authorities: how the stake of a list of distinct keys relates to the
-- committee's total (for config/src/lib.rs, `Committee::stake` and the sums of the thresholds).
use auto_pilot.Prelude.{
  ◌==◌, if◌then◌else◌, ==_iff, Bool-cases, nat_eq, pair_eq, contains, IsDistinct, keys, lookup, ◌+◌,
  ◌*◌, ◌%◌, ◌^◌, ◌≤◌, ◌<◌, ◌≡◌, refl, sym, ap, inl, inr, Bool, true, false, not, ◌&&◌, ◌||◌, List,
  [], ◌∷◌, ◌++◌, arith,
}
use auto_pilot.Crypto.{PublicKey}
use auto_pilot.Config.Committee
use auto_pilot.Config.Committee.{Committee, Authority, Stake}

-- The stake of the authorities that pass a test.
unfoldable pub masked : (PublicKey → Bool) → List (PublicKey × Authority) → Stake
masked p [] = 0
masked p ((k, x) ∷ m) = (if p k then x.stake else 0) + masked p m

abbrev pub everyone : PublicKey → Bool
everyone _ = true

-- The total with no wrap-around.
abbrev pub full_stake : Committee → Stake
full_stake c = masked everyone c.authorities

-- The stake of a list of keys, with no wrap-around.
unfoldable pub weight : Committee → List PublicKey → Stake
weight c [] = 0
weight c (k ∷ ks) = Committee.stake c k + weight c ks

-- A committee as `new` and `import` build it, with a total stake that `u32` arithmetic can double.
pub record IsValid (c : Committee) : Type 0 where
  pub distinct : IsDistinct (keys c.authorities)
  pub fits : 2 * full_stake c < 2 ^ 32

pub masked_cover :
    (p q : PublicKey → Bool) (m : List (PublicKey × Authority))
    → masked p m + masked q m ≤ masked everyone m + masked (λ k. p k && q k) m
unfolding masked
masked_cover p q [] = omega arith
masked_cover p q ((k, x) ∷ m) = ground (arith, masked_cover p q m)

pub masked-le-full :
    (p : PublicKey → Bool) (m : List (PublicKey × Authority)) → masked p m ≤ masked everyone m
unfolding masked
masked-le-full p [] = omega arith
masked-le-full p ((k, x) ∷ m) = ground (arith, masked-le-full p m)

pub masked_split :
    (q p : PublicKey → Bool) (m : List (PublicKey × Authority))
    → masked p m ≤ masked (λ k. not (q k)) m + masked (λ k. p k && q k) m
unfolding masked
masked_split q p [] = omega arith
masked_split q p ((k, x) ∷ m) = ground (arith, masked_split q p m)

-- A positive masked stake has a member.
pub masked_member :
    (p : PublicKey → Bool) (m : List (PublicKey × Authority))
    → 0 < masked p m
    → (k : PublicKey) × (p k ≡ true) × (contains (keys m) k ≡ true)
unfolding masked
masked_member p [] h = absurd (omega arith)
masked_member p ((k, x) ∷ m) h = elim (Bool-cases (p k)) [
  | inl e ↦ (k, e, ground arith)
  | inr e ↦ let (j, pj, mj) = masked_member p m (ground arith) in (j, pj, ground arith)
]

masked_absent :
    (x : PublicKey) (p : PublicKey → Bool) (m : List (PublicKey × Authority))
    → contains (keys m) x ≡ false
    → masked (λ a. (a == x) || p a) m ≡ masked p m
unfolding masked
masked_absent x p [] h = refl
masked_absent x p ((k, a) ∷ m) h = ground (arith, masked_absent x p m)

lookup_absent :
    (x : PublicKey) (m : List (PublicKey × Authority))
    → contains (keys m) x ≡ false
    → Committee.stake_or_zero (lookup x m) ≡ 0
unfolding lookup
lookup_absent x [] h = refl
lookup_absent x ((k, a) ∷ m) h = ground (arith, lookup_absent x m)

masked_add :
    (x : PublicKey) (p : PublicKey → Bool) (m : List (PublicKey × Authority))
    → IsDistinct (keys m)
    → p x ≡ false
    → masked (λ a. (a == x) || p a) m ≡ Committee.stake_or_zero (lookup x m) + masked p m
unfolding masked lookup
masked_add x p [] d h = refl
masked_add x p ((k, a) ∷ m) d h = elim (Bool-cases (k == x)) [
  | inl e ↦
      let same : k ≡ x = (==_iff k x).0 e in ground (arith, masked_absent x p m, same, ap p same)
  | inr e ↦ ground (arith, masked_add x p m d.1 h)
]

masked_none : (m : List (PublicKey × Authority)) → masked (λ a. false) m ≡ 0
unfolding masked
masked_none [] = refl
masked_none ((k, x) ∷ m) = ground (arith, masked_none m)

-- The stake of distinct keys is the stake of the authorities among them.
pub weight-eq-masked :
    (c : Committee) (ks : List PublicKey)
    → IsDistinct (keys c.authorities)
    → IsDistinct ks
    → weight c ks ≡ masked (contains ks) c.authorities
unfolding weight Committee.stake
weight-eq-masked c [] d h = sym (masked_none c.authorities)
weight-eq-masked c (k ∷ ks) d h =
    rw (masked_add k (contains ks) c.authorities d h.0) (rw (weight-eq-masked c ks d h.1) refl)

-- Distinct keys have at most the committee's stake.
pub weight-le-full :
    (c : Committee) (ks : List PublicKey) → IsValid c → IsDistinct ks → weight c ks ≤ full_stake c
weight-le-full c ks v h =
    omega (arith, weight-eq-masked c ks v.distinct h, masked-le-full (contains ks) c.authorities)

sum_stakes_wraps :
    (m : List (PublicKey × Authority)) → Committee.sum_stakes m ≡ masked everyone m % 2 ^ 32
unfolding Committee.sum_stakes masked
sum_stakes_wraps [] = refl
sum_stakes_wraps ((k, x) ∷ m) = omega (arith, sum_stakes_wraps m)

pub total_votes-eq-full : (c : Committee) → IsValid c → Committee.total_votes c ≡ full_stake c
unfolding Committee.total_votes
total_votes-eq-full c v = omega (arith, sum_stakes_wraps c.authorities, v.fits)

pub weight-append :
    (c : Committee) (ks js : List PublicKey) → weight c (ks ++ js) ≡ weight c ks + weight c js
unfolding weight
weight-append c [] js = omega arith
weight-append c (k ∷ ks) js = omega (arith, weight-append c ks js)
