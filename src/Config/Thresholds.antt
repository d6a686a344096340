-- ===== src/Config/Thresholds.antt =====
-- config/src/lib.rs, `quorum_threshold`, `validity_threshold` and `fast_threshold`: their values and
-- how sets of authorities that reach them meet.
use auto_pilot.Crypto.{PublicKey}
use auto_pilot.Config.Committee
use auto_pilot.Config.Committee.{Committee}
use auto_pilot.Config.Stakes.{
  IsValid, masked, full_stake, weight, weight-eq-masked, masked_cover, masked-le-full,
  masked_member, masked_split, total_votes-eq-full,
}
use auto_pilot.Prelude.{
  nat_eq, pair_eq, contains, IsDistinct, ℕ, ◌+◌, ◌*◌, ◌/◌, ◌^◌, ◌≤◌, ◌<◌, ◌≡◌, Bool, true, not,
  ◌&&◌, List, arith,
}

pub quorum_threshold_lem :
    (c : Committee) → IsValid c → Committee.quorum_threshold c ≡ 2 * full_stake c / 3 + 1
unfolding Committee.quorum_threshold
quorum_threshold_lem c v = omega (arith, total_votes-eq-full c v, v.fits)

validity_threshold_lem :
    (c : Committee) → IsValid c → Committee.validity_threshold c ≡ (full_stake c + 2) / 3
unfolding Committee.validity_threshold
validity_threshold_lem c v = omega (arith, total_votes-eq-full c v, v.fits)

-- With a total stake of 3f + 1 + k, k < 3, that `u32` arithmetic can double, the quorum threshold is
-- the total less f, the validity threshold is f + 1, and the fast threshold is the total.
pub thresholds_of_faults :
    (c : Committee) (f k : ℕ)
    → IsValid c
    → full_stake c ≡ 3 * f + 1 + k
    → k < 3
    → (Committee.quorum_threshold c + f ≡ full_stake c)
      × (Committee.validity_threshold c ≡ f + 1)
      × (Committee.fast_threshold c ≡ full_stake c)
unfolding Committee.fast_threshold
thresholds_of_faults c f k v e h = (
  omega (arith, quorum_threshold_lem c v),
  omega (arith, validity_threshold_lem c v),
  total_votes-eq-full c v,
)

-- The authorities in both of two lists.
abbrev pub both : List PublicKey → List PublicKey → PublicKey → Bool
both xs ys k = contains xs k && contains ys k

-- Two lists of distinct keys that each reach the quorum threshold of a valid committee have common
-- authorities whose stake reaches the validity threshold.
pub quorum_overlap :
    (c : Committee) (xs ys : List PublicKey)
    → IsValid c
    → IsDistinct xs
    → IsDistinct ys
    → Committee.quorum_threshold c ≤ weight c xs
    → Committee.quorum_threshold c ≤ weight c ys
    → Committee.validity_threshold c ≤ masked (both xs ys) c.authorities
quorum_overlap c xs ys v dx dy hx hy = omega (
  arith,
  quorum_threshold_lem c v,
  validity_threshold_lem c v,
  weight-eq-masked c xs v.distinct dx,
  weight-eq-masked c ys v.distinct dy,
  masked_cover (contains xs) (contains ys) c.authorities,
  masked-le-full (contains xs) c.authorities,
)

-- Authorities whose stake reaches the validity threshold include one that passes `honest`, where
-- those that do not pass have less stake than that.
pub honest_member :
    (c : Committee) (honest p : PublicKey → Bool)
    → masked (λ k. not (honest k)) c.authorities < Committee.validity_threshold c
    → Committee.validity_threshold c ≤ masked p c.authorities
    → (k : PublicKey) × (p k ≡ true) × (honest k ≡ true)
honest_member c honest p few enough =
    let (k, e, m) =
      masked_member (λ k. p k && honest k) c.authorities
        (omega (arith, masked_split honest p c.authorities)) in
    (k, ground arith, ground arith)

-- If the authorities that fail `honest` have less stake than the validity threshold, then two lists
-- of distinct keys that each reach the quorum threshold share a key that passes `honest`.
pub quorum_overlap_honest :
    (c : Committee) (honest : PublicKey → Bool) (xs ys : List PublicKey)
    → IsValid c
    → masked (λ k. not (honest k)) c.authorities < Committee.validity_threshold c
    → IsDistinct xs
    → IsDistinct ys
    → Committee.quorum_threshold c ≤ weight c xs
    → Committee.quorum_threshold c ≤ weight c ys
    → (k : PublicKey) × (contains xs k ≡ true) × (contains ys k ≡ true) × (honest k ≡ true)
quorum_overlap_honest c honest xs ys v few dx dy hx hy =
    let (k, shared, h) =
      honest_member c honest (both xs ys) few (quorum_overlap c xs ys v dx dy hx hy) in
    (k, ground arith, ground arith, h)

-- A total stake from 2^31 on makes the doubling in `quorum_threshold` wrap: the threshold is then
-- at most a third of the total, and no longer two thirds.
pub quorum_threshold_wraps :
    (c : Committee)
    → 2 ^ 31 ≤ Committee.total_votes c
    → Committee.total_votes c < 2 ^ 32
    → 3 * Committee.quorum_threshold c ≤ Committee.total_votes c + 3
unfolding Committee.quorum_threshold
quorum_threshold_wraps c lo hi = omega arith
