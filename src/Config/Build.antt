-- ===== src/Config/Build.antt =====
-- config/src/lib.rs: what `Committee::new` and the id map of `import` build, and what the lists of
-- the other authorities hold.
use auto_pilot.Crypto.{PublicKey}
use auto_pilot.Config.Committee
use auto_pilot.Config.Committee.{Committee, Authority, Stake, SocketAddr, map_some}
use auto_pilot.Prelude.{
  ltb, ◌==◌, if◌then◌else◌, ltb→lt, ==_iff, Bool-cases, nat_eq, pair_eq, get_elem?, All, contains,
  IsDistinct, keys, lookup, ℕ, zero, suc, ◌+◌, ◌<◌, ◌≡◌, refl, inl, inr, true, false, none, some,
  List, [], ◌∷◌, arith,
}

-- Every key is below those after it.
abbrev pub IsAscending : List ℕ → Type 0
IsAscending [] = Unit {0}
IsAscending (k ∷ ks) = All (λ j. k < j) ks × IsAscending ks

All-lt-not-contains : (k : ℕ) (ks : List ℕ) → All (λ j. k < j) ks → contains ks k ≡ false
All-lt-not-contains k [] h = refl
All-lt-not-contains k (j ∷ ks) h = ground (arith, All-lt-not-contains k ks h.1)

All-lt_trans : (i k : ℕ) (ks : List ℕ) → i < k → All (λ j. k < j) ks → All (λ j. i < j) ks
All-lt_trans i k [] lt h = tt
All-lt_trans i k (j ∷ ks) lt h = (omega arith, All-lt_trans i k ks lt h.1)

IsAscending-IsDistinct : (ks : List ℕ) → IsAscending ks → IsDistinct ks
IsAscending-IsDistinct [] h = tt
IsAscending-IsDistinct (k ∷ ks) h = (All-lt-not-contains k ks h.0, IsAscending-IsDistinct ks h.1)

All-lt-insert :
    (i k : ℕ) (a : Authority) (m : List (PublicKey × Authority))
    → i < k
    → All (λ j. i < j) (keys m)
    → All (λ j. i < j) (keys (Committee.btree_insert k a m))
unfolding Committee.btree_insert
All-lt-insert i k a [] lt h = (lt, tt)
All-lt-insert i k a ((j, b) ∷ m) lt h = elim (Bool-cases (ltb k j)) [
  | inl e ↦ rw e (lt, h)
  | inr e ↦ rw e (elim (Bool-cases (k == j)) [
    | inl s ↦ rw s (lt, h.1)
    | inr s ↦ rw s (h.0, All-lt-insert i k a m lt h.1)
  ])
]

btree_insert-IsAscending :
    (k : PublicKey) (a : Authority) (m : List (PublicKey × Authority))
    → IsAscending (keys m)
    → IsAscending (keys (Committee.btree_insert k a m))
unfolding Committee.btree_insert
btree_insert-IsAscending k a [] h = (tt, tt)
btree_insert-IsAscending k a ((j, b) ∷ m) h = elim (Bool-cases (ltb k j)) [
  | inl e ↦ rw e ((ltb→lt k j e, All-lt_trans k j (keys m) (ltb→lt k j e) h.0), h)
  | inr e ↦ rw e (elim (Bool-cases (k == j)) [
    | inl s ↦ rw s (let q : k ≡ j = (==_iff k j).0 s in rw q h)
    | inr s ↦ rw s (All-lt-insert j k a m (ground arith) h.0, btree_insert-IsAscending k a m h.1)
  ])
]

new_from-IsAscending :
    (i : ℕ) (info : List (PublicKey × Stake × SocketAddr)) (c : Committee)
    → IsAscending (keys c.authorities)
    → IsAscending (keys (Committee.new_from i info c).authorities)
unfolding Committee.new_from
new_from-IsAscending i [] c h = h
new_from-IsAscending i ((name, stake, address) ∷ info) c h =
    new_from-IsAscending (i + 1) info _
      (btree_insert-IsAscending name (Committee.new_authority stake address) c.authorities h)

-- `Committee::new` lists the authorities in ascending key order, each key once, whatever the order
-- and the repetitions of its input.
pub new-IsAscending :
    (info : List (PublicKey × Stake × SocketAddr))
    → IsAscending (keys (Committee.new info).authorities)
      × IsDistinct (keys (Committee.new info).authorities)
unfolding Committee.new
new-IsAscending info =
    let up = new_from-IsAscending 0 info (record { authorities = []; id_map = [] }) tt in
    (up, IsAscending-IsDistinct _ up)

-- A lookup among the other authorities finds what the committee has, except at `myself`.
lookup-others {ℓ} :
    {A : Type ℓ} (f : Authority → A) (myself name : PublicKey) (m : List (PublicKey × Authority))
    → lookup name (Committee.others f myself m)
      ≡ (if name == myself then none else map_some f (lookup name m))
unfolding Committee.others lookup
lookup-others f myself name [] = ground arith
lookup-others f myself name ((k, x) ∷ m) = ground (arith, lookup-others f myself name m)

-- `broadcast_addresses` holds the address of exactly the authorities other than `myself`.
lookup-broadcast_addresses :
    (c : Committee) (myself name : PublicKey)
    → lookup name (Committee.broadcast_addresses c myself)
      ≡ (if name == myself then none else Committee.address c name)
unfolding Committee.broadcast_addresses Committee.address
lookup-broadcast_addresses c myself name =
    lookup-others (λ x. x.consensus) myself name c.authorities

get_elem?-contains :
    (ks : List PublicKey) (j : ℕ) (k : PublicKey) → get_elem? ks j ≡ some k → contains ks k ≡ true
get_elem?-contains [] j k h = cc
get_elem?-contains (n ∷ ks) zero k h = ground arith
get_elem?-contains (n ∷ ks) (suc j) k h = ground (arith, get_elem?-contains ks j k h)

lookup-enumerate_ids :
    (i j : ℕ) (ks : List PublicKey) (k : PublicKey)
    → IsDistinct ks
    → get_elem? ks j ≡ some k
    → lookup k (Committee.enumerate_ids i ks) ≡ some (i + j)
unfolding Committee.enumerate_ids lookup
lookup-enumerate_ids i j [] k d h = cc
lookup-enumerate_ids i zero (n ∷ ks) k d h = ground arith
lookup-enumerate_ids i (suc j) (n ∷ ks) k d h =
    ground (arith, get_elem?-contains ks j k h, lookup-enumerate_ids (i + 1) j ks k d.1 h)

-- After `import` the index of a key is its position in the key order.
node_index-import_ids :
    (m : List (PublicKey × Authority)) (j : ℕ) (k : PublicKey)
    → IsDistinct (keys m)
    → get_elem? (keys m) j ≡ some k
    → Committee.node_index (Committee.import_ids m) k ≡ some j
unfolding Committee.node_index Committee.import_ids
node_index-import_ids m j k d h = ground (arith, lookup-enumerate_ids 0 j (keys m) k d h)
