-- ===== src/Config/Committee.antt =====
-- config/src/lib.rs, `Committee`: the authorities by public key in key order, their stake, and the
-- thresholds. A socket address is a number that names it.
use auto_pilot.Crypto.{PublicKey}
use auto_pilot.Prelude.{
  ltb, ◌==◌, if◌then◌else◌, nat_eq, pair_eq, length, keys, values, lookup, insert, ◌>>=◌, Result,
  ok, err, ℕ, ◌+◌, ◌*◌, ◌/◌, ◌%◌, ◌^◌, Option, none, some, List, [], ◌∷◌,
}

abbrev pub Stake : Type 0
Stake = ℕ

abbrev pub WorkerId : Type 0
WorkerId = ℕ

abbrev pub SocketAddr : Type 0
SocketAddr = ℕ

pub data ConfigError : Type 0 where
  not_in_committee : PublicKey → ConfigError
  unknown_worker : WorkerId → ConfigError

pub record PrimaryAddresses : Type 0 where
  pub primary_to_primary : SocketAddr
  pub worker_to_primary : SocketAddr

pub record WorkerAddresses : Type 0 where
  pub transactions : SocketAddr
  pub worker_to_worker : SocketAddr
  pub primary_to_worker : SocketAddr

pub record Authority : Type 0 where
  pub stake : Stake
  pub consensus : SocketAddr
  pub primary : PrimaryAddresses
  pub workers : List (WorkerId × WorkerAddresses)

pub record Committee : Type 0 where
  pub authorities : List (PublicKey × Authority)
  pub id_map : List (PublicKey × ℕ)

-- `u32` addition in a release build.
abbrev pub add_u32 : ℕ → ℕ → ℕ
add_u32 a b = (a + b) % 2 ^ 32

-- `BTreeMap::insert`: the list stays in key order, and an old entry of the key is replaced.
unfoldable pub btree_insert :
    PublicKey → Authority → List (PublicKey × Authority) → List (PublicKey × Authority)
btree_insert k a [] = (k, a) ∷ []
btree_insert k a ((j, b) ∷ m) =
    let rest = btree_insert k a m in
    if ltb k j then (k, a) ∷ (j, b) ∷ m else if k == j then (k, a) ∷ m else (j, b) ∷ rest

-- The closure that `Committee::new` maps over the entries.
unfoldable pub new_authority : Stake → SocketAddr → Authority
new_authority stake address = record {
  stake = stake;
  consensus = address;
  primary = record { primary_to_primary = address; worker_to_primary = address };
  workers = [];
}

-- The loop of `Committee::new`; `i` is the counter of `enumerate`.
unfoldable pub new_from : ℕ → List (PublicKey × Stake × SocketAddr) → Committee → Committee
unfolding new_authority btree_insert
new_from i [] c = c
new_from i ((name, stake, address) ∷ info) c = new_from (i + 1) info (record {
  authorities = btree_insert name (new_authority stake address) c.authorities;
  id_map = insert name i c.id_map;
})

unfoldable pub new : List (PublicKey × Stake × SocketAddr) → Committee
unfolding new_from
new info = new_from 0 info (record { authorities = []; id_map = [] })

-- The `id_map` that `import` always regenerates, from the keys in order.
unfoldable pub enumerate_ids : ℕ → List PublicKey → List (PublicKey × ℕ)
enumerate_ids i [] = []
enumerate_ids i (name ∷ names) = (name, i) ∷ enumerate_ids (i + 1) names

unfoldable pub import_ids : List (PublicKey × Authority) → Committee
unfolding enumerate_ids
import_ids authorities = record {
  authorities = authorities;
  id_map = enumerate_ids 0 (keys authorities);
}

unfoldable pub size : Committee → ℕ
size c = length c.authorities

abbrev pub stake_or_zero : Option Authority → Stake
stake_or_zero none = 0
stake_or_zero (some x) = x.stake

unfoldable pub stake : Committee → PublicKey → Stake
unfolding lookup
stake c name = stake_or_zero (lookup name c.authorities)

unfoldable pub sum_stakes : List (PublicKey × Authority) → Stake
sum_stakes [] = 0
sum_stakes ((_, x) ∷ m) = add_u32 x.stake (sum_stakes m)

-- `total_votes` of the three thresholds.
unfoldable pub total_votes : Committee → Stake
unfolding sum_stakes
total_votes c = sum_stakes c.authorities

unfoldable pub quorum_threshold : Committee → Stake
quorum_threshold c = add_u32 ((2 * total_votes c) % 2 ^ 32 / 3) 1

unfoldable pub validity_threshold : Committee → Stake
validity_threshold c = add_u32 (total_votes c) 2 / 3

unfoldable pub fast_threshold : Committee → Stake
fast_threshold c = total_votes c

unfoldable pub node_index : Committee → PublicKey → Option ℕ
unfolding lookup
node_index c name = lookup name c.id_map

abbrev ok_or_stranger {ℓ} : {A : Type ℓ} → PublicKey → Option A → Result ConfigError A
ok_or_stranger name none = err (not_in_committee name)
ok_or_stranger name (some a) = ok a

abbrev pub map_some {ℓ κ} : {A : Type ℓ} {B : Type κ} → (A → B) → Option A → Option B
map_some f none = none
map_some f (some a) = some (f a)

-- The authorities but `myself`, each seen through `f`.
unfoldable pub others {ℓ} :
    {A : Type ℓ} → (Authority → A) → PublicKey → List (PublicKey × Authority) → List (PublicKey × A)
others f myself [] = []
others f myself ((name, x) ∷ m) =
    let rest = others f myself m in if name == myself then rest else (name, f x) ∷ rest

unfoldable pub others_stake : Committee → PublicKey → List (PublicKey × Stake)
unfolding others
others_stake c myself = others (λ x. x.stake) myself c.authorities

unfoldable pub consensus : Committee → PublicKey → Result ConfigError SocketAddr
unfolding lookup
consensus c to =
    ok_or_stranger to (map_some (λ (x : Authority). x.consensus) (lookup to c.authorities))

unfoldable pub others_consensus : Committee → PublicKey → List (PublicKey × SocketAddr)
unfolding others
others_consensus c myself = others (λ x. x.consensus) myself c.authorities

unfoldable pub primary : Committee → PublicKey → Result ConfigError PrimaryAddresses
unfolding lookup
primary c to = ok_or_stranger to (map_some (λ (x : Authority). x.primary) (lookup to c.authorities))

unfoldable pub others_primaries : Committee → PublicKey → List (PublicKey × PrimaryAddresses)
unfolding others
others_primaries c myself = others (λ x. x.primary) myself c.authorities

-- A missing worker is reported as a missing authority, as the source does.
unfoldable pub worker : Committee → PublicKey → WorkerId → Result ConfigError WorkerAddresses
unfolding lookup
worker c to id = do
  x ← ok_or_stranger to (lookup to c.authorities)
  ok_or_stranger to (lookup id x.workers)

unfoldable pub our_workers : Committee → PublicKey → Result ConfigError (List WorkerAddresses)
unfolding lookup
our_workers c myself = do
  x ← ok_or_stranger myself (lookup myself c.authorities)
  ok (values x.workers)

-- The loop of `others_workers`.
unfoldable pub workers_of :
    PublicKey → WorkerId → List (PublicKey × Authority) → List (PublicKey × WorkerAddresses)
unfolding lookup
workers_of myself id [] = []
workers_of myself id ((name, x) ∷ m) =
    let rest = workers_of myself id m in
    if name == myself
    then rest
    else elim (lookup id x.workers) [ none ↦ rest | some w ↦ (name, w) ∷ rest ]

unfoldable pub others_workers :
    Committee → PublicKey → WorkerId → List (PublicKey × WorkerAddresses)
unfolding workers_of
others_workers c myself id = workers_of myself id c.authorities

unfoldable pub address : Committee → PublicKey → Option SocketAddr
unfolding lookup
address c name = map_some (λ (x : Authority). x.consensus) (lookup name c.authorities)

unfoldable pub broadcast_addresses : Committee → PublicKey → List (PublicKey × SocketAddr)
unfolding others
broadcast_addresses c myself = others (λ x. x.consensus) myself c.authorities
