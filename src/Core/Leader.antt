-- ===== src/Core/Leader.antt =====
-- primary/src/leader.rs: the leader of a slot and view.
use native.Mathlib.Nat.{mod-add-mod, mod-eq_of_lt, add-mod_right}
use auto_pilot.Crypto.{PublicKey}
use auto_pilot.Config.Committee
use auto_pilot.Config.Committee.{Committee}
use auto_pilot.Messages.Types.{Slot, View}
use auto_pilot.Prelude.{
  leb, leb→le, Bool-cases, nat_eq, pair_eq, length, get_elem?, contains, keys, ℕ, zero, suc, ◌+◌,
  ◌-◌, ◌%◌, ◌^◌, ◌<◌, ◌≡◌, refl, sym, ap, ◌∙◌, inl, inr, true, Option, some, List, [], ◌∷◌, arith,
}

-- `SemiParallelRRLeaderElector::get_leader`. The keys of the `BTreeMap` are in order, so the sort
-- changes nothing; an empty committee makes the source panic, and the model answer `none`.
unfoldable pub get_leader : Committee → Slot → View → Option PublicKey
get_leader c slot view = get_elem? (keys c.authorities) ((view + slot) % 2 ^ 64 % Committee.size c)

get_elem?-lt :
    (ks : List PublicKey) (i : ℕ)
    → i < length ks
    → (k : PublicKey) × (get_elem? ks i ≡ some k) × (contains ks k ≡ true)
get_elem?-lt [] i h = absurd (omega arith)
get_elem?-lt (k ∷ ks) zero h = (k, refl, ground arith)
get_elem?-lt (k ∷ ks) (suc i) h =
    let (j, found, has) = get_elem?-lt ks i (omega arith) in (j, found, ground arith)

length-keys : {V : Type 0} (m : List (PublicKey × V)) → length (keys m) ≡ length m
length-keys [] = refl
length-keys ((k, v) ∷ m) = ap suc (length-keys m)

-- In a committee with a member every slot and view has a leader, and it is a member.
get_leader_member :
    (c : Committee) (slot : Slot) (view : View)
    → 0 < Committee.size c
    → (k : PublicKey) × (get_leader c slot view ≡ some k) × (contains (keys c.authorities) k ≡ true)
unfolding get_leader Committee.size
get_leader_member c slot view h =
    get_elem?-lt (keys c.authorities) _ (omega (arith, length-keys c.authorities))

-- A shift below `n` that takes `b` to the residue `i`.
shift_to : (b n i : ℕ) → i < n → (j : ℕ) × (j < n) × ((b + j) % n ≡ i)
shift_to b n i lt =
    let small : b % n < n = grind arith in
    elim (Bool-cases (leb (b % n) i)) [
      | inl e ↦ (
        i - b % n,
        omega arith,
        sym (mod-add-mod b n (i - b % n))
            ∙ (ap (λ t. t % n) (omega (arith, leb→le (b % n) i e)) ∙ mod-eq_of_lt lt),
      )
      | inr e ↦
          let more : i < b % n = ground arith in
          (
            i + n - b % n,
            omega arith,
            sym (mod-add-mod b n (i + n - b % n))
                ∙ (ap (λ t. t % n) (omega arith) ∙ (add-mod_right i n ∙ mod-eq_of_lt lt)),
          )
    ]

-- Every authority leads one of any `size` consecutive views of a slot, as long as the views do not
-- pass the range of a `u64`.
pub get_leader_rotates :
    (c : Committee) (slot : Slot) (view : View) (i : ℕ) (k : PublicKey)
    → view + slot + Committee.size c < 2 ^ 64
    → get_elem? (keys c.authorities) i ≡ some k
    → i < Committee.size c
    → (j : ℕ) × (j < Committee.size c) × (get_leader c slot (view + j) ≡ some k)
unfolding get_leader
get_leader_rotates c slot view i k fits at lt =
    let (j, below, hit) = shift_to (view + slot) (Committee.size c) i lt in
    let plain : (view + j + slot) % 2 ^ 64 ≡ view + slot + j = omega arith in
    (j, below, rw (plain, hit) at)
