-- ===== src/Crypto.antt =====
-- crypto/src/lib.rs: digests, keys and signatures, with the checks that delegate to ed25519-dalek.
-- A `Digest` and a `PublicKey` are the numbers that their 32 bytes spell, most significant byte
-- first (so `<` is the derived `Ord`); a `Signature` is the number of its 64 bytes.
use auto_pilot.Prelude.{
  nat_eq, pair_eq, keys, values, ℕ, zero, suc, ◌/◌, ◌%◌, Bool, true, ◌&&◌, List, [], ◌∷◌, ◌++◌, map,
}

abbrev pub Digest : Type 0
Digest = ℕ

abbrev pub PublicKey : Type 0
PublicKey = ℕ

abbrev pub Signature : Type 0
Signature = ℕ

-- `Digest::default()`, `PublicKey::default()` and `Signature::default()`: all bytes zero.
abbrev pub default : ℕ
default = 0

-- The crates ed25519-dalek and sha2, which the program calls and does not implement.
pub record Dalek : Type 0 where
  -- the first 32 bytes of `Sha512` over the bytes fed to the hasher
  pub sha512 : List ℕ → Digest
  -- `PublicKey::from_bytes` and `Signature::from_bytes` succeed
  pub key_ok : PublicKey → Bool
  pub signature_ok : Signature → Bool
  pub verify_strict : PublicKey → Digest → Signature → Bool
  pub batch : List Digest → List Signature → List PublicKey → Bool

-- The bytes of `x.to_le_bytes()` for an integer of `n` bytes.
unfoldable pub le_bytes : ℕ → ℕ → List ℕ
le_bytes zero x = []
le_bytes (suc n) x = (x % 256) ∷ le_bytes n (x / 256)

-- The bytes of an array of `n` bytes.
unfoldable pub be_bytes : ℕ → ℕ → List ℕ
be_bytes zero x = []
be_bytes (suc n) x = be_bytes n (x / 256) ++ (x % 256) ∷ []

abbrev pub u64_bytes : ℕ → List ℕ
u64_bytes = le_bytes 8

abbrev pub array_bytes : ℕ → List ℕ
array_bytes = be_bytes 32

module _ (d : Dalek) where
  -- `Signature::verify`; true for `Ok(())`.
  unfoldable pub verify : Signature → Digest → PublicKey → Bool
  verify sig digest key = d.signature_ok sig && d.key_ok key && d.verify_strict key digest sig

  -- The loops of `verify_batch` and `verify_batch_multi`: every vote is parsed before the call.
  unfoldable pub parse_votes : List (PublicKey × Signature) → Bool
  parse_votes [] = true
  parse_votes ((key, sig) ∷ votes) = d.signature_ok sig && d.key_ok key && parse_votes votes

  unfoldable pub verify_batch_multi : List Digest → List (PublicKey × Signature) → Bool
  verify_batch_multi digests votes =
      parse_votes votes && d.batch digests (values votes) (keys votes)

  unfoldable pub verify_batch : Digest → List (PublicKey × Signature) → Bool
  unfolding parse_votes
  verify_batch digest votes =
      parse_votes votes && d.batch (map (λ _. digest) votes) (values votes) (keys votes)
