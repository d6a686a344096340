-- ===== src/Messages/Binding.antt =====
-- primary/src/messages.rs: the digests of consensus messages. SHA-512 is a parameter.
use mathlib.Core.List.{append_assoc}
use auto_pilot.Crypto.{Digest, Dalek, be_bytes, u64_bytes, array_bytes}
use auto_pilot.Messages.Types.{AggregateReport, ConsensusMessage, prepare, confirm, commit}
use auto_pilot.Messages.Digests.{
  digest, prepare_bytes, tagged_bytes, prepare_digest, aggregate_bytes, aggregate_digest,
}
use auto_pilot.Messages.Bytes.{
  byte_bound, IsU64, append_cancel, length-be_bytes, be_bytes_injective, last?, last?-snoc,
  split_head,
}
use auto_pilot.Prelude.{
  nat_eq, pair_eq, length, length-append, ℕ, ◌<◌, ◌≡◌, refl, sym, ap, ◌∙◌, ◌≢◌, Option, none, some,
  List, [], ◌∷◌, ◌++◌, arith,
}

abbrev pub report_id : Dalek → Option AggregateReport → Option Digest
report_id d none = none
report_id d (some r) = some (aggregate_digest d r)

same_report :
    (d : Dalek) (r s : Option AggregateReport)
    → ((x : List ℕ) → d.sha512 x < byte_bound 32)
    → aggregate_bytes d r ++ 0 ∷ [] ≡ aggregate_bytes d s ++ 0 ∷ []
    → report_id d r ≡ report_id d s
unfolding aggregate_digest
same_report d none none small e = refl
same_report d none (some s) small e = absurd (
    omega (
      arith,
      ap length e,
      length-append (be_bytes 32 (aggregate_digest d s)) (0 ∷ []),
      length-be_bytes 32 (aggregate_digest d s),
    ))
same_report d (some r) none small e = absurd (
    omega (
      arith,
      ap length e,
      length-append (be_bytes 32 (aggregate_digest d r)) (0 ∷ []),
      length-be_bytes 32 (aggregate_digest d r),
    ))
same_report d (some r) (some s) small e =
    let x = aggregate_digest d r in
    let y = aggregate_digest d s in
    let (same, _) =
      append_cancel (be_bytes 32 x) (0 ∷ []) (be_bytes 32 y) (0 ∷ [])
        (length-be_bytes 32 x ∙ sym (length-be_bytes 32 y)) e in
    ap some (be_bytes_injective 32 x y (aggregate_small r) (aggregate_small s) same)
  where
    aggregate_small : (z : AggregateReport) → aggregate_digest d z < byte_bound 32
    aggregate_small z = small _

-- The hash gives the two inputs different digests, unless they are the same.
abbrev pub Separates : Dalek → List ℕ → List ℕ → Type 0
Separates d x y = d.sha512 x ≡ d.sha512 y → x ≡ y

-- For slots and views that fit a `u64`, and a hash whose digests have 32 bytes and which does not
-- collide on the bytes of the two Prepares, equal Prepare digests have the same slot, the same view
-- and the same report digest.
pub prepare_digest_binds :
    (d : Dalek) (s v t w : ℕ) (q r : Option AggregateReport)
    → ((x : List ℕ) → d.sha512 x < byte_bound 32)
    → IsU64 s
    → IsU64 v
    → IsU64 t
    → IsU64 w
    → Separates d (prepare_bytes d s v q) (prepare_bytes d t w r)
    → prepare_digest d s v q ≡ prepare_digest d t w r
    → (s ≡ t) × (v ≡ w) × (report_id d q ≡ report_id d r)
unfolding prepare_digest prepare_bytes
prepare_digest_binds d s v t w q r small hs hv ht hw apart e =
    let (a, b, rest) = split_head s v t w _ _ hs hv ht hw (apart e) in
    (a, b, same_report d q r small rest)

-- The byte that closes a message's bytes: 0, 1 and 2 for Prepare, Confirm and Commit.
abbrev pub phase : ConsensusMessage → ℕ
phase (prepare _ _ _ _ _ _) = 0
phase (confirm _ _ _ _ _) = 1
phase (commit _ _ _ _ _) = 2

message_bytes : Dalek → ConsensusMessage → List ℕ
message_bytes d (prepare s v _ _ _ r) = prepare_bytes d s v r
message_bytes d (confirm s v qc _ _) = tagged_bytes d 1 s v qc.id
message_bytes d (commit s v qc _ _) = tagged_bytes d 2 s v qc.id

digest-message_bytes :
    (d : Dalek) (m : ConsensusMessage) → digest d m ≡ d.sha512 (message_bytes d m)
unfolding digest message_bytes
digest-message_bytes d (prepare s v t q p r) = refl
digest-message_bytes d (confirm s v q p r) = refl
digest-message_bytes d (commit s v q p r) = refl

last?-tagged : (a b c : List ℕ) (x : ℕ) → last? (a ++ (b ++ (c ++ x ∷ []))) ≡ some x
last?-tagged a b c x =
    rw (← append_assoc b c (x ∷ [])) (rw (← append_assoc a (b ++ c) (x ∷ [])) (last?-snoc _ x))

last?-message_bytes :
    (d : Dalek) (m : ConsensusMessage) → last? (message_bytes d m) ≡ some (phase m)
unfolding message_bytes prepare_bytes tagged_bytes
last?-message_bytes d (prepare s v t q p r) =
    last?-tagged (u64_bytes s) (u64_bytes v) (aggregate_bytes d r) 0
last?-message_bytes d (confirm s v q p r) =
    last?-tagged (u64_bytes s) (u64_bytes v) (array_bytes q.id) 1
last?-message_bytes d (commit s v q p r) =
    last?-tagged (u64_bytes s) (u64_bytes v) (array_bytes q.id) 2

-- Messages of different phases have different digests, if the hash does not collide on their bytes: a
-- signature on a Prepare is never one on a Confirm or a Commit.
digest_of_phases :
    (d : Dalek) (m n : ConsensusMessage)
    → phase m ≢ phase n
    → Separates d (message_bytes d m) (message_bytes d n)
    → digest d m ≢ digest d n
digest_of_phases d m n differ apart e =
    let same = apart (sym (digest-message_bytes d m) ∙ e ∙ digest-message_bytes d n) in
    let tags : some (phase m) ≡ some (phase n) =
      sym (last?-message_bytes d m) ∙ ap last? same ∙ last?-message_bytes d n in
    differ cc
