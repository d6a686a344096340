-- ===== src/Messages/Bytes.antt =====
-- crypto/src/lib.rs and primary/src/messages.rs: the byte strings that are hashed.
use auto_pilot.Crypto.{le_bytes, be_bytes, u64_bytes}
use auto_pilot.Prelude.{
  nat_eq, pair_eq, length, length-append, ℕ, zero, suc, ◌*◌, ◌/◌, ◌%◌, ◌<◌, ◌≡◌, refl, sym, ap, ◌∙◌,
  Option, none, some, List, [], ◌∷◌, ◌++◌, arith,
}

pub append_cancel :
    (xs ys us vs : List ℕ) → length xs ≡ length us → xs ++ ys ≡ us ++ vs → (xs ≡ us) × (ys ≡ vs)
append_cancel [] ys [] vs l e = (refl, e)
append_cancel [] ys (u ∷ us) vs l e = absurd (omega arith)
append_cancel (x ∷ xs) ys [] vs l e = absurd (omega arith)
append_cancel (x ∷ xs) ys (u ∷ us) vs l e =
    let (same, rest) = append_cancel xs ys us vs (omega arith) (cc) in (cc, rest)

-- 256 ^ n.
abbrev pub byte_bound : ℕ → ℕ
byte_bound zero = 1
byte_bound (suc n) = 256 * byte_bound n

length-le_bytes : (n x : ℕ) → length (le_bytes n x) ≡ n
unfolding le_bytes
length-le_bytes zero x = refl
length-le_bytes (suc n) x = ap suc (length-le_bytes n (x / 256))

pub length-be_bytes : (n x : ℕ) → length (be_bytes n x) ≡ n
unfolding be_bytes
length-be_bytes zero x = refl
length-be_bytes (suc n) x =
    omega
      (arith, length-append (be_bytes n (x / 256)) ((x % 256) ∷ []), length-be_bytes n (x / 256))

le_bytes_injective :
    (n x y : ℕ) → x < byte_bound n → y < byte_bound n → le_bytes n x ≡ le_bytes n y → x ≡ y
unfolding le_bytes
le_bytes_injective zero x y hx hy e = omega arith
le_bytes_injective (suc n) x y hx hy e =
    let low : x % 256 ≡ y % 256 = cc in
    let high = le_bytes_injective n (x / 256) (y / 256) (omega arith) (omega arith) (cc) in
    omega arith

pub be_bytes_injective :
    (n x y : ℕ) → x < byte_bound n → y < byte_bound n → be_bytes n x ≡ be_bytes n y → x ≡ y
unfolding be_bytes
be_bytes_injective zero x y hx hy e = omega arith
be_bytes_injective (suc n) x y hx hy e =
    let (same, last) =
      append_cancel (be_bytes n (x / 256)) ((x % 256) ∷ []) (be_bytes n (y / 256)) ((y % 256) ∷ [])
        (length-be_bytes n (x / 256) ∙ sym (length-be_bytes n (y / 256))) e in
    let low : x % 256 ≡ y % 256 = cc in
    let high = be_bytes_injective n (x / 256) (y / 256) (omega arith) (omega arith) same in
    omega arith

unfoldable pub last? : List ℕ → Option ℕ
last? [] = none
last? (x ∷ []) = some x
last? (x ∷ y ∷ xs) = last? (y ∷ xs)

pub last?-snoc : (xs : List ℕ) (a : ℕ) → last? (xs ++ a ∷ []) ≡ some a
unfolding last?
last?-snoc [] a = refl
last?-snoc (x ∷ []) a = refl
last?-snoc (x ∷ y ∷ xs) a = last?-snoc (y ∷ xs) a

abbrev pub IsU64 : ℕ → Type 0
IsU64 n = n < byte_bound 8

pub split_head :
    (s v t w : ℕ) (xs ys : List ℕ)
    → IsU64 s
    → IsU64 v
    → IsU64 t
    → IsU64 w
    → u64_bytes s ++ (u64_bytes v ++ xs) ≡ u64_bytes t ++ (u64_bytes w ++ ys)
    → (s ≡ t) × (v ≡ w) × (xs ≡ ys)
split_head s v t w xs ys hs hv ht hw e =
    let (first, rest) =
      append_cancel (le_bytes 8 s) (le_bytes 8 v ++ xs) (le_bytes 8 t) (le_bytes 8 w ++ ys)
        (length-le_bytes 8 s ∙ sym (length-le_bytes 8 t)) e in
    let (second, tail) =
      append_cancel (le_bytes 8 v) xs (le_bytes 8 w) ys
        (length-le_bytes 8 v ∙ sym (length-le_bytes 8 w)) rest in
    (le_bytes_injective 8 s t hs ht first, le_bytes_injective 8 v w hv hw second, tail)
