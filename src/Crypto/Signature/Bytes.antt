-- ===== src/Crypto/Signature/Bytes.antt =====
-- internal/crypto/modern.go: the bytes of the two numbers of a signature.
use go_database.Base.{
  ◌==◌, length, take, drop, length-append, Str, str, ℕ, zero, suc, ◌+◌, ◌*◌, ◌≤◌, ◌<◌, ◌≡◌, refl,
  ◌⊎◌, inl, inr, true, false, [], ◌∷◌, ◌++◌, arith,
}
use Prim.Native.Nat.{◌/◌, ◌%◌}
use go_database.Plugin.Types.{ok, err}
use go_database.Crypto.Padding.{take_of, drop_of}
use go_database.Crypto.Signature.{bytes_from, bytes_of, set_bytes, Curve, ecdsa_sign, ecdsa_verify}

-- The numbers of `n` bytes are those below.
unfoldable pub pow256 : ℕ → ℕ
pow256 zero = 1
pow256 (suc n) = 256 * pow256 n

bytes_from-zero : (fuel : ℕ) → bytes_from fuel 0 ≡ []
unfolding bytes_from
bytes_from-zero zero = refl
bytes_from-zero (suc fuel) = refl

bytes_from-more :
    (fuel n : ℕ) → 1 ≤ n → bytes_from (suc fuel) n ≡ bytes_from fuel (n / 256) ++ (n % 256) ∷ []
unfolding bytes_from
bytes_from-more fuel n some_left =
    let more : (n == 0) ≡ false = ground (arith, some_left) in rw (bytes_from, more) refl

no_fuel : (m n : ℕ) → length (bytes_from 0 n) ≤ m
unfolding bytes_from
no_fuel m n = omega arith

length-bytes_from : (fuel m n : ℕ) → n < pow256 m → length (bytes_from fuel n) ≤ m
unfolding pow256
length-bytes_from fuel m zero small = rw (bytes_from-zero fuel) (omega arith)
length-bytes_from zero m n small = no_fuel m n
length-bytes_from (suc fuel) zero (suc n) small = grind arith
length-bytes_from (suc fuel) (suc m) (suc n) small =
    let rest = length-bytes_from fuel m (suc n / 256) (omega arith) in
    let grown = length-append (bytes_from fuel (suc n / 256)) ((suc n % 256) ∷ []) in
    rw (bytes_from-more fuel (suc n) (omega arith)) (omega arith)

set_bytes-append : (a : ℕ) (s : Str) (b : ℕ) → set_bytes a (s ++ b ∷ []) ≡ 256 * set_bytes a s + b
unfolding set_bytes
set_bytes-append a [] b = refl
set_bytes-append a (c ∷ s) b = set_bytes-append (256 * a + c) s b

set_bytes-nil : set_bytes 0 [] ≡ 0
unfolding set_bytes
set_bytes-nil = refl

set_bytes-bytes_from : (fuel n : ℕ) → n < fuel → set_bytes 0 (bytes_from fuel n) ≡ n
set_bytes-bytes_from zero n enough = grind arith
set_bytes-bytes_from (suc fuel) zero enough = rw (bytes_from-zero (suc fuel)) set_bytes-nil
set_bytes-bytes_from (suc fuel) (suc n) enough =
    let rest = set_bytes-bytes_from fuel (suc n / 256) (omega arith) in
    rw
      (
        bytes_from-more fuel (suc n) (omega arith),
        set_bytes-append 0 (bytes_from fuel (suc n / 256)) (suc n % 256),
        rest,
      )
      (omega arith)

set_bytes-bytes_of : (n : ℕ) → set_bytes 0 (bytes_of n) ≡ n
unfolding bytes_of
set_bytes-bytes_of n = set_bytes-bytes_from (suc n) n (omega arith)

length-bytes_of : (m n : ℕ) → n < pow256 m → length (bytes_of n) ≤ m
unfolding bytes_of
length-bytes_of m n small = length-bytes_from (suc n) m n small

module _ (curve : Curve) (private public text : Str) (key opened : Str) (r s : ℕ)
    (parses_private : Curve.parse_private curve private ≡ ok key)
    (parses_public : Curve.parse_public curve public ≡ ok opened)
    (signs : Curve.sign_digest curve key (Curve.sha256 curve text) ≡ ok (r, s)) where
  -- A signature of two numbers of 32 bytes each is verified as the curve verifies the two numbers.
  ecdsa_verify-sign :
      length (bytes_of r) ≡ 32
      → length (bytes_of s) ≡ 32
      → (sig : Str) × (ecdsa_sign curve private text ≡ ok sig)
        × (ecdsa_verify curve public text sig
            ≡ ok (Curve.verify_digest curve opened (Curve.sha256 curve text) r s))
  unfolding ecdsa_sign ecdsa_verify
  ecdsa_verify-sign long_r long_s =
      let both = length-append (bytes_of r) (bytes_of s) in
      let full : (length (bytes_of r ++ bytes_of s) == 64) ≡ true =
        ground (arith, both, long_r, long_s) in
      let front : set_bytes 0 (take 32 (bytes_of r ++ bytes_of s)) ≡ r =
        rw (take_of 32 (bytes_of r) (bytes_of s) long_r) (set_bytes-bytes_of r) in
      let back : set_bytes 0 (drop 32 (bytes_of r ++ bytes_of s)) ≡ s =
        rw (drop_of 32 (bytes_of r) (bytes_of s) long_r) (set_bytes-bytes_of s) in
      (
        bytes_of r ++ bytes_of s,
        rw (ecdsa_sign, parses_private, signs) refl,
        rw (ecdsa_verify, parses_public, full, front, back) refl,
      )

  -- A signature of which one number is below 256 ^ 31, so that `Sign` leaves its leading zero byte out,
  -- is refused by `Verify` for its length, whatever the curve says of the two numbers.
  pub ecdsa_verify-short :
      r < pow256 32
      → s < pow256 32
      → (r < pow256 31) ⊎ (s < pow256 31)
      → (sig : Str) × (ecdsa_sign curve private text ≡ ok sig)
        × (ecdsa_verify curve public text sig
            ≡ err (str "ecdsa: signature must be 64 bytes (r||s)"))
  unfolding ecdsa_sign ecdsa_verify
  ecdsa_verify-short fits_r fits_s one_small =
      let both = length-append (bytes_of r) (bytes_of s) in
      let short_r : length (bytes_of r) ≤ 32 = length-bytes_of 32 r fits_r in
      let short_s : length (bytes_of s) ≤ 32 = length-bytes_of 32 s fits_s in
      let below : length (bytes_of r) + length (bytes_of s) < 64 = elim one_small [
        | inl small ↦ let few = length-bytes_of 31 r small in omega arith
        | inr small ↦ let few = length-bytes_of 31 s small in omega arith
      ] in
      let short : (length (bytes_of r ++ bytes_of s) == 64) ≡ false = ground (arith, both, below) in
      (
        bytes_of r ++ bytes_of s,
        rw (ecdsa_sign, parses_private, signs) refl,
        rw (ecdsa_verify, parses_public, short) refl,
      )
