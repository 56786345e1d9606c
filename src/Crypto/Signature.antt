-- ===== src/Crypto/Signature.antt =====
-- internal/crypto/modern.go: the signatures of `ecdsaCrypter`, over the curve's signature of a digest,
-- which is a parameter, as are the parsers of keys and the hash.
pub mod Bytes
use go_database.Base.{
  ◌==◌, if◌then◌else◌, length, take, drop, Str, str, ℕ, zero, suc, ◌+◌, ◌*◌, Bool, not, [], ◌∷◌,
  ◌++◌,
}
use Prim.Native.Nat.{◌/◌, ◌%◌}
use go_database.Plugin.Types.{Reply, ok, err}
use go_database.Crypto.Ciphers.{wrap}

-- `big.Int.Bytes`: the bytes of a number, the highest one first, without zeros in front; a unit of fuel a
-- byte.
unfoldable pub bytes_from : ℕ → ℕ → Str
bytes_from zero n = []
bytes_from (suc fuel) n =
    let front = bytes_from fuel (n / 256) in if n == 0 then [] else front ++ (n % 256) ∷ []

unfoldable pub bytes_of : ℕ → Str
unfolding bytes_from
bytes_of n = bytes_from (suc n) n

-- `big.Int.SetBytes`
unfoldable pub set_bytes : ℕ → Str → ℕ
set_bytes n [] = n
set_bytes n (b ∷ s) = set_bytes (256 * n + b) s

-- `ecdsa.Sign` and `ecdsa.Verify` of a digest, the parsers of keys, whose results are texts here, and
-- SHA-256.
pub record Curve : Type 0 where
  pub parse_private : Str → Reply Str
  pub parse_public : Str → Reply Str
  pub sign_digest : Str → Str → Reply (ℕ × ℕ)
  pub verify_digest : Str → Str → ℕ → ℕ → Bool
  pub sha256 : Str → Str

module _ (curve : Curve) where
  -- `ecdsaCrypter.Sign`
  unfoldable pub ecdsa_sign : Str → Str → Reply Str
  unfolding bytes_of
  ecdsa_sign private text = wrap [] (Curve.parse_private curve private) (λ key.
      wrap (str "ecdsa sign: ") (Curve.sign_digest curve key (Curve.sha256 curve text))
        (λ (rs : ℕ × ℕ). ok (bytes_of rs.0 ++ bytes_of rs.1)))

  -- `ecdsaCrypter.Verify`
  unfoldable pub ecdsa_verify : Str → Str → Str → Reply Bool
  unfolding set_bytes
  ecdsa_verify public text sig = wrap [] (Curve.parse_public curve public) (λ key.
      if not (length sig == 64)
      then err (str "ecdsa: signature must be 64 bytes (r||s)")
      else ok (
          Curve.verify_digest curve key (Curve.sha256 curve text) (set_bytes 0 (take 32 sig))
            (set_bytes 0 (drop 32 sig))))
