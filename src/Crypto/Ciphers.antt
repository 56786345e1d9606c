-- ===== src/Crypto/Ciphers.antt =====
-- internal/crypto/algorithms.go: the ciphers around the primitives of the libraries, which are parameters,
-- as are the random bytes. The additional data of a call without any is empty.
pub mod RoundTrip
use go_database.Base.{
  ltb, ◌==◌, if◌then◌else◌, length, take, drop, Str, str, str_eq, ◌-◌, not, ◌||◌, Option, none,
  some, [], ◌++◌,
}
use Prim.Native.Nat.{◌%◌}
use go_database.Plugin.Types.{Reply, ok, err}
use go_database.Crypto.Padding.{pad_pkcs7, unpad_pkcs7}

-- The ciphertext, the nonce and the tag.
pub record Sealed : Type 0 where
  pub ciphertext : Str
  pub nonce : Str
  pub tag : Str

-- An authenticated cipher: the error for a key, if it is refused, and `Seal` and `Open`.
pub record Aead : Type 0 where
  pub refuse : Str → Option Str
  pub seal : Str → Str → Str → Str → Str
  pub open_sealed : Str → Str → Str → Str → Reply Str

-- A block cipher in CBC mode and a keyed hash.
pub record Cbc : Type 0 where
  pub refuse : Str → Option Str
  pub encrypt_blocks : Str → Str → Str → Str
  pub decrypt_blocks : Str → Str → Str → Str
  pub mac : Str → Str → Str

-- The curve and the derivation of a key from a shared secret and a salt.
pub record Exchange : Type 0 where
  pub public_of : Str → Str
  pub shared : Str → Str → Reply Str
  pub derive : Str → Str → Str

-- A step that may fail, with its error wrapped.
abbrev pub wrap {ℓ κ} : {A : Type ℓ} {B : Type κ} → Str → Reply A → (A → Reply B) → Reply B
wrap what (ok a) next = next a
wrap what (err e) next = err (what ++ e)

abbrev split_tag : Str → Str → Str → Reply Sealed
split_tag what nonce sealed =
    if ltb (length sealed) 16
    then err what
    else ok (record {
      ciphertext = take (length sealed - 16) sealed;
      nonce = nonce;
      tag = drop (length sealed - 16) sealed;
    })

module _ (aead : Aead) where
  -- `Encrypt` of the AEAD ciphers; `name` is that of the primitive in its error, and `short` the error for
  -- an output below the size of the tag.
  unfoldable pub aead_encrypt : Str → Str → Str → Reply Str → Str → Str → Reply Sealed
  aead_encrypt name short key random plaintext aad = elim (Aead.refuse aead key) [
    | some e ↦ err (name ++ (str ": " ++ e))
    | none ↦
        wrap (str "nonce: ") random
          (λ nonce. split_tag short nonce (Aead.seal aead key nonce plaintext aad))
  ]

  -- `Decrypt` of the AEAD ciphers
  unfoldable pub aead_decrypt : Str → Str → Sealed → Str → Reply Str
  aead_decrypt name key sealed aad = elim (Aead.refuse aead key) [
    | some e ↦ err (name ++ (str ": " ++ e))
    | none ↦
        Aead.open_sealed aead key (Sealed.nonce sealed)
          (Sealed.ciphertext sealed ++ Sealed.tag sealed) aad
  ]

abbrev pub aes_key : Str → Str
aes_key key = take 32 key

abbrev pub mac_key : Str → Str
mac_key key = take 32 (drop 32 key)

module _ (cbc : Cbc) where
  abbrev pub cbc_mac : Str → Str → Str → Str → Str
  cbc_mac key nonce ciphertext aad = Cbc.mac cbc (mac_key key) (nonce ++ (ciphertext ++ aad))

  -- `aesCBCCrypter.Encrypt`
  unfoldable pub cbc_encrypt : Str → Reply Str → Str → Str → Reply Sealed
  unfolding pad_pkcs7
  cbc_encrypt key random plaintext aad =
      if ltb (length key) 64
      then err (str "key too short: need 64 bytes")
      else elim (Cbc.refuse cbc (aes_key key)) [
        | some e ↦ err (str "aes: " ++ e)
        | none ↦ wrap (str "iv: ") random (λ nonce.
            let ciphertext = Cbc.encrypt_blocks cbc (aes_key key) nonce (pad_pkcs7 plaintext 16) in
            ok (record {
              ciphertext = ciphertext;
              nonce = nonce;
              tag = cbc_mac key nonce ciphertext aad;
            }))
      ]

  -- `aesCBCCrypter.Decrypt`
  unfoldable pub cbc_decrypt : Str → Sealed → Str → Reply Str
  unfolding unpad_pkcs7 str_eq
  cbc_decrypt key sealed aad =
      let ciphertext = Sealed.ciphertext sealed in
      if ltb (length key) 64
      then err (str "key too short: need 64 bytes")
      else if not (str_eq (Sealed.tag sealed) (cbc_mac key (Sealed.nonce sealed) ciphertext aad))
      then err (str "hmac mismatch: data tampered")
      else elim (Cbc.refuse cbc (aes_key key)) [
        | some e ↦ err (str "aes: " ++ e)
        | none ↦
            if length ciphertext == 0 || not (length ciphertext % 16 == 0)
            then err (str "ciphertext not multiple of block size")
            else unpad_pkcs7 (Cbc.decrypt_blocks cbc (aes_key key) (Sealed.nonce sealed) ciphertext)
      ]

module _ (aead : Aead) (x : Exchange) where
  -- `x25519Crypter.Encrypt`; `ephemeral` and `salt` are random.
  unfoldable pub hybrid_encrypt : Str → Str → Str → Reply Str → Str → Str → Reply Sealed
  unfolding aead_encrypt
  hybrid_encrypt public ephemeral salt random plaintext aad =
      wrap (str "ecdh: ") (Exchange.shared x ephemeral public) (λ secret.
        wrap []
          (aead_encrypt aead (str "aes") (str "output too short") (Exchange.derive x secret salt)
            random plaintext aad)
          (λ sealed. ok (record sealed {
            ciphertext = Exchange.public_of x ephemeral ++ (salt ++ Sealed.ciphertext sealed);
          })))

  -- `x25519Crypter.Decrypt`
  unfoldable pub hybrid_decrypt : Str → Sealed → Str → Reply Str
  unfolding aead_decrypt
  hybrid_decrypt private sealed aad =
      let ciphertext = Sealed.ciphertext sealed in
      if ltb (length ciphertext) 48
      then err (str "ciphertext too short")
      else wrap (str "ecdh: ") (Exchange.shared x private (take 32 ciphertext)) (λ secret.
        aead_decrypt aead (str "aes") (Exchange.derive x secret (take 16 (drop 32 ciphertext)))
          (record sealed { ciphertext = drop 48 ciphertext }) aad)
