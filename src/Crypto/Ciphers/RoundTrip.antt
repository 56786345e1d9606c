-- ===== src/Crypto/Ciphers/RoundTrip.antt =====
-- internal/crypto/algorithms.go: what is encrypted is decrypted again, and what is changed is not.
use go_database.Base.{
  ltb, ◌==◌, length, take, drop, length-append, Str, str, str_eq, str_eq_refl, ℕ, zero, suc, ◌+◌,
  ◌-◌, ◌≤◌, ◌≡◌, refl, ap, ◌∙◌, false, not, ◌||◌, none, List, [], ◌∷◌, ◌++◌, append_assoc, arith,
}
use Prim.Native.Nat.{◌%◌}
use go_database.Plugin.Types.{ok, err}
use go_database.Crypto.Padding.{pad_pkcs7, unpad_pkcs7-pad, length-pad_pkcs7, take_of, drop_of}
use go_database.Crypto.Ciphers.{
  Sealed, Aead, Cbc, Exchange, aead_encrypt, aead_decrypt, aes_key, cbc_mac, cbc_encrypt,
  cbc_decrypt, hybrid_encrypt, hybrid_decrypt,
}

take-drop {ℓ} : {A : Type ℓ} (n : ℕ) (xs : List A) → take n xs ++ drop n xs ≡ xs
take-drop zero xs = refl
take-drop (suc n) [] = refl
take-drop (suc n) (x ∷ xs) = ap (λ r. x ∷ r) (take-drop n xs)

whole_blocks : (m n : ℕ) → n ≡ m + (16 - m % 16) → (n == 0 || not (n % 16 == 0)) ≡ false
whole_blocks m n size =
    let rest : n % 16 ≡ 0 = omega arith in
    let some_bytes : 1 ≤ n = omega arith in ground (arith, rest, some_bytes)

-- What an AEAD cipher seals for a key that it takes, it opens: the tag that `Encrypt` splits off is put
-- back by `Decrypt`.
pub aead_decrypt-encrypt :
    (aead : Aead) (name short key nonce plaintext aad : Str)
    → Aead.refuse aead key ≡ none
    → 16 ≤ length (Aead.seal aead key nonce plaintext aad)
    → Aead.open_sealed aead key nonce (Aead.seal aead key nonce plaintext aad) aad ≡ ok plaintext
    → (sealed : Sealed) × (aead_encrypt aead name short key (ok nonce) plaintext aad ≡ ok sealed)
      × (aead_decrypt aead name key sealed aad ≡ ok plaintext)
unfolding aead_encrypt aead_decrypt
aead_decrypt-encrypt aead name short key nonce plaintext aad takes long opens =
    let out = Aead.seal aead key nonce plaintext aad in
    let fits : ltb (length out) 16 ≡ false = ground (arith, long) in
    (
      record {
        ciphertext = take (length out - 16) out;
        nonce = nonce;
        tag = drop (length out - 16) out;
      },
      rw (aead_encrypt, takes, fits) refl,
      rw (aead_decrypt, takes, take-drop (length out - 16) out) opens,
    )

module _ (cbc : Cbc) (key nonce plaintext aad : Str) (long : 64 ≤ length key)
    (takes : Cbc.refuse cbc (aes_key key) ≡ none)
    (inverse : (blocks : Str)
      → Cbc.decrypt_blocks cbc
          (aes_key key)
          nonce
          (Cbc.encrypt_blocks cbc (aes_key key) nonce blocks)
        ≡ blocks)
    (size : (blocks : Str)
      → length (Cbc.encrypt_blocks cbc (aes_key key) nonce blocks) ≡ length blocks) where
  -- What `aesCBCCrypter` encrypts, it decrypts again.
  pub cbc_decrypt-encrypt :
      (sealed : Sealed) × (cbc_encrypt cbc key (ok nonce) plaintext aad ≡ ok sealed)
      × (cbc_decrypt cbc key sealed aad ≡ ok plaintext)
  unfolding cbc_encrypt cbc_decrypt
  cbc_decrypt-encrypt =
      let padded = pad_pkcs7 plaintext 16 in
      let ciphertext = Cbc.encrypt_blocks cbc (aes_key key) nonce padded in
      let enough : ltb (length key) 64 ≡ false = ground (arith, long) in
      let own = str_eq_refl (cbc_mac cbc key nonce ciphertext aad) in
      let blocks : (length ciphertext == 0 || not (length ciphertext % 16 == 0)) ≡ false =
        whole_blocks (length plaintext) (length ciphertext)
          (size padded ∙ length-pad_pkcs7 plaintext 16) in
      (
        record {
          ciphertext = ciphertext;
          nonce = nonce;
          tag = cbc_mac cbc key nonce ciphertext aad;
        },
        rw (cbc_encrypt, enough, takes) refl,
        rw (cbc_decrypt, enough, own, takes, blocks, inverse padded)
            (unpad_pkcs7-pad plaintext 16 (omega arith) (omega arith)),
      )

-- `aesCBCCrypter` checks the tag first: where it is not that of the nonce, the ciphertext and the
-- additional data, nothing is decrypted.
cbc_decrypt-tampered :
    (cbc : Cbc) (key aad : Str) (sealed : Sealed)
    → 64 ≤ length key
    → str_eq
        (Sealed.tag sealed)
        (cbc_mac cbc key (Sealed.nonce sealed) (Sealed.ciphertext sealed) aad)
      ≡ false
    → cbc_decrypt cbc key sealed aad ≡ err (str "hmac mismatch: data tampered")
unfolding cbc_decrypt
cbc_decrypt-tampered cbc key aad sealed long differs =
    let enough : ltb (length key) 64 ≡ false = ground (arith, long) in
    rw (cbc_decrypt, enough, differs) refl

aead_round :
    (aead : Aead) (name short key nonce plaintext aad : Str)
    → Aead.refuse aead key ≡ none
    → 16 ≤ length (Aead.seal aead key nonce plaintext aad)
    → Aead.open_sealed aead key nonce (Aead.seal aead key nonce plaintext aad) aad ≡ ok plaintext
    → (sealed : Sealed) × ((aead_encrypt aead name short key (ok nonce) plaintext aad ≡ ok sealed)
        × (aead_decrypt aead name key sealed aad ≡ ok plaintext))
aead_round aead name short key nonce plaintext aad takes long opens =
    let (sealed, e, d) =
      aead_decrypt-encrypt aead name short key nonce plaintext aad takes long opens in
    (sealed, (e, d))

module _ (aead : Aead) (x : Exchange) (private ephemeral salt nonce plaintext aad secret : Str)
    (short : length (Exchange.public_of x ephemeral) ≡ 32) (salted : length salt ≡ 16)
    (sent : Exchange.shared x ephemeral (Exchange.public_of x private) ≡ ok secret)
    (received : Exchange.shared x private (Exchange.public_of x ephemeral) ≡ ok secret)
    (takes : Aead.refuse aead (Exchange.derive x secret salt) ≡ none)
    (long : 16 ≤ length (Aead.seal aead (Exchange.derive x secret salt) nonce plaintext aad))
    (opens : Aead.open_sealed aead
        (Exchange.derive x secret salt)
        nonce
        (Aead.seal aead (Exchange.derive x secret salt) nonce plaintext aad)
        aad
      ≡ ok plaintext) where
  -- The hybrid cipher: who holds the private key decrypts what was encrypted to its public key; the
  -- ephemeral key and the salt are cut off the ciphertext where they were put.
  hybrid_decrypt-encrypt :
      (sealed : Sealed) × (hybrid_encrypt aead x
          (Exchange.public_of x private)
          ephemeral
          salt
          (ok nonce)
          plaintext
          aad
        ≡ ok sealed)
      × (hybrid_decrypt aead x private sealed aad ≡ ok plaintext)
  unfolding hybrid_encrypt hybrid_decrypt
  hybrid_decrypt-encrypt =
      let public = Exchange.public_of x ephemeral in
      let (inner, (sealed, opened)) =
        aead_round aead (str "aes") (str "output too short") (Exchange.derive x secret salt) nonce
          plaintext aad takes long opens in
      let front = length-append public salt in
      let both : length (public ++ salt) ≡ 48 = omega arith in
      let rest : drop 48 (public ++ (salt ++ Sealed.ciphertext inner)) ≡ Sealed.ciphertext inner =
        rw (← (append_assoc public salt (Sealed.ciphertext inner)))
          (drop_of 48 (public ++ salt) (Sealed.ciphertext inner) both) in
      let own : take 32 (public ++ (salt ++ Sealed.ciphertext inner)) ≡ public =
        take_of 32 public (salt ++ Sealed.ciphertext inner) short in
      let salt_first : take 16 (drop 32 (public ++ (salt ++ Sealed.ciphertext inner))) ≡ salt =
        rw (drop_of 32 public (salt ++ Sealed.ciphertext inner) short)
          (take_of 16 salt (Sealed.ciphertext inner) salted) in
      let whole = length-append public (salt ++ Sealed.ciphertext inner) in
      let tail = length-append salt (Sealed.ciphertext inner) in
      let enough : ltb (length (public ++ (salt ++ Sealed.ciphertext inner))) 48 ≡ false =
        ground (arith, whole, tail, short, salted) in
      (
        record inner { ciphertext = public ++ (salt ++ Sealed.ciphertext inner) },
        rw (hybrid_encrypt, sent, sealed) refl,
        rw (hybrid_decrypt, enough, own, received, salt_first, rest) opened,
      )
