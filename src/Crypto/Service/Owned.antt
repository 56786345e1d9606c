-- ===== src/Crypto/Service/Owned.antt =====
-- internal/crypto/engine.go: the owners of the keys, and the way there and back.
use go_database.Base.{
  Bool-cases, length, is_nil, all, Str, str, str_eq, lookup, remove, str_eq_refl, lookup-remove,
  ◌≤◌, ◌≡◌, refl, sym, ◌∙◌, ◌⊎◌, inl, inr, true, false, ◌&&◌, none, [], ◌∷◌, ◌++◌,
}
use go_database.Plugin.Types.{Reply, ok, err}
use go_database.Crypto.Ciphers.{Sealed, Aead}
use go_database.Crypto.Ciphers.RoundTrip.{aead_decrypt-encrypt}
use go_database.Crypto.Service.{
  EncryptionKey, Keys, Crypter, Parts, EncryptResult, get_key, list_keys, own_key, get_crypter,
  aead_crypter, delete_key, decode_tag, encoded, encrypt, decrypt, sign, verify,
}

own_key-foreign :
    (user id : Str) (keys : Keys) (key : EncryptionKey)
    → get_key id keys ≡ ok key
    → str_eq (EncryptionKey.user_id key) user ≡ false
    → own_key user id keys ≡ err (str "key does not belong to user")
unfolding own_key
own_key-foreign user id keys key there foreign = rw (own_key, there, foreign) refl

own_key-own :
    (user id : Str) (keys : Keys) (key : EncryptionKey)
    → get_key id keys ≡ ok key
    → str_eq (EncryptionKey.user_id key) user ≡ true
    → own_key user id keys ≡ ok key
unfolding own_key
own_key-own user id keys key there own = rw (own_key, there, own) refl

-- A key serves its owner only: for another user it neither encrypts nor decrypts nor signs nor verifies.
service-foreign :
    (parts : Parts) (user id plaintext ciphertext nonce tag aad text sig : Str) (keys : Keys)
    (key : EncryptionKey)
    → get_key id keys ≡ ok key
    → str_eq (EncryptionKey.user_id key) user ≡ false
    → (encrypt parts (record { key_id = id; plaintext = plaintext; aad = aad }) user keys
        ≡ err (str "key does not belong to user"))
      × (decrypt parts
            (record { key_id = id; ciphertext = ciphertext; nonce = nonce; tag = tag; aad = aad })
            user
            keys
          ≡ err (str "key does not belong to user"))
      × (sign parts user id text keys ≡ err (str "key does not belong to user"))
      × (verify parts user id text sig keys ≡ err (str "key does not belong to user"))
unfolding encrypt decrypt sign verify
service-foreign parts user id plaintext ciphertext nonce tag aad text sig keys key there foreign =
    let refused = own_key-foreign user id keys key there foreign in
    (
      rw (encrypt, refused) refl,
      rw (decrypt, refused) refl,
      rw (sign, refused) refl,
      rw (verify, refused) refl,
    )

-- `ListKeys` for a user shows keys of that user, without their private parts.
list_keys-own :
    (user : Str) (keys : Keys)
    → is_nil user ≡ false
    → all
        (λ k. str_eq (EncryptionKey.user_id k) user && is_nil (EncryptionKey.priv_key k))
        (list_keys user keys)
      ≡ true
unfolding list_keys
list_keys-own user [] named = refl
list_keys-own user ((id, k) ∷ keys) named =
    let rest = list_keys-own user keys named in
    elim (Bool-cases (str_eq (EncryptionKey.user_id k) user)) [
      | inl own ↦ rw (list_keys, named, own) (rw (own, rest) refl)
      | inr foreign ↦ rw (list_keys, named, foreign) rest
    ]

-- `DeleteKey` asks for no owner: whoever calls it, the owner's requests find the key no more.
encrypt-delete_key :
    (parts : Parts) (owner id plaintext aad : Str) (keys : Keys)
    → encrypt parts
        (record { key_id = id; plaintext = plaintext; aad = aad })
        owner
        (delete_key parts id keys).1
      ≡ err (str "key not found: " ++ (str "key " ++ (id ++ str " not found")))
unfolding encrypt delete_key own_key get_key
encrypt-delete_key parts owner id plaintext aad keys =
    let gone : lookup id (remove id keys) ≡ none =
      rw (lookup-remove id id keys, str_eq_refl id) refl in
    rw (encrypt, own_key, get_key, gone) refl

pub nil-cases : (s : Str) → (s ≡ []) ⊎ (is_nil s ≡ false)
nil-cases [] = inl refl
nil-cases (c ∷ s) = inr refl

decode_tag-encode :
    (parts : Parts) (tag : Str)
    → Parts.decode_base64 parts (Parts.encode_base64 parts tag) ≡ ok tag
    → Parts.decode_base64 parts [] ≡ ok []
    → decode_tag parts (Parts.encode_base64 parts tag) ≡ ok tag
decode_tag-encode parts tag decodes decodes_nil = elim (nil-cases (Parts.encode_base64 parts tag)) [
  | inl empty ↦ rw empty (sym decodes_nil ∙ (rw empty at decodes))
  | inr some_text ↦ rw (decode_tag, some_text) decodes
]

module _ (parts : Parts) (user id plaintext aad : Str) (keys : Keys) (key : EncryptionKey)
    (c : Crypter) (sealed : Sealed) (there : get_key id keys ≡ ok key)
    (own : str_eq (EncryptionKey.user_id key) user ≡ true)
    (known : get_crypter parts (EncryptionKey.algorithm key) ≡ ok c)
    (seals : Crypter.encrypt c key plaintext aad ≡ ok sealed)
    (opens : Crypter.decrypt c key sealed aad ≡ ok plaintext)
    (decodes : (s : Str) → Parts.decode_base64 parts (Parts.encode_base64 parts s) ≡ ok s)
    (decodes_nil : Parts.decode_base64 parts [] ≡ ok []) where
  -- Whatever the cipher: what it opens again, the service does.
  decrypt-encrypt_sealed :
      (res : EncryptResult) × (encrypt parts
          (record { key_id = id; plaintext = plaintext; aad = aad })
          user
          keys
        ≡ ok res)
      × (decrypt parts
            (record {
              key_id = id;
              ciphertext = EncryptResult.ciphertext res;
              nonce = EncryptResult.nonce res;
              tag = EncryptResult.tag res;
              aad = aad;
            })
            user
            keys
          ≡ ok plaintext)
  unfolding encrypt decrypt
  decrypt-encrypt_sealed =
      let tag =
        decode_tag-encode parts (Sealed.tag sealed) (decodes (Sealed.tag sealed)) decodes_nil in
      let mine = own_key-own user id keys key there own in
      (
        encoded parts key sealed,
        rw (encrypt, mine, known, seals) refl,
        rw
            (
              decrypt,
              mine,
              known,
              decodes (Sealed.ciphertext sealed),
              decodes (Sealed.nonce sealed),
              tag,
              opens,
            )
            refl,
      )

module _ (parts : Parts) (user id plaintext aad nonce name short : Str) (made : Reply Str)
    (keys : Keys) (key : EncryptionKey) (aead : Aead) (there : get_key id keys ≡ ok key)
    (own : str_eq (EncryptionKey.user_id key) user ≡ true)
    (known : get_crypter parts (EncryptionKey.algorithm key)
      ≡ ok (aead_crypter aead name short made (ok nonce)))
    (takes : Aead.refuse aead (EncryptionKey.priv_key key) ≡ none)
    (long : 16 ≤ length (Aead.seal aead (EncryptionKey.priv_key key) nonce plaintext aad))
    (opens : Aead.open_sealed aead
        (EncryptionKey.priv_key key)
        nonce
        (Aead.seal aead (EncryptionKey.priv_key key) nonce plaintext aad)
        aad
      ≡ ok plaintext)
    (decodes : (s : Str) → Parts.decode_base64 parts (Parts.encode_base64 parts s) ≡ ok s)
    (decodes_nil : Parts.decode_base64 parts [] ≡ ok []) where
  -- What the service encrypts for the owner of an AEAD key, it decrypts for the owner, if the primitive
  -- opens what it seals and base64 decodes what it encodes: the tag is split off, encoded, decoded and put
  -- back.
  pub decrypt-encrypt :
      (res : EncryptResult) × (encrypt parts
          (record { key_id = id; plaintext = plaintext; aad = aad })
          user
          keys
        ≡ ok res)
      × (decrypt parts
            (record {
              key_id = id;
              ciphertext = EncryptResult.ciphertext res;
              nonce = EncryptResult.nonce res;
              tag = EncryptResult.tag res;
              aad = aad;
            })
            user
            keys
          ≡ ok plaintext)
  unfolding aead_crypter
  decrypt-encrypt =
      let (sealed, seals, unseals) =
        aead_decrypt-encrypt aead name short (EncryptionKey.priv_key key) nonce plaintext aad takes
          long opens in
      decrypt-encrypt_sealed parts user id plaintext aad keys key
        (aead_crypter aead name short made (ok nonce)) sealed there own known seals unseals decodes
        decodes_nil
