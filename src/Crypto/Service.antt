-- ===== src/Crypto/Service.antt =====
-- internal/crypto/crypto.go, engine.go and store.go: the keys and `Service`. The ciphers, the signers, base64
-- and the writing of the file are parameters; a cipher's random bytes are fixed for the call.
pub mod Owned
use go_database.Base.{
  if◌then◌else◌, is_nil, Str, str, str_eq, lookup, insert, remove, ℕ, Bool, not, ◌||◌, Option, none,
  some, List, [], ◌∷◌, ◌++◌,
}
use go_database.Plugin.Types.{Reply, ok, err}
use go_database.Crypto.Ciphers.{Sealed, Aead, wrap, aead_encrypt, aead_decrypt}

pub record EncryptionKey : Type 0 where
  pub id : Str
  pub user_id : Str
  pub algorithm : Str
  pub purpose : Str
  pub public_key : Str
  pub priv_key : Str
  pub created_at : ℕ
  pub expires_at : ℕ
  pub version : ℕ

-- `KeyStore.keys`
abbrev pub Keys : Type 0
Keys = List (Str × EncryptionKey)

-- `Crypter`; a generated key is its public and its private part.
pub record Crypter : Type 0 where
  pub generate_key : Reply (Str × Str)
  pub encrypt : EncryptionKey → Str → Str → Reply Sealed
  pub decrypt : EncryptionKey → Sealed → Str → Reply Str

-- `aesGCMCrypter` and `chacha20Crypter`, whose `GenerateKey` makes a random text, or its error
unfoldable pub aead_crypter : Aead → Str → Str → Reply Str → Reply Str → Crypter
unfolding aead_encrypt aead_decrypt
aead_crypter aead name short made random = record {
  generate_key = wrap [] made (λ key. ok ([], key));
  encrypt = λ key plaintext aad.
      aead_encrypt aead name short (EncryptionKey.priv_key key) random plaintext aad;
  decrypt = λ key sealed aad. aead_decrypt aead name (EncryptionKey.priv_key key) sealed aad;
}

-- `Sign` and `Verify` of a signing cipher
pub record Signer : Type 0 where
  pub sign : EncryptionKey → Str → Reply Str
  pub verify : EncryptionKey → Str → Str → Reply Bool

-- What the service is built of.
pub record Parts : Type 0 where
  pub algos : List (Str × Crypter)
  pub ed25519 : Signer
  pub ecdsa : Signer
  pub encode_base64 : Str → Str
  pub decode_base64 : Str → Reply Str
  pub persist : Keys → Option Str

pub record EncryptRequest : Type 0 where
  pub key_id : Str
  pub plaintext : Str
  pub aad : Str

pub record EncryptResult : Type 0 where
  pub ciphertext : Str
  pub nonce : Str
  pub tag : Str
  pub algorithm : Str
  pub key_id : Str

pub record DecryptRequest : Type 0 where
  pub key_id : Str
  pub ciphertext : Str
  pub nonce : Str
  pub tag : Str
  pub aad : Str

pub record SignResult : Type 0 where
  pub key_id : Str
  pub algorithm : Str
  pub signature : Str

-- `KeyStore.Get`
unfoldable pub get_key : Str → Keys → Reply EncryptionKey
unfolding lookup
get_key id keys = elim (lookup id keys) [
  | none ↦ err (str "key " ++ (id ++ str " not found"))
  | some k ↦ ok k
]

-- `KeyStore.List`, in one order of the map
unfoldable pub list_keys : Str → Keys → List EncryptionKey
unfolding str_eq
list_keys user [] = []
list_keys user ((id, k) ∷ keys) =
    let rest = list_keys user keys in
    if is_nil user || str_eq (EncryptionKey.user_id k) user
    then record k { priv_key = [] } ∷ rest
    else rest

-- The key of a request, if it is the user's.
unfoldable pub own_key : Str → Str → Keys → Reply EncryptionKey
unfolding get_key str_eq
own_key user id keys = wrap (str "key not found: ") (get_key id keys) (λ key.
    if not (str_eq (EncryptionKey.user_id key) user)
    then err (str "key does not belong to user")
    else ok key)

module _ (parts : Parts) where
  -- `KeyStore.Save`: the map keeps the key also when the file cannot be written.
  unfoldable pub save_key : EncryptionKey → Keys → Option Str × Keys
  unfolding insert
  save_key key keys =
      let saved = insert (EncryptionKey.id key) key keys in (Parts.persist parts saved, saved)

  -- `KeyStore.Delete` and `DeleteKey`
  unfoldable pub delete_key : Str → Keys → Option Str × Keys
  unfolding remove
  delete_key id keys = (Parts.persist parts (remove id keys), remove id keys)

  -- `Engine.GetCrypter`
  unfoldable pub get_crypter : Str → Reply Crypter
  unfolding lookup
  get_crypter algo = elim (lookup algo (Parts.algos parts)) [
    | none ↦ err (str "unsupported algorithm: " ++ algo)
    | some c ↦ ok c
  ]

  abbrev after_save : EncryptionKey → Option Str × Keys → Reply EncryptionKey × Keys
  after_save key (none, keys) = (ok key, keys)
  after_save key (some e, keys) = (err (str "save key: " ++ e), keys)

  -- `CreateKey`; `id` and `now` are those that `GenKeyID` and the clock give.
  unfoldable pub create_key : Str → ℕ → Str → Str → Str → Keys → Reply EncryptionKey × Keys
  unfolding get_crypter save_key
  create_key id now user algo purpose keys = elim (get_crypter algo) [
    | err e ↦ (err e, keys)
    | ok c ↦ elim (Crypter.generate_key c) [
      | err e ↦ (err (str "generate key: " ++ e), keys)
      | ok made ↦
          let key : EncryptionKey = record {
            id = id;
            user_id = user;
            algorithm = algo;
            purpose = purpose;
            public_key = made.0;
            priv_key = made.1;
            created_at = now;
            expires_at = 0;
            version = 0;
          } in
          after_save key (save_key key keys)
    ]
  ]

  abbrev pub encoded : EncryptionKey → Sealed → EncryptResult
  encoded key sealed = record {
    ciphertext = Parts.encode_base64 parts (Sealed.ciphertext sealed);
    nonce = Parts.encode_base64 parts (Sealed.nonce sealed);
    tag = Parts.encode_base64 parts (Sealed.tag sealed);
    algorithm = EncryptionKey.algorithm key;
    key_id = EncryptionKey.id key;
  }

  -- `Encrypt`
  unfoldable pub encrypt : EncryptRequest → Str → Keys → Reply EncryptResult
  unfolding own_key get_crypter
  encrypt req user keys = wrap [] (own_key user (EncryptRequest.key_id req) keys) (λ key.
      wrap [] (get_crypter (EncryptionKey.algorithm key)) (λ c.
        wrap (str "encrypt: ")
          (Crypter.encrypt c key (EncryptRequest.plaintext req) (EncryptRequest.aad req))
          (λ sealed. ok (encoded key sealed))))

  abbrev pub decode_tag : Str → Reply Str
  decode_tag tag = if is_nil tag then ok [] else Parts.decode_base64 parts tag

  -- `Decrypt`
  unfoldable pub decrypt : DecryptRequest → Str → Keys → Reply Str
  unfolding own_key get_crypter
  decrypt req user keys = wrap [] (own_key user (DecryptRequest.key_id req) keys) (λ key.
      wrap [] (get_crypter (EncryptionKey.algorithm key)) (λ c.
        wrap (str "ciphertext decode: ") (Parts.decode_base64 parts (DecryptRequest.ciphertext req))
          (λ ciphertext.
            wrap (str "nonce decode: ") (Parts.decode_base64 parts (DecryptRequest.nonce req))
              (λ nonce. wrap (str "tag decode: ") (decode_tag (DecryptRequest.tag req)) (λ tag.
                wrap (str "decrypt: ")
                  (Crypter.decrypt c key
                    (record { ciphertext = ciphertext; nonce = nonce; tag = tag })
                    (DecryptRequest.aad req))
                  ok)))))

  abbrev signer_of : Str → Str → Reply Signer
  signer_of what algo =
      if str_eq algo (str "ed25519")
      then ok (Parts.ed25519 parts)
      else if str_eq algo (str "ecdsa-p256")
      then ok (Parts.ecdsa parts)
      else err (str "algorithm " ++ (algo ++ (str " does not support " ++ what)))

  -- `Sign`
  unfoldable pub sign : Str → Str → Str → Keys → Reply SignResult
  unfolding own_key str_eq
  sign user id text keys = wrap [] (own_key user id keys) (λ key.
      wrap [] (signer_of (str "signing") (EncryptionKey.algorithm key)) (λ signer.
        wrap [] (Signer.sign signer key text) (λ sig. ok (record {
          key_id = EncryptionKey.id key;
          algorithm = EncryptionKey.algorithm key;
          signature = Parts.encode_base64 parts sig;
        }))))

  -- `Verify`
  unfoldable pub verify : Str → Str → Str → Str → Keys → Reply Bool
  unfolding own_key str_eq
  verify user id text signature keys = wrap [] (own_key user id keys) (λ key.
      wrap (str "signature decode: ") (Parts.decode_base64 parts signature) (λ sig.
        wrap [] (signer_of (str "verification") (EncryptionKey.algorithm key))
          (λ signer. Signer.verify signer key text sig)))
