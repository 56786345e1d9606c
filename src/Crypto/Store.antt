-- ===== src/Crypto/Store.antt =====
-- internal/crypto/store.go: the file of the keys, whose private parts are sealed with the master key. The
-- file and its JSON are parameters; a private part that is nil is empty here.
pub mod Reopened
use go_database.Base.{
  ltb, ◌==◌, if◌then◌else◌, length, take, drop, is_nil, Str, str, insert, ℕ, not, Option, none,
  some, List, [], ◌∷◌, ◌++◌,
}
use go_database.Plugin.Types.{Reply, ok, err}
use go_database.Crypto.Ciphers.{Aead, wrap}
use go_database.Crypto.Service.{EncryptionKey, Keys}

-- `keyRecord`
pub record KeyRecord : Type 0 where
  pub id : Str
  pub user_id : Str
  pub algorithm : Str
  pub purpose : Str
  pub public_key : Str
  pub enc_priv_key : Str
  pub created_at : ℕ
  pub expires_at : ℕ
  pub version : ℕ

-- What is at the path when the store is made.
pub data KeyFile : Type 0 where
  missing : KeyFile
  unreadable : Str → KeyFile
  malformed : Str → KeyFile
  holding : List KeyRecord → KeyFile

-- AES-GCM, base64, the size of a nonce and the master key.
pub record Vault : Type 0 where
  pub aead : Aead
  pub encode : Str → Str
  pub decode : Str → Reply Str
  pub nonce_size : ℕ
  pub master : Str

abbrev pub record_of : EncryptionKey → Str → KeyRecord
record_of k sealed = record {
  id = EncryptionKey.id k;
  user_id = EncryptionKey.user_id k;
  algorithm = EncryptionKey.algorithm k;
  purpose = EncryptionKey.purpose k;
  public_key = EncryptionKey.public_key k;
  enc_priv_key = sealed;
  created_at = EncryptionKey.created_at k;
  expires_at = EncryptionKey.expires_at k;
  version = EncryptionKey.version k;
}

abbrev pub key_of : KeyRecord → Str → EncryptionKey
key_of r private = record {
  id = KeyRecord.id r;
  user_id = KeyRecord.user_id r;
  algorithm = KeyRecord.algorithm r;
  purpose = KeyRecord.purpose r;
  public_key = KeyRecord.public_key r;
  priv_key = private;
  created_at = KeyRecord.created_at r;
  expires_at = KeyRecord.expires_at r;
  version = KeyRecord.version r;
}

module _ (vault : Vault) where
  -- `encryptKey`; `random` is the nonce.
  unfoldable pub encrypt_key : Reply Str → Str → Reply Str
  encrypt_key random private = elim (Aead.refuse (Vault.aead vault) (Vault.master vault)) [
    | some e ↦ err e
    | none ↦ wrap [] random (λ nonce. ok (
        Vault.encode vault
          (nonce ++ Aead.seal (Vault.aead vault) (Vault.master vault) nonce private [])))
  ]

  -- `decryptKey`
  unfoldable pub decrypt_key : Str → Reply Str
  decrypt_key enc = wrap [] (Vault.decode vault enc) (λ bytes.
      elim (Aead.refuse (Vault.aead vault) (Vault.master vault)) [
        | some e ↦ err e
        | none ↦
            if ltb (length bytes) (Vault.nonce_size vault)
            then err (str "encrypted key too short")
            else Aead.open_sealed (Vault.aead vault) (Vault.master vault)
                (take (Vault.nonce_size vault) bytes) (drop (Vault.nonce_size vault) bytes) []
      ])

  unfoldable pub sealed_private : (EncryptionKey → Reply Str) → EncryptionKey → Reply Str
  unfolding encrypt_key
  sealed_private random k =
      if is_nil (EncryptionKey.priv_key k)
      then ok []
      else encrypt_key (random k) (EncryptionKey.priv_key k)

  -- The records of `persist`, in one order of the map; `random` is the nonce of each key.
  unfoldable pub records_of : (EncryptionKey → Reply Str) → Keys → Reply (List KeyRecord)
  unfolding sealed_private
  records_of random [] = ok []
  records_of random ((id, k) ∷ keys) =
      let rest = records_of random keys in
      wrap (str "encrypt key " ++ (EncryptionKey.id k ++ str ": ")) (sealed_private random k)
        (λ sealed. wrap [] rest (λ records. ok (record_of k sealed ∷ records)))

  -- `persist`
  unfoldable pub persist_keys :
      (List KeyRecord → Option Str) → (EncryptionKey → Reply Str) → Keys → Option Str
  unfolding records_of
  persist_keys write random keys = elim (records_of random keys) [
    | err e ↦ some e
    | ok records ↦ write records
  ]

  unfoldable pub opened_private : Str → Reply Str
  unfolding decrypt_key
  opened_private enc = if is_nil enc then ok [] else decrypt_key enc

  unfoldable pub load_keys : Keys → List KeyRecord → Reply Keys
  unfolding opened_private insert
  load_keys keys [] = ok keys
  load_keys keys (r ∷ rs) =
      wrap (str "decrypt key " ++ (KeyRecord.id r ++ str ": "))
        (opened_private (KeyRecord.enc_priv_key r))
        (λ private. load_keys (insert (KeyRecord.id r) (key_of r private) keys) rs)

  after_read : KeyFile → Reply Keys
  unfolding load_keys
  after_read missing = ok []
  after_read (unreadable e) = err (str "reading keystore: " ++ e)
  after_read (malformed e) = err (str "parsing keystore: " ++ e)
  after_read (holding records) = load_keys [] records

  -- `NewKeyStore`
  unfoldable pub new_key_store : KeyFile → Reply Keys
  unfolding after_read
  new_key_store file =
      if not (length (Vault.master vault) == 32)
      then err (str "master key must be 32 bytes")
      else after_read file
