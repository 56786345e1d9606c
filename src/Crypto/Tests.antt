-- ===== src/Crypto/Tests.antt =====
-- internal/crypto: tests of the ciphers and of the service, over a cipher that seals by appending sixteen
-- zeros.
use go_database.Base.{
  ◌==◌, length, take, is_nil, length-append, Str, str, str_eq, lookup, suc, ◌-◌, ◌≤◌, ◌≡◌, refl, ap,
  inr, true, false, ◌&&◌, none, List, [], ◌∷◌, ◌++◌, arith,
}
use go_database.Plugin.Types.{ok, err}
use go_database.Crypto.Padding.{unpad_pkcs7}
use go_database.Crypto.Ciphers.{Sealed, Aead, Cbc, cbc_encrypt, cbc_decrypt}
use go_database.Crypto.Ciphers.RoundTrip.{cbc_decrypt-encrypt}
use go_database.Crypto.Signature.{Curve, ecdsa_sign, ecdsa_verify}
use go_database.Crypto.Signature.Bytes.{pow256, ecdsa_verify-short}
use go_database.Crypto.Service.{
  EncryptionKey, Keys, Signer, Parts, EncryptResult, get_key, get_crypter, aead_crypter, encrypt,
  decrypt,
}
use go_database.Crypto.Service.Owned.{decrypt-encrypt}
use go_database.Crypto.Padding.{take_of}
use go_database.Crypto.Store.{KeyRecord, holding, Vault, records_of, new_key_store}
use go_database.Crypto.Store.Reopened.{is_stored, new_key_store-persist}

-- Sixteen zeros are padded to a text, and a zero at its end alone is taken for no padding.
zero_padding : unpad_pkcs7 (97 ∷ 0 ∷ []) ≡ ok (97 ∷ 0 ∷ [])
unfolding unpad_pkcs7
zero_padding = refl

abbrev mark : Str
mark = 0 ∷ 0 ∷ 0 ∷ 0 ∷ 0 ∷ 0 ∷ 0 ∷ 0 ∷ 0 ∷ 0 ∷ 0 ∷ 0 ∷ 0 ∷ 0 ∷ 0 ∷ 0 ∷ []

abbrev plain_aead : Aead
plain_aead = record {
  refuse = λ key. none;
  seal = λ key nonce text aad. text ++ mark;
  open_sealed = λ key nonce sealed aad. ok (take (length sealed - 16) sealed);
}

-- The bytes change places by pairs.
abbrev turn : Str → Str
turn [] = []
turn (a ∷ []) = a ∷ []
turn (a ∷ b ∷ s) = b ∷ a ∷ turn s

turn-turn : (s : Str) → turn (turn s) ≡ s
turn-turn [] = refl
turn-turn (a ∷ []) = refl
turn-turn (a ∷ b ∷ s) = ap (λ r. a ∷ b ∷ r) (turn-turn s)

length-turn : (s : Str) → length (turn s) ≡ length s
length-turn [] = refl
length-turn (a ∷ []) = refl
length-turn (a ∷ b ∷ s) = ap (λ n. suc (suc n)) (length-turn s)

abbrev plain_cbc : Cbc
plain_cbc = record {
  refuse = λ key. none;
  encrypt_blocks = λ key nonce blocks. turn blocks;
  decrypt_blocks = λ key nonce blocks. turn blocks;
  mac = λ key text. take 3 key ++ text;
}

abbrev long_key : Str
long_key = mark ++ (mark ++ (mark ++ mark))

cbc_decrypt-encrypt_example :
    (sealed : Sealed) × (cbc_encrypt plain_cbc long_key (ok mark) (str "a secret") (str "who")
      ≡ ok sealed)
    × (cbc_decrypt plain_cbc long_key sealed (str "who") ≡ ok (str "a secret"))
cbc_decrypt-encrypt_example =
    cbc_decrypt-encrypt plain_cbc long_key mark (str "a secret") (str "who") (omega arith) refl
      turn-turn length-turn

-- The second number is the small one; the curve takes the signature.
abbrev small_curve : Curve
small_curve = record {
  parse_private = λ key. ok key;
  parse_public = λ key. ok key;
  sign_digest = λ key digest. ok (pow256 31, 9);
  verify_digest = λ key digest r s. r == pow256 31 && s == 9;
  sha256 = λ text. text;
}

ecdsa_verify-short_example :
    (sig : Str) × (ecdsa_sign small_curve (str "k") (str "text") ≡ ok sig)
    × (ecdsa_verify small_curve (str "k") (str "text") sig
        ≡ err (str "ecdsa: signature must be 64 bytes (r||s)"))
unfolding pow256
ecdsa_verify-short_example =
    ecdsa_verify-short small_curve (str "k") (str "k") (str "text") (str "k") (str "k") (pow256 31)
      9 refl refl refl (omega arith) (omega arith) (inr (omega arith))

abbrev no_signer : Signer
no_signer = record { sign = λ key text. err (str "no"); verify = λ key text sig. err (str "no") }

abbrev parts : Parts
parts = record {
  algos =
      (
        str "aes-256-gcm",
        aead_crypter plain_aead (str "aes") (str "gcm: output too short") (ok long_key) (ok mark),
      )
      ∷ [];
  ed25519 = no_signer;
  ecdsa = no_signer;
  encode_base64 = λ s. s;
  decode_base64 = λ s. ok s;
  persist = λ keys. none;
}

abbrev ada_key : EncryptionKey
ada_key = record {
  id = str "k1";
  user_id = str "ada";
  algorithm = str "aes-256-gcm";
  purpose = str "data-encryption";
  public_key = [];
  priv_key = long_key;
  created_at = 5;
  expires_at = 0;
  version = 0;
}

abbrev ada_keys : Keys
ada_keys = (str "k1", ada_key) ∷ []

key_there : get_key (str "k1") ada_keys ≡ ok ada_key
unfolding get_key lookup
key_there = refl

known_algo :
    get_crypter parts (str "aes-256-gcm")
    ≡ ok (aead_crypter plain_aead (str "aes") (str "gcm: output too short") (ok long_key) (ok mark))
unfolding get_crypter lookup
known_algo = refl

decrypt-encrypt_example :
    (res : EncryptResult) × (encrypt parts
        (record { key_id = str "k1"; plaintext = str "a secret"; aad = [] })
        (str "ada")
        ada_keys
      ≡ ok res)
    × (decrypt parts
          (record {
            key_id = str "k1";
            ciphertext = EncryptResult.ciphertext res;
            nonce = EncryptResult.nonce res;
            tag = EncryptResult.tag res;
            aad = [];
          })
          (str "ada")
          ada_keys
        ≡ ok (str "a secret"))
unfolding str_eq
decrypt-encrypt_example =
    decrypt-encrypt parts (str "ada") (str "k1") (str "a secret") [] mark (str "aes")
      (str "gcm: output too short") (ok long_key) ada_keys ada_key plain_aead key_there refl
      known_algo refl (omega arith) refl (λ s. refl) refl

plain_opens :
    (nonce text : Str)
    → Aead.open_sealed plain_aead
        (mark ++ mark)
        nonce
        (Aead.seal plain_aead (mark ++ mark) nonce text [])
        []
      ≡ ok text
plain_opens nonce text =
    let both = length-append text mark in
    let size : length (text ++ mark) - 16 ≡ length text = omega arith in
    rw size (ap ok (take_of (length text) text mark refl))

plain_shows : (s : Str) → 1 ≤ length s → is_nil s ≡ false
plain_shows [] long = grind arith
plain_shows (c ∷ s) long = refl

abbrev plain_vault : Vault
plain_vault = record {
  aead = plain_aead;
  encode = λ s. s;
  decode = λ s. ok s;
  nonce_size = 16;
  master = mark ++ mark;
}

ada_stored : is_stored ada_keys ≡ true
unfolding is_stored lookup str_eq
ada_stored = refl

new_key_store-persist_example :
    (records : List KeyRecord) × (records_of plain_vault (λ k. ok mark) ada_keys ≡ ok records)
    × (new_key_store plain_vault (holding records) ≡ ok ada_keys)
new_key_store-persist_example =
    new_key_store-persist plain_vault (λ k. mark) refl refl plain_opens (λ s. refl) plain_shows
      (omega arith) (λ k. refl) ada_keys ada_stored
