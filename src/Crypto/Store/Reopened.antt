-- ===== src/Crypto/Store/Reopened.antt =====
-- internal/crypto/store.go: what `NewKeyStore` reads of what `persist` wrote.
use go_database.Base.{
  ltb, ◌==◌, Bool-cases, is_some, length, is_nil, length-append, Str, str_eq, lookup, insert,
  str_eq_sound, str_eq_sym, ◌≤◌, ◌≡◌, refl, sym, ap, ◌∙◌, inl, inr, Bool, true, false, not, ◌&&◌,
  none, List, [], ◌∷◌, ◌++◌, append_assoc, append-nil, arith,
}
use go_database.Plugin.Types.{ok}
use go_database.Crypto.Padding.{take_of, drop_of}
use go_database.Crypto.Ciphers.{Aead}
use go_database.Crypto.Service.{EncryptionKey, Keys}
use go_database.Crypto.Service.Owned.{nil-cases}
use go_database.Crypto.Store.{
  KeyRecord, holding, Vault, record_of, encrypt_key, decrypt_key, sealed_private, records_of,
  opened_private, load_keys, new_key_store,
}

-- Each key stands under its identifier, and once.
unfoldable pub is_stored : Keys → Bool
unfolding str_eq lookup
is_stored [] = true
is_stored ((id, k) ∷ keys) =
    str_eq (EncryptionKey.id k) id && (not (is_some (lookup id keys)) && is_stored keys)

unfoldable is_fresh : Keys → Keys → Bool
unfolding lookup
is_fresh found [] = true
is_fresh found ((id, k) ∷ keys) = not (is_some (lookup id found)) && is_fresh found keys

insert-absent :
    (id : Str) (k : EncryptionKey) (keys : Keys)
    → is_some (lookup id keys) ≡ false
    → insert id k keys ≡ keys ++ (id, k) ∷ []
unfolding insert lookup
insert-absent id k [] absent = refl
insert-absent id k ((j, l) ∷ keys) absent = elim (Bool-cases (str_eq j id)) [
  | inl same ↦ grind arith
  | inr other ↦
      let rest : is_some (lookup id keys) ≡ false = rw other at absent in
      rw other (ap (λ (r : Keys). (j, l) ∷ r) (insert-absent id k keys rest))
]

absent-append :
    (id j : Str) (k : EncryptionKey) (keys : Keys)
    → is_some (lookup j keys) ≡ false
    → str_eq id j ≡ false
    → is_some (lookup j (keys ++ (id, k) ∷ [])) ≡ false
unfolding lookup
absent-append id j k [] absent other = rw other refl
absent-append id j k ((i, l) ∷ keys) absent other = elim (Bool-cases (str_eq i j)) [
  | inl same ↦ grind arith
  | inr differs ↦ rw differs (absent-append id j k keys (rw differs at absent) other)
]

is_fresh-append :
    (id : Str) (k : EncryptionKey) (found keys : Keys)
    → is_fresh found keys ≡ true
    → is_some (lookup id keys) ≡ false
    → is_fresh (found ++ (id, k) ∷ []) keys ≡ true
unfolding is_fresh lookup
is_fresh-append id k found [] fresh absent = refl
is_fresh-append id k found ((j, l) ∷ keys) fresh absent = elim (Bool-cases (str_eq j id)) [
  | inl same ↦ grind arith
  | inr other ↦
      let first : is_some (lookup j found) ≡ false = ground (arith, fresh) in
      let turned : str_eq id j ≡ false = str_eq_sym id j ∙ other in
      let step = absent-append id j k found first turned in
      let rest = is_fresh-append id k found keys (ground (arith, fresh)) (rw other at absent) in
      rw (step, rest) refl
]

-- The laws of the vault: the master key is one, the cipher opens what it seals, base64 decodes what it
-- encodes, and an encoded text that is not empty is not.
module _ (vault : Vault) (nonce_of : EncryptionKey → Str) (size : length (Vault.master vault) ≡ 32)
    (takes : Aead.refuse (Vault.aead vault) (Vault.master vault) ≡ none)
    (opens : (nonce text : Str)
      → Aead.open_sealed
          (Vault.aead vault)
          (Vault.master vault)
          nonce
          (Aead.seal (Vault.aead vault) (Vault.master vault) nonce text [])
          []
        ≡ ok text)
    (decodes : (s : Str) → Vault.decode vault (Vault.encode vault s) ≡ ok s)
    (shows : (s : Str) → 1 ≤ length s → is_nil (Vault.encode vault s) ≡ false)
    (some_nonce : 1 ≤ Vault.nonce_size vault)
    (nonces : (k : EncryptionKey) → length (nonce_of k) ≡ Vault.nonce_size vault) where
  decrypt_key-encrypt :
      (k : EncryptionKey) (text : Str)
      → (enc : Str) × ((encrypt_key vault (ok (nonce_of k)) text ≡ ok enc)
          × ((is_nil enc ≡ false) × (decrypt_key vault enc ≡ ok text)))
  unfolding encrypt_key decrypt_key
  decrypt_key-encrypt k text =
      let nonce = nonce_of k in
      let sealed = Aead.seal (Vault.aead vault) (Vault.master vault) nonce text [] in
      let both = length-append nonce sealed in
      let long = nonces k in
      let enough : ltb (length (nonce ++ sealed)) (Vault.nonce_size vault) ≡ false =
        ground (arith, both, long) in
      (
        Vault.encode vault (nonce ++ sealed),
        (
          rw (encrypt_key, takes) refl,
          (
            shows (nonce ++ sealed) (omega arith),
            rw
                (
                  decrypt_key,
                  decodes (nonce ++ sealed),
                  takes,
                  enough,
                  take_of (Vault.nonce_size vault) nonce sealed long,
                  drop_of (Vault.nonce_size vault) nonce sealed long,
                )
                (opens nonce text),
          ),
        ),
      )

  opened_private-sealed :
      (k : EncryptionKey)
      → (enc : Str) × ((sealed_private vault (λ k. ok (nonce_of k)) k ≡ ok enc)
          × (opened_private vault enc ≡ ok (EncryptionKey.priv_key k)))
  unfolding sealed_private opened_private
  opened_private-sealed k = elim (nil-cases (EncryptionKey.priv_key k)) [
    | inl empty ↦ ([], (rw (sealed_private, empty) refl, rw (opened_private, empty) refl))
    | inr full ↦
        let (enc, (sealed, (shown, opened))) = decrypt_key-encrypt k (EncryptionKey.priv_key k) in
        (enc, (rw (sealed_private, full) sealed, rw (opened_private, shown) opened))
  ]

  load_keys-record :
      (found : Keys) (id enc : Str) (k : EncryptionKey) (records : List KeyRecord)
      → EncryptionKey.id k ≡ id
      → is_some (lookup id found) ≡ false
      → opened_private vault enc ≡ ok (EncryptionKey.priv_key k)
      → load_keys vault found (record_of k enc ∷ records)
        ≡ load_keys vault (found ++ (id, k) ∷ []) records
  unfolding load_keys
  load_keys-record found id enc k records own new opened =
      let under : load_keys vault found (record_of k enc ∷ records)
          ≡ load_keys vault (insert (EncryptionKey.id k) k found) records =
        rw (load_keys, opened) refl in
      under
      ∙ ap (λ i. load_keys vault (insert i k found) records) own
      ∙ ap (λ keys. load_keys vault keys records) (insert-absent id k found new)

  load_keys-records :
      (found keys : Keys)
      → is_stored keys ≡ true
      → is_fresh found keys ≡ true
      → (records : List KeyRecord) × ((records_of vault (λ k. ok (nonce_of k)) keys ≡ ok records)
          × (load_keys vault found records ≡ ok (found ++ keys)))
  unfolding records_of load_keys is_stored is_fresh
  load_keys-records found [] stored fresh = ([], (refl, ap ok (sym (append-nil found))))
  load_keys-records found ((id, k) ∷ keys) stored fresh =
      let own : EncryptionKey.id k ≡ id = str_eq_sound _ _ (ground (arith, stored)) in
      let once : is_some (lookup id keys) ≡ false = ground (arith, stored) in
      let new : is_some (lookup id found) ≡ false = ground (arith, fresh) in
      let (enc, (sealed, opened)) = opened_private-sealed k in
      let (records, (written, loaded)) =
        load_keys-records (found ++ (id, k) ∷ []) keys (ground (arith, stored))
          (is_fresh-append id k found keys (ground (arith, fresh)) once) in
      (
        record_of k enc ∷ records,
        (
          rw (records_of, sealed, written) refl,
          load_keys-record found id enc k records own new opened
              ∙ loaded
              ∙ ap ok (append_assoc found ((id, k) ∷ []) keys),
        ),
      )

  is_fresh-nil : (keys : Keys) → is_fresh [] keys ≡ true
  unfolding is_fresh lookup
  is_fresh-nil [] = refl
  is_fresh-nil ((id, k) ∷ keys) = is_fresh-nil keys

  -- A store that is opened on the file that `persist` wrote holds the keys that were in the store, the
  -- private parts too, in any case the master key is of 32 bytes, the cipher opens what it seals, and
  -- base64 decodes what it encodes.
  pub new_key_store-persist :
      (keys : Keys)
      → is_stored keys ≡ true
      → (records : List KeyRecord) × (records_of vault (λ k. ok (nonce_of k)) keys ≡ ok records)
        × (new_key_store vault (holding records) ≡ ok keys)
  unfolding new_key_store
  new_key_store-persist keys stored =
      let (records, (written, loaded)) = load_keys-records [] keys stored (is_fresh-nil keys) in
      let whole : (length (Vault.master vault) == 32) ≡ true = ground (arith, size) in
      (records, written, rw (new_key_store, whole) loaded)
