-- ===== src/Auth/ApiKey.antt =====
-- internal/auth/apikey.go: the service of API keys, over the interface `KeyStore`. SHA-256 and the random
-- bytes are parameters.
use go_database.Base.{
  ltb, if◌then◌else◌, length, take, drop, Str, str, str_eq, ℕ, zero, suc, ◌+◌, ◌-◌, not, Option,
  none, some, List, [], ◌∷◌, ◌++◌,
}
use Prim.Native.Nat.{◌/◌, ◌%◌}
use go_database.Plugin.Types.{Reply, ok, err}

-- `APIKey` without its times
pub record StoredKey : Type 0 where
  pub prefix : Str
  pub hash : Str
  pub name : Str
  pub permissions : List Str
  pub owner_id : Str
  pub db_access : List Str

-- `KeyStore`
pub record KeyStore (W : Type 0) : Type 0 where
  pub save_key : StoredKey → W → Option Str × W
  pub get_key : Str → W → Reply StoredKey × W
  pub list_keys : W → Reply (List StoredKey) × W
  pub delete_key : Str → W → Option Str × W

hex_digit : ℕ → ℕ
hex_digit n = if ltb n 10 then 48 + n else 87 + n

-- `hex.EncodeToString`
unfoldable pub hex : Str → Str
unfolding hex_digit
hex [] = []
hex (b ∷ s) = hex_digit (b / 16) ∷ hex_digit (b % 16) ∷ hex s

-- `keyPrefixLen`
abbrev pub key_prefix_len : ℕ
key_prefix_len = 8

stars : ℕ → Str
stars zero = []
stars (suc n) = b'*' ∷ stars n

-- `FormatKey`
unfoldable pub format_key : Str → Str
unfolding stars
format_key raw =
    if ltb (length raw) 12
    then raw
    else take key_prefix_len raw ++ (stars (length raw - 12) ++ drop (length raw - 4) raw)

module _ {W : Type 0} (store : KeyStore W) (sha256 : Str → Str) where
  -- `hashKey`
  unfoldable pub hash_key : Str → Str
  unfolding hex
  hash_key raw = hex (sha256 raw)

  abbrev pub new_key : Str → Str → List Str → Str → List Str → StoredKey
  new_key raw name permissions owner db_access = record {
    prefix = take key_prefix_len raw;
    hash = hash_key raw;
    name = name;
    permissions = permissions;
    owner_id = owner;
    db_access = db_access;
  }

  abbrev after_save : Str → StoredKey → Option Str × W → Reply (Str × StoredKey) × W
  after_save raw key (none, w) = (ok (raw, key), w)
  after_save raw key (some e, w) = (err (str "apikey: save: " ++ e), w)

  -- `Generate`
  unfoldable pub generate :
      Reply Str → Str → List Str → Str → List Str → W → Reply (Str × StoredKey) × W
  unfolding hash_key hex
  generate (err e) name permissions owner db_access w = (err (str "apikey: *** " ++ e), w)
  generate (ok random) name permissions owner db_access w =
      let key = new_key (hex random) name permissions owner db_access in
      after_save (hex random) key (KeyStore.save_key store key w)

  abbrev pub checked : Str → Reply StoredKey × W → Reply StoredKey × W
  checked raw (err _, w) = (err (str "apikey: not found"), w)
  checked raw (ok key, w) =
      if not (str_eq (StoredKey.hash key) (hash_key raw))
      then (err (str "apikey: invalid key"), w)
      else (ok key, w)

  -- `Validate`
  unfoldable pub validate : Str → W → Reply StoredKey × W
  unfolding hash_key str_eq
  validate raw w =
      if ltb (length raw) key_prefix_len
      then (err (str "apikey: invalid format"), w)
      else checked raw (KeyStore.get_key store (take key_prefix_len raw) w)

  -- `Revoke`
  unfoldable pub revoke : Str → W → Option Str × W
  revoke prefix w = KeyStore.delete_key store prefix w
