-- ===== src/InternalDb/Keys.antt =====
-- internal/internaldb/store.go: SaveKey, GetKey, ListKeys and DeleteKey, which are the `KeyStore` of
-- internal/auth/apikey.go. The statements on the table are parameters.
use go_database.Base.{all, Str, str, ◌≡◌, refl, true, Option, none, List, [], ◌++◌, map}
use go_database.Plugin.Types.{Reply, ok, err}
use go_database.Auth.ApiKey.{StoredKey, KeyStore}
use go_database.InternalDb.Slices.{join_slice, split_slice, is_plain, split_slice-join}

-- A row of `api_keys`, without its time.
pub record KeyRow : Type 0 where
  pub prefix : Str
  pub hash : Str
  pub name : Str
  pub permissions : Str
  pub owner_id : Str
  pub db_access : Str

-- The statements: INSERT OR REPLACE, SELECT of a prefix, SELECT of all rows, DELETE of a prefix.
pub record KeyTable (W : Type 0) : Type 0 where
  pub put_row : KeyRow → W → Option Str × W
  pub find_row : Str → W → Reply KeyRow × W
  pub all_rows : W → Reply (List KeyRow) × W
  pub delete_row : Str → W → Option Str × W

-- The prefix is the primary key: a row that was put is found under it, and one that was deleted is not.
pub record IsKeyTable {W : Type 0} (table : KeyTable W) : Type 0 where
  pub find_put :
      (row : KeyRow) (w v : W)
      → KeyTable.put_row table row w ≡ (none, v)
      → (KeyTable.find_row table (KeyRow.prefix row) v).0 ≡ ok row
  pub find_deleted :
      (prefix : Str) (w v : W)
      → KeyTable.delete_row table prefix w ≡ (none, v)
      → (e : Str) × ((KeyTable.find_row table prefix v).0 ≡ err e)

abbrev pub row_of : StoredKey → KeyRow
row_of k = record {
  prefix = StoredKey.prefix k;
  hash = StoredKey.hash k;
  name = StoredKey.name k;
  permissions = join_slice (StoredKey.permissions k);
  owner_id = StoredKey.owner_id k;
  db_access = join_slice (StoredKey.db_access k);
}

abbrev pub key_of_row : KeyRow → StoredKey
key_of_row r = record {
  prefix = KeyRow.prefix r;
  hash = KeyRow.hash r;
  name = KeyRow.name r;
  permissions = split_slice (KeyRow.permissions r);
  owner_id = KeyRow.owner_id r;
  db_access = split_slice (KeyRow.db_access r);
}

abbrev read_row : Reply KeyRow → Reply StoredKey
read_row (ok r) = ok (key_of_row r)
read_row (err e) = err (str "internaldb: key not found: " ++ e)

-- `ListKeys` does not select the hash.
abbrev without_hash : KeyRow → StoredKey
without_hash r = record (key_of_row r) { hash = [] }

abbrev read_rows : Reply (List KeyRow) → Reply (List StoredKey)
read_rows (ok rs) = ok (map without_hash rs)
read_rows (err e) = err e

-- `SaveKey`, `GetKey`, `ListKeys` and `DeleteKey` of the store
unfoldable pub internal_keys : {W : Type 0} → KeyTable W → KeyStore W
unfolding join_slice split_slice
internal_keys table = record {
  save_key = λ key w. KeyTable.put_row table (row_of key) w;
  get_key = λ prefix w. let found = KeyTable.find_row table prefix w in (read_row found.0, found.1);
  list_keys = λ w. let found = KeyTable.all_rows table w in (read_rows found.0, found.1);
  delete_key = λ prefix w. KeyTable.delete_row table prefix w;
}

module _ {W : Type 0} (table : KeyTable W) (laws : IsKeyTable table) where
  -- A key that was saved is got again, if no entry of its lists is empty or has a comma.
  pub get_key-save :
      (key : StoredKey) (w v : W)
      → all is_plain (StoredKey.permissions key) ≡ true
      → all is_plain (StoredKey.db_access key) ≡ true
      → KeyStore.save_key (internal_keys table) key w ≡ (none, v)
      → (KeyStore.get_key (internal_keys table) (StoredKey.prefix key) v).0 ≡ ok key
  unfolding internal_keys
  get_key-save key w v plain_permissions plain_access saved =
      let there = IsKeyTable.find_put laws (row_of key) w v saved in
      rw there (
        rw
          (
            split_slice-join (StoredKey.permissions key) plain_permissions,
            split_slice-join (StoredKey.db_access key) plain_access,
          )
          refl)

  pub get_key-delete :
      (prefix : Str) (w v : W)
      → KeyStore.delete_key (internal_keys table) prefix w ≡ (none, v)
      → (e : Str) × ((KeyStore.get_key (internal_keys table) prefix v).0 ≡ err e)
  unfolding internal_keys
  get_key-delete prefix w v deleted =
      let (e, gone) = IsKeyTable.find_deleted laws prefix w v deleted in
      (str "internaldb: key not found: " ++ e, rw gone refl)
