-- ===== src/Middleware/Keys.antt =====
-- internal/auth/apikey.go behind `AuthMiddleware` of internal/api/middleware/auth.go: the keys of the
-- service at the door of the HTTP interface.
use go_database.Base.{length, all, Str, ◌≡◌, true, Option, none, some, List}
use go_database.Plugin.Types.{Reply, ok, err}
use go_database.InternalDb.Slices.{is_plain}
use go_database.InternalDb.Keys.{KeyTable, IsKeyTable, internal_keys}
use go_database.Auth.ApiKey.{StoredKey, hex, new_key, validate}
use go_database.Middleware.Context.{Claims, AuthConfig, ApiKey, Request, token_of}

-- The part of a key that the middleware reads, where the service takes the key.
abbrev pub admitted : Reply StoredKey → Option ApiKey
admitted (ok key) =
    some (record { permissions = StoredKey.permissions key; db_access = StoredKey.db_access key })
admitted (err _) = none

module _ {W : Type 0} (table : KeyTable W) (laws : IsKeyTable table) (sha256 : Str → Str)
    (jwt : Str → Option Claims) (random name owner : Str) (permissions db_access : List Str)
    (r : Request) (size : length random ≡ 32) (sent : token_of r ≡ hex random)
    (no_jwt : jwt (hex random) ≡ none) (plain_permissions : all is_plain permissions ≡ true)
    (plain_access : all is_plain db_access ≡ true) where
  -- The middleware with the service of keys in the state `w` of the (internal_keys table).
  abbrev pub with_keys : W → AuthConfig
  with_keys w = record {
    jwt = jwt;
    api_key = some (λ raw. admitted (validate (internal_keys table) sha256 raw w).0);
  }

  abbrev pub generated : StoredKey
  generated = new_key (internal_keys table) sha256 (hex random) name permissions owner db_access
