-- ===== src/Middleware/Context.antt =====
-- internal/api/middleware/auth.go: `AuthMiddleware`, and the context that it leaves to what follows.
use go_database.Base.{
  if◌then◌else◌, drop, is_nil, Str, str, has_prefix, ℕ, Option, none, some, List, [],
}

-- The keys that the middleware sets in the context of gin, and the two headers that it sets on the
-- request.
pub record Context : Type 0 where
  pub user_id : Option Str
  pub username : Option Str
  pub role : Option Str
  pub extra_perm : Option (List Str)
  pub extra_db_access : Option (List Str)
  pub db_access : Option (List Str)
  pub effective_perm : Option (List Str)
  pub effective_db_access : Option (List Str)
  pub scope_db_access : Option Str
  pub scope_is_admin : Option Str

abbrev pub no_context : Context
no_context = record {
  user_id = none;
  username = none;
  role = none;
  extra_perm = none;
  extra_db_access = none;
  db_access = none;
  effective_perm = none;
  effective_db_access = none;
  scope_db_access = none;
  scope_is_admin = none;
}

-- `c.Next()`, or an abort with a status and a message.
pub data Outcome : Type 0 where
  next : Context → Outcome
  abort : ℕ → Str → Outcome

abbrev pub unauthorized : Str → Outcome
unauthorized message = abort 401 message

abbrev pub forbidden : Str → Outcome
forbidden message = abort 403 message

-- What `ValidateToken` reads from a token.
pub record Claims : Type 0 where
  pub user_id : Str
  pub username : Str
  pub role : Str
  pub extra_perm : List Str
  pub extra_db_access : List Str

pub record ApiKey : Type 0 where
  pub permissions : List Str
  pub db_access : List Str

-- The places of a request where a token may stand; an empty text is an absent one.
pub record Request : Type 0 where
  pub authorization : Str
  pub api_key : Str
  pub token : Str

-- `AuthConfig`: the validation of tokens, and of API keys where these are in use.
pub record AuthConfig : Type 0 where
  pub jwt : Str → Option Claims
  pub api_key : Option (Str → Option ApiKey)

-- The token of the header; `TrimPrefix` gives the header back where it lacks the prefix.
abbrev bearer : Str → Str
bearer header = if has_prefix header (str "Bearer ") then drop 7 header else []

abbrev first_of : Str → Str → Str
first_of a b = if is_nil a then b else a

unfoldable pub token_of : Request → Str
token_of r = first_of (first_of (bearer r.authorization) r.api_key) r.token

abbrev pub user_context : Claims → Context
user_context c = record no_context {
  user_id = some c.user_id;
  username = some c.username;
  role = some c.role;
  extra_perm = some c.extra_perm;
  extra_db_access = some c.extra_db_access;
}

abbrev pub key_context : ApiKey → Context
key_context k = record no_context {
  user_id = some (str "apikey:***");
  username = some (str "apikey:***");
  role = some (str "apikey");
  extra_perm = some k.permissions;
  db_access = some k.db_access;
}

-- What is tried after a token that is no JWT.
unfoldable pub try_key : Option (Str → Option ApiKey) → Str → Outcome
try_key none token = unauthorized (str "invalid or expired token")
try_key (some validate) token = elim (validate token) [
  | some k ↦ next (key_context k)
  | none ↦ unauthorized (str "invalid or expired token")
]

-- `AuthMiddleware`
unfoldable pub authenticate : AuthConfig → Request → Outcome
unfolding token_of try_key
authenticate cfg r =
    if is_nil (token_of r)
    then unauthorized (str "missing authorization header")
    else elim (cfg.jwt (token_of r)) [
      | some c ↦ next (user_context c)
      | none ↦ try_key cfg.api_key (token_of r)
    ]
