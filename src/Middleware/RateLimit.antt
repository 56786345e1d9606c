-- ===== src/Middleware/RateLimit.antt =====
-- internal/api/middleware/ratelimit.go: the limit on failed logins of an address. Times are
-- nanoseconds, and 0 is the zero time.
pub mod Laws
use go_database.Base.{
  ltb, leb, ◌==◌, if◌then◌else◌, Str, lookup, insert, ℕ, ◌+◌, ◌-◌, ◌*◌, Bool, not, Option, none,
  some, List, [],
}

-- `attemptEntry`
pub record Attempts : Type 0 where
  pub count : ℕ
  pub blocked : ℕ

-- `loginLimiter.data`
abbrev pub Limiter : Type 0
Limiter = List (Str × Attempts)

abbrev pub no_attempts : Attempts
no_attempts = record { count = 0; blocked = 0 }

abbrev pub second : ℕ
second = 1000000000

abbrev or_fresh : Option Attempts → Attempts
or_fresh none = no_attempts
or_fresh (some a) = a

-- The entry of an address, which is made where it is missing.
abbrev pub entry : Str → Limiter → Attempts
entry ip table = or_fresh (lookup ip table)

-- The part in front of the handler: whether the request passes, and the map.
unfoldable pub admit : ℕ → Str → Limiter → Bool × Limiter
admit now ip table = (not (ltb now (entry ip table).blocked), insert ip (entry ip table) table)

abbrev pub failed : ℕ → Attempts → Attempts
failed now a =
    if leb 5 (a.count + 1)
    then record { count = a.count + 1; blocked = now + (a.count + 1 - 4) * second }
    else record a { count = a.count + 1 }

-- The part behind the handler, with the status that the handler wrote. The entry is changed behind
-- its pointer, so other requests of the address may have changed it since `admit`.
unfoldable pub settle : ℕ → ℕ → Str → Limiter → Limiter
settle status now ip table =
    insert ip (if status == 401 then failed now (entry ip table) else no_attempts) table
