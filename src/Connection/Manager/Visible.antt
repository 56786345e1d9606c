-- ===== src/Connection/Manager/Visible.antt =====
-- internal/connection/manager.go: what `ListVisible` shows.
use go_database.Base.{
  Bool-cases, any, Str, str_eq, lookup, str_eq_refl, ◌≡◌, refl, inl, inr, Bool, true, false, some,
  List, [], ◌∷◌, arith,
}
use go_database.Connection.Types.{Summary}
use go_database.Connection.Manager.{ManagedConn, Conns, list_allowed, list_visible}

-- A summary with this id is in the list.
abbrev pub shows : Str → List Summary → Bool
shows id = any (λ s. str_eq s.id id)

list_allowed-owner :
    {P : Type 0} (user : Str) (db_access : List Str) (id : Str) (mc : ManagedConn P)
    (conns : Conns P)
    → lookup id conns ≡ some mc
    → str_eq mc.connection.owner_id user ≡ true
    → shows mc.connection.id (list_allowed user db_access conns) ≡ true
unfolding lookup list_allowed
list_allowed-owner user db_access id mc [] e o = cc
list_allowed-owner user db_access id mc ((j, m) ∷ conns) e o = elim (Bool-cases (str_eq j id)) [
  | inl here ↦
      let same : m ≡ mc = ground arith in rw same (rw (o, str_eq_refl mc.connection.id) refl)
  | inr later ↦ ground (arith, list_allowed-owner user db_access id mc conns)
]

-- Everybody is shown the connections that no user owns, whatever the scope.
pub list_visible-system :
    {P : Type 0} (db_access : List Str) (id : Str) (mc : ManagedConn P) (conns : Conns P)
    → lookup id conns ≡ some mc
    → mc.connection.owner_id ≡ []
    → shows mc.connection.id (list_visible [] db_access false conns) ≡ true
unfolding list_visible str_eq
list_visible-system db_access id mc conns e o =
    list_allowed-owner [] db_access id mc conns e (rw o refl)
