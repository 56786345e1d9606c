-- ===== src/Mcp/Scope/Overlap.antt =====
-- internal/mcp: requests that run one after the other or at once.
use go_database.Base.{
  Str, str_eq, lookup, insert, remove, str_eq_sym, elem, lookup-insert, lookup-remove,
  lookup-insert_self, ℤ, ◌≡◌, refl, ap, ◌∙◌, Bool, false, Option, some, List,
}
use go_database.Plugin.Types.{err}
use go_database.Executor.Execute.{Manager}
use go_database.Executor.Gate.{Gate, with_scope, allowed, access_denied}
use go_database.Mcp.Scope
use go_database.Mcp.Scope.{Gates, get_gate, begin_request, end_request}

end_request-restores :
    (r : Str) (prev : Option Gate) (s : Gates)
    → lookup r s.held ≡ some prev
    → end_request r s ≡ record s { request_gate = prev; held = remove r s.held }
unfolding end_request
end_request-restores r prev s h = rw h refl

held_first :
    (r q : Str) (g f : Option Gate) (held : List (Str × Option Gate))
    → str_eq q r ≡ false
    → lookup r (insert q f (insert r g held)) ≡ some g
held_first r q g f held h =
    lookup-insert q r f (insert r g held) ∙ rw h (lookup-insert_self r g held)

held_last :
    (r q : Str) (f : Option Gate) (held : List (Str × Option Gate))
    → str_eq q r ≡ false
    → lookup q (remove r (insert q f held)) ≡ some f
held_last r q f held h =
    lookup-remove r q (insert q f held) ∙ rw (str_eq_sym r q ∙ h) (lookup-insert_self q f held)

module _ {W : Type 0} (mgr : Manager W) where
  -- A tool of a request that runs alone is refused on every connection outside the scope of the
  -- request, and the databases stay as they are; when the request has ended the gates are as before.
  pub begin_request-refuses :
      (r : Str) (db_access : List Str) (s : Gates) (elapsed : ℤ) (id sql : Str) (w : W)
      → elem id db_access ≡ false
      → (Scope.query mgr id sql (begin_request r db_access false s) w ≡ (err (access_denied id), w))
        × (Scope.execute mgr elapsed id sql (begin_request r db_access false s) w
            ≡ (err (access_denied id), w))
        × (Scope.list_tables mgr id (begin_request r db_access false s) w
            ≡ (err (access_denied id), w))
        × (Scope.schema mgr id (begin_request r db_access false s) w ≡ (err (access_denied id), w))
        × (Scope.list_databases mgr id (begin_request r db_access false s) w
            ≡ (err (access_denied id), w))
        × ((end_request r (begin_request r db_access false s)).request_gate ≡ s.request_gate)
  unfolding begin_request end_request get_gate allowed Scope.query Scope.execute Scope.list_tables
      Scope.schema Scope.list_databases
  begin_request-refuses r db_access s elapsed id sql w h = (
    rw h refl,
    rw h refl,
    rw h refl,
    rw h refl,
    rw h refl,
    rw (lookup-insert_self r s.request_gate s.held) refl,
  )

-- While two requests run at once, both act in the scope of the one that began last; when the first
-- has ended, the other acts through the gate from before both; and when both have ended, the scope
-- of the first stays in force.
pub begin_request-overlap :
    (r q : Str) (d e : List Str) (a b : Bool) (s : Gates)
    → str_eq q r ≡ false
    → (get_gate (begin_request q e b (begin_request r d a s)) ≡ with_scope s.connection_manager e b)
      × (get_gate (end_request r (begin_request q e b (begin_request r d a s))) ≡ get_gate s)
      × (get_gate (end_request q (end_request r (begin_request q e b (begin_request r d a s))))
          ≡ with_scope s.connection_manager d a)
unfolding begin_request end_request get_gate
begin_request-overlap r q d e a b s h =
    let prev_r = s.request_gate in
    let both = begin_request q e b (begin_request r d a s) in
    let ended : end_request r both
        ≡ record both { request_gate = prev_r; held = remove r both.held } =
      end_request-restores r prev_r both (held_first r q prev_r _ s.held h) in
    let all_ended =
      end_request-restores q (some (with_scope s.connection_manager d a))
        (record both { request_gate = prev_r; held = remove r both.held }) (held_last r q _ _ h) in
    (refl, ap get_gate ended, ap (λ x. get_gate (end_request q x)) ended ∙ ap get_gate all_ended)
