-- ===== src/Auth/Resource/Pattern.antt =====
-- internal/auth/resourceperm.go: the meaning of `matchPattern`.
use go_database.Base.{
  Bool-cases, length, take, Str, str, str_eq, has_prefix, has_suffix, str_eq_sound, str_eq_iff,
  has_prefix-append, has_prefix_sound, has_suffix_sound, take-suffix, has_suffix-append,
  has_prefix-take, ◌-◌, ◌≡◌, ◌↔◌, ◌⊎◌, inl, inr, true, ◌++◌, arith,
}
use go_database.Auth.Resource.{match_pattern}

-- A pattern matches every resource if it is "*", the resources that begin with `start` if it is
-- `start` followed by ".*", and itself; and it matches no other resource.
pub match_pattern_iff :
    (pattern resource : Str)
    → (match_pattern pattern resource ≡ true) ↔ (
        (pattern ≡ str "*")
        ⊎ ((start : Str) × (rest : Str) × (pattern ≡ start ++ str ".*")
            × (resource ≡ start ++ rest))
        ⊎ (pattern ≡ resource))
unfolding match_pattern
match_pattern_iff pattern resource = (sound, complete)
  where
    sound :
        match_pattern pattern resource ≡ true
        → (pattern ≡ str "*")
          ⊎ ((start : Str) × (rest : Str) × (pattern ≡ start ++ str ".*")
              × (resource ≡ start ++ rest))
          ⊎ (pattern ≡ resource)
    sound h = elim (Bool-cases (str_eq pattern (str "*"))) [
      | inl all_of ↦ inl (str_eq_sound _ _ all_of)
      | inr other ↦ elim (Bool-cases (has_suffix pattern (str ".*"))) [
        | inl dotted ↦
            let (rest, e) =
              has_prefix_sound resource (take (length pattern - 2) pattern) (ground arith) in
            inr (inl (_, rest, has_suffix_sound pattern (str ".*") dotted, e))
        | inr plain ↦ inr (inr (str_eq_sound _ _ (ground arith)))
      ]
    ]

    complete :
        ((pattern ≡ str "*")
          ⊎ ((start : Str) × (rest : Str) × (pattern ≡ start ++ str ".*")
              × (resource ≡ start ++ rest))
          ⊎ (pattern ≡ resource))
        → match_pattern pattern resource ≡ true
    complete (inl e) = ground (arith, str_eq_iff pattern (str "*"))
    complete (inr (inl (start, rest, e, r))) =
        let dotted : has_suffix pattern (str ".*") ≡ true =
          rw e (has_suffix-append start (str ".*")) in
        let cut_off : take (length pattern - 2) pattern ≡ start =
          rw e (take-suffix start (str ".*")) in
        let starts : has_prefix resource start ≡ true = rw r (has_prefix-append start rest) in
        ground arith
    complete (inr (inr e)) =
        let starts : has_prefix resource (take (length pattern - 2) pattern) ≡ true =
          rw e (has_prefix-take _ resource) in
        ground (arith, str_eq_iff pattern resource)
