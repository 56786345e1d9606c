-- ===== src/Suggest/Trie/Placed.antt =====
-- internal/suggest/trie.go: what holds of each word and of the path at which it stands.
use go_database.Base.{
  ◌==◌, ==_iff, Bool-cases, Option-cases, Str, str_eq, str_eq_sound, elem, ℕ, ◌≤◌, ◌≡◌, refl, sym,
  inl, inr, true, false, some, [], ◌∷◌, ◌++◌, append_assoc, append-nil, arith,
}
use mathlib.Core.Path.{subst}
use go_database.Suggest.Trie.{
  Node, trie_node, Children, no_children, child, new_trie, child_at, set_child, or_new, insert_at,
  descend,
}
use go_database.Suggest.Trie.Collect.{words, words_all, elem-append}

module _ (P : Str → Str → Type 0) where
  -- Below the path, every word and its path have the property.
  unfoldable mutual
    pub Placed : Str → Node → Type 0
    Placed path (trie_node cs is_end value) = (is_end ≡ true → P path value) × PlacedAll path cs

    pub PlacedAll : Str → Children → Type 0
    PlacedAll path no_children = 0 ≤ 0
    PlacedAll path (child c n cs) = Placed (path ++ c ∷ []) n × PlacedAll path cs

  pub new_trie-Placed : (path : Str) → Placed path new_trie
  unfolding Placed
  new_trie-Placed path = ((λ h. grind arith), omega arith)

  or_new-Placed :
      (path : Str) (c : ℕ) (cs : Children)
      → PlacedAll path cs
      → Placed (path ++ c ∷ []) (or_new (child_at c cs))
  unfolding Placed child_at or_new
  or_new-Placed path c no_children h = new_trie-Placed (path ++ c ∷ [])
  or_new-Placed path c (child d n cs) h = elim (Bool-cases (d == c)) [
    | inl same ↦ let eq : d ≡ c = (==_iff d c).0 same in rw (or_new, child_at, same, ← eq) h.0
    | inr other ↦ rw (or_new, child_at, other) (or_new-Placed path c cs h.1)
  ]

  set_child-PlacedAll :
      (path : Str) (c : ℕ) (n : Node) (cs : Children)
      → Placed (path ++ c ∷ []) n
      → PlacedAll path cs
      → PlacedAll path (set_child c n cs)
  unfolding Placed set_child
  set_child-PlacedAll path c n no_children new h = (new, h)
  set_child-PlacedAll path c n (child d m cs) new h = elim (Bool-cases (d == c)) [
    | inl same ↦ rw (set_child, same) (new, h.1)
    | inr other ↦ rw (set_child, other) (h.0, set_child-PlacedAll path c n cs new h.1)
  ]

  pub insert_at-Placed :
      (w s path : Str) (t : Node) → P (path ++ s) w → Placed path t → Placed path (insert_at w s t)
  unfolding Placed insert_at
  insert_at-Placed w [] path (trie_node cs e v) new h =
      ((λ _. subst (λ p. P p w) (append-nil path) new), h.1)
  insert_at-Placed w (c ∷ s) path (trie_node cs e v) new h =
      let there : P ((path ++ c ∷ []) ++ s) w =
        subst (λ p. P p w) (sym (append_assoc path (c ∷ []) s)) new in
      let below =
        insert_at-Placed w s (path ++ c ∷ []) (or_new (child_at c cs)) there
          (or_new-Placed path c cs h.1) in
      (h.0, set_child-PlacedAll path c _ cs below h.1)

  child_at-Placed :
      (path : Str) (c : ℕ) (cs : Children) (n : Node)
      → PlacedAll path cs
      → child_at c cs ≡ some n
      → Placed (path ++ c ∷ []) n
  unfolding Placed child_at or_new
  child_at-Placed path c cs n h found =
      let old = or_new-Placed path c cs h in rw (or_new, found) at old

  pub descend-Placed :
      (s path : Str) (t n : Node) → Placed path t → descend s t ≡ some n → Placed (path ++ s) n
  unfolding Placed descend
  descend-Placed [] path t n h found = let eq : t ≡ n = cc in rw (← eq, append-nil path) h
  descend-Placed (c ∷ s) path (trie_node cs e v) n h found = elim (Option-cases (child_at c cs)) [
    | inl absent ↦ let no = rw (descend, absent) at found in grind arith
    | inr (m, present) ↦
        let below : descend s m ≡ some n = rw (descend, present) at found in
        let placed =
          descend-Placed s (path ++ c ∷ []) m n (child_at-Placed path c cs m h.1 present) below in
        rw (append_assoc path (c ∷ []) s) at placed
  ]

  mutual
    unfolding Placed words

    pub words-Placed :
        (t : Node) (path v : Str)
        → Placed path t
        → elem v (words t) ≡ true
        → (s : Str) × P (path ++ s) v
    words-Placed (trie_node cs false w) path v h among = words_all-Placed cs path v h.1 among
    words-Placed (trie_node cs true w) path v h among = elim (Bool-cases (str_eq w v)) [
      | inl same ↦
          let eq : w ≡ v = str_eq_sound w v same in
          ([], subst (λ p. P p v) (sym (append-nil path)) (subst (P path) eq (h.0 refl)))
      | inr other ↦
          let rest : elem v (words_all cs) ≡ true = ground (arith, other, among) in
          words_all-Placed cs path v h.1 rest
    ]

    words_all-Placed :
        (cs : Children) (path v : Str)
        → PlacedAll path cs
        → elem v (words_all cs) ≡ true
        → (s : Str) × P (path ++ s) v
    words_all-Placed no_children path v h among = grind arith
    words_all-Placed (child c n cs) path v h among = elim (Bool-cases (elem v (words n))) [
      | inl here ↦
          let (s, holds) = words-Placed n (path ++ c ∷ []) v h.0 here in
          (c ∷ s, subst (λ p. P p v) (append_assoc path (c ∷ []) s) holds)
      | inr other ↦
          let both = rw (words, elem-append v (words n) (words_all cs), other) at among in
          words_all-Placed cs path v h.1 both
    ]
