-- ===== src/Suggest/Trie/Insert.antt =====
-- internal/suggest/trie.go: the word that stands at a path, and `Insert`.
use go_database.Base.{
  ◌==◌, if◌then◌else◌, ==_iff, Bool-cases, ◌>>=◌, Str, str_eq, to_lower, ℕ, ◌≡◌, refl, ◌∙◌, inl,
  inr, Bool, Option, none, some, [], ◌∷◌, arith,
}
use go_database.Suggest.Trie.{
  Node, trie_node, Children, no_children, child, new_trie, child_at, set_child, or_new, insert_at,
  insert_word, descend,
}

unfoldable pub end_value : Node → Option Str
end_value (trie_node cs is_end value) = if is_end then some value else none

-- The word at a path from a node.
unfoldable pub stored : Str → Node → Option Str
unfolding descend end_value
stored s t = descend s t >>= end_value

child_at-set_child :
    (c d : ℕ) (n : Node) (cs : Children)
    → child_at d (set_child c n cs) ≡ (if c == d then some n else child_at d cs)
unfolding child_at set_child
child_at-set_child c d n no_children = refl
child_at-set_child c d n (child e m cs) = ground (arith, child_at-set_child c d n cs)

stored-new_trie : (s : Str) → stored s new_trie ≡ none
unfolding stored descend child_at end_value
stored-new_trie [] = refl
stored-new_trie (c ∷ s) = refl

-- The word below a child, or below the node that takes its place.
stored-or_new :
    (s : Str) (o : Option Node) → stored s (or_new o) ≡ ((o >>= descend s) >>= end_value)
unfolding or_new stored
stored-or_new s none = stored-new_trie s
stored-or_new s (some n) = refl

stored-child_at :
    (d : ℕ) (q : Str) (cs : Children) (e : Bool) (v : Str) (c : ℕ) (n : Node)
    → stored (d ∷ q) (trie_node (set_child c n cs) e v)
      ≡ (if c == d then stored q n else stored (d ∷ q) (trie_node cs e v))
unfolding stored descend
stored-child_at d q cs e v c n =
    rw (child_at-set_child c d n cs)
      (elim (Bool-cases (c == d)) [ inl same ↦ rw same refl | inr other ↦ rw other refl ])

stored-insert_at :
    (w s q : Str) (t : Node)
    → stored q (insert_at w s t) ≡ (if str_eq s q then some w else stored q t)
unfolding stored insert_at descend end_value str_eq
stored-insert_at w [] [] (trie_node cs e v) = refl
stored-insert_at w [] (d ∷ q) (trie_node cs e v) = refl
stored-insert_at w (c ∷ s) [] (trie_node cs e v) = refl
stored-insert_at w (c ∷ s) (d ∷ q) (trie_node cs e v) =
    stored-child_at d q cs e v c (insert_at w s (or_new (child_at c cs)))
    ∙ elim (Bool-cases (c == d)) [
      | inl same ↦
          let eq : c ≡ d = (==_iff c d).0 same in
          let step = stored-insert_at w s q (or_new (child_at c cs)) in
          let below = stored-or_new q (child_at c cs) in rw (same, step, below, eq) refl
      | inr other ↦ rw other refl
    ]

-- `Insert` is the update of a map: the word stands at the path of its lower case, and every other path
-- keeps what it had.
pub stored-insert_word :
    (w q : Str) (t : Node)
    → stored q (insert_word w t) ≡ (if str_eq (to_lower w) q then some w else stored q t)
unfolding insert_word
stored-insert_word w q t = stored-insert_at w (to_lower w) q t
