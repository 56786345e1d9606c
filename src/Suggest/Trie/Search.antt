-- ===== src/Suggest/Trie/Search.antt =====
-- internal/suggest/trie.go: `Search` on a tree into which words were inserted.
use go_database.Base.{
  Option-cases, all, Str, has_prefix, to_lower, str_eq_refl, has_prefix-append, elem, ℕ, ◌≡◌, refl,
  inl, inr, true, some, List, [], ◌∷◌, arith,
}
use go_database.Suggest.Trie.{Node, new_trie, insert_word, insert_words, descend, search_trie}
use go_database.Suggest.Trie.Insert.{stored}
use go_database.Suggest.Trie.Collect.{words, any-take, search_trie-take, search_trie-absent}
use go_database.Suggest.Trie.Placed.{
  Placed, insert_at-Placed, new_trie-Placed, descend-Placed, words-Placed,
}

-- A word of the list `ws` that stands at its own lower case.
abbrev InsertedAt : List Str → Str → Str → Type 0
InsertedAt ws path v = (elem v ws ≡ true) × (path ≡ to_lower v)

insert_words-Placed :
    (all ws : List Str) (t : Node)
    → ((v : Str) → elem v ws ≡ true → elem v all ≡ true)
    → Placed (InsertedAt all) [] t
    → Placed (InsertedAt all) [] (insert_words ws t)
unfolding insert_words insert_word
insert_words-Placed all [] t h placed = placed
insert_words-Placed all (w ∷ ws) t h placed =
    insert_words-Placed all ws (insert_word w t) (λ v among. h v (ground (arith, among)))
      (insert_at-Placed (InsertedAt all) w (to_lower w) [] t
        (h w (ground (arith, str_eq_refl w)), refl) placed)

-- `Search` returns words that were inserted and whose lower case begins with that of the prefix.
pub search_trie_sound :
    (ws : List Str) (prefix : Str) (limit : ℕ) (v : Str)
    → elem v (search_trie prefix limit (insert_words ws new_trie)) ≡ true
    → (elem v ws ≡ true) × (has_prefix (to_lower v) (to_lower prefix) ≡ true)
search_trie_sound ws prefix limit v found =
    let t = insert_words ws new_trie in
    let placed : Placed (InsertedAt ws) [] t =
      insert_words-Placed ws ws new_trie (λ _ among. among) (new_trie-Placed (InsertedAt ws) []) in
    elim (Option-cases (descend (to_lower prefix) t)) [
      | inl absent ↦ let no = rw (search_trie-absent prefix limit t absent) at found in grind arith
      | inr (n, there) ↦
          let among : elem v (words n) ≡ true =
            any-take _ limit (words n) (rw (search_trie-take prefix limit t n there) at found) in
          let below = descend-Placed (InsertedAt ws) (to_lower prefix) [] t n placed there in
          let (s, (old, path)) = words-Placed (InsertedAt ws) n (to_lower prefix) v below among in
          (old, rw (← path) (has_prefix-append (to_lower prefix) s))
    ]

-- A word that stands at the path `q` and has it as its lower case.
abbrev Standing : Str → Node → Type 0
Standing q t = (v : Str) × (stored q t ≡ some v) × (to_lower v ≡ q)
