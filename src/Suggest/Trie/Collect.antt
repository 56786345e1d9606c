-- ===== src/Suggest/Trie/Collect.antt =====
-- internal/suggest/trie.go: `collect` and `Search` beside the list of all words below a node.
use go_database.Base.{
  leb, ◌==◌, if◌then◌else◌, Bool-cases, Option-cases, length, take, any, length-append, any-append,
  Str, to_lower, str_eq_refl, elem, ℕ, zero, suc, ◌-◌, ◌≤◌, ◌<◌, ◌≡◌, refl, sym, ap, ◌∙◌, inl, inr,
  Bool, true, false, ◌||◌, none, some, List, [], ◌∷◌, ◌++◌, append_assoc, append-nil, arith,
}
use go_database.Suggest.Trie.{
  Node, trie_node, Children, no_children, child, child_at, collect, collect_all, descend,
  search_trie,
}
use go_database.Suggest.Trie.Insert.{stored, end_value}

-- All words below a node, the order as in `collect`.
unfoldable mutual
  pub words : Node → List Str
  words (trie_node cs is_end value) = if is_end then value ∷ words_all cs else words_all cs

  pub words_all : Children → List Str
  words_all no_children = []
  words_all (child c n cs) = words n ++ words_all cs

sub_zero : (n : ℕ) → n - 0 ≡ n
sub_zero n = omega arith

sub_suc : (m n : ℕ) → suc m - suc n ≡ m - n
sub_suc m n = omega arith

module _ {ℓ} {A : Type ℓ} where
  pub take_short : (n : ℕ) (xs : List A) → length (take n xs) < n → take n xs ≡ xs
  take_short zero xs h = grind arith
  take_short (suc n) [] h = refl
  take_short (suc n) (x ∷ xs) h = ap (λ r. x ∷ r) (take_short n xs (omega arith))

  pub any-take : (p : A → Bool) (n : ℕ) (xs : List A) → any p (take n xs) ≡ true → any p xs ≡ true
  any-take p zero xs h = grind arith
  any-take p (suc n) [] h = h
  any-take p (suc n) (x ∷ xs) h = ground (arith, any-take p n xs)

  take-append :
      (n : ℕ) (xs ys : List A) → take n (xs ++ ys) ≡ take n xs ++ take (n - length (take n xs)) ys
  take-append zero xs ys = refl
  take-append (suc n) [] ys = rw (sub_zero (suc n)) refl
  take-append (suc n) (x ∷ xs) ys =
      rw (sub_suc n (length (take n xs))) (ap (λ r. x ∷ r) (take-append n xs ys))

  take-nil : (n : ℕ) → take {A = A} n [] ≡ []
  take-nil zero = refl
  take-nil (suc n) = refl

  sub-length : (n : ℕ) (r xs : List A) → n - length (r ++ xs) ≡ n - length r - length xs
  sub-length n r xs = omega (arith, length-append r xs)

  -- The first list that is grown to a limit by a second and then by a third.
  grow-append :
      (limit : ℕ) (r xs ys : List A)
      → (r ++ take (limit - length r) (xs ++ ys)) ≡ (
          (r ++ take (limit - length r) xs)
          ++ take (limit - length (r ++ take (limit - length r) xs)) ys)
  grow-append limit r xs ys =
      let left : limit - length (r ++ take (limit - length r) xs)
          ≡ limit - length r - length (take (limit - length r) xs) =
        sub-length limit r (take (limit - length r) xs) in
      rw (take-append (limit - length r) xs ys, left) (sym (append_assoc r _ _))

  length-take_le : (n : ℕ) (xs : List A) → length (take n xs) ≤ n
  length-take_le zero xs = omega arith
  length-take_le (suc n) [] = omega arith
  length-take_le (suc n) (x ∷ xs) = omega (arith, length-take_le n xs)

collect-value :
    (cs : Children) (limit : ℕ)
    → ((r : List Str) → collect_all cs r limit ≡ r ++ take (limit - length r) (words_all cs))
    → (e : Bool) (v : Str) (results : List Str) → length results < limit
    → collect_all cs (if e then results ++ v ∷ [] else results) limit
      ≡ results ++ take (limit - length results) (words (trie_node cs e v))
unfolding words
collect-value cs limit rest false v results room = rest results
collect-value cs limit rest true v results room =
    let one : limit - length results ≡ suc (limit - length results - 1) = omega arith in
    let first : take (limit - length results) (v ∷ []) ≡ v ∷ [] =
      rw one (ap (λ r. v ∷ r) (take-nil _)) in
    let grown = grow-append limit results (v ∷ []) (words_all cs) in
    rest (results ++ v ∷ []) ∙ sym (grown ∙ rw first refl)

mutual
  unfolding collect words

  collect_lem :
      (n : Node) (results : List Str) (limit : ℕ)
      → collect n results limit ≡ results ++ take (limit - length results) (words n)
  collect_lem (trie_node cs e v) results limit = elim (Bool-cases (leb limit (length results))) [
    | inl full ↦
        let none_left : limit - length results ≡ 0 = ground (arith, full) in
        rw (full, none_left) (sym (append-nil results))
    | inr room ↦ rw room (
        collect-value cs limit (λ r. collect_all_lem cs r limit) e v results (ground (arith, room)))
  ]

  collect_all_lem :
      (cs : Children) (results : List Str) (limit : ℕ)
      → collect_all cs results limit ≡ results ++ take (limit - length results) (words_all cs)
  collect_all_lem no_children results limit =
      rw (take-nil {A = Str} (limit - length results)) (sym (append-nil results))
  collect_all_lem (child c n cs) results limit =
      rw (collect_lem n results limit, grow-append limit results (words n) (words_all cs))
        (collect_all_lem cs (results ++ take (limit - length results) (words n)) limit)

pub search_trie-take :
    (prefix : Str) (limit : ℕ) (t n : Node)
    → descend (to_lower prefix) t ≡ some n
    → search_trie prefix limit t ≡ take limit (words n)
unfolding search_trie
search_trie-take prefix limit t n found =
    let all_left : limit - 0 ≡ limit = omega arith in
    rw (search_trie, found) (collect_lem n [] limit ∙ rw all_left refl)

pub search_trie-absent :
    (prefix : Str) (limit : ℕ) (t : Node)
    → descend (to_lower prefix) t ≡ none
    → search_trie prefix limit t ≡ []
unfolding search_trie
search_trie-absent prefix limit t absent = rw (search_trie, absent) refl

-- `Search` returns no more than `limit` words.
length-search_trie :
    (prefix : Str) (limit : ℕ) (t : Node) → length (search_trie prefix limit t) ≤ limit
length-search_trie prefix limit t = elim (Option-cases (descend (to_lower prefix) t)) [
  | inl absent ↦ rw (search_trie-absent prefix limit t absent) (omega arith)
  | inr (n, found) ↦ rw (search_trie-take prefix limit t n found) (length-take_le limit (words n))
]

pub elem-append : (v : Str) (xs ys : List Str) → elem v (xs ++ ys) ≡ (elem v xs || elem v ys)
elem-append v xs ys = any-append _ xs ys

child_at-words_all :
    (c : ℕ) (n : Node) (v : Str) (cs : Children)
    → child_at c cs ≡ some n
    → elem v (words n) ≡ true
    → elem v (words_all cs) ≡ true
unfolding child_at words
child_at-words_all c n v no_children found h = ground arith
child_at-words_all c n v (child d m cs) found h =
    rw (elem-append v (words m) (words_all cs)) (elim (Bool-cases (d == c)) [
      | inl same ↦
          let here = rw same at found in
          let eq : m ≡ n = cc in let holds : elem v (words m) ≡ true = rw eq h in rw holds refl
      | inr other ↦
          let rest : elem v (words_all cs) ≡ true =
            child_at-words_all c n v cs (rw other at found) h in
          ground (arith, rest)
    ])

elem-own :
    (e : Bool) (w : Str) (ws : List Str) (v : Str)
    → elem v ws ≡ true
    → elem v (if e then w ∷ ws else ws) ≡ true
elem-own false w ws v h = h
elem-own true w ws v h = ground (arith, h)

-- A word that stands at a path below a node is among its words.
pub stored-words : (s : Str) (t : Node) (v : Str) → stored s t ≡ some v → elem v (words t) ≡ true
unfolding stored descend end_value child_at words
stored-words [] (trie_node cs false w) v h = grind arith
stored-words [] (trie_node cs true w) v h = let eq : w ≡ v = cc in rw (eq, str_eq_refl v) refl
stored-words (c ∷ s) (trie_node cs e w) v h = elim (Option-cases (child_at c cs)) [
  | inl absent ↦ let no = rw (stored, absent) at h in grind arith
  | inr (n, present) ↦
      let below : stored s n ≡ some v = rw present at h in
      let rest : elem v (words_all cs) ≡ true =
        child_at-words_all c n v cs present (stored-words s n v below) in
      elem-own e w (words_all cs) v rest
]
