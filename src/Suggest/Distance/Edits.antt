-- ===== src/Suggest/Distance/Edits.antt =====
-- internal/suggest/levenshtein.go: the edits that turn one text into another, and the table.
use go_database.Base.{
  ◌==◌, ==_iff, ==_refl, Bool-cases, length, Str, ℕ, suc, ◌+◌, ◌≤◌, ◌≡◌, refl, ◌⊎◌, inl, inr, [],
  ◌∷◌, arith,
}
use go_database.Suggest.Distance.{min3, cost}

-- `n` insertions, removals and replacements of single letters turn the first text into the second.
pub data Edits : Str → Str → ℕ → Type 0 where
  done : Edits [] [] 0
  keep : {x : ℕ} {s t : Str} {n : ℕ} → Edits s t n → Edits (x ∷ s) (x ∷ t) n
  replace : {x y : ℕ} {s t : Str} {n : ℕ} → Edits s t n → Edits (x ∷ s) (y ∷ t) (suc n)
  remove_one : {x : ℕ} {s t : Str} {n : ℕ} → Edits s t n → Edits (x ∷ s) t (suc n)
  insert_one : {y : ℕ} {s t : Str} {n : ℕ} → Edits s t n → Edits s (y ∷ t) (suc n)

-- The distance by recursion on the texts.
unfoldable pub lev : Str → Str → ℕ
lev [] t = length t
lev (x ∷ s) [] = suc (length s)
lev (x ∷ s) (y ∷ t) = min3 (lev s (y ∷ t) + 1) (lev (x ∷ s) t + 1) (lev s t + cost x y)

min3-le : (a b c : ℕ) → (min3 a b c ≤ a) × (min3 a b c ≤ b) × (min3 a b c ≤ c)
unfolding min3
min3-le a b c = ground arith

min3-cases : (a b c : ℕ) → (min3 a b c ≡ a) ⊎ (min3 a b c ≡ b) ⊎ (min3 a b c ≡ c)
unfolding min3
min3-cases a b c = ground arith

Edits-remove_all : (s : Str) → Edits s [] (length s)
Edits-remove_all [] = done
Edits-remove_all (x ∷ s) = remove_one (Edits-remove_all s)

Edits-insert_all : (t : Str) → Edits [] t (length t)
Edits-insert_all [] = done
Edits-insert_all (y ∷ t) = insert_one (Edits-insert_all t)

Edits-first : (x y : ℕ) {s t : Str} {n : ℕ} → Edits s t n → Edits (x ∷ s) (y ∷ t) (n + cost x y)
unfolding cost
Edits-first x y {s} {t} {n} e = elim (Bool-cases (x == y)) [
  | inl same ↦
      let eq : x ≡ y = (==_iff x y).0 same in
      let total : n ≡ n + 0 = omega arith in rw (same, eq) (rw (← total) (keep e))
  | inr differ ↦ let total : suc n ≡ n + 1 = omega arith in rw differ (rw (← total) (replace e))
]

+1-suc : (n : ℕ) → n + 1 ≡ suc n
+1-suc n = omega arith

pub lev-Edits : (s t : Str) → Edits s t (lev s t)
unfolding lev
lev-Edits [] t = Edits-insert_all t
lev-Edits (x ∷ s) [] = remove_one (Edits-remove_all s)
lev-Edits (x ∷ s) (y ∷ t) =
    elim (min3-cases (lev s (y ∷ t) + 1) (lev (x ∷ s) t + 1) (lev s t + cost x y)) [
      | inl e ↦ rw e (rw (+1-suc (lev s (y ∷ t))) (remove_one (lev-Edits s (y ∷ t))))
      | inr r ↦ elim r [
        | inl e ↦ rw e (rw (+1-suc (lev (x ∷ s) t)) (insert_one (lev-Edits (x ∷ s) t)))
        | inr e ↦ rw e (Edits-first x y (lev-Edits s t))
      ]
    ]

lev-remove : (x : ℕ) (s t : Str) → lev (x ∷ s) t ≤ lev s t + 1
unfolding lev
lev-remove x [] [] = omega arith
lev-remove x (z ∷ s) [] = omega arith
lev-remove x s (y ∷ t) = (min3-le (lev s (y ∷ t) + 1) (lev (x ∷ s) t + 1) (lev s t + cost x y)).0

lev-insert : (y : ℕ) (s t : Str) → lev s (y ∷ t) ≤ lev s t + 1
unfolding lev
lev-insert y [] t = omega arith
lev-insert y (x ∷ s) t = (min3-le (lev s (y ∷ t) + 1) (lev (x ∷ s) t + 1) (lev s t + cost x y)).1

lev-first : (x y : ℕ) (s t : Str) → lev (x ∷ s) (y ∷ t) ≤ lev s t + cost x y
unfolding lev
lev-first x y s t = (min3-le (lev s (y ∷ t) + 1) (lev (x ∷ s) t + 1) (lev s t + cost x y)).2

cost-le : (x y : ℕ) → cost x y ≤ 1
unfolding cost
cost-le x y = ground arith

cost-same : (x : ℕ) → cost x x ≡ 0
unfolding cost
cost-same x = rw (==_refl x) refl

pub lev-least : {s t : Str} {n : ℕ} → Edits s t n → lev s t ≤ n
unfolding lev
lev-least done = omega arith
lev-least (keep {x} {s} {t} e) =
    let first = lev-first x x s t in let same = cost-same x in let rest = lev-least e in omega arith
lev-least (replace {x} {y} {s} {t} e) =
    let first = lev-first x y s t in let most = cost-le x y in let rest = lev-least e in omega arith
lev-least (remove_one {x} {s} {t} e) =
    let first = lev-remove x s t in let rest = lev-least e in omega arith
lev-least (insert_one {y} {s} {t} e) =
    let first = lev-insert y s t in let rest = lev-least e in omega arith
