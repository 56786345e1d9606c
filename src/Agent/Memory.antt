-- ===== src/Agent/Memory.antt =====
-- internal/agent/memory.go: `MemoryStore`. The file is the list of its entries, empty where it cannot be
-- read; the locks around its uses are not modelled.
use go_database.Base.{
  ltb, if◌then◌else◌, Bool-cases, length, drop, length-append, length-drop, Str, str, ℕ, zero, suc,
  ◌+◌, ◌-◌, ◌≤◌, min, ◌≡◌, refl, ap, ◌∙◌, inl, inr, List, [], ◌∷◌, ◌++◌, arith,
}

pub record MemoryEntry : Type 0 where
  pub typ : Str
  pub content : Str
  pub created_at : ℕ
  pub session_id : Str

unfoldable pub keep_last {ℓ} : {A : Type ℓ} → ℕ → List A → List A
keep_last n xs = if ltb n (length xs) then drop (length xs - n) xs else xs

-- `Remember`
unfoldable pub remember : ℕ → Str → Str → Str → List MemoryEntry → List MemoryEntry
unfolding keep_last
remember now typ content session entries = keep_last 200 (
    entries ++ record { typ = typ; content = content; created_at = now; session_id = session } ∷ [])

abbrev pub entry_line : MemoryEntry → Str
entry_line e = str "- [" ++ (MemoryEntry.typ e ++ (str "] " ++ (MemoryEntry.content e ++ str "\n")))

unfoldable pub entry_lines : List MemoryEntry → Str
entry_lines [] = []
entry_lines (e ∷ es) = entry_line e ++ entry_lines es

-- `ContextPrompt`
unfoldable pub context_prompt : ℕ → List MemoryEntry → Str
unfolding entry_lines
context_prompt n [] = []
context_prompt n (e ∷ es) =
    str "\n---\nMEMORY (persistent, across sessions):\n"
    ++ entry_lines (drop (length (e ∷ es) - min n (length (e ∷ es))) (e ∷ es))

length-keep_last {ℓ} :
    {A : Type ℓ} (n : ℕ) (xs : List A) → length (keep_last n xs) ≡ min n (length xs)
unfolding keep_last
length-keep_last n xs = elim (Bool-cases (ltb n (length xs))) [
  | inl more ↦ rw (keep_last, more, length-drop (length xs - n) xs) (ground (arith, more))
  | inr few ↦ rw (keep_last, few) (ground (arith, few))
]

drop-append {ℓ} :
    {A : Type ℓ} (n : ℕ) (xs ys : List A) → n ≤ length xs → drop n (xs ++ ys) ≡ drop n xs ++ ys
drop-append zero xs ys h = refl
drop-append (suc n) [] ys h = grind arith
drop-append (suc n) (x ∷ xs) ys h = drop-append n xs ys (omega arith)

keep_last-append {ℓ} :
    {A : Type ℓ} (n : ℕ) (xs : List A) (x : A)
    → 1 ≤ n
    → (old : ℕ) × (keep_last n (xs ++ x ∷ []) ≡ drop old xs ++ x ∷ [])
unfolding keep_last
keep_last-append n xs x some_left =
    let grown = length-append xs (x ∷ []) in
    let old = length (xs ++ x ∷ []) - n in
    elim (Bool-cases (ltb n (length (xs ++ x ∷ [])))) [
      | inl more ↦ (old, rw (keep_last, more) (drop-append old xs (x ∷ []) (omega arith)))
      | inr few ↦ (0, rw (keep_last, few) refl)
    ]

-- The memory holds at most 200 entries; the new one is the last, and what is in front of it is the end of
-- the old ones.
remember-bound :
    (now : ℕ) (typ content session : Str) (entries : List MemoryEntry)
    → (length (remember now typ content session entries) ≡ min 200 (length entries + 1))
      × ((old : ℕ) × (remember now typ content session entries
            ≡ drop old entries
              ++ record { typ = typ; content = content; created_at = now; session_id = session }
                ∷ []))
unfolding remember
remember-bound now typ content session entries =
    let e : MemoryEntry = record {
      typ = typ;
      content = content;
      created_at = now;
      session_id = session;
    } in
    let grown = length-append entries (e ∷ []) in
    (
      length-keep_last 200 (entries ++ e ∷ []) ∙ ap (min 200) (rw grown (omega arith)),
      keep_last-append 200 entries e (omega arith),
    )
