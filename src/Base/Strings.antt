-- ===== src/Base/Strings.antt =====
-- Laws of the string functions.
use Prim.Native.Nat.{ℕ, zero, suc, ◌-◌, ◌≤◌}
use mathlib.Core.Path.{◌≡◌, refl, sym, ap, ◌∙◌}
use mathlib.Core.Logic.{◌↔◌, inl, inr}
use mathlib.Core.Bool.{Bool, true, false}
use mathlib.Core.List.{List, [], ◌∷◌, ◌++◌}
use mathlib.Core.Option.{none, some}
use native.Mathlib.Omega.{arith}
use go_database.Base.Tests.{==_refl, Bool-cases, Option-cases, if◌then◌else◌}
use go_database.Base.Lists.{any, length, take, drop, length-append}
use go_database.Base.Text.{
  Str, str_eq, has_prefix, has_suffix, lookup, insert, remove, index, to_upper,
}

pub str_eq_refl : (s : Str) → str_eq s s ≡ true
unfolding str_eq
str_eq_refl [] = refl
str_eq_refl (a ∷ s) = rw (==_refl a) (str_eq_refl s)

pub str_eq_sound : (s t : Str) → str_eq s t ≡ true → s ≡ t
unfolding str_eq
str_eq_sound [] [] h = refl
str_eq_sound [] (_ ∷ _) h = cc
str_eq_sound (_ ∷ _) [] h = cc
str_eq_sound (a ∷ s) (b ∷ t) h = ground (arith, str_eq_sound s t)

pub str_eq_iff : (s t : Str) → (str_eq s t ≡ true) ↔ (s ≡ t)
str_eq_iff s t = (str_eq_sound s t, λ e. rw e (str_eq_refl t))

pub str_eq_sym : (s t : Str) → str_eq s t ≡ str_eq t s
unfolding str_eq
str_eq_sym [] [] = refl
str_eq_sym [] (_ ∷ _) = refl
str_eq_sym (_ ∷ _) [] = refl
str_eq_sym (a ∷ s) (b ∷ t) = ground (arith, str_eq_sym s t)

pub has_prefix-append : (p s : Str) → has_prefix (p ++ s) p ≡ true
unfolding has_prefix
has_prefix-append [] [] = refl
has_prefix-append [] (_ ∷ _) = refl
has_prefix-append (c ∷ p) s = rw (==_refl c) (has_prefix-append p s)

pub has_prefix_sound : (s p : Str) → has_prefix s p ≡ true → (rest : Str) × (s ≡ p ++ rest)
unfolding has_prefix
has_prefix_sound s [] h = (s, refl)
has_prefix_sound [] (_ ∷ _) h = cc
has_prefix_sound (c ∷ s) (d ∷ p) h =
    let (rest, e) = has_prefix_sound s p (ground arith) in (rest, ground arith)

-- A text among others, as the maps and loops of the program look it up.
abbrev pub elem : Str → List Str → Bool
elem s = any (λ x. str_eq x s)

module _ {ℓ} {V : Type ℓ} where
  pub lookup-insert :
      (k j : Str) (v : V) (m : List (Str × V))
      → lookup j (insert k v m) ≡ (if str_eq k j then some v else lookup j m)
  unfolding lookup insert
  lookup-insert k j v [] = refl
  lookup-insert k j v ((i, w) ∷ m) = ground (
    arith,
    str_eq_sound k j,
    str_eq_sound i k,
    str_eq_sound i j,
    str_eq_refl j,
    str_eq_refl k,
    str_eq_sym k j,
    lookup-insert k j v m,
  )

  pub lookup-remove :
      (k j : Str) (m : List (Str × V))
      → lookup j (remove k m) ≡ (if str_eq k j then none else lookup j m)
  unfolding lookup remove
  lookup-remove k j [] = ground arith
  lookup-remove k j ((i, w) ∷ m) = ground (
    arith,
    str_eq_sound k j,
    str_eq_sound i k,
    str_eq_sound i j,
    str_eq_refl k,
    str_eq_sym k j,
    lookup-remove k j m,
  )

take-length : (p s : Str) → take (length p) (p ++ s) ≡ p
take-length [] [] = refl
take-length [] (_ ∷ _) = refl
take-length (c ∷ p) s = ap (◌∷◌ c) (take-length p s)

drop-length : (p s : Str) → drop (length p) (p ++ s) ≡ s
drop-length [] s = refl
drop-length (c ∷ p) s = drop-length p s

take-append-drop : (n : ℕ) (s : Str) → take n s ++ drop n s ≡ s
take-append-drop zero s = refl
take-append-drop (suc n) [] = refl
take-append-drop (suc n) (c ∷ s) = ap (◌∷◌ c) (take-append-drop n s)

-- A text with the suffix `t` is what stands before it, then `t`.
pub has_suffix_sound : (s t : Str) → has_suffix s t ≡ true → s ≡ take (length s - length t) s ++ t
unfolding has_suffix
has_suffix_sound s t h =
    let same = str_eq_sound (drop (length s - length t) s) t (ground arith) in
    sym (ap (λ u. take (length s - length t) s ++ u) (sym same) ∙ take-append-drop _ s)

pub take-suffix : (p t : Str) → take (length (p ++ t) - length t) (p ++ t) ≡ p
take-suffix p t =
    let e : length (p ++ t) - length t ≡ length p = omega (arith, length-append {0} p t) in
    ap (λ n. take n (p ++ t)) e ∙ take-length p t

pub has_suffix-append : (p t : Str) → has_suffix (p ++ t) t ≡ true
unfolding has_suffix
has_suffix-append p t =
    let e : length (p ++ t) - length t ≡ length p = omega (arith, length-append {0} p t) in
    let d : drop (length (p ++ t) - length t) (p ++ t) ≡ t =
      ap (λ n. drop n (p ++ t)) e ∙ drop-length p t in
    rw d (ground (arith, length-append p t, str_eq_refl t))

pub has_prefix-take : (n : ℕ) (s : Str) → has_prefix s (take n s) ≡ true
unfolding has_prefix
has_prefix-take zero [] = refl
has_prefix-take zero (_ ∷ _) = refl
has_prefix-take (suc n) [] = refl
has_prefix-take (suc n) (c ∷ s) = rw (==_refl c) (has_prefix-take n s)

pub length-has_prefix : (s p : Str) → has_prefix s p ≡ true → length p ≤ length s
unfolding has_prefix
length-has_prefix s [] h = omega arith
length-has_prefix [] (_ ∷ _) h = cc
length-has_prefix (c ∷ s) (d ∷ p) h = omega (arith, length-has_prefix s p (ground arith))

pub lookup-insert_self {ℓ} :
    {V : Type ℓ} (k : Str) (v : V) (m : List (Str × V)) → lookup k (insert k v m) ≡ some v
lookup-insert_self k v m = rw (lookup-insert k k v m, str_eq_refl k)

pub lookup-insert_ne {ℓ} :
    {V : Type ℓ} (k j : Str) (v : V) (m : List (Str × V))
    → str_eq k j ≡ false
    → lookup j (insert k v m) ≡ lookup j m
lookup-insert_ne k j v m h = rw (lookup-insert k j v m, h)

pub index_sound : (s t : Str) (i : ℕ) → index s t ≡ some i → has_prefix (drop i s) t ≡ true
unfolding index has_prefix
index_sound [] t i h = ground arith
index_sound (c ∷ s) t i h = elim (Bool-cases (has_prefix (c ∷ s) t)) [
  | inl here ↦ let zero_index : i ≡ 0 = ground arith in rw zero_index here
  | inr later ↦ elim (Option-cases (index s t)) [
    | inl e ↦ ground arith
    | inr (j, e) ↦ let next : i ≡ suc j = ground arith in rw next (index_sound s t j e)
  ]
]

pub drop-to_upper : (n : ℕ) (s : Str) → drop n (to_upper s) ≡ to_upper (drop n s)
unfolding to_upper
drop-to_upper zero s = refl
drop-to_upper (suc n) [] = refl
drop-to_upper (suc n) (c ∷ s) = drop-to_upper n s
