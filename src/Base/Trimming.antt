-- ===== src/Base/Trimming.antt =====
-- Laws of trimming.
use Prim.Native.Nat.{ℕ, ◌≤◌}
use mathlib.Core.Path.{◌≡◌, refl, ap, ◌∙◌}
use mathlib.Core.Bool.{false}
use mathlib.Core.List.{[], ◌∷◌, ◌++◌, reverse, reverse-cons, reverse-append}
use mathlib.Core.Logic.{inl, inr}
use native.Mathlib.Omega.{arith}
use go_database.Base.Tests.{Bool-cases}
use go_database.Base.Lists.{length, length-append}
use go_database.Base.Text.{Str, is_space, trim_left, trim_space}

length-trim_left : (s : Str) → length (trim_left s) ≤ length s
unfolding trim_left
length-trim_left [] = omega arith
length-trim_left (c ∷ s) = ground (arith, length-trim_left s)

length-reverse : (s : Str) → length (reverse s) ≡ length s
length-reverse [] = refl
length-reverse (c ∷ s) =
    ap length (reverse-cons c s)
    ∙ omega (arith, length-append {0} (reverse s) (c ∷ []), length-reverse s)

pub length-trim_space : (s : Str) → length (trim_space s) ≤ length s
unfolding trim_space
length-trim_space s = omega (
  arith,
  length-reverse (trim_left (reverse (trim_left s))),
  length-trim_left (reverse (trim_left s)),
  length-reverse (trim_left s),
  length-trim_left s,
)

trim_left-append :
    (z t : Str) (c : ℕ) → is_space c ≡ false → (z' : Str) × (trim_left (z ++ c ∷ t) ≡ z' ++ c ∷ t)
unfolding trim_left
trim_left-append [] t c h = ([], ground arith)
trim_left-append (x ∷ z) t c h =
    let (z', e) = trim_left-append z t c h in
    elim (Bool-cases (is_space x)) [ inl s ↦ (z', ground arith) | inr n ↦ (x ∷ z, ground arith) ]

trim_left_stops : (c : ℕ) (s : Str) → is_space c ≡ false → trim_left (c ∷ s) ≡ c ∷ s
unfolding trim_left
trim_left_stops c s h = rw h

-- Trimming keeps two bytes at the front that are no white space.
pub trim_space-cons :
    (c d : ℕ) (s : Str)
    → is_space c ≡ false
    → is_space d ≡ false
    → (r : Str) × (trim_space (c ∷ d ∷ s) ≡ c ∷ d ∷ r)
unfolding trim_space
trim_space-cons c d s h k =
    let (z, e) = trim_left-append (reverse s) (c ∷ []) d k in
    let left : trim_left (c ∷ d ∷ s) ≡ c ∷ d ∷ s = trim_left_stops c (d ∷ s) h in
    let turned : reverse (c ∷ d ∷ s) ≡ reverse s ++ d ∷ c ∷ [] = reverse-append (c ∷ d ∷ []) s in
    (
      reverse z,
      ap (λ l. reverse (trim_left (reverse l))) left
          ∙ ap (λ l. reverse (trim_left l)) turned
          ∙ ap reverse e
          ∙ reverse-append z (d ∷ c ∷ []),
    )
