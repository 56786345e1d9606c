-- ===== src/Base/Text.antt =====
-- Go strings as lists of bytes, with the functions of the package `strings` that the program calls.
-- Case and white space are those of ASCII: `to_upper`, `to_lower` and `trim_space` leave every byte
-- above 127 alone.
use go_database.Base.Int.{ℤ, pos, negsuc}
use Prim.Native.Nat.{◌/◌, ◌%◌, ℕ, zero, suc, ◌+◌, ◌-◌}
use Prim.Native.Char.{code}
use Prim.Native.String.{String}
use mathlib.Core.Bool.{Bool, true, false, ◌&&◌, ◌||◌}
use mathlib.Core.List.{List, [], ◌∷◌, ◌++◌, map, reverse}
use mathlib.Core.Option
use mathlib.Core.Option.{Option, none, some}
use go_database.Base.Tests.{leb, ltb, ◌==◌, if◌then◌else◌, is_some}
use go_database.Base.Lists.{length, drop}

abbrev pub Str : Type 0
Str = List ℕ

-- A literal.
abbrev pub str : String → Str
str String.[] = []
str (String.◌∷◌ c s) = code c ∷ str s

unfoldable pub str_eq : Str → Str → Bool
str_eq [] [] = true
str_eq [] (_ ∷ _) = false
str_eq (_ ∷ _) [] = false
str_eq (a ∷ s) (b ∷ t) = a == b && str_eq s t

-- `strings.HasPrefix(s, p)`
unfoldable pub has_prefix : Str → Str → Bool
has_prefix s [] = true
has_prefix [] (_ ∷ _) = false
has_prefix (c ∷ s) (d ∷ p) = c == d && has_prefix s p

-- `strings.HasSuffix(s, t)`
unfoldable pub has_suffix : Str → Str → Bool
unfolding str_eq
has_suffix s t = leb (length t) (length s) && str_eq (drop (length s - length t) s) t

-- `strings.Index(s, t)`, with `none` for -1
unfoldable pub index : Str → Str → Option ℕ
unfolding has_prefix
index [] t = if has_prefix [] t then some 0 else none
index (c ∷ s) t =
    let rest = Option.map suc (index s t) in if has_prefix (c ∷ s) t then some 0 else rest

-- `strings.Contains(s, t)`
unfoldable pub contains : Str → Str → Bool
unfolding index
contains s t = is_some (index s t)

upper_byte : ℕ → ℕ
upper_byte c = if leb b'a' c && leb c b'z' then c - 32 else c

lower_byte : ℕ → ℕ
lower_byte c = if leb b'A' c && leb c b'Z' then c + 32 else c

unfoldable pub to_upper : Str → Str
unfolding upper_byte
to_upper = map upper_byte

unfoldable pub to_lower : Str → Str
unfolding lower_byte
to_lower = map lower_byte

-- tab, newline, vertical tab, form feed, carriage return, blank
abbrev pub is_space : ℕ → Bool
is_space c = (leb 9 c && leb c 13) || c == 32

unfoldable pub trim_left : Str → Str
trim_left [] = []
trim_left (c ∷ s) = if is_space c then trim_left s else c ∷ s

-- `strings.TrimSpace`
unfoldable pub trim_space : Str → Str
unfolding trim_left
trim_space s = reverse (trim_left (reverse (trim_left s)))

-- `strings.SplitN(s, string(c), 2)`: the two parts, or `none` where there is one part only
unfoldable pub cut : ℕ → Str → Option (Str × Str)
cut c [] = none
cut c (d ∷ s) =
    let rest = Option.map (λ (p : Str × Str). (d ∷ p.0, p.1)) (cut c s) in
    if d == c then some ([], s) else rest

fields_from : Str → Str → List Str
fields_from cur [] = elim cur [ [] ↦ [] | c ∷ w ↦ (c ∷ w) ∷ [] ]
fields_from cur (c ∷ s) =
    let rest = fields_from [] s in
    let grown = fields_from (cur ++ c ∷ []) s in
    if is_space c then elim cur [ [] ↦ rest | d ∷ w ↦ (d ∷ w) ∷ rest ] else grown

-- `strings.Fields`
unfoldable pub fields : Str → List Str
unfolding fields_from
fields s = fields_from [] s

-- `strings.Join`
unfoldable pub join : Str → List Str → Str
join sep [] = []
join sep (s ∷ []) = s
join sep (s ∷ t ∷ ts) = s ++ (sep ++ join sep (t ∷ ts))

-- `%d` of a number; one unit of fuel a digit.
show_digits : ℕ → ℕ → Str
show_digits zero n = []
show_digits (suc fuel) n =
    let more = show_digits fuel (n / 10) in
    if ltb n 10 then (48 + n) ∷ [] else more ++ (48 + n % 10) ∷ []

unfoldable pub show_nat : ℕ → Str
unfolding show_digits
show_nat n = show_digits (suc n) n

-- `%d` of a signed number
unfoldable pub show_int : ℤ → Str
unfolding show_nat
show_int (pos n) = show_nat n
show_int (negsuc n) = str "-" ++ show_nat (suc n)

-- A map with string keys as an association list.
module _ {ℓ} {V : Type ℓ} where
  unfoldable pub lookup : Str → List (Str × V) → Option V
  unfolding str_eq
  lookup k [] = none
  lookup k ((j, v) ∷ m) = if str_eq j k then some v else lookup k m

  unfoldable pub insert : Str → V → List (Str × V) → List (Str × V)
  unfolding str_eq
  insert k v [] = (k, v) ∷ []
  insert k v ((j, w) ∷ m) = if str_eq j k then (k, v) ∷ m else (j, w) ∷ insert k v m

  unfoldable pub remove : Str → List (Str × V) → List (Str × V)
  unfolding str_eq
  remove k [] = []
  remove k ((j, w) ∷ m) = if str_eq j k then remove k m else (j, w) ∷ remove k m
