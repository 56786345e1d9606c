-- ===== src/Transfer/Sql/Literal.antt =====
-- internal/transfer/engine.go: how standard SQL reads what `escapeValue` has written.
use go_database.Base.{
  ◌==◌, if◌then◌else◌, ==_iff, Bool-cases, Str, str, has_prefix, ℕ, ◌≡◌, refl, ap, ◌∙◌, inl, inr,
  Bool, true, false, Option, none, some, [], ◌∷◌, ◌++◌, append_assoc, arith,
}
use go_database.Plugin.Types.{text}
use go_database.Transfer.Sql.{double_quotes, escape_value}

abbrev push : ℕ → Option (Str × Str) → Option (Str × Str)
push c none = none
push c (some (s, rest)) = some (c ∷ s, rest)

-- The text behind an opening quote, and what follows its closing quote: two quotes stand for one, and
-- a single quote closes the text. The flag says that a quote was just read.
pub read_body : Bool → Str → Option (Str × Str)
read_body false [] = none
read_body false (c ∷ s) =
    let closing = read_body true s in
    let more = read_body false s in if c == b'\'' then closing else push c more
read_body true [] = some ([], [])
read_body true (c ∷ s) =
    let more = read_body false s in if c == b'\'' then push b'\'' more else some ([], c ∷ s)

pub read_literal : Str → Option (Str × Str)
read_literal [] = none
read_literal (c ∷ s) = if c == b'\'' then read_body false s else none

read_body-closed :
    (rest : Str) → has_prefix rest (str "'") ≡ false → read_body true rest ≡ some ([], rest)
unfolding read_body has_prefix
read_body-closed [] h = refl
read_body-closed (d ∷ rest) h = ground arith

read_body-double_quotes :
    (s rest : Str)
    → has_prefix rest (str "'") ≡ false
    → read_body false (double_quotes s ++ b'\'' ∷ rest) ≡ some (s, rest)
unfolding double_quotes read_body
read_body-double_quotes [] rest h = read_body-closed rest h
read_body-double_quotes (c ∷ s) rest h = elim (Bool-cases (c == b'\'')) [
  | inl e ↦
      let same : c ≡ b'\'' = (==_iff c b'\'').0 e in
      rw (e, same) (rw (read_body-double_quotes s rest h) refl)
  | inr e ↦ rw e (rw (e, read_body-double_quotes s rest h) refl)
]

-- A text value ends where it is meant to, whatever bytes it has: a reader of standard SQL gets the
-- value back and goes on behind it, where what follows does not begin with a quote.
pub read_literal-escape_value :
    (s rest : Str)
    → has_prefix rest (str "'") ≡ false
    → read_literal (escape_value (text s) ++ rest) ≡ some (s, rest)
unfolding escape_value read_literal
read_literal-escape_value s rest h =
    ap (read_body false) (append_assoc (double_quotes s) (str "'") rest)
    ∙ read_body-double_quotes s rest h
