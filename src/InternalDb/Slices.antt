-- ===== src/InternalDb/Slices.antt =====
-- internal/internaldb/store.go: lists of texts in one column, with commas between them.
use go_database.Base.{
  ◌==◌, if◌then◌else◌, is_nil, any, all, Str, ◌≡◌, refl, sym, ap, ◌∙◌, Bool, true, false, not, ◌&&◌,
  List, [], ◌∷◌, ◌++◌, append_assoc, append-nil, arith,
}

-- `joinSlice`
unfoldable pub join_slice : List Str → Str
join_slice [] = []
join_slice (s ∷ []) = s
join_slice (s ∷ t ∷ ss) = s ++ b',' ∷ join_slice (t ∷ ss)

-- The loop of `splitSlice`, with `current`.
unfoldable pub split_from : Str → Str → List Str
split_from current [] = if is_nil current then [] else current ∷ []
split_from current (c ∷ s) =
    let cut = split_from [] s in
    let longer = split_from (current ++ c ∷ []) s in if c == b',' then current ∷ cut else longer

-- `splitSlice`
unfoldable pub split_slice : Str → List Str
unfolding split_from
split_slice s = split_from [] s

-- A text without a comma that is not empty
abbrev pub is_plain : Str → Bool
is_plain s = not (is_nil s) && not (any (λ c. c == b',') s)

split_from-append :
    (current s rest : Str)
    → any (λ c. c == b',') s ≡ false
    → split_from current (s ++ rest) ≡ split_from (current ++ s) rest
unfolding split_from
split_from-append current [] rest plain = rw (append-nil current) refl
split_from-append current (c ∷ s) rest plain =
    let letter : (c == b',') ≡ false = ground (arith, plain) in
    rw (split_from, letter)
      (split_from-append (current ++ c ∷ []) s rest (ground (arith, plain))
        ∙ ap (λ t. split_from t rest) (append_assoc current (c ∷ []) s))

split_last : (s : Str) → is_plain s ≡ true → split_slice s ≡ s ∷ []
unfolding split_slice split_from
split_last s plain =
    let full : is_nil s ≡ false = ground (arith, plain) in
    ap (split_from []) (sym (append-nil s))
    ∙ split_from-append [] s [] (ground (arith, plain))
    ∙ rw full refl

split_first :
    (s rest : Str) → is_plain s ≡ true → split_slice (s ++ b',' ∷ rest) ≡ s ∷ split_slice rest
unfolding split_slice split_from
split_first s rest plain = split_from-append [] s (b',' ∷ rest) (ground (arith, plain)) ∙ refl

split_nil : split_slice [] ≡ []
unfolding split_slice split_from
split_nil = refl

-- What is joined is split again, where no text is empty or has a comma.
pub split_slice-join : (ss : List Str) → all is_plain ss ≡ true → split_slice (join_slice ss) ≡ ss
unfolding join_slice
split_slice-join [] plain = split_nil
split_slice-join (s ∷ []) plain = split_last s (ground (arith, plain))
split_slice-join (s ∷ t ∷ ss) plain =
    split_first s (join_slice (t ∷ ss)) (ground (arith, plain))
    ∙ ap (λ r. s ∷ r) (split_slice-join (t ∷ ss) (ground (arith, plain)))
