-- ===== src/Suggest/Engine/Sorted.antt =====
-- internal/suggest/engine.go: the sort of the suggestions and the cut behind it.
use go_database.Base.{
  Bool-cases, take, Str, str_eq, str_eq_sym, elem, ℕ, zero, suc, ◌≡◌, refl, inl, inr, Bool, true,
  false, not, ◌&&◌, ◌||◌, List, [], ◌∷◌, map, arith,
}
use go_database.Suggest.Types.{Suggestion, more_confident}
use go_database.Suggest.Engine.{place_ranked, sort_ranked}

-- No text stands twice.
unfoldable pub distinct : List Str → Bool
distinct [] = true
distinct (t ∷ ts) = not (elem t ts) && distinct ts

-- No suggestion is followed at once by one of more confidence.
unfoldable pub is_ranked : List Suggestion → Bool
is_ranked [] = true
is_ranked (s ∷ []) = true
is_ranked (s ∷ t ∷ ss) = not (more_confident t s) && is_ranked (t ∷ ss)

unfoldable pub texts : List Suggestion → List Str
texts = map Suggestion.text

elem-place_ranked :
    (t : Str) (s : Suggestion) (ss : List Suggestion)
    → elem t (texts (place_ranked s ss)) ≡ (str_eq (Suggestion.text s) t || elem t (texts ss))
unfolding place_ranked texts
elem-place_ranked t s [] = refl
elem-place_ranked t s (u ∷ ss) = ground (arith, elem-place_ranked t s ss)

distinct-place_ranked :
    (s : Suggestion) (ss : List Suggestion)
    → distinct (texts (place_ranked s ss))
      ≡ (not (elem (Suggestion.text s) (texts ss)) && distinct (texts ss))
unfolding place_ranked texts distinct
distinct-place_ranked s [] = refl
distinct-place_ranked s (u ∷ ss) = ground (
  arith,
  distinct-place_ranked s ss,
  elem-place_ranked (Suggestion.text u) s ss,
  str_eq_sym (Suggestion.text s) (Suggestion.text u),
)

elem-sort_ranked :
    (t : Str) (ss : List Suggestion) → elem t (texts (sort_ranked ss)) ≡ elem t (texts ss)
unfolding sort_ranked texts
elem-sort_ranked t [] = refl
elem-sort_ranked t (s ∷ ss) =
    rw (elem-place_ranked t s (sort_ranked ss), elem-sort_ranked t ss) refl

pub distinct-sort_ranked :
    (ss : List Suggestion) → distinct (texts (sort_ranked ss)) ≡ distinct (texts ss)
unfolding sort_ranked texts distinct
distinct-sort_ranked [] = refl
distinct-sort_ranked (s ∷ ss) =
    rw
      (
        distinct-place_ranked s (sort_ranked ss),
        elem-sort_ranked (Suggestion.text s) ss,
        distinct-sort_ranked ss,
      )
      refl

elem-take :
    (t : Str) (n : ℕ) (ss : List Suggestion)
    → elem t (texts ss) ≡ false
    → elem t (texts (take n ss)) ≡ false
unfolding texts
elem-take t zero ss h = refl
elem-take t (suc n) [] h = refl
elem-take t (suc n) (s ∷ ss) h = ground (arith, elem-take t n ss, h)

pub distinct-take :
    (n : ℕ) (ss : List Suggestion)
    → distinct (texts ss) ≡ true
    → distinct (texts (take n ss)) ≡ true
unfolding texts distinct
distinct-take zero ss h = refl
distinct-take (suc n) [] h = refl
distinct-take (suc n) (s ∷ ss) h =
    ground (arith, elem-take (Suggestion.text s) n ss, distinct-take n ss, h)

pub is_ranked-take :
    (n : ℕ) (ss : List Suggestion) → is_ranked ss ≡ true → is_ranked (take n ss) ≡ true
unfolding is_ranked
is_ranked-take zero ss h = refl
is_ranked-take (suc n) [] h = refl
is_ranked-take (suc zero) (s ∷ ss) h = refl
is_ranked-take (suc (suc n)) (s ∷ []) h = refl
is_ranked-take (suc (suc n)) (s ∷ t ∷ ss) h = ground (arith, is_ranked-take (suc n) (t ∷ ss), h)

more_confident-asym : (s t : Suggestion) → more_confident s t ≡ true → more_confident t s ≡ false
more_confident-asym s t h = ground (arith, h)

-- The first of the list is not above `t`.
head_below : Suggestion → List Suggestion → Bool
head_below t [] = true
head_below t (u ∷ _) = not (more_confident u t)

is_ranked-cons :
    (t : Suggestion) (ss : List Suggestion) → is_ranked (t ∷ ss) ≡ (head_below t ss && is_ranked ss)
unfolding is_ranked head_below
is_ranked-cons t [] = refl
is_ranked-cons t (u ∷ ss) = refl

head_below-place_ranked :
    (t s : Suggestion) (ss : List Suggestion)
    → more_confident s t ≡ false
    → head_below t ss ≡ true
    → head_below t (place_ranked s ss) ≡ true
unfolding head_below place_ranked
head_below-place_ranked t s [] low h = rw low refl
head_below-place_ranked t s (u ∷ ss) low h = elim (Bool-cases (more_confident u s)) [
  | inl above ↦ rw (place_ranked, above) h
  | inr other ↦ rw (place_ranked, other, low) refl
]

ranked_pair :
    (s t : Suggestion) (ss : List Suggestion)
    → more_confident t s ≡ false
    → is_ranked (t ∷ ss) ≡ true
    → is_ranked (s ∷ t ∷ ss) ≡ true
unfolding is_ranked
ranked_pair s t ss low h = rw (low, h) refl

place_ranked-is_ranked :
    (s : Suggestion) (ss : List Suggestion)
    → is_ranked ss ≡ true
    → is_ranked (place_ranked s ss) ≡ true
unfolding place_ranked is_ranked
place_ranked-is_ranked s [] h = refl
place_ranked-is_ranked s (t ∷ ss) h = elim (Bool-cases (more_confident t s)) [
  | inl above ↦
      let both = rw (is_ranked-cons t ss) at h in
      let low = more_confident-asym t s above in
      let rest = place_ranked-is_ranked s ss (ground (arith, both)) in
      let first = head_below-place_ranked t s ss low (ground (arith, both)) in
      rw (place_ranked, above, is_ranked-cons t (place_ranked s ss), first, rest) refl
  | inr other ↦ rw (place_ranked, other) (ranked_pair s t ss other h)
]

pub sort_ranked-is_ranked : (ss : List Suggestion) → is_ranked (sort_ranked ss) ≡ true
unfolding sort_ranked is_ranked
sort_ranked-is_ranked [] = refl
sort_ranked-is_ranked (s ∷ ss) =
    place_ranked-is_ranked s (sort_ranked ss) (sort_ranked-is_ranked ss)
