-- ===== src/Suggest/Fuzzy.antt =====
-- internal/suggest/levenshtein.go: `FuzzyMatcher`. `sort.Slice` leaves the order of equal elements open;
-- here it is a stable sort.
use go_database.Base.{
  ltb, leb, if◌then◌else◌, length, take, is_nil, Str, str, trim_space, ℕ, ◌-◌, ◌*◌, Bool, List, [],
  ◌∷◌, map,
}
use Prim.Native.Nat.{max}
use go_database.Suggest.Types.{Suggestion, sugg_keyword, risk_low}
use go_database.Suggest.Distance.{levenshtein}

-- `match`
pub record Match : Type 0 where
  pub word : Str
  pub dist : ℕ

-- `float64(dist) <= maxLen*0.4`
abbrev pub is_near : Str → Str → ℕ → Bool
is_near input word dist = leb (5 * dist) (2 * max (length input) (length word))

-- The loop over the dictionary.
unfoldable pub near_matches : Str → List Str → List Match
near_matches input [] = []
near_matches input (word ∷ words) =
    let rest = near_matches input words in
    let dist = levenshtein input word in
    if is_near input word dist then record { word = word; dist = dist } ∷ rest else rest

unfoldable pub place_match : Match → List Match → List Match
place_match m [] = m ∷ []
place_match m (n ∷ ms) =
    let behind = place_match m ms in
    if ltb (Match.dist n) (Match.dist m) then n ∷ behind else m ∷ n ∷ ms

-- `sortMatches`
unfoldable pub sort_matches : List Match → List Match
unfolding place_match
sort_matches [] = []
sort_matches (m ∷ ms) = place_match m (sort_matches ms)

-- The confidence is 1 less the share of edits among the letters, or zero.
abbrev pub fuzzy_suggestion : Str → Match → Suggestion
fuzzy_suggestion input m = record {
  text = Match.word m;
  description = str "fuzzy match";
  typ = sugg_keyword;
  confidence = record { num = max (length input) 1 - Match.dist m; den = max (length input) 1 };
  risk_level = risk_low;
}

-- `Match`
unfoldable pub fuzzy_match : List Str → Str → ℕ → List Suggestion
unfolding near_matches sort_matches
fuzzy_match dict text limit =
    let input = trim_space text in
    if is_nil input
    then []
    else map (fuzzy_suggestion input) (take limit (sort_matches (near_matches input dict)))
