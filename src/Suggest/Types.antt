-- ===== src/Suggest/Types.antt =====
-- internal/suggest/types.go: levels of risk, types of commands, suggestions and their context.
use go_database.Base.{ltb, Str, ℕ, ◌*◌, Bool, true, false, Option}
use go_database.Plugin.Types.{Schema}

pub data RiskLevel : Type 0 where
  risk_low risk_medium risk_high : RiskLevel

pub data CommandType : Type 0 where
  cmd_select cmd_insert cmd_update cmd_delete cmd_create cmd_drop cmd_alter : CommandType
  cmd_truncate cmd_unknown : CommandType

-- `==` on risk levels.
abbrev pub is_high : RiskLevel → Bool
is_high risk_high = true
is_high risk_medium = false
is_high risk_low = false

abbrev pub is_medium : RiskLevel → Bool
is_medium risk_medium = true
is_medium risk_high = false
is_medium risk_low = false

-- `SuggestionType`
pub data SuggestionType : Type 0 where
  sugg_keyword sugg_table sugg_column sugg_statement sugg_intent : SuggestionType

-- A confidence, a floating-point number in the code, as a fraction.
pub record Confidence : Type 0 where
  pub num : ℕ
  pub den : ℕ

pub record Suggestion : Type 0 where
  pub text : Str
  pub description : Str
  pub typ : SuggestionType
  pub confidence : Confidence
  pub risk_level : RiskLevel

-- `Context`
pub record SuggestContext : Type 0 where
  pub user_id : Str
  pub role : Str
  pub connection_id : Str
  pub current_table : Str
  pub input : Str
  pub schema : Option Schema

-- `a.Confidence > b.Confidence`
abbrev pub more_confident : Suggestion → Suggestion → Bool
more_confident a b =
    ltb (Confidence.num (Suggestion.confidence b) * Confidence.den (Suggestion.confidence a))
      (Confidence.num (Suggestion.confidence a) * Confidence.den (Suggestion.confidence b))

abbrev pub is_intent : SuggestionType → Bool
is_intent sugg_intent = true
is_intent sugg_keyword = false
is_intent sugg_table = false
is_intent sugg_column = false
is_intent sugg_statement = false

-- hundredths
abbrev pub percent : ℕ → Confidence
percent n = record { num = n; den = 100 }
