-- ===== src/Core/Rules.antt =====
-- crates/reader-core/src/rules.rs: literal-phrase rules that mark articles as read. Unicode's
-- `to_lowercase` is a parameter.
pub mod Effect
use inoreader.Prelude.{
  ℕ, Bool, true, false, not, ◌&&◌, ◌||◌, Option, none, some, List, [], ◌∷◌, ◌==◌, ◌!=◌, nat_eq,
  list_eq, if◌then◌else◌, any, Result, ok, err,
}
use inoreader.Prelude.Text.{Text, trim, is_empty, contains_text}
use inoreader.Core.Article.{ArticleState}

pub data RuleField : Type 0 where
  title text both : RuleField

pub data RuleAction : Type 0 where
  mark_read : RuleAction

pub record Rule : Type 0 where
  pub id : ℕ
  pub subscription_id : ℕ
  pub version : ℕ  -- u64
  pub enabled : Bool
  pub field : RuleField
  pub needles : List Text
  pub action : RuleAction

pub data RuleValidationError : Type 0 where
  invalid_phrase : RuleValidationError

unfoldable pub check_needles : List Text → Result RuleValidationError (Unit {0})
check_needles (needle ∷ []) =
    if is_empty (trim needle) || trim needle != needle then err invalid_phrase else ok tt
check_needles _ = err invalid_phrase

-- `Rule::validate`: the test on the length comes first, so the index 0 is in range.
unfoldable pub validate : Rule → Result RuleValidationError (Unit {0})
unfolding check_needles
validate r = check_needles r.needles

-- `text.unwrap_or_default()`
abbrev pub or_empty : Option Text → Text
or_empty none = []
or_empty (some t) = t

abbrev pub no_needle : List Text → Bool
no_needle [] = true
no_needle (n ∷ ns) = false

-- The `match self.field` of `Rule::matches`, over lowercase texts.
unfoldable pub in_field : RuleField → Text → Text → Text → Bool
in_field RuleField.title title_ text_ n = contains_text title_ n
in_field RuleField.text title_ text_ n = contains_text text_ n
in_field RuleField.both title_ text_ n = contains_text title_ n || contains_text text_ n

module _ (to_lowercase : Text → Text) where
  unfoldable pub matches : Rule → Text → Option Text → Bool
  unfolding any in_field
  matches r title_ text_ =
      if not r.enabled || no_needle r.needles
      then false
      else let title_lower = to_lowercase title_ in
        let text_lower = to_lowercase (or_empty text_) in
        any (λ n. in_field r.field title_lower text_lower (to_lowercase n)) r.needles

-- `Rule::apply`
abbrev pub apply_action : RuleAction → ArticleState → ArticleState
apply_action mark_read s = if not s.protect_unread then record s { read = true } else s

unfoldable pub apply : Rule → ArticleState → ArticleState
apply r state = apply_action r.action state

pub record PendingRuleEvaluation : Type 0 where
  pub rule_id : ℕ
  pub rule_version : ℕ
  pub subscription_id : ℕ

unfoldable pub still_valid_for : PendingRuleEvaluation → Rule → Bool
still_valid_for p r =
    r.enabled
    && p.rule_id == r.id
    && p.rule_version == r.version
    && p.subscription_id == r.subscription_id
