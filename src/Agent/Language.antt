-- ===== src/Agent/Language.antt =====
-- The language of a turn: agent/src/language.ts. `toLowerCase` is a parameter.
use stellar_voice_control_pr.Common.{
  ℕ, Bool, false, not, ◌&&◌, ◌||◌, ◌==◌, leb, Option, none, some, List, [], ◌∷◌, length, map, every,
  if◌then◌else◌,
}
use stellar_voice_control_pr.Common.Text.{Text, is_digit}
use stellar_voice_control_pr.TurnFlow.{trim, text_eq}

-- `[a-z]`
abbrev pub is_letter : ℕ → Bool
is_letter c = leb b'a' c && leb c b'z'

-- `split("-")`: the head and the rest.
unfoldable pub subtags : Text → Text × List Text
subtags [] = ([], [])
subtags (c ∷ s) =
    let (head, rest) = subtags s in if c == b'-' then ([], head ∷ rest) else (c ∷ head, rest)

-- `[a-z0-9]{2,8}`
abbrev pub is_subtag : Text → Bool
is_subtag s = every (λ c. is_letter c || is_digit c) s && leb 2 (length s) && leb (length s) 8

-- `/^[a-z]{2,3}(?:-[a-z0-9]{2,8})*$/`
unfoldable pub is_tag : Text → Bool
unfolding subtags
is_tag s =
    let (head, rest) = subtags s in
    every is_letter head && leb 2 (length head) && leb (length head) 3 && every is_subtag rest

-- `replace(/_/g, "-")`
abbrev pub fold_underscore : ℕ → ℕ
fold_underscore c = if c == b'_' then b'-' else c

-- `LanguageDecision`, with its source.
pub data LanguageSource : Type 0 where
  stt model : LanguageSource

pub record LanguageDecision : Type 0 where
  pub language : Option (Text × LanguageSource)
  pub disagreed : Bool

module _ (lower : Text → Text) where
  -- `normalizeLanguage`
  unfoldable pub normalize_language : Option Text → Option Text
  unfolding trim is_tag
  normalize_language none = none
  normalize_language (some value) =
      let tag = map fold_underscore (lower (trim value)) in if is_tag tag then some tag else none

  -- `languageBase`
  unfoldable pub language_base : Option Text → Option Text
  unfolding normalize_language subtags
  language_base value = elim (normalize_language value) [
    | none ↦ none
    | some tag ↦ some (subtags tag).0
  ]

  -- Both are known, and differ.
  unfoldable pub differ : Option Text → Option Text → Bool
  unfolding text_eq
  differ none reported = false
  differ (some d) none = false
  differ (some d) (some r) = not (text_eq d r)

  unfoldable pub decide_language : Option Text → Option Text → LanguageDecision
  unfolding language_base differ
  decide_language detected (some r) = record {
    language = some (r, model);
    disagreed = differ (language_base detected) (language_base (some r));
  }
  decide_language (some d) none = record { language = some (d, stt); disagreed = false }
  decide_language none none = record { language = none; disagreed = false }

  -- `resolveTurnLanguage`
  unfoldable pub resolve_turn_language : Option Text → Option Text → LanguageDecision
  unfolding normalize_language decide_language
  resolve_turn_language detected reported =
      decide_language (normalize_language detected) (normalize_language reported)
