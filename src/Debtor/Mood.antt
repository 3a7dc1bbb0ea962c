-- ===== src/Debtor/Mood.antt =====
-- The tone of the agent and the emotional state of the debtor: the first part of
-- app/services/debtor_simulator.py, and `detect_language`. `str.lower` is the parameter `lower`; the
-- dicts of a script are those of a validated contract, whose fields are there.
use cat_backend.Common.{
  ℕ, ◌+◌, ◌-◌, ◌*◌, Bool, ◌&&◌, not, List, [], ◌∷◌, map, Option, none, some, if◌then◌else◌, any,
  filter, is_empty, length, ltb, leb,
}
use cat_backend.Common.Eq.{elem, ◌==◌, ℕ-Eq, Text-Eq}
use cat_backend.Common.Words.{Text, codes, strip, strip_of, words, contains_text}
use cat_backend.Definition.Contract.{EmotionalStateRule}

pub data EmotionalState : Type 0 where
  hostile defensive neutral receptive cooperative : EmotionalState

abbrev pub value : EmotionalState → ℕ
value hostile = 1
value defensive = 2
value neutral = 3
value receptive = 4
value cooperative = 5

-- `EmotionalState(n)`; `none` is its ValueError.
abbrev pub state_of : ℕ → Option EmotionalState
state_of n =
    if n == 1
    then some hostile
    else if n == 2
    then some defensive
    else if n == 3
    then some neutral
    else if n == 4
    then some receptive
    else if n == 5
    then some cooperative
    else none

pub data AgentTone : Type 0 where
  empathetic_tone neutral_tone aggressive_tone : AgentTone

abbrev pub tone_value : AgentTone → Text
tone_value empathetic_tone = codes "empathetic"
tone_value neutral_tone = codes "neutral"
tone_value aggressive_tone = codes "aggressive"

abbrev empathetic_keywords : List Text
empathetic_keywords = map codes (
    "understand" ∷ "sorry" ∷ "help" ∷ "appreciate" ∷ "concern" ∷ "difficult" ∷ "together"
    ∷ "support" ∷ "listen" ∷ "flexible" ∷ "option" ∷ "work with you" ∷ "i hear you"
    ∷ "take your time" ∷ "no pressure" ∷ "how can i help" ∷ "i understand" ∷ "empathize" ∷ "care"
    ∷ "comfortable" ∷ [])

abbrev aggressive_keywords : List Text
aggressive_keywords = map codes (
    "must" ∷ "demand" ∷ "threat" ∷ "pay now" ∷ "immediately" ∷ "consequence" ∷ "legal action"
    ∷ "final notice" ∷ "no choice" ∷ "forced" ∷ "garnish" ∷ "lawsuit" ∷ "failure to pay"
    ∷ "collection agency" ∷ "report" ∷ "deadline" ∷ "overdue" ∷ "unacceptable" ∷ "refuse"
    ∷ "penalties" ∷ [])

abbrev negative_emotion_keywords : List Text
negative_emotion_keywords = map codes (
    "defensive" ∷ "defensiveness" ∷ "anxiety" ∷ "anxious" ∷ "hostility" ∷ "hostile" ∷ "anger"
    ∷ "angry" ∷ "distress" ∷ "fear" ∷ "resentment" ∷ "frustration" ∷ "irritation" ∷ "agitation"
    ∷ [])

abbrev positive_emotion_keywords : List Text
positive_emotion_keywords = map codes (
    "cooperation" ∷ "cooperative" ∷ "trust" ∷ "calm" ∷ "relief" ∷ "receptiveness" ∷ "receptive"
    ∷ "comfort" ∷ "reassurance" ∷ "ease" ∷ [])

-- The step -1, 0 or +1.
pub data Direction : Type 0 where
  down stay up : Direction

abbrev pub inverse : Direction → Direction
inverse down = up
inverse stay = stay
inverse up = down

abbrev at_most : ℕ → ℕ → ℕ
at_most a b = if leb a b then a else b

abbrev at_least : ℕ → ℕ → ℕ
at_least a b = if leb a b then b else a

unfoldable pub apply_directional_step : EmotionalState → Direction → Option EmotionalState
apply_directional_step current up = state_of (at_most (value current + 1) (value cooperative))
apply_directional_step current down = state_of (at_least (value current - 1) (value hostile))
apply_directional_step current stay = some current

abbrev tagalog_words : List Text
tagalog_words = map codes (
    "ako" ∷ "ikaw" ∷ "siya" ∷ "kami" ∷ "tayo" ∷ "sila" ∷ "ang" ∷ "ng" ∷ "sa" ∷ "na" ∷ "po" ∷ "opo"
    ∷ "hindi" ∷ "oo" ∷ "wala" ∷ "meron" ∷ "bakit" ∷ "paano" ∷ "kailan" ∷ "saan" ∷ "sino" ∷ "ano"
    ∷ "mga" ∷ "naman" ∷ "lang" ∷ "din" ∷ "rin" ∷ "ba" ∷ "kasi" ∷ "talaga" ∷ "namin" ∷ "natin"
    ∷ "niyo" ∷ "nila" ∷ "ko" ∷ "mo" ∷ "niya" ∷ "ito" ∷ "iyan" ∷ "iyon" ∷ "dito" ∷ "diyan" ∷ "doon"
    ∷ "pera" ∷ "bayad" ∷ "utang" ∷ "trabaho" ∷ "pamilya" ∷ "salamat" ∷ "pasensya" ∷ "kuya" ∷ "ate"
    ∷ "magbayad" ∷ "problema" ∷ "tulong" ∷ "mahirap" ∷ "bayaran" ∷ "kailangan" ∷ [])

abbrev punctuation : ℕ → Bool
punctuation c = elem c (codes ".,!?;:'\"")

pub data Language : Type 0 where
  en tl taglish : Language

abbrev pub by_tone : AgentTone → EmotionalState → Option EmotionalState
by_tone empathetic_tone current = state_of (at_most (value current + 1) (value cooperative))
by_tone aggressive_tone current = state_of (at_least (value current - 1) (value hostile))
by_tone neutral_tone current = some current

module _ (lower : Text → Text) where
  -- `sum(1 for kw in keywords if kw in text)`
  abbrev occurring : List Text → Text → ℕ
  occurring keywords text = length (filter (λ k. contains_text k text) keywords)

  unfoldable pub classify_agent_tone : Text → AgentTone
  classify_agent_tone message =
      let empathetic_count = occurring empathetic_keywords (lower message) in
      let aggressive_count = occurring aggressive_keywords (lower message) in
      if ltb aggressive_count empathetic_count
      then empathetic_tone
      else if ltb empathetic_count aggressive_count
      then aggressive_tone
      else neutral_tone

  abbrev has_any : List Text → Text → Bool
  has_any keywords text = any (λ k. contains_text k text) keywords

  unfoldable pub resolve_state_change_direction : Text → Direction
  resolve_state_change_direction state_change =
      let text = lower state_change in
      let polarity =
        if has_any negative_emotion_keywords text
        then down
        else if has_any positive_emotion_keywords text
        then up
        else stay in
      if has_any (map codes ("decrease" ∷ "less" ∷ "reduce" ∷ "lower" ∷ [])) text
      then inverse polarity
      else polarity

  -- `candidates`: the tone, and the event when one is given.
  abbrev pub candidates : AgentTone → Option Text → List Text
  candidates tone none = lower (tone_value tone) ∷ []
  candidates tone (some event) =
      if is_empty event
      then lower (tone_value tone) ∷ []
      else lower (tone_value tone) ∷ lower (strip event) ∷ []

  -- The loop over the rules; the fallback for when none matches.
  abbrev pub by_rules :
      List EmotionalStateRule
      → List Text
      → EmotionalState
      → Option EmotionalState
      → Option EmotionalState
  by_rules [] cs current fallback = fallback
  by_rules (rule ∷ rules) cs current fallback =
      let trigger = lower (strip rule.trigger) in
      if not (is_empty trigger) && elem trigger cs
      then apply_directional_step current (resolve_state_change_direction rule.state_change)
      else by_rules rules cs current fallback

  unfoldable pub transition_emotional_state :
      EmotionalState → AgentTone → List EmotionalStateRule → Option Text → Option EmotionalState
  transition_emotional_state current tone rules event =
      by_rules rules (candidates tone event) current (by_tone tone current)

  -- The ratio of Tagalog words against 0.5 and 0.15, without the division.
  unfoldable pub detect_language : Text → Language
  detect_language text =
      let ws = words (lower text) in
      let tagalog_count = length (filter (λ w. elem (strip_of punctuation w) tagalog_words) ws) in
      if is_empty ws
      then en
      else if leb (length ws) (2 * tagalog_count)
      then tl
      else if leb (15 * length ws) (100 * tagalog_count)
      then taglish
      else en
