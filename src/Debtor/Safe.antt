-- ===== src/Debtor/Safe.antt =====
-- The replies of the simulated debtor and its emotional state, over app/services/debtor_simulator.py.
use cat_backend.Common.{
  ℕ, ◌+◌, ◌≤◌, zero, suc, ◌≡◌, refl, true, false, not, List, [], ◌∷◌, ◌++◌, Option, none, some, ◌⊎◌,
  inl, inr, is_empty, All, arith, Bool-cases, Option-cases, ◌&&◌,
}
use cat_backend.Common.Words.{Text, strip}
use cat_backend.Common.Eq.{elem, ℕ-Eq, Text-Eq}
use cat_backend.Definition.Contract.{EmotionalStateRule, ScriptContract}
use cat_backend.Debtor.Mood.{
  EmotionalState, AgentTone, Direction, value, apply_directional_step, by_tone, by_rules,
  candidates, transition_emotional_state, resolve_state_change_direction, classify_agent_tone,
}
use cat_backend.Debtor.Phrases.{
  contains_prohibited_response, select_safe_debtor_response, safe_responses, first_allowed,
}
use cat_backend.Debtor.Simulator.{
  PersonaContext, SimulatorResponse, Prompt, Role, prohibited_of, attempt_from, reply_in,
  generate_response, rules_of,
}

-- A state that is at most one step from another.
abbrev pub Near : EmotionalState → Option EmotionalState → Type 0
Near current result =
    (s : EmotionalState) × (result ≡ some s)
    × (value s ≤ value current + 1)
    × (value current ≤ value s + 1)

step-Near :
    (current : EmotionalState) (d : Direction) → Near current (apply_directional_step current d)
unfolding apply_directional_step
step-Near EmotionalState.hostile Direction.down = (_, refl, omega arith, omega arith)
step-Near EmotionalState.hostile Direction.stay = (_, refl, omega arith, omega arith)
step-Near EmotionalState.hostile Direction.up = (_, refl, omega arith, omega arith)
step-Near EmotionalState.defensive Direction.down = (_, refl, omega arith, omega arith)
step-Near EmotionalState.defensive Direction.stay = (_, refl, omega arith, omega arith)
step-Near EmotionalState.defensive Direction.up = (_, refl, omega arith, omega arith)
step-Near EmotionalState.neutral Direction.down = (_, refl, omega arith, omega arith)
step-Near EmotionalState.neutral Direction.stay = (_, refl, omega arith, omega arith)
step-Near EmotionalState.neutral Direction.up = (_, refl, omega arith, omega arith)
step-Near EmotionalState.receptive Direction.down = (_, refl, omega arith, omega arith)
step-Near EmotionalState.receptive Direction.stay = (_, refl, omega arith, omega arith)
step-Near EmotionalState.receptive Direction.up = (_, refl, omega arith, omega arith)
step-Near EmotionalState.cooperative Direction.down = (_, refl, omega arith, omega arith)
step-Near EmotionalState.cooperative Direction.stay = (_, refl, omega arith, omega arith)
step-Near EmotionalState.cooperative Direction.up = (_, refl, omega arith, omega arith)

abbrev direction_of : AgentTone → Direction
direction_of AgentTone.empathetic_tone = Direction.up
direction_of AgentTone.neutral_tone = Direction.stay
direction_of AgentTone.aggressive_tone = Direction.down

tone-Near : (tone : AgentTone) (current : EmotionalState) → Near current (by_tone tone current)
unfolding apply_directional_step
tone-Near AgentTone.empathetic_tone current = step-Near current Direction.up
tone-Near AgentTone.neutral_tone current = step-Near current Direction.stay
tone-Near AgentTone.aggressive_tone current = step-Near current Direction.down

module _ (lower : Text → Text) where
  rules-Near :
      (rules : List EmotionalStateRule) (cs : List Text) (current : EmotionalState)
      (fallback : Option EmotionalState)
      → Near current fallback
      → Near current (by_rules lower rules cs current fallback)
  rules-Near [] cs current fallback h = h
  rules-Near (rule ∷ rules) cs current fallback h =
      elim (Bool-cases
        (not (is_empty (lower (strip rule.trigger))) && elem (lower (strip rule.trigger)) cs)) [
          | inl fires ↦
              rw fires (step-Near current (resolve_state_change_direction lower rule.state_change))
          | inr passes ↦ rw passes (rules-Near rules cs current fallback h)
        ]

  -- Whatever the rules of a script, the tone and the event, the transition finds a state, at most one
  -- step from the current one.
  transition-Near :
      (current : EmotionalState) (tone : AgentTone) (rules : List EmotionalStateRule)
      (event : Option Text)
      → Near current (transition_emotional_state lower current tone rules event)
  unfolding transition_emotional_state
  transition-Near current tone rules event =
      rules-Near rules (candidates lower tone event) current (by_tone tone current)
        (tone-Near tone current)

  -- A reply that says something, and nothing prohibited unless every fallback is.
  abbrev pub IsAllowed : List Text → Text → Type 0
  IsAllowed prohibited text =
      (is_empty text ≡ false)
      × ((contains_prohibited_response lower text prohibited ≡ false)
          ⊎ All (λ r. contains_prohibited_response lower r prohibited ≡ true) safe_responses)

  first_allowed_lem :
      (prohibited : List Text) (responses : List Text)
      → All (λ r. is_empty r ≡ false) responses
      → (is_empty (first_allowed lower responses prohibited) ≡ false)
        × ((contains_prohibited_response lower (first_allowed lower responses prohibited) prohibited
              ≡ false)
            ⊎ All (λ r. contains_prohibited_response lower r prohibited ≡ true) responses)
  first_allowed_lem prohibited [] h = (refl, inr tt)
  first_allowed_lem prohibited (r ∷ rs) (speaks, h) =
      let (later_speaks, later) = first_allowed_lem prohibited rs h in
      elim (Bool-cases (contains_prohibited_response lower r prohibited)) [
        | inl refused ↦
            rw refused (
              later_speaks,
              elim later [ inl allowed ↦ inl allowed | inr every ↦ inr (refl, every) ],
            )
        | inr allowed ↦ rw allowed (speaks, inl allowed)
      ]

  safe_response-IsAllowed :
      (prohibited : List Text) → IsAllowed prohibited (select_safe_debtor_response lower prohibited)
  safe_response-IsAllowed prohibited =
      first_allowed_lem prohibited safe_responses (refl, (refl, (refl, tt)))

  attempt-IsAllowed :
      (chat : ℕ → Prompt → Option Text) (left attempt : ℕ) (prompt : Prompt)
      (prohibited : List Text)
      → IsAllowed prohibited (attempt_from lower chat left attempt prompt prohibited)
  attempt-IsAllowed chat zero attempt prompt prohibited = safe_response-IsAllowed prohibited
  attempt-IsAllowed chat (suc left) attempt prompt prohibited =
      let again = attempt-IsAllowed chat left (attempt + 1) prompt prohibited in
      elim (Option-cases (chat attempt prompt)) [
        | inl fails ↦ rw (attempt_from, fails) (safe_response-IsAllowed prohibited)
        | inr (content, said) ↦ elim (Bool-cases (is_empty (strip content))) [
          | inl blank ↦ rw (attempt_from, said, blank) (safe_response-IsAllowed prohibited)
          | inr speaks ↦
              elim (Bool-cases (contains_prohibited_response lower (strip content) prohibited)) [
                | inl refused ↦ rw (attempt_from, said, speaks, refused) again
                | inr allowed ↦ rw (attempt_from, said, speaks, allowed) (speaks, inl allowed)
              ]
        ]
      ]

  -- `generate_response` answers whatever the model does: the reply says something, and nothing
  -- prohibited unless every safe response is prohibited too; the turn is recorded.
  pub generate_response-IsAllowed :
      (chat : ℕ → Prompt → Option Text) (persona : PersonaContext) (message : Text)
      (script : Option ScriptContract)
      → (reply : SimulatorResponse) × (after : PersonaContext) × (generate_response lower chat
            persona message script
          ≡ some (reply, after))
        × IsAllowed (prohibited_of script) reply.text
        × (after.conversation_history
            ≡ persona.conversation_history
              ++ (record { role = Role.agent; content = message }
                  ∷ record { role = Role.debtor; content = reply.text }
                  ∷ []))
  unfolding generate_response
  generate_response-IsAllowed chat persona message script =
      let (s, found, _, _) =
        transition-Near persona.emotional_state (classify_agent_tone lower message)
          (rules_of script) none in
      let answer = reply_in lower chat s persona message script in
      (answer.0, answer.1, rw (generate_response, found) refl, attempt-IsAllowed chat 3 0 _ _, refl)
