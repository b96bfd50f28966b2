-- ===== src/Verification/Critics.antt =====
-- verification/cross-family-critique.ts: the families of the models, and the verdict of a critique.
use text.Mathlib.Text.{starts_with}
use threadwork.Prelude.{
  String, Bool, true, false, not, ◌&&◌, Option, none, some, List, [], ◌∷◌, str_eq, any,
  if◌then◌else◌, or_else,
}
use threadwork.Prelude.Store.{Store, lookup}

pub data ModelFamily : Type 0 where
  anthropic openai google meta xai deepseek mistral unknown_family : ModelFamily

pub data CritiqueSeverity : Type 0 where
  observation concern blocker : CritiqueSeverity

-- A verdict as its column has it: one of the five, or another text of a newer taxonomy.
pub data CrossFamilyVerdict : Type 0 where
  concur dissent block insufficient_same_family unknown_verdict : CrossFamilyVerdict
  other_verdict : String → CrossFamilyVerdict

-- The prefixes of the names of a family's models.
abbrev pub family_rules : List (List String × ModelFamily)
family_rules =
    ("claude-" ∷ "anthropic." ∷ "us.anthropic." ∷ [], anthropic)
    ∷ ("gpt-" ∷ "o3" ∷ "o4" ∷ "codex" ∷ "chatgpt" ∷ [], openai)
    ∷ ("gemini-" ∷ [], google)
    ∷ ("llama-" ∷ "meta-llama" ∷ [], meta)
    ∷ ("grok-" ∷ [], xai)
    ∷ ("deepseek-" ∷ [], deepseek)
    ∷ ("mistral-" ∷ "mixtral-" ∷ [], mistral)
    ∷ []

unfoldable pub first_family : List (List String × ModelFamily) → String → ModelFamily
first_family [] model_id = unknown_family
first_family (rule ∷ later) model_id =
    let rest = first_family later model_id in
    if any (starts_with model_id) rule.0 then rule.1 else rest

unfoldable pub resolve_model_family : Option String → ModelFamily
unfolding first_family
resolve_model_family none = unknown_family
resolve_model_family (some model_id) =
    if str_eq model_id "" then unknown_family else first_family family_rules model_id

unfoldable pub resolve_agent_default_family : String → Option (Store ModelFamily) → ModelFamily
unfolding lookup
resolve_agent_default_family agent registry =
    or_else (lookup agent (or_else registry [])) unknown_family

abbrev pub same_family : ModelFamily → ModelFamily → Bool
same_family anthropic anthropic = true
same_family openai openai = true
same_family google google = true
same_family meta meta = true
same_family xai xai = true
same_family deepseek deepseek = true
same_family mistral mistral = true
same_family unknown_family unknown_family = true
same_family _ _ = false

pub record CrossFamilyEvaluation : Type 0 where
  pub is_cross_family : Bool
  pub verdict : CrossFamilyVerdict

abbrev pub severity_verdict : Option CritiqueSeverity → CrossFamilyVerdict
severity_verdict none = unknown_verdict
severity_verdict (some blocker) = block
severity_verdict (some concern) = dissent
severity_verdict (some observation) = concur

unfoldable pub evaluate_cross_family :
    ModelFamily → ModelFamily → Option CritiqueSeverity → CrossFamilyEvaluation
evaluate_cross_family producer critic severity =
    let known =
      not (same_family critic unknown_family) && not (same_family producer unknown_family) in
    if not (same_family critic producer) && known
    then record { is_cross_family = true; verdict = severity_verdict severity }
    else if known
    then record { is_cross_family = false; verdict = insufficient_same_family }
    else record { is_cross_family = false; verdict = unknown_verdict }
