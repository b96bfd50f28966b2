-- ===== src/Integrity.antt =====
-- The sanitizing of texts for memories (sanitizeMemoryContent and escapeFenceFragment of
-- memory-integrity.ts). RegExp and String.replace are the host's: a detection pattern gives the text
-- with its matches transformed, or none where it does not match.
use threadwork.Prelude.{
  ℕ, String, Bool, true, false, ◌&&◌, Option, none, List, [], ◌∷◌, ◌==◌, length, if◌then◌else◌,
  or_else, is_some,
}

pub data SourceType : Type 0 where
  human agent_source consolidation system_source : SourceType

abbrev pub is_system : SourceType → Bool
is_system human = false
is_system agent_source = false
is_system consolidation = false
is_system system_source = true

pub record DetectionPattern : Type 0 where
  pub id : String
  pub replaced : String → Option String
  pub agent_tier_only : Bool

-- What the module takes from its host: the patterns, the removal of invisible characters with the
-- folding of colons, the replacement of each occurrence of a text, and the text of a number.
pub record Host : Type 0 where
  pub detection_patterns : List DetectionPattern
  pub deobfuscated : String → String
  pub replace_all : String → String → String → String
  pub number_text : ℕ → String

pub record SanitizeResult : Type 0 where
  pub text : String
  pub neutralized : Bool
  pub tripped : List String

-- The text after the patterns, and the ids of those that matched.
unfoldable pub sanitize_from : List DetectionPattern → SourceType → String → String × List String
sanitize_from [] source_type text = (text, [])
sanitize_from (pattern ∷ later) source_type text =
    let skipped = pattern.agent_tier_only && is_system source_type in
    let next = if skipped then none else pattern.replaced text in
    let rest = sanitize_from later source_type (or_else next text) in
    (rest.0, if is_some next then pattern.id ∷ rest.1 else rest.1)

unfoldable pub sanitize_memory_content : Host → String → SourceType → SanitizeResult
unfolding sanitize_from
sanitize_memory_content h content source_type =
    let out = sanitize_from h.detection_patterns source_type (h.deobfuscated content) in
    if length out.1 == 0
    then record { text = content; neutralized = false; tripped = [] }
    else record { text = out.0; neutralized = true; tripped = out.1 }

unfoldable pub escape_fence_fragment : Host → String → String
escape_fence_fragment h text = h.replace_all ">" "&gt;" (h.replace_all "<" "&lt;" text)
