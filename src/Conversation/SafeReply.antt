-- ===== src/Conversation/SafeReply.antt =====
-- src/conversation/output-validator.service.ts and safe-reply.service.ts, over UTF-16 units. The
-- expressions for secrets and competitors are parameters of `Env`.
pub mod Laws
use inmoagent.Prelude.{
  ℕ, suc, ◌+◌, String, Bool, not, ◌&&◌, ◌||◌, Option, none, some, List, [], ◌∷◌, leb, ltb, ◌==◌,
  if◌then◌else◌, length, take, or_else, trim, or_value, max, includes,
}
use inmoagent.Conversation.Types.{Text, llm_reply, Instruction, without_competitor}
use inmoagent.Conversation.World.{Env}

abbrev pub max_length : ℕ
max_length = 1200

-- `lastIndexOf` of a text of two units; `i` is the index of the list's head
unfoldable pub last_index_of : ℕ → ℕ → ℕ → List ℕ → Option ℕ
last_index_of a b i [] = none
last_index_of a b i (x ∷ []) = none
last_index_of a b i (x ∷ y ∷ s) =
    or_else (last_index_of a b (suc i) (y ∷ s)) (if x == a && y == b then some i else none)

-- `truncate` with its limit. An index that is not found is -1 in the source; like 0 it cuts
-- nothing.
unfoldable pub truncate_to : ℕ → List ℕ → List ℕ
truncate_to limit text =
    let truncated = take limit text in
    let last_break =
      max (or_value (last_index_of 10 10 0 truncated) 0)
        (or_value (last_index_of b'.' 32 0 truncated) 0) in
    if leb (length text) limit
    then text
    else trim (if ltb 0 last_break then take (last_break + 1) truncated else truncated)

unfoldable pub truncate : List ℕ → List ℕ
truncate text = truncate_to max_length text

unfoldable pub is_property_whitelisted : String → List String → Bool
is_property_whitelisted property_id last_search_ids = includes last_search_ids property_id

-- A reply of the model that passes the validator, or the caller's fallback; a reply that names a
-- competitor is asked for once more.
unfoldable pub compose : Env → Instruction → Text → Text
compose env instruction fallback =
    let first = env.compose_reply instruction in
    let second = env.compose_reply (without_competitor instruction) in
    if env.has_sensitive_data first
    then fallback
    else if not (env.has_forbidden_mention first)
    then llm_reply (truncate first)
    else if env.has_forbidden_mention second || env.has_sensitive_data second
    then fallback
    else llm_reply (truncate second)
