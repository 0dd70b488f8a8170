-- ===== src/Conversation/Handlers/SearchMatch.antt =====
-- src/conversation/handlers/search-match.handler.ts
use inmoagent.Prelude.{
  ℕ, ◌-◌, String, Bool, ◌&&◌, ◌||◌, Option, none, some, List, [], ◌∷◌, ◌==◌, if◌then◌else◌, str_eq,
  length, get_elem?,
}
use inmoagent.Domain.Property.{Property}
use inmoagent.Domain.Lead.{search_match}
use inmoagent.Domain.Extraction.{is_ask_question}
use inmoagent.Conversation.Types.{
  LeadFilters, HandlerContext, HandlerResult, text, choose_number, option_not_found,
  answer_fallback, answer_about,
}
use inmoagent.Conversation.World.{Env, World}
use inmoagent.Conversation.Filters.{has_new_filter_data}
use inmoagent.Conversation.SafeReply.{compose}
use inmoagent.Conversation.Handlers.Qualification
use inmoagent.Conversation.Handlers.Qualification.Searching.{reply}
use inmoagent.Conversation.Handlers.Commercial

unfoldable pub has_unanswered_question : Env → HandlerContext → Bool
has_unanswered_question env ctx =
    env.rules.has_question_mark ctx.turn_text || is_ask_question ctx.extraction.intent

-- `lastSearchIds[index - 1]`; an index is at least 1
unfoldable pub resolve_chosen_property : Env → List String → ℕ → Option Property
resolve_chosen_property env last_search_ids index = elim (get_elem? last_search_ids (index - 1)) [
  | none ↦ none
  | some id ↦ if str_eq id "" then none else env.table.find_unique id
]

unfoldable pub answer_question_about_property : Env → HandlerContext → Property → HandlerResult
answer_question_about_property env ctx property =
    reply (text (compose env (answer_about ctx.turn_text property) answer_fallback) ∷ [])
      search_match none

-- The lead named the property with number `index`, and the text confirms it.
unfoldable pub choose : Env → HandlerContext → LeadFilters → ℕ → World → HandlerResult × World
choose env ctx filters index w = elim (resolve_chosen_property env ctx.lead.last_search_ids index) [
  | none ↦ (reply (text option_not_found ∷ []) search_match none, w)
  | some property ↦
      if has_unanswered_question env ctx
      then (answer_question_about_property env ctx property, w)
      else Commercial.enter env ctx (some property) filters w
]

unfoldable pub handle : Env → HandlerContext → LeadFilters → World → HandlerResult × World
handle env ctx filters w = elim ctx.extraction.interested_property_index [
  | some index ↦
      if env.rules.confirms_property_choice ctx.turn_text
      then choose env ctx filters index w
      else if has_new_filter_data ctx.extraction
      then Qualification.handle env ctx filters w
      else (reply (text choose_number ∷ []) search_match none, w)
  | none ↦
      if has_unanswered_question env ctx && length ctx.lead.last_search_ids == 1
      then elim (resolve_chosen_property env ctx.lead.last_search_ids 1) [
        | some property ↦ (answer_question_about_property env ctx property, w)
        | none ↦ Qualification.handle env ctx filters w
      ]
      else Qualification.handle env ctx filters w
]
