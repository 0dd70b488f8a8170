-- ===== src/Conversation/Engine.antt =====
-- src/conversation/conversation.engine.ts: one turn of the dialogue, from the lead's text to the
-- messages that are queued and the row that is stored.
pub mod Recorded
pub mod Kept
pub mod Stored
pub mod Storable
pub mod Transitions
pub mod States
pub mod Whitelist
pub mod Frame
pub mod Silence
pub mod Sending
pub mod Persist
pub mod Guarding
pub mod Keycaps
use inmoagent.Prelude.{
  ℕ, ◌+◌, String, Bool, true, false, not, ◌&&◌, ◌||◌, Option, none, some, List, [], ◌∷◌, ◌++◌, map,
  if◌then◌else◌, is_some, is_empty, is_nonempty,
}
use inmoagent.Domain.Lead.{
  ConversationState, greeting, qualification, search_match, commercial_qualification, scheduling,
  human_handoff, opted_out, is_greeting, Lead, Tenant,
}
use inmoagent.Domain.Extraction.{ExtractionResult, is_off_topic, is_ask_question}
use inmoagent.Conversation.Types.{
  LeadFilters, HandlerContext, HandlerResult, OutgoingAction, text, Text, CommercialUpdate,
  buying_signal_fallback, off_topic_redirect_fallback, reformulate_request, about_buying_signal,
  about_off_topic,
}
use inmoagent.Conversation.World.{Env, World, notify}
use inmoagent.Conversation.Filters.{current_filters_from, merge_filters, has_new_filter_data}
use inmoagent.Conversation.SafeReply.{compose}
use inmoagent.Conversation.Guardrails.{GuardrailAction, evaluate}
use inmoagent.Conversation.Handlers.Scheduling
use inmoagent.Conversation.Handlers.Scheduling.{lead_seed}
use inmoagent.Conversation.Handlers.Qualification
use inmoagent.Conversation.Handlers.Qualification.Searching.{reply}
use inmoagent.Conversation.Handlers.Commercial
use inmoagent.Conversation.Handlers.SearchMatch
use inmoagent.Conversation.Handlers.Greeting
use Sending.{send_actions, send_texts}
use Persist.{persist_lead_update}
use Guarding.{
  GuardrailOutcome, veto_expiry, resolve_guardrail, is_handoff_action, is_expired_action,
}
use Keycaps.{normalize_keycap_digits}

abbrev buying_signal_update : ℕ → CommercialUpdate
buying_signal_update now = record {
  q_guarantee = none;
  q_payment_method = none;
  q_timeline = none;
  q_has_property_to_sell = none;
  q_asked_fields = none;
  pending_property_id = none;
  q_buying_signal_at = some now;
  q_wants_stock_alert = none;
}

-- The handler of each state; the last two are answered by the guardrails before.
unfoldable pub dispatch :
    ConversationState → Env → HandlerContext → LeadFilters → World → HandlerResult × World
dispatch greeting env ctx filters w = Greeting.handle env ctx filters w
dispatch qualification env ctx filters w = Qualification.handle env ctx filters w
dispatch search_match env ctx filters w = SearchMatch.handle env ctx filters w
dispatch commercial_qualification env ctx filters w = Commercial.handle env ctx filters w
dispatch scheduling env ctx filters w = Scheduling.handle env ctx w
dispatch human_handoff env ctx filters w = (reply [] human_handoff none, w)
dispatch opted_out env ctx filters w = (reply [] opted_out none, w)

-- A turn that has nothing to do with the search, or asks without new data.
unfoldable pub is_redirectable : Env → ConversationState → HandlerContext → LeadFilters → Bool
is_redirectable env state ctx filters =
    not (is_empty filters.f_neighborhoods && env.rules.delegates_zone_choice ctx.turn_text)
    && not (is_greeting state)
    && (is_off_topic ctx.extraction.intent
        || (is_ask_question ctx.extraction.intent && not (has_new_filter_data ctx.extraction)))

-- `lead` is the lead as the guardrails left it; `ctx.lead` counts this turn too.
unfoldable pub resolve_result :
    Env → Lead → HandlerContext → LeadFilters → World → HandlerResult × World
resolve_result env lead ctx filters w =
    if env.rules.has_buying_signal ctx.turn_text
    then (
      record (reply
          (text (
              compose env (about_buying_signal ctx.turn_text)
                (buying_signal_fallback (lead_seed ctx)))
            ∷ [])
          lead.state none) { commercial_update = some (buying_signal_update env.now) },
      notify ctx.tenant none w,
    )
    else if is_redirectable env lead.state ctx filters
    then (
      reply
          (text (
              compose env (about_off_topic ctx.turn_text)
                (off_topic_redirect_fallback (lead_seed ctx)))
            ∷ [])
          lead.state none,
      w,
    )
    else dispatch lead.state env ctx filters w

-- The filters of the turn: merged, the price's turn noted, and the zones that were offered taken
-- over where the lead accepts them.
unfoldable pub turn_filters : Env → Lead → ExtractionResult → List ℕ → ℕ → LeadFilters
turn_filters env lead extraction turn_text turn_count =
    let merged = merge_filters (current_filters_from lead) extraction in
    let priced : LeadFilters =
      if is_some extraction.max_price || is_some extraction.currency
      then record merged { f_price_mentioned_at_turn = some turn_count }
      else merged in
    if is_nonempty priced.f_offered_neighborhoods
      && is_empty priced.f_neighborhoods
      && env.rules.accepts_zone_suggestion turn_text
    then record priced {
      f_neighborhoods = priced.f_offered_neighborhoods;
      f_offered_neighborhoods = [];
    }
    else priced

-- The model's extraction failed: the guardrail's replies, and a request to say it again.
unfoldable pub reformulate : Env → Tenant → GuardrailOutcome → Lead → Lead → World → World
reformulate env tenant outcome lead effective w =
    let turn_count = effective.turn_count + 1 in
    let w₁ =
      send_texts env tenant effective
        (outcome.replies
          ++ reformulate_request (record { lead_id = lead.id; turn_count = turn_count }) ∷ [])
        w in
    record w₁ {
      lead = record (outcome.lead_update w₁.lead) {
        last_message_at = some env.now;
        turn_count = turn_count;
      };
    }

-- The context of a handler: the lead with this turn counted.
abbrev pub turn_context : Tenant → List ℕ → Lead → ExtractionResult → HandlerContext
turn_context tenant turn_text effective extraction = record {
  tenant = tenant;
  lead = record effective { turn_count = effective.turn_count + 1 };
  turn_text = turn_text;
  extraction = extraction;
}

-- The handler's result, on the filters of the turn.
unfoldable pub turn_result :
    Env → Tenant → List ℕ → Lead → ExtractionResult → World → HandlerResult × World
turn_result env tenant turn_text effective extraction w =
    resolve_result env effective (turn_context tenant turn_text effective extraction)
      (turn_filters env effective extraction turn_text (effective.turn_count + 1)) w

-- The handler's result is sent, after the guardrail's replies, and stored.
unfoldable pub answer :
    Env → Tenant → List ℕ → GuardrailOutcome → Lead → ExtractionResult → World → World
answer env tenant turn_text outcome effective extraction w =
    let (result, w₁) = turn_result env tenant turn_text effective extraction w in
    let w₂ = send_actions env tenant w₁.lead (map text outcome.replies ++ result.actions) w₁ in
    record w₂ {
      lead =
          persist_lead_update env.now w₁.lead result (effective.turn_count + 1) extraction.name
            w₂.lead;
    }

-- The turn of a lead that the guardrails let through.
unfoldable pub run_turn : Env → Tenant → List ℕ → GuardrailOutcome → Lead → World → World
run_turn env tenant turn_text outcome lead w =
    let effective = outcome.lead_update lead in
    elim (env.extract_intent effective turn_text) [
      | none ↦ reformulate env tenant outcome lead effective w
      | some extraction ↦ answer env tenant turn_text outcome effective extraction w
    ]

-- What follows a guardrail: the alert of a handoff, the reset of an expired session, and either
-- the guardrail's replies alone or the whole turn. `lead` is the row as the turn read it.
unfoldable pub take_action : Env → Tenant → List ℕ → Lead → GuardrailAction → World → World
take_action env tenant turn_text lead action w =
    let outcome = resolve_guardrail env.now lead action in
    let w₁ = if is_handoff_action action then notify tenant none w else w in
    let w₂ : World =
      if is_expired_action action then record w₁ { lead = outcome.lead_update w₁.lead } else w₁ in
    if outcome.stop
    then (let w₃ = send_texts env tenant lead outcome.replies w₂ in
        record w₃ { lead = outcome.lead_update w₃.lead })
    else run_turn env tenant turn_text outcome lead w₂

-- A turn of a tenant that is stored; one that is not found is dropped. The lead's row is in the
-- World: the turn of a lead that is not stored, which is dropped too, has none.
unfoldable pub handle_turn : Env → Option Tenant → List ℕ → World → World
handle_turn env none raw_turn_text w = w
handle_turn env (some tenant) raw_turn_text w =
    let turn_text = normalize_keycap_digits raw_turn_text in
    let action = veto_expiry w.lead w (evaluate env.rules env.now w.lead turn_text) in
    take_action env tenant turn_text w.lead action w
