-- ===== src/Conversation/Handlers/Commercial.antt =====
-- src/conversation/handlers/commercial-qualification.handler.ts
pub mod Progress
pub mod Questions
use inmoagent.Prelude.{
  ℕ, String, Bool, true, false, ◌||◌, Option, none, some, List, [], ◌∷◌, ◌++◌, leb, if◌then◌else◌,
  length, is_some, or_else, str_eq,
}
use inmoagent.Domain.Property.{OperationType, sale, rent, temp_rent, Property}
use inmoagent.Domain.Lead.{
  commercial_qualification, CommercialField, guarantee, timeline, payment_method,
  has_property_to_sell, field_eq, Lead,
}
use inmoagent.Domain.Extraction.{ExtractionResult}
use inmoagent.Conversation.Types.{
  LeadFilters, HandlerContext, HandlerResult, text, CommercialUpdate, commercial_question,
}
use inmoagent.Conversation.World.{Env, World}
use inmoagent.Conversation.Filters.{has_new_filter_data}
use inmoagent.Conversation.Handlers.Scheduling.{enter_scheduling, lead_seed, property_id_of}
use inmoagent.Conversation.Handlers.Qualification
use inmoagent.Conversation.Handlers.Qualification.Searching.{reply}

abbrev pub max_commercial_questions : ℕ
max_commercial_questions = 2

-- QUESTION_ORDER, `[]` without an operation
abbrev pub question_order : Option OperationType → List CommercialField
question_order none = []
question_order (some rent) = guarantee ∷ timeline ∷ []
question_order (some sale) = payment_method ∷ has_property_to_sell ∷ []
question_order (some temp_rent) = timeline ∷ []

-- `CommercialLeadFields`
pub record CommercialFields : Type 0 where
  pub q_guarantee : Option String
  pub q_payment_method : Option String
  pub q_timeline : Option String
  pub q_has_property_to_sell : Option Bool

-- `mergedLead[FIELD_TO_LEAD_KEY[field]] !== null`
unfoldable pub is_answered : CommercialFields → CommercialField → Bool
is_answered c guarantee = is_some c.q_guarantee
is_answered c timeline = is_some c.q_timeline
is_answered c payment_method = is_some c.q_payment_method
is_answered c has_property_to_sell = is_some c.q_has_property_to_sell

-- `askedFields.includes(field)`
unfoldable pub was_asked : List CommercialField → CommercialField → Bool
was_asked [] field = false
was_asked (x ∷ xs) field = field_eq x field || was_asked xs field

unfoldable pub first_open :
    CommercialFields → List CommercialField → List CommercialField → Option CommercialField
first_open merged asked [] = none
first_open merged asked (field ∷ rest) =
    if was_asked asked field || is_answered merged field
    then first_open merged asked rest
    else some field

unfoldable pub next_field_to_ask :
    Option OperationType → CommercialFields → List CommercialField → Option CommercialField
next_field_to_ask operation merged asked =
    if leb max_commercial_questions (length asked)
    then none
    else first_open merged asked (question_order operation)

-- `mergedLead`: what the lead answered this turn, else what was stored
unfoldable pub merged_fields : Lead → ExtractionResult → CommercialFields
merged_fields lead extraction = record {
  q_guarantee = or_else extraction.guarantee lead.q_guarantee;
  q_payment_method = or_else extraction.payment_method lead.q_payment_method;
  q_timeline = or_else extraction.timeline lead.q_timeline;
  q_has_property_to_sell = or_else extraction.has_property_to_sell lead.q_has_property_to_sell;
}

-- `if (x !== null) answered.q = x`
abbrev pub set_if {ℓ} : {A : Type ℓ} → Option A → Option (Option A)
set_if none = none
set_if (some a) = some (some a)

-- `{ ...answered, qAskedFields, pendingPropertyId }`
unfoldable pub answered_update :
    ExtractionResult → Option (List CommercialField) → Option (Option String) → CommercialUpdate
answered_update extraction asked pending = record {
  q_guarantee = set_if extraction.guarantee;
  q_payment_method = set_if extraction.payment_method;
  q_timeline = set_if extraction.timeline;
  q_has_property_to_sell = set_if extraction.has_property_to_sell;
  q_asked_fields = asked;
  pending_property_id = pending;
  q_buying_signal_at = none;
  q_wants_stock_alert = none;
}

-- An id that is null or empty finds nothing.
unfoldable pub resolve_pending_property : Env → Option String → Option Property
resolve_pending_property env none = none
resolve_pending_property env (some i) = if str_eq i "" then none else env.table.find_unique i

abbrev pub pending_id : Option (Option String) → Option String → Option String
pending_id none stored = stored
pending_id (some i) stored = i

-- `process`; `extra` is `extraUpdate.pendingPropertyId`
unfoldable pub process :
    Env → HandlerContext → LeadFilters → Option (Option String) → World → HandlerResult × World
process env ctx filters extra w =
    let merged = merged_fields ctx.lead ctx.extraction in
    elim (next_field_to_ask ctx.lead.f_operation merged ctx.lead.q_asked_fields) [
      | none ↦
          let property =
            resolve_pending_property env (pending_id extra ctx.lead.pending_property_id) in
          let (result, w') = enter_scheduling env ctx property w in
          (
            record result {
              commercial_update = some (answered_update ctx.extraction none (some none));
            },
            w',
          )
      | some field ↦ (
        record (reply (text (commercial_question field (lead_seed ctx)) ∷ [])
            commercial_qualification (some filters)) {
              commercial_update = some (
                  answered_update ctx.extraction (some (ctx.lead.q_asked_fields ++ field ∷ []))
                    extra);
            },
        w,
      )
    ]

unfoldable pub enter :
    Env → HandlerContext → Option Property → LeadFilters → World → HandlerResult × World
enter env ctx property filters w =
    let id = property_id_of property in
    let lead : Lead = record (ctx.lead) { pending_property_id = id; q_asked_fields = [] } in
    process env (record ctx { lead = lead }) filters (some id) w

unfoldable pub handle : Env → HandlerContext → LeadFilters → World → HandlerResult × World
handle env ctx filters w =
    if has_new_filter_data ctx.extraction
    then Qualification.handle env ctx filters w
    else process env ctx filters none w
