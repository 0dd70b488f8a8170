-- ===== src/Conversation/Handlers/Scheduling.antt =====
-- src/conversation/handlers/scheduling.handler.ts
pub mod Effects
use inmoagent.Prelude.{
  String, Bool, Option, none, some, List, [], ◌∷◌, ◌++◌, if◌then◌else◌, is_none, str_eq, false,
}
use inmoagent.Domain.Property.{Property}
use inmoagent.Domain.Lead.{human_handoff}
use inmoagent.Conversation.Types.{
  HandlerContext, HandlerResult, OutgoingAction, text, schedule_link, day_preference_question,
  scheduling_handoff_message, Seed,
}
use inmoagent.Conversation.World.{
  Env, World, AlertTitle, titled, titled_day, only_day, notify, propose,
}

abbrev pub lead_seed : HandlerContext → Seed
lead_seed ctx = record { lead_id = ctx.lead.id; turn_count = ctx.lead.turn_count }

-- `propertyTitleForAlert`; an empty title counts as none
unfoldable pub alert_title : Option Property → Option String → Option AlertTitle
alert_title none none = none
alert_title none (some day) = some (only_day day)
alert_title (some p) none = if str_eq p.title "" then none else some (titled p.title)
alert_title (some p) (some day) =
    if str_eq p.title "" then some (only_day day) else some (titled_day p.title day)

abbrev pub property_id_of : Option Property → Option String
property_id_of none = none
property_id_of (some p) = some p.id

unfoldable pub enter_scheduling :
    Env → HandlerContext → Option Property → World → HandlerResult × World
enter_scheduling env ctx property w =
    let w₁ = propose env ctx.tenant.id ctx.lead.id (property_id_of property) w in
    let w₂ : World = record w₁ { pushes = w₁.pushes ++ env.new_id ∷ [] } in
    let preferred_day = env.rules.extract_day_preference ctx.turn_text in
    let w₃ = notify ctx.tenant (alert_title property preferred_day) w₂ in
    let ask_day : List OutgoingAction =
      if is_none preferred_day then text (day_preference_question (lead_seed ctx)) ∷ [] else [] in
    (
      record {
        actions =
            text (schedule_link env.new_id) ∷ (ask_day ++ text scheduling_handoff_message ∷ []);
        next_state = human_handoff;
        filter_updates = none;
        preferred_day = preferred_day;
        mark_greeted = false;
        mark_name_asked = false;
        commercial_update = none;
      },
      w₃,
    )

unfoldable pub handle : Env → HandlerContext → World → HandlerResult × World
handle env ctx w = enter_scheduling env ctx none w
