-- ===== src/Tests/Components.antt =====
-- The parts of a turn, one by one: guardrails, score, filters, replies and handlers.
use inmoagent.Prelude.{
  true, false, none, some, [], ◌∷◌, ◌≡◌, ◌⊎◌, refl, trim, is_space, is_nonempty,
}
use inmoagent.Domain.Lead.{human_handoff}
use inmoagent.Conversation.Filters.{current_filters_from, merge_filters, merge_neighborhoods}
use inmoagent.Conversation.Handlers.Scheduling.{enter_scheduling}
use inmoagent.Conversation.Handlers.Scheduling.Effects.{visit, enter_scheduling_effects}
use inmoagent.Conversation.Handlers.Commercial.{next_field_to_ask, merged_fields, first_open}
use inmoagent.Conversation.Handlers.Commercial.Progress.{Proposes, Asks, process_progress}
use inmoagent.Tests.Data.{flat, empty_extraction, simple_rules, simple_env, world_of, context_of}
use inmoagent.Tests.Leads.{hello, visit_lead, no_operation}

hello_trimmed_stays : simple_rules.asks_opt_out (trim hello) ≡ false
unfolding trim is_space
hello_trimmed_stays = refl

asks_nothing : next_field_to_ask none (merged_fields visit_lead empty_extraction) [] ≡ none
unfolding next_field_to_ask first_open
asks_nothing = refl

process_progress_example :
    Proposes simple_env
      (context_of visit_lead empty_extraction hello)
      (current_filters_from visit_lead)
      none
      (world_of visit_lead)
    ⊎ Asks simple_env
        (context_of visit_lead empty_extraction hello)
        (current_filters_from visit_lead)
        none
        (world_of visit_lead)
process_progress_example =
    process_progress simple_env (context_of visit_lead empty_extraction hello)
      (current_filters_from visit_lead) none (world_of visit_lead)

enter_scheduling_effects_example :
    let ctx = context_of visit_lead empty_extraction hello in
    ((enter_scheduling simple_env ctx (some flat) (world_of visit_lead)).1.appointments
      ≡ visit simple_env ctx (some flat) ∷ [])
    × ((enter_scheduling simple_env ctx (some flat) (world_of visit_lead)).1.pushes
        ≡ "a1" ∷ "a1" ∷ [])
    × ((enter_scheduling simple_env ctx (some flat) (world_of visit_lead)).0.next_state
        ≡ human_handoff)
enter_scheduling_effects_example =
    enter_scheduling_effects simple_env (context_of visit_lead empty_extraction hello) (some flat)
      (world_of visit_lead)

with_zone : is_nonempty no_operation.f_neighborhoods ≡ true
unfolding merge_filters merge_neighborhoods current_filters_from
with_zone = refl
