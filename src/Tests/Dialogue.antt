-- ===== src/Tests/Dialogue.antt =====
-- Turns of a dialogue.
use inmoagent.Conversation.Filters.{current_filters_from, merge_filters}
use inmoagent.Conversation.Engine.Recorded.{resolve_result-Records}
use inmoagent.Conversation.Handlers.Qualification.Recording.{Records}
use inmoagent.Prelude.{List, ℕ, ◌∷◌, [], true, false, some, ◌≡◌, refl, arith, All, trim, is_space}
use inmoagent.Domain.Lead.{greeting}
use inmoagent.Conversation.World.{Env}
use inmoagent.Conversation.Guardrails.{
  handoff_timeout_release, is_handoff_timed_out, evaluate, continue, is_session_expired,
}
use inmoagent.Conversation.Engine.{resolve_result, handle_turn}
use inmoagent.Conversation.Engine.Keycaps.{normalize_keycap_digits}
use inmoagent.Conversation.Engine.Silence.{handle_turn-opted_out, handle_turn-handed_over}
use inmoagent.Conversation.Engine.Whitelist.{IsListed, handle_turn-whitelisted}
use inmoagent.Conversation.Engine.Stored.{IsScored}
use inmoagent.Conversation.Engine.Transitions.{
  TurnStep, handle_turns, handle_turn-TurnStep, handle_turns-opted_out,
}
use inmoagent.Conversation.Engine.Kept.{
  handle_turn-stale_handoff, handle_turn-IsScored, handle_turns-name,
}
use inmoagent.Tests.Data.{
  context_of, agency, new_lead, rent_extraction, simple_rules, simple_env, world_of,
}
use inmoagent.Tests.Leads.{hello, leave_me, later_env, gone_lead, handed_lead, named_lead}

hello_stays : simple_rules.asks_opt_out (trim (normalize_keycap_digits hello)) ≡ false
unfolding trim is_space normalize_keycap_digits
hello_stays = refl

leave_me_leaves : simple_rules.asks_opt_out (trim (normalize_keycap_digits leave_me)) ≡ true
unfolding trim is_space normalize_keycap_digits
leave_me_leaves = refl

handle_turn-opted_out_example :
    handle_turn simple_env (some agency) hello (world_of gone_lead) ≡ world_of gone_lead
handle_turn-opted_out_example =
    handle_turn-opted_out simple_env hello (world_of gone_lead) (some agency) refl

handle_turn-handed_over_example :
    handle_turn simple_env (some agency) hello (world_of handed_lead) ≡ world_of handed_lead
handle_turn-handed_over_example =
    handle_turn-handed_over simple_env hello (world_of handed_lead) (some agency) 900000 refl
      hello_stays refl (omega arith)

handle_turn-whitelisted_example :
    let w' = handle_turn simple_env (some agency) hello (world_of named_lead) in
    All (IsListed w'.lead.last_search_ids) w'.sent
handle_turn-whitelisted_example =
    handle_turn-whitelisted simple_env agency hello (world_of named_lead) refl

handle_turn-TurnStep_example :
    TurnStep greeting (handle_turn simple_env (some agency) hello (world_of new_lead)).lead.state
handle_turn-TurnStep_example =
    handle_turn-TurnStep simple_env (some agency) hello (world_of new_lead)

handle_turns-opted_out_example :
    handle_turns
      (some agency)
      ((simple_env, hello) ∷ (later_env, leave_me) ∷ [])
      (world_of gone_lead)
    ≡ world_of gone_lead
handle_turns-opted_out_example =
    handle_turns-opted_out (some agency) ((simple_env, hello) ∷ (later_env, leave_me) ∷ [])
      (world_of gone_lead) refl

handle_turns-name_example :
    (handle_turns
      (some agency)
      ((simple_env, hello) ∷ (later_env, hello) ∷ [])
      (world_of named_lead)).lead.name
    ≡ some "Eva"
handle_turns-name_example =
    handle_turns-name (some agency) ((simple_env, hello) ∷ (later_env, hello) ∷ [])
      (world_of named_lead) refl

not_guarded : evaluate simple_rules 1000000 new_lead (normalize_keycap_digits hello) ≡ continue
unfolding evaluate normalize_keycap_digits is_session_expired trim is_space
not_guarded = refl

handle_turn-IsScored_example :
    IsScored (handle_turn simple_env (some agency) hello (world_of new_lead)).lead
handle_turn-IsScored_example =
    handle_turn-IsScored simple_env agency hello (world_of new_lead) rent_extraction not_guarded
      refl

-- "asesor"
abbrev ask_person : List ℕ
ask_person = b'a' ∷ b's' ∷ b'e' ∷ b's' ∷ b'o' ∷ b'r' ∷ []

abbrev days_later_env : Env
days_later_env = record simple_env { now = 300000000 }

person_stays : simple_rules.asks_opt_out (trim (normalize_keycap_digits ask_person)) ≡ false
unfolding trim is_space normalize_keycap_digits
person_stays = refl

person_asked : simple_rules.asks_handoff (trim (normalize_keycap_digits ask_person)) ≡ true
unfolding trim is_space normalize_keycap_digits
person_asked = refl

times_out :
    evaluate simple_rules 300000000 handed_lead (normalize_keycap_digits hello)
    ≡ handoff_timeout_release
unfolding evaluate normalize_keycap_digits is_handoff_timed_out trim is_space
times_out = refl

handle_turn-stale_handoff_example :
    (handle_turn days_later_env (some agency) hello (world_of handed_lead)).lead.handoff_at
    ≡ some 900000
handle_turn-stale_handoff_example =
    handle_turn-stale_handoff days_later_env agency hello (world_of handed_lead) rent_extraction
      refl times_out refl

resolve_result-Records_example : Records (
    resolve_result simple_env named_lead
      (context_of named_lead rent_extraction hello)
      (merge_filters (current_filters_from named_lead) rent_extraction)
      (world_of named_lead))
resolve_result-Records_example =
    resolve_result-Records simple_env (context_of named_lead rent_extraction hello)
      (merge_filters (current_filters_from named_lead) rent_extraction) (world_of named_lead)
      named_lead
