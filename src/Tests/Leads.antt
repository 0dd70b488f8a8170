-- ===== src/Tests/Leads.antt =====
-- Leads in the states that the tests need, and the texts that they write.
use inmoagent.Prelude.{ℕ, none, some, List, [], ◌∷◌}
use inmoagent.Domain.Property.{rent}
use inmoagent.Domain.Lead.{search_match, commercial_qualification, human_handoff, opted_out, Lead}
use inmoagent.Conversation.Types.{LeadFilters}
use inmoagent.Conversation.World.{Env}
use inmoagent.Conversation.Filters.{current_filters_from, merge_filters}
use inmoagent.Tests.Data.{new_lead, rent_extraction, simple_env}

-- "hola" and "baja"
abbrev pub hello : List ℕ
hello = b'h' ∷ b'o' ∷ b'l' ∷ b'a' ∷ []

abbrev pub leave_me : List ℕ
leave_me = b'b' ∷ b'a' ∷ b'j' ∷ b'a' ∷ []

abbrev pub later_env : Env
later_env = record simple_env { now = 3000000000 }

abbrev pub gone_lead : Lead
gone_lead = record new_lead { state = opted_out }

abbrev pub handed_lead : Lead
handed_lead = record new_lead { state = human_handoff; handoff_at = some 900000 }

abbrev pub named_lead : Lead
named_lead = record new_lead { name = some "Eva"; greeted_at = some 5 }

abbrev pub old_lead : Lead
old_lead = record new_lead { last_message_at = some 5; state = search_match }

abbrev pub visit_lead : Lead
visit_lead = record new_lead { f_operation = some rent; state = commercial_qualification }

abbrev pub no_operation : LeadFilters
no_operation = record (merge_filters (current_filters_from new_lead) rent_extraction) {
  f_operation = none;
}
