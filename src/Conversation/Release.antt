-- ===== src/Conversation/Release.antt =====
-- src/conversation/release-state.util.ts
use inmoagent.Prelude.{is_nonempty, if◌then◌else◌}
use inmoagent.Domain.Lead.{ConversationState, qualification, search_match, Lead}

unfoldable pub resolve_release_state : Lead → ConversationState
resolve_release_state lead =
    if is_nonempty lead.last_search_ids then search_match else qualification
