-- ===== src/Conversation/Handlers/Greeting/Welcome.antt =====
-- The first reply to a lead carries the greeting with the legal notice.
use inmoagent.Prelude.{true, none, some, ◌≡◌, arith, get_elem?}
use inmoagent.Domain.Extraction.{is_references_seen_listing}
use inmoagent.Conversation.Types.{LeadFilters, HandlerContext, text, greeting_message}
use inmoagent.Conversation.World.{Env, World}
use inmoagent.Conversation.Handlers.Greeting.{handle, handle_unknown, with_greeting}

-- In GREETING, the reply to a lead that was not greeted begins with the greeting and marks the
-- lead as greeted, on every branch of the handler.
pub handle-greets :
    (env : Env) (ctx : HandlerContext) (filters : LeadFilters) (w : World)
    → ctx.lead.greeted_at ≡ none
    → let result = (handle env ctx filters w).0 in
      (get_elem? result.actions 0
        ≡ some (text (greeting_message (is_references_seen_listing ctx.extraction.intent))))
      × (result.mark_greeted ≡ true)
unfolding handle handle_unknown with_greeting
handle-greets env ctx filters w h = ground arith
