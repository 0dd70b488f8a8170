-- ===== src/Conversation/Engine/Sending.antt =====
-- `sendActions`, `sendTexts` and `recordPropertyView` of conversation.engine.ts.
use inmoagent.Prelude.{
  ℕ, ◌+◌, String, Bool, true, false, ◌&&◌, none, some, List, [], ◌∷◌, ◌++◌, map, if◌then◌else◌,
  str_eq, is_empty, get_elem?,
}
use inmoagent.Domain.Property.{Property}
use inmoagent.Domain.Lead.{Lead, Tenant}
use inmoagent.Conversation.Types.{
  Text, no_text, llm_reply, joined, formal, OutgoingAction, text, property,
}
use inmoagent.Conversation.World.{
  Env, World, Caption, Sent, sent_text, sent_caption, sent_image, PropertyView,
}
use inmoagent.Conversation.SafeReply.{is_property_whitelisted}

-- Whether a text is "": only a reply of the model can be.
unfoldable pub is_blank : Text → Bool
is_blank no_text = true
is_blank (llm_reply units) = is_empty units
is_blank (joined a b) = is_blank a && is_blank b
is_blank (formal t) = is_blank t
is_blank _ = false

unfoldable pub apply_formality : Text → String → Text
apply_formality t formality = if str_eq formality "formal" then formal t else t

-- The upsert of `recordPropertyView`.
unfoldable pub record_view : ℕ → String → List PropertyView → List PropertyView
record_view now id [] = record { property_id = id; times_shown = 1; last_shown_at = now } ∷ []
record_view now id (v ∷ views) =
    if str_eq v.property_id id
    then record v { times_shown = v.times_shown + 1; last_shown_at = now } ∷ views
    else v ∷ record_view now id views

abbrev pub queue : Sent → World → World
queue message w = record w { sent = w.sent ++ message ∷ [] }

-- What is queued for a property that passed the whitelist: a picture if there is one.
unfoldable pub property_message : Property → Caption → Sent
property_message p caption = elim (get_elem? p.photos 0) [
  | none ↦ sent_caption caption
  | some url ↦ sent_image url caption
]

-- One round of the loop of `sendActions`; `lead` is the row read before it.
unfoldable pub send_action : Env → Tenant → Lead → OutgoingAction → World → World
send_action env tenant lead (text t) w =
    if is_blank t then w else queue (sent_text (apply_formality t tenant.bot_formality)) w
send_action env tenant lead (property p index filters) w =
    let caption : Caption = record {
      of_property = p;
      index = index;
      filters = filters;
      is_formal = str_eq tenant.bot_formality "formal";
    } in
    let w₁ : World = queue (property_message p caption) w in
    if is_property_whitelisted p.id lead.last_search_ids
    then record w₁ { views = record_view env.now p.id w₁.views }
    else w

unfoldable pub send_actions : Env → Tenant → Lead → List OutgoingAction → World → World
send_actions env tenant lead [] w = w
send_actions env tenant lead (action ∷ rest) w =
    send_actions env tenant lead rest (send_action env tenant lead action w)

unfoldable pub send_texts : Env → Tenant → Lead → List Text → World → World
send_texts env tenant lead texts w = send_actions env tenant lead (map text texts) w
