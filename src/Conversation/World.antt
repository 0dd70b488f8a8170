-- ===== src/Conversation/World.antt =====
-- What a turn reads from outside (`Env`) and what it changes (`World`): the lead's row, the
-- appointments, the messages queued for WhatsApp, the alerts, the pushes and the property views.
use inmoagent.Prelude.{
  ℕ, String, Bool, ◌&&◌, Option, none, List, [], ◌∷◌, ◌++◌, if◌then◌else◌, truthy,
}
use inmoagent.Domain.Property.{Property}
use inmoagent.Domain.Lead.{Lead, Tenant, Appointment, proposed}
use inmoagent.Domain.Extraction.{ExtractionResult}
use inmoagent.Properties.Table.{Table}
use inmoagent.Conversation.Types.{LeadFilters, Text, Instruction, TextRules}

-- The inventory, the clock, the language model, the validator's expressions, the id that the
-- database gives to a new appointment, and whether it holds an open appointment of the lead.
pub record Env : Type 0 where
  pub table : Table
  pub usd_ars_rate : ℕ
  pub rules : TextRules
  pub now : ℕ
  pub extract_intent : Lead → List ℕ → Option ExtractionResult
  pub compose_reply : Instruction → List ℕ
  pub has_sensitive_data : List ℕ → Bool
  pub has_forbidden_mention : List ℕ → Bool
  pub new_id : String

-- `formatPropertyCaption(property, index, filters)`, made formal or not.
pub record Caption : Type 0 where
  pub of_property : Property
  pub index : ℕ
  pub filters : Option LeadFilters
  pub is_formal : Bool

-- A message queued by `MessagingService`: a text, or a property's caption with or without picture.
pub data Sent : Type 0 where
  sent_text : Text → Sent
  sent_caption : Caption → Sent
  sent_image : String → Caption → Sent

-- The property's parameter of the internal alert, with the day that the lead prefers.
pub data AlertTitle : Type 0 where
  titled only_day : String → AlertTitle
  titled_day : String → String → AlertTitle

-- A row of `LeadPropertyView`, without the snapshots of the property that its creation takes.
pub record PropertyView : Type 0 where
  pub property_id : String
  pub times_shown : ℕ
  pub last_shown_at : ℕ

pub record World : Type 0 where
  pub lead : Lead
  pub appointments : List Appointment
  pub sent : List Sent
  pub alerts : List (Option AlertTitle)
  pub pushes : List String
  pub views : List PropertyView

-- conversation/lead-alert.service.ts
unfoldable pub notify : Tenant → Option AlertTitle → World → World
notify tenant title w =
    if tenant.alerts_enabled && truthy tenant.alert_phone
    then record w { alerts = w.alerts ++ title ∷ [] }
    else w

-- `AppointmentsService.propose`, with the push that it starts
unfoldable pub propose : Env → String → String → Option String → World → World
propose env tenant_id lead_id property_id w =
    let appointment : Appointment = record {
      id = env.new_id;
      tenant_id = tenant_id;
      lead_id = lead_id;
      property_id = property_id;
      status = proposed;
      scheduled_at = none;
      assigned_user_id = none;
      outcome = none;
      notes = none;
    } in
    record w {
      appointments = w.appointments ++ appointment ∷ [];
      pushes = w.pushes ++ env.new_id ∷ [];
    }

-- `prisma.lead.update` of `lastSearchIds`
unfoldable pub set_last_search_ids : List String → World → World
set_last_search_ids ids w = record w { lead = record (w.lead) { last_search_ids = ids } }
