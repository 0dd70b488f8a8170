-- ===== src/Tests/Panel.antt =====
-- Requests of the panel about leads and properties, at concrete inputs.
use inmoagent.Prelude.{ℕ, map, ◌==◌, if◌then◌else◌, true, ◌≡◌, refl, none, some, [], ◌∷◌}
use inmoagent.Regex.{codes}
use inmoagent.Domain.Property.{sale}
use inmoagent.Domain.Lead.{human_handoff}
use inmoagent.Admin.Import.{PropertyInput}
use inmoagent.Admin.Leads.{LeadRow, Panel, release, handle_lead_action}
use inmoagent.Admin.Leads.Isolated.{Rowwise, Moved, handle_lead_action-Moved}
use inmoagent.Admin.Catalog.{Fresh, upsert_by_external_ref}
use inmoagent.Admin.Catalog.Upsert.{shown, upsert_by_external_ref-twice}
use inmoagent.Tests.Data.{new_lead}

abbrev waiting : LeadRow
waiting = record {
  lead = record new_lead { state = human_handoff; handoff_at = some 3 };
  contacted_at = none;
  next_action_at = none;
  assigned_user_id = none;
}

abbrev panel : Panel
panel = record { leads = waiting ∷ []; notes = []; people = [] }

handle_lead_action-Moved_example :
    Rowwise
      (Moved 9 new_lead.tenant_id new_lead.id)
      panel.leads
      (handle_lead_action 9 new_lead.tenant_id new_lead.id release panel).1.leads
handle_lead_action-Moved_example =
    handle_lead_action-Moved 9 new_lead.tenant_id new_lead.id release panel (refl, tt)

abbrev flat : PropertyInput ℕ
flat = record {
  external_ref = codes "A1";
  title = codes "Depto";
  description = none;
  operation = sale;
  property_type = codes "departamento";
  price = 100000;
  currency = none;
  expenses = none;
  neighborhood = codes "palermo";
  city = none;
  address = none;
  rooms = some 2;
  bedrooms = none;
  bathrooms = none;
  area_m2 = none;
  garage = none;
  pets_allowed = some true;
  features = none;
  listing_url = none;
  photo_urls = some (codes "u1" ∷ codes "u2" ∷ []);
}

abbrev first_time : Fresh
first_time = record { now = 10; id = "i1"; photo_id = λ n. if n == 0 then "f1" else "f2" }

abbrev second_time : Fresh
second_time = record { now = 20; id = "i2"; photo_id = λ n. if n == 0 then "f3" else "f4" }

upsert_by_external_ref-twice_example :
    map shown (
      upsert_by_external_ref
        (λ s. s)
        "t1"
        second_time
        flat
        (upsert_by_external_ref (λ s. s) "t1" first_time flat []))
    ≡ map shown (upsert_by_external_ref (λ s. s) "t1" first_time flat [])
upsert_by_external_ref-twice_example =
    upsert_by_external_ref-twice (λ s. s) "t1" flat first_time second_time []
