-- ===== src/Webhook/Calendly.antt =====
-- `handleCalendlyPayload` of src/webhook/webhook.service.ts, and the endpoint in webhook.controller.ts.
use inmoagent.Prelude.{
  ℕ, String, Bool, true, false, not, ◌&&◌, ◌||◌, Option, none, some, List, [], ◌∷◌, ◌++◌, filter,
  is_nonempty, leb, ltb, or_value, str_eq, trim, if◌then◌else◌,
}
use mathlib.Core.Option
use inmoagent.Regex.{codes}
use inmoagent.Properties.Neighborhoods.{units_eq, includes_units}
use inmoagent.Domain.Lead.{AppointmentStatus, proposed, confirmed}

abbrev pub Units : Type 0
Units = List ℕ

-- A lead of any tenant, as the query sees it.
pub record LeadRow : Type 0 where
  pub id : String
  pub tenant_id : String
  pub phone : Units
  pub f_notes : Option Units

pub record AppointmentRow : Type 0 where
  pub id : String
  pub lead_id : String
  pub tenant_id : String
  pub status : AppointmentStatus
  pub created_at : ℕ
  pub scheduled_at : Option ℕ
  pub notes : Option Units
  pub assigned_user_id : Option String

-- `CalendlyPayload`, of which any part may be missing.
pub record Payload : Type 0 where
  pub event : Units
  pub email : Option Units
  pub text_reminder_number : Option Units
  pub phone : Option Units
  pub start_time : Option ℕ
  pub name : Option Units

abbrev pub is_filled : Option Units → Bool
is_filled none = false
is_filled (some s) = is_nonempty s

abbrev pub is_digit : ℕ → Bool
is_digit c = leb b'0' c && leb c b'9'

-- `replace(/[^0-9]/g, '')`
unfoldable pub digits_of : Units → Units
digits_of s = filter is_digit s

-- `invitee?.text_reminder_number || invitee?.phone`
abbrev pub phone_of : Payload → Option Units
phone_of payload =
    if is_filled payload.text_reminder_number then payload.text_reminder_number else payload.phone

-- The condition on a lead: one of those that there are.
unfoldable pub matches_email : Option Units → LeadRow → Bool
unfolding includes_units
matches_email none lead = false
matches_email (some email) lead =
    is_nonempty email
    && elim lead.f_notes [ none ↦ false | some notes ↦ includes_units email notes ]

unfoldable pub matches_phone : Option Units → LeadRow → Bool
unfolding includes_units digits_of
matches_phone none lead = false
matches_phone (some phone) lead = is_nonempty phone && includes_units (digits_of phone) lead.phone

-- `findFirst` without an order: the first that the database meets.
unfoldable pub find_lead : Option Units → Option Units → List LeadRow → Option LeadRow
unfolding matches_email matches_phone
find_lead email phone [] = none
find_lead email phone (l ∷ leads) =
    if matches_email email l || matches_phone phone l then some l else find_lead email phone leads

abbrev pub is_proposed : AppointmentStatus → Bool
is_proposed proposed = true
is_proposed _ = false

abbrev pub is_open_of : String → AppointmentRow → Bool
is_open_of lead_id a = str_eq a.lead_id lead_id && is_proposed a.status

-- The latest of those: of two of one time the first.
abbrev pub later_of : AppointmentRow → Option AppointmentRow → AppointmentRow
later_of a none = a
later_of a (some b) = if ltb a.created_at b.created_at then b else a

unfoldable pub last_proposed : String → List AppointmentRow → Option AppointmentRow
last_proposed lead_id [] = none
last_proposed lead_id (a ∷ table) =
    let rest = last_proposed lead_id table in
    if is_open_of lead_id a then some (later_of a rest) else rest

-- `appointment.update({ where: { id } })`
unfoldable pub confirm_row : String → ℕ → Units → List AppointmentRow → List AppointmentRow
confirm_row id start notes [] = []
confirm_row id start notes (a ∷ table) =
    (if str_eq a.id id
      then record a { status = confirmed; scheduled_at = some start; notes = some notes }
      else a)
    ∷ confirm_row id start notes table

abbrev pub note_of : Option Units → Units
note_of name =
    codes "Confirmado vía Calendly por "
    ++ (if is_filled name then or_value name [] else codes "Cliente")

unfoldable pub confirm_last :
    ℕ → Payload → LeadRow → List AppointmentRow → Bool × List AppointmentRow
unfolding last_proposed confirm_row
confirm_last now payload lead table = elim (last_proposed lead.id table) [
  | none ↦ (false, table)
  | some a ↦ (true, confirm_row a.id (or_value payload.start_time now) (note_of payload.name) table)
]

-- The answer, and the appointments.
unfoldable pub handle_calendly_payload :
    (Units → Units) → ℕ → Payload → List LeadRow → List AppointmentRow → Bool × List AppointmentRow
unfolding units_eq find_lead confirm_last
handle_calendly_payload to_lower_case now payload leads table =
    let email = Option.map (λ (s : Units). trim (to_lower_case s)) payload.email in
    let phone = phone_of payload in
    if not (units_eq payload.event (codes "invitee.created"))
    then (false, table)
    else if not (is_filled email) && not (is_filled phone)
    then (false, table)
    else elim (find_lead email phone leads) [
      | none ↦ (false, table)
      | some lead ↦ confirm_last now payload lead table
    ]
