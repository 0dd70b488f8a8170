-- ===== src/Admin/Appointments/Slots.antt =====
-- `getAvailableSlots` of src/appointments/appointments.service.ts. Times are minutes of the tenant's
-- day; the day's limits, and the reading of a date's minutes and of "09:00", are the parameters of
-- the calendar.
use inmoagent.Prelude.{
  ℕ, zero, suc, ◌+◌, ◌*◌, ◌<◌, String, Bool, true, false, ◌&&◌, ◌||◌, ◌≡◌, ◌↔◌, Option, none, some,
  List, [], ◌∷◌, ltb, leb, ◌==◌, str_eq, if◌then◌else◌, Elem,
}
use inmoagent.Domain.Lead.{Appointment, AppointmentStatus, confirmed}

pub record Calendar : Type 0 where
  pub start_of_day : ℕ
  pub end_of_day : ℕ
  pub minute_of : ℕ → ℕ
  pub read_time : String → ℕ

abbrev pub is_confirmed : AppointmentStatus → Bool
is_confirmed confirmed = true
is_confirmed _ = false

-- a confirmed appointment of the tenant on the day, at exactly this minute
unfoldable pub is_busy : Calendar → String → List Appointment → ℕ → Bool
is_busy cal tenant_id [] minute = false
is_busy cal tenant_id (a ∷ table) minute =
    elim a.scheduled_at [
      | none ↦ false
      | some at ↦
          str_eq a.tenant_id tenant_id
          && is_confirmed a.status
          && leb cal.start_of_day at
          && leb at cal.end_of_day
          && cal.minute_of at == minute
    ]
    || is_busy cal tenant_id table minute

-- The `while` loop on fuel; none means that the fuel ran out.
unfoldable pub slots_from : ℕ → (ℕ → Bool) → ℕ → ℕ → Option (List ℕ)
slots_from zero busy current limit = none
slots_from (suc fuel) busy current limit =
    let rest = slots_from fuel busy (current + 30) limit in
    if ltb current limit
    then elim rest [
      | none ↦ none
      | some slots ↦ some (if busy current then slots else current ∷ slots)
    ]
    else some []

-- `workHoursStart || '09:00'`
abbrev pub time_or : String → String → String
time_or hours default = if str_eq hours "" then default else hours

-- `hours` are the working hours of the tenant, if it is stored.
unfoldable pub get_available_slots :
    Calendar → String → List Appointment → Option (String × String) → ℕ → Option (List ℕ)
unfolding slots_from is_busy
get_available_slots cal tenant_id table none fuel = some []
get_available_slots cal tenant_id table (some (opens, closes)) fuel =
    slots_from fuel (is_busy cal tenant_id table) (cal.read_time (time_or opens "09:00"))
      (cal.read_time (time_or closes "18:00"))

-- On the half-hour grid from `current`, before `limit` and not busy.
abbrev pub IsSlot : (ℕ → Bool) → ℕ → ℕ → ℕ → Type 0
IsSlot busy current limit t = (k : ℕ) × (t ≡ current + 30 * k) × (t < limit) × (busy t ≡ false)

abbrev pub AreSlots : (ℕ → Bool) → ℕ → ℕ → List ℕ → Type 0
AreSlots busy current limit slots = (t : ℕ) → Elem t slots ↔ IsSlot busy current limit t
