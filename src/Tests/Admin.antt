-- ===== src/Tests/Admin.antt =====
-- The panel at concrete inputs.
use inmoagent.Prelude.{
  ℕ, true, false, not, ◌≡◌, refl, List, [], ◌∷◌, filter, trim, trim_start, trim_end, is_space, none,
  some, str_eq, if◌then◌else◌,
}
use inmoagent.Regex.{codes}
use inmoagent.Domain.Lead.{Appointment, proposed, confirmed, cancelled}
use inmoagent.Pipeline.Store.{Store, absent}
use inmoagent.Pipeline.Documented.{documented, documented-IsDocumented}
use inmoagent.Admin.Appointments.{Request, cancel, handle_request, find_proposed}
use inmoagent.Admin.Appointments.Machine.{Refines, find_by_id, handle_request-Refines}
use inmoagent.Admin.Appointments.Slots.{Calendar}
use inmoagent.Admin.Messaging.{Send, Desk, send_manual}
use inmoagent.Admin.Messaging.Effects.{Leaves, send_manual-Leaves}
use inmoagent.Tests.Data.{agency, new_lead}
use inmoagent.Admin.Csv.{is_blank_row, parse_csv, scan, close_row, replace_cr, replace_crlf}
use inmoagent.Admin.Csv.RoundTrip.{print_csv, parse_csv-print_csv}

abbrev small_table : List (List (List ℕ))
small_table =
    (codes "a,b" ∷ codes "say \"hi\"" ∷ []) ∷ (codes " " ∷ []) ∷ (codes "" ∷ codes "2" ∷ []) ∷ []

parse_csv-print_csv_example :
    parse_csv (print_csv small_table) ≡ filter (λ r. not (is_blank_row r)) small_table
parse_csv-print_csv_example =
    parse_csv-print_csv small_table (refl, (refl, (refl, tt)))
      (
        (
          (refl, (refl, (refl, tt))),
          ((refl, (refl, (refl, (refl, (refl, (refl, (refl, (refl, tt)))))))), tt),
        ),
        (((refl, tt), tt), ((tt, ((refl, tt), tt)), tt)),
      )

-- Without quotation marks, with a carriage return before each line feed and no last line end.
plain_table :
    parse_csv (codes "a,b\r\nc,\r\n\r\nd")
    ≡ (codes "a" ∷ codes "b" ∷ []) ∷ (codes "c" ∷ [] ∷ []) ∷ (codes "d" ∷ []) ∷ []
unfolding parse_csv scan close_row replace_cr replace_crlf is_blank_row trim trim_start trim_end
    is_space
plain_table = refl

abbrev visit : Appointment
visit = record {
  id = "a1";
  tenant_id = "t1";
  lead_id = "l1";
  property_id = none;
  status = confirmed;
  scheduled_at = some 600;
  assigned_user_id = none;
  outcome = none;
  notes = none;
}

abbrev open_visit : Appointment
open_visit = record visit { status = proposed; scheduled_at = none }

abbrev cancel_request : Request
cancel_request = record {
  action = cancel;
  scheduled_at = 0;
  assigned_user_id = none;
  outcome = none;
  notes = some (some "no");
}

abbrev alone : List Appointment → List Appointment
alone table = table

-- another request closes the visit in between
abbrev closed : List Appointment → List Appointment
closed table = record visit { status = cancelled } ∷ []

handle_request-Refines_example :
    Refines "t1" "a1" closed alone
      (visit ∷ [])
      (handle_request (λ user. true) "t1" "a1" cancel_request closed alone (visit ∷ []))
handle_request-Refines_example =
    handle_request-Refines (λ user. true) "t1" "a1" cancel_request closed alone (visit ∷ [])

open_visit_found : find_proposed "a1" (open_visit ∷ []) ≡ some open_visit
unfolding find_proposed
open_visit_found = refl

found_again :
    find_by_id "a1" (closed (open_visit ∷ [])) ≡ some (record visit { status = cancelled })
found_again = refl

abbrev morning : Calendar
morning = record {
  start_of_day = 0;
  end_of_day = 1439;
  minute_of = λ at. at;
  read_time = λ s. if str_eq s "10:00" then 600 else 660;
}

abbrev note : Send
note = record {
  person_id = "p1";
  text = codes "hola";
  tenant = some agency;
  last_inbound_at = some 900;
  now = 1000;
  new_id = "m9";
  is_queued = true;
  is_deleted = true;
  before_tx = λ d. d;
}

abbrev desk : Desk
desk = record { lead = some new_lead; messages = []; jobs = [] }

abbrev free_store : Store
free_store = record { buffer = []; lock = false; turn = absent; retry = absent }

send_manual-Leaves_example :
    let (result, d', store') = send_manual documented note free_store desk in
    Leaves note new_lead.phone desk (note.before_tx desk) result d' × (store' ≡ free_store)
send_manual-Leaves_example =
    send_manual-Leaves documented documented-IsDocumented note free_store desk new_lead refl tt
