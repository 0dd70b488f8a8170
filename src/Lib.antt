-- ===== src/Lib.antt =====
-- inmoagent: a WhatsApp assistant of a real-estate agency. A lead writes, the texts of a burst
-- are joined to one turn, and the conversation engine answers the turn: guardrails first, then the
-- language model extracts what the lead said, the handler of the lead's state decides what to
-- reply, the replies are queued and the lead's row is stored.
--
-- Files, and the code that each is about (paths from the repository's root):
--   Prelude, Prelude/*        Boolean tests, lists and lookups over native numbers, sorting, trimming,
--                             signed integers (Prelude.Int); no code of the repository
--   Domain/*                  prisma/schema.prisma and the ExtractionResult of src/llm: the rows and
--                             the enumerations, with the fields that the conversation reads
--   Properties/Table          the property table behind Prisma, as a parameter: a record of answers
--                             to the queries, with the laws of a query that the code relies on
--   Properties/Search, /Zones src/properties/property-search.service.ts and zone-adjacency.ts;
--                             Search.search is PropertySearchService.search, and so on by name
--   Conversation/Types        src/conversation/conversation.types.ts; the texts of templates.ts are
--                             constructors, one for each builder, so wording is not modelled
--   Conversation/Filters, Score, Release, Guardrails, SafeReply
--                             the utilities and services of the same names in src/conversation
--   Conversation/World        what a turn reads from outside (Env) and what it changes (World), with
--                             LeadAlertService.notify and AppointmentsService.propose
--   Conversation/Handlers/*   src/conversation/handlers, one module for each state's handler
--   Conversation/Engine, /*   src/conversation/conversation.engine.ts: Engine.handle_turn is handleTurn,
--                             Guarding is resolveGuardrail, Sending is sendActions and sendTexts,
--                             Persist is persistLeadUpdate
--   Regex, Regex/*            regular expressions as JavaScript runs them, over UTF-16 units; Regex.Spec is
--                             what a pattern means, to which Regex.Exact compares the search
--   Conversation/Rules, /*    the patterns of src/conversation: filters.util.ts, buying-signals.util.ts,
--                             guardrails.service.ts and output-validator.service.ts; Rules.Source puts
--                             them in place of the engine's parameter TextRules
--   Conversation/Variants     src/conversation/copy-variants.util.ts
--   Pipeline/Store, Debounce  src/pipeline/debounce-buffer.service.ts: what Redis and the queue keep for
--                             one lead, and each method as a function on it; Store.Services are the
--                             commands of Redis and BullMQ, with the laws that they are documented to have
--   Pipeline/System           the same methods command by command, interleaved; Exclusive, Conserved,
--                             Flush and Stranded are about its runs
--   Pipeline/Processor, Burst src/pipeline/inbound.processor.ts, up to the turn of the engine
--   Admin/Csv, /RoundTrip     src/admin/properties/csv-parser.util.ts
--   Admin/Appointments, /*    src/admin/appointments/appointments-admin.service.ts, and in Slots and
--                             confirm_public src/appointments/appointments.service.ts; a request is
--                             handle_request, with what others do between its queries as functions
--   Admin/Messaging, /Effects src/admin/leads/admin-lead-messaging.service.ts and service-window.util.ts
--   Admin/Import, /Accounts   src/admin/properties/csv-import.service.ts
--   Properties/Levenshtein, Neighborhoods
--                             src/properties/neighborhoods.ts
--   Llm/Sanitize, /Clean      sanitizeExtraction of src/llm/extraction.schema.ts
--   Admin/Leads, /Isolated    src/admin/leads/admin-leads.service.ts: the actions of an agency on a lead
--   Admin/Catalog, /Upsert    src/admin/properties/properties-admin.service.ts, without the
--                             storage of photos and the lists
--   Auth/Login, Window        src/auth/login-rate-limiter.service.ts and login of auth.service.ts
--   Auth/People, /*           src/auth/people.service.ts over the tables of people and sessions; a
--                             unique key of the schema is violates_unique, and People.Requests joins
--                             the service with login and logout
--   Auth/Guards, /*           the guards of src/auth and src/admin: person_or_api_key_guard and the rest
--                             are canActivate of the classes of those names
--   Webhook, Webhook/*        src/webhook: webhook.service.ts over the tables and the queue of
--                             Webhook.Store, the guard of signatures, and Webhook.Calendly
--   Messaging, Messaging/*    src/messaging: the processor of the outbound queue and the client of the
--                             Graph API, run_job being the attempts that the queue makes
--   Tests/*                   concrete inputs and the theorems at them
--
-- How the parts interact: handle_turn takes an Env and a World and gives the next World. The World
-- holds the lead's row, the appointments, the messages queued, the alerts, the pushes and the property
-- views. Handlers take the World and give a result and the World; what the code reads back from the
-- database after the handler is the lead of that World.
--
-- Numbers: prices, turns and times in milliseconds are natural numbers; a difference that the code
-- compares with a limit is written as a sum. The score is summed over signed integers, as a guarantee
-- can be -15. A price bound is kept in hundredths, since the code multiplies by 1.1, 1.25 and 1.5.
-- Texts of a turn are lists of UTF-16 units. A repetition in a pattern recurs on the number of units
-- left, which is enough since every round that is tried takes one; all other loops are recursions over
-- a list. `uninterrupted` follows a run of tryFlush for six commands, which is its length.
-- The loop over the free slots runs on fuel, one round for each half hour of the working day. A job of
-- the outbound queue has five attempts, the number in RETRY_JOB_OPTIONS. The times and the ids that the
-- database gives to what it writes are arguments (Fresh in Admin.Catalog).
--
-- Failures: in Webhook, without Webhook.Calendly, and in Messaging every call of the database, of the
-- queue and of the Graph API may throw. A list of answers says which call does, and what was written
-- before it stays. In Auth and Admin the database answers every call, but for the queueing of a
-- manual message and its undoing (Admin.Messaging), and a transaction is one step.
--
-- Not modelled: the wording of templates and prompts, the language model, the routes that take over or
-- delete a lead, tenants' administration, metrics, push subscriptions, the storage of photos, media and
-- transcription, the scripts and the web panel: wording, calls of services outside the repository, or
-- screens. Removing accents and changing the case of a text, and reading a number, are parameters. The
-- flag `i` of an expression is modelled for the letters of ASCII and Latin-1. The lock's expiry after 60
-- seconds and the purge of a lead are not steps of Pipeline.System. Each turn is one step of the engine:
-- two turns of one lead do not overlap, which the lock of the pipeline is there for.
pub mod Messaging
pub mod Webhook
pub mod Llm
pub mod Auth
pub mod Admin
pub mod Pipeline
pub mod Regex
pub mod Tests
pub mod Prelude
pub mod Domain
pub mod Properties
pub mod Conversation
