-- ===== src/Webhook/Buffered.antt =====
-- From a delivered text to the entry that the pipeline buffers for the lead.
use inmoagent.Prelude.{ℕ, false, ◌≡◌, List, ◌∷◌}
use inmoagent.Domain.Lead.{Lead}
use inmoagent.Domain.Lead
use inmoagent.Pipeline.Store.{Store}
use inmoagent.Pipeline.Processor.{Message}
use inmoagent.Pipeline.Processor
use inmoagent.Webhook.Store.{
  Tenant, LeadRow, MessageRow, Call, Db, has_event, breaks_key, upsert_lead,
}
use inmoagent.Webhook.{MetaMessage, row_of}

-- The stored message as the processor reads it.
abbrev pub as_read : ℕ → MessageRow → Message
as_read created_at m = record { id = m.id; body = m.body; type = m.type; created_at = created_at }

abbrev pub lead_of : ℕ → Tenant → MetaMessage → Call → Db → LeadRow
lead_of now tenant message c db = (upsert_lead now c.new_id tenant.id message.from db.leads).0

module _ (now : ℕ) (tenant : Tenant) (message : MetaMessage) (db : Db) (c₁ c₂ c₃ c₄ : Call)
    (calls : List Call) (shape : db.calls ≡ c₁ ∷ c₂ ∷ c₃ ∷ c₄ ∷ calls) (works₁ : c₁.fails ≡ false)
    (works₂ : c₂.fails ≡ false) (works₃ : c₃.fails ≡ false) (works₄ : c₄.fails ≡ false)
    (new : has_event message.id db.events ≡ false)
    (free : breaks_key
        (row_of tenant.id (lead_of now tenant message c₂ db).id message c₃.new_id)
        db.messages
      ≡ false) where
  abbrev pub stored_row : MessageRow
  stored_row = row_of tenant.id (lead_of now tenant message c₂ db).id message c₃.new_id
