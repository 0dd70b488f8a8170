-- ===== src/Conversation/Score/Laws.antt =====
-- What the score can be, and what it reads.
use inmoagent.Prelude.{ℕ, ◌≤◌, ◌<◌, Option, none, some, ◌≡◌, ◌↔◌, arith, is_some}
use inmoagent.Prelude.Int.{ℤ, pos, ◌≤ℤ◌, ≤ℤ_refl, ◌+ℤ◌, +ℤ_mono, clamp, clamp_mono}
use inmoagent.Domain.Lead.{Lead}
use inmoagent.Conversation.Score.{frio, caliente, gain, label_for, calculate_lead_score}

gain_le : (signal : Option ℕ) → gain (is_some signal) (pos 15) ≤ℤ pos 15
gain_le none = omega arith
gain_le (some at) = omega arith

-- The score is at most 100; a lead is hot exactly from 60 points on, and cold exactly below 30.
pub calculate_lead_score_bounds :
    (lead : Lead)
    → let result = calculate_lead_score lead in
      (result.score ≤ 100)
      × ((result.label ≡ caliente) ↔ (60 ≤ result.score))
      × ((result.label ≡ frio) ↔ (result.score < 30))
unfolding calculate_lead_score label_for
calculate_lead_score_bounds lead = (omega arith, ground arith, ground arith)

-- The eight fields that the score reads.
pub record SameScored (a b : Lead) : Type 0 where
  pub name : a.name ≡ b.name
  pub operation : a.f_operation ≡ b.f_operation
  pub max_price : a.f_max_price ≡ b.f_max_price
  pub asked : a.q_asked_fields ≡ b.q_asked_fields
  pub timeline : a.q_timeline ≡ b.q_timeline
  pub guarantee : a.q_guarantee ≡ b.q_guarantee
  pub payment : a.q_payment_method ≡ b.q_payment_method
  pub signal : a.q_buying_signal_at ≡ b.q_buying_signal_at

pub calculate_lead_score_cong :
    (a b : Lead) → SameScored a b → calculate_lead_score a ≡ calculate_lead_score b
unfolding calculate_lead_score
calculate_lead_score_cong a b s =
    rw (s.name, s.operation, s.max_price, s.asked, s.timeline, s.guarantee, s.payment, s.signal)

raise_le :
    (a b c s : ℤ) → s ≤ℤ pos 15 → clamp 100 (a +ℤ s +ℤ b +ℤ c) ≤ clamp 100 (a +ℤ pos 15 +ℤ b +ℤ c)
raise_le a b c s h = clamp_mono 100 (a +ℤ s +ℤ b +ℤ c) (a +ℤ pos 15 +ℤ b +ℤ c) (
    +ℤ_mono (a +ℤ s +ℤ b) (a +ℤ pos 15 +ℤ b) c c
      (+ℤ_mono (a +ℤ s) (a +ℤ pos 15) b b (+ℤ_mono a a s (pos 15) (≤ℤ_refl a) h) (≤ℤ_refl b))
      (≤ℤ_refl c))

-- A buying signal never lowers the score.
pub buying_signal_raises :
    (lead : Lead) (at : ℕ)
    → let signalled : Lead = record lead { q_buying_signal_at = some at } in
      (calculate_lead_score lead).score ≤ (calculate_lead_score signalled).score
unfolding calculate_lead_score
buying_signal_raises lead at = raise_le _ _ _ _ (gain_le (lead.q_buying_signal_at))
