-- ===== src/Conversation/Score.antt =====
-- src/conversation/lead-score.util.ts. `fMaxPrice` is an object, a Decimal of Prisma, and so true as a
-- condition even where its value is 0: it counts as declared exactly if it is not null.
pub mod Laws
use inmoagent.Prelude.{
  ℕ, String, Bool, true, false, ◌&&◌, Option, none, some, List, [], ◌∷◌, leb, if◌then◌else◌,
  is_some, is_nonempty, truthy, lookup, or_value,
}
use inmoagent.Prelude.Int.{ℤ, pos, negsuc, ◌+ℤ◌, clamp}
use inmoagent.Domain.Property.{OperationType, sale, rent}
use inmoagent.Domain.Lead.{Lead}

pub data LeadScoreLabel : Type 0 where
  frio tibio caliente : LeadScoreLabel

pub record LeadScoreResult : Type 0 where
  pub score : ℕ
  pub label : LeadScoreLabel

-- SCORE_WEIGHTS
abbrev pub showed_interest : ℤ
showed_interest = pos 30

abbrev pub timeline_weights : List (String × ℤ)
timeline_weights =
    ("inmediato", pos 25)
    ∷ ("1-3 meses", pos 15)
    ∷ ("3-6 meses", pos 5)
    ∷ ("explorando", pos 0)
    ∷ []

abbrev pub payment_method_weights : List (String × ℤ)
payment_method_weights = ("contado", pos 25) ∷ ("credito", pos 10) ∷ ("mixto", pos 10) ∷ []

-- `no_tiene` is -15
abbrev pub guarantee_weights : List (String × ℤ)
guarantee_weights =
    ("propietaria", pos 20)
    ∷ ("caucion", pos 20)
    ∷ ("recibo", pos 10)
    ∷ ("no_tiene", negsuc 14)
    ∷ []

abbrev pub hot_threshold : ℕ
hot_threshold = 60

abbrev pub warm_threshold : ℕ
warm_threshold = 30

abbrev pub max_score : ℕ
max_score = 100

unfoldable pub label_for : ℕ → LeadScoreLabel
label_for score =
    if leb hot_threshold score then caliente else if leb warm_threshold score then tibio else frio

abbrev pub is_sale : Option OperationType → Bool
is_sale (some sale) = true
is_sale _ = false

abbrev pub is_rent : Option OperationType → Bool
is_rent (some rent) = true
is_rent _ = false

-- `if (b) score += weight`
abbrev pub gain : Bool → ℤ → ℤ
gain b weight = if b then weight else pos 0

-- `weights[value] ?? 0`
unfoldable pub weight_of : List (String × ℤ) → Option String → ℤ
weight_of weights none = pos 0
weight_of weights (some value) = or_value (lookup value weights) (pos 0)

-- The sum before it is clamped.
unfoldable pub raw_score : Lead → ℤ
raw_score lead =
    gain (is_nonempty lead.q_asked_fields) showed_interest
    +ℤ gain (truthy lead.q_timeline) (weight_of timeline_weights lead.q_timeline)
    +ℤ gain (is_sale lead.f_operation && truthy lead.q_payment_method)
        (weight_of payment_method_weights lead.q_payment_method)
    +ℤ gain (is_rent lead.f_operation && truthy lead.q_guarantee)
        (weight_of guarantee_weights lead.q_guarantee)
    +ℤ gain (is_some lead.q_buying_signal_at) (pos 15)
    +ℤ gain (truthy lead.name) (pos 5)
    +ℤ gain (is_some lead.f_max_price) (pos 5)

unfoldable pub calculate_lead_score : Lead → LeadScoreResult
unfolding raw_score
calculate_lead_score lead =
    let clamped = clamp max_score (raw_score lead) in
    record { score = clamped; label = label_for clamped }
