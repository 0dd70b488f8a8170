-- ===== src/Conversation/Handlers/Commercial/Questions.antt =====
-- Which commercial question is asked, and that the questions come to an end.
use inmoagent.Prelude.{
  ◌≤◌, ◌<◌, true, false, ◌||◌, Option, none, some, List, [], ◌∷◌, ◌≡◌, ◌⊎◌, inl, inr, arith, leb,
  Bool-cases, length, Elem, All,
}
use inmoagent.Domain.Property.{OperationType}
use inmoagent.Domain.Lead.{CommercialField}
use inmoagent.Conversation.Handlers.Commercial.{
  question_order, CommercialFields, is_answered, was_asked, first_open, next_field_to_ask,
}

-- A field that may be asked: in the operation's order, not asked and not answered.
pub record IsOpen (order asked : List CommercialField) (c : CommercialFields)
    (field : CommercialField) : Type 0 where
  pub listed : Elem field order
  pub unasked : was_asked asked field ≡ false
  pub unanswered : is_answered c field ≡ false

first_open_sound :
    (c : CommercialFields) (asked order : List CommercialField) (field : CommercialField)
    → first_open c asked order ≡ some field
    → IsOpen order asked c field
unfolding first_open
first_open_sound c asked [] field h = cc
first_open_sound c asked (x ∷ rest) field h =
    elim (Bool-cases (was_asked asked x || is_answered c x)) [
      | inl skip ↦
          let r = first_open_sound c asked rest field (rw skip at h) in
          record { listed = inr r.listed; unasked = r.unasked; unanswered = r.unanswered }
      | inr take ↦ record {
        listed = inl (ground arith);
        unasked = ground arith;
        unanswered = ground arith;
      }
    ]

first_open_complete :
    (c : CommercialFields) (asked order : List CommercialField)
    → first_open c asked order ≡ none
    → All (λ field. (was_asked asked field ≡ true) ⊎ (is_answered c field ≡ true)) order
unfolding first_open
first_open_complete c asked [] h = tt
first_open_complete c asked (x ∷ rest) h =
    elim (Bool-cases (was_asked asked x || is_answered c x)) [
      | inl skip ↦ (ground arith, first_open_complete c asked rest (rw skip at h))
      | inr take ↦ cc (rw take at h)
    ]

-- A question is one of the operation's, was not asked before and is not answered, and fewer than
-- two have been asked.
pub next_field_to_ask_sound :
    (operation : Option OperationType) (c : CommercialFields) (asked : List CommercialField)
    (field : CommercialField)
    → next_field_to_ask operation c asked ≡ some field
    → IsOpen (question_order operation) asked c field × (length asked < 2)
unfolding next_field_to_ask
next_field_to_ask_sound operation c asked field h = elim (Bool-cases (leb 2 (length asked))) [
  | inl full ↦ cc (rw full at h)
  | inr room ↦ (first_open_sound c asked _ field (rw room at h), ground arith)
]

-- No question is asked only if two have been asked, or each of the operation's was asked before or
-- is answered.
pub next_field_to_ask_complete :
    (operation : Option OperationType) (c : CommercialFields) (asked : List CommercialField)
    → next_field_to_ask operation c asked ≡ none
    → (2 ≤ length asked)
      ⊎ All
          (λ field. (was_asked asked field ≡ true) ⊎ (is_answered c field ≡ true))
          (question_order operation)
unfolding next_field_to_ask
next_field_to_ask_complete operation c asked h = elim (Bool-cases (leb 2 (length asked))) [
  | inl full ↦ inl (ground arith)
  | inr room ↦ inr (first_open_complete c asked _ (rw room at h))
]
