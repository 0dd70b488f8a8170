-- ===== src/Messaging/Graph.antt =====
-- src/messaging/meta-graph.client.ts: the payloads, and one post.
use inmoagent.Prelude.{
  ℕ, String, Bool, true, false, ◌&&◌, Option, none, some, List, [], ◌∷◌, ◌++◌, if◌then◌else◌, leb,
  ◌==◌, length,
}
use inmoagent.Regex.{codes}
use inmoagent.Auth.Guards.{after_prefix}

abbrev pub Units : Type 0
Units = List ℕ

-- The bodies of the requests: the recipient first, where there is one.
pub data Payload : Type 0 where
  text_message : Units → Units → Payload
  image_message : Units → String → Option Units → Payload
  template_message : Units → String → String → List Units → Payload
  read_mark : String → Payload

-- How a post ends: with no answer, where the provider may have got it or not; with an error; or
-- accepted, with an id or without.
pub data Answer : Type 0 where
  no_answer : Bool → Answer
  rejected : Answer
  accepted : Option String → Answer

abbrev pub is_digit : ℕ → Bool
is_digit c = leb b'0' c && leb c b'9'

abbrev pub all_digits : Units → Bool
all_digits [] = true
all_digits (c ∷ s) = is_digit c && all_digits s

-- AR_MOBILE_WA_ID: the subscriber's eight digits behind 54911.
unfoldable pub ar_subscriber : Units → Option Units
unfolding after_prefix
ar_subscriber to = elim (after_prefix (codes "54911") to) [
  | none ↦ none
  | some rest ↦ if length rest == 8 && all_digits rest then some rest else none
]

unfoldable pub resolve_recipient : Bool → Units → Units
unfolding ar_subscriber
resolve_recipient is_sandbox to = elim (ar_subscriber to) [
  | none ↦ to
  | some subscriber ↦ if is_sandbox then codes "541115" ++ subscriber else to
]

-- Whether the provider got it, and the id of the result, `none` where the post throws.
unfoldable pub outcome_of : Answer → Bool × Option String
outcome_of (no_answer got) = (got, none)
outcome_of rejected = (false, none)
outcome_of (accepted none) = (true, some "")
outcome_of (accepted (some id)) = (true, some id)
