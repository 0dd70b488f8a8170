-- ===== src/Webhook/Signature.antt =====
-- src/webhook/meta-signature.guard.ts, and `verify` of webhook.controller.ts. The keyed hash, the reading
-- of hexadecimal digits and the comparison of buffers are parameters.
use inmoagent.Prelude.{
  ℕ, Bool, true, false, ◌&&◌, ◌≡◌, ◌↔◌, ap, Option, none, some, List, [], ◌++◌, length, ◌==◌, arith,
  if◌then◌else◌, or_value,
}
use inmoagent.Regex.{codes}
use inmoagent.Properties.Neighborhoods.{units_eq}
use inmoagent.Auth.Guards.{Header, absent, single, repeated, after_prefix}

abbrev pub Units : Type 0
Units = List ℕ

pub record Crypto : Type 0 where
  pub hmac_hex : Units → List ℕ → Units
  pub from_hex : Units → List ℕ
  pub timing_safe_equal : List ℕ → List ℕ → Bool

-- What Node's documentation says of buffers of one length.
abbrev pub Compares : Crypto → Type 0
Compares k = (a b : List ℕ) → length a ≡ length b → (k.timing_safe_equal a b ≡ true) ↔ (a ≡ b)

abbrev pub signature_prefix : Units
signature_prefix = codes "sha256="

unfoldable pub has_signature : Crypto → Units → List ℕ → Units → Bool
has_signature k app_secret raw_body received_hex =
    let expected = k.from_hex (k.hmac_hex app_secret raw_body) in
    let received = k.from_hex received_hex in
    length expected == length received && k.timing_safe_equal expected received

-- `canActivate`: false where it throws.
unfoldable pub can_activate : Crypto → Units → Header → Option (List ℕ) → Bool
unfolding after_prefix has_signature
can_activate k app_secret absent raw_body = false
can_activate k app_secret (repeated values) raw_body = false
can_activate k app_secret (single header) none = false
can_activate k app_secret (single header) (some raw_body) =
    elim (after_prefix signature_prefix header) [
      | none ↦ false
      | some received_hex ↦ has_signature k app_secret raw_body received_hex
    ]

abbrev pub is_text : Units → Option Units → Bool
unfolding units_eq
is_text t none = false
is_text t (some s) = units_eq s t

-- The answer to the provider's question whether this is the endpoint: the status and the text.
unfoldable pub verify : Units → Option Units → Option Units → Option Units → ℕ × Units
unfolding units_eq
verify expected_token mode token challenge =
    if is_text (codes "subscribe") mode && is_text expected_token token
    then (200, or_value challenge [])
    else (403, codes "Forbidden")

has_signature_iff :
    (k : Crypto) (app_secret : Units) (raw_body : List ℕ) (received_hex : Units)
    → Compares k
    → (has_signature k app_secret raw_body received_hex ≡ true)
      ↔ (k.from_hex (k.hmac_hex app_secret raw_body) ≡ k.from_hex received_hex)
unfolding has_signature
has_signature_iff k app_secret raw_body received_hex compares =
    let expected = k.from_hex (k.hmac_hex app_secret raw_body) in
    let received = k.from_hex received_hex in
    (
      λ h.
          let same : length expected ≡ length received = ground (arith, h) in
          (compares expected received same).0 (ground (arith, h)),
      λ e.
          let same : length expected ≡ length received = ap length e in
          let equal : k.timing_safe_equal expected received ≡ true =
            (compares expected received same).1 e in
          ground (arith, same, equal),
    )

-- A delivery whose signature header is `sha256=` and a text passes exactly if this text reads as the
-- bytes that the keyed hash of the raw body reads as, under the app's secret.
pub can_activate-signed :
    (k : Crypto) (app_secret received_hex : Units) (raw_body : List ℕ)
    → Compares k
    → (can_activate k app_secret (single (signature_prefix ++ received_hex)) (some raw_body) ≡ true)
      ↔ (k.from_hex (k.hmac_hex app_secret raw_body) ≡ k.from_hex received_hex)
unfolding can_activate
can_activate-signed k app_secret received_hex raw_body compares =
    has_signature_iff k app_secret raw_body received_hex compares
