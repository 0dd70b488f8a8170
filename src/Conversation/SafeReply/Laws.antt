-- ===== src/Conversation/SafeReply/Laws.antt =====
-- What a composed reply can be.
use inmoagent.Prelude.{
  ℕ, zero, suc, ◌+◌, ◌≤◌, false, List, [], ◌∷◌, ◌≡◌, refl, ◌⊎◌, inl, inr, arith, Bool-cases, max,
  or_value, length, length-take, length-trim, take, ltb, leb, if◌then◌else◌,
}
use native.Mathlib.Nat.{le_trans}
use inmoagent.Conversation.Types.{Text, llm_reply, Instruction, without_competitor}
use inmoagent.Conversation.World.{Env}
use inmoagent.Conversation.SafeReply.{last_index_of, truncate_to, truncate, compose}

length-take_le : (n : ℕ) (s : List ℕ) → length (take n s) ≤ length s
length-take_le zero s = omega arith
length-take_le (suc n) [] = omega arith
length-take_le (suc n) (c ∷ s) = omega (arith, length-take_le n s)

cut_le : (n : ℕ) (s : List ℕ) → length (if ltb 0 n then take (n + 1) s else s) ≤ length s
cut_le n s = elim (Bool-cases (ltb 0 n)) [
  | inl h ↦ rw h (length-take_le (n + 1) s)
  | inr h ↦ rw h (omega arith)
]

-- Where `truncate` cuts, 0 for nowhere.
abbrev last_break : List ℕ → ℕ
last_break s = max (or_value (last_index_of 10 10 0 s) 0) (or_value (last_index_of b'.' 32 0 s) 0)

length-truncate_to : (limit : ℕ) (s : List ℕ) → length (truncate_to limit s) ≤ limit
unfolding truncate_to
length-truncate_to limit s = elim (Bool-cases (leb (length s) limit)) [
  | inl short ↦ rw short (ground arith)
  | inr long ↦ rw long (
      le_trans (length-trim _)
        (le_trans (cut_le (last_break (take limit s)) (take limit s)) (length-take limit s)))
]

-- A reply of the model that was checked: no secret and no competitor in it, and cut to 1200 units.
pub record IsChecked (env : Env) (t : Text) : Type 0 where
  pub raw : List ℕ
  pub is_reply : t ≡ llm_reply (truncate raw)
  pub no_secret : env.has_sensitive_data raw ≡ false
  pub no_competitor : env.has_forbidden_mention raw ≡ false
  pub fits : length (truncate raw) ≤ 1200

checked :
    (env : Env) (raw : List ℕ)
    → env.has_sensitive_data raw ≡ false
    → env.has_forbidden_mention raw ≡ false
    → IsChecked env (llm_reply (truncate raw))
unfolding truncate
checked env raw s c = record {
  raw = raw;
  is_reply = refl;
  no_secret = s;
  no_competitor = c;
  fits = length-truncate_to 1200 raw;
}

-- A composed text is the caller's fallback, or a reply of the language model with no secret and no
-- competitor in it, of at most 1200 units.
pub compose-IsChecked :
    (env : Env) (instruction : Instruction) (fallback : Text)
    → (compose env instruction fallback ≡ fallback)
      ⊎ IsChecked env (compose env instruction fallback)
unfolding compose
compose-IsChecked env instruction fallback =
    elim (Bool-cases (env.has_sensitive_data (env.compose_reply instruction))) [
      | inl secret ↦ inl (rw secret)
      | inr clean ↦ elim (Bool-cases (env.has_forbidden_mention (env.compose_reply instruction))) [
        | inr fair ↦ inr (rw (clean, fair) (checked env _ clean fair))
        | inl competitor ↦
            elim (Bool-cases
              (env.has_forbidden_mention (env.compose_reply (without_competitor instruction)))) [
                | inl again ↦ inl (rw (clean, competitor, again))
                | inr fair ↦
                    elim (Bool-cases (
                      env.has_sensitive_data
                        (env.compose_reply (without_competitor instruction)))) [
                          | inl leak ↦ inl (rw (clean, competitor, fair, leak))
                          | inr tight ↦
                              inr (rw (clean, competitor, fair, tight) (checked env _ tight fair))
                        ]
              ]
      ]
    ]
