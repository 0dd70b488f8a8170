-- ===== src/Auth/Login.antt =====
-- src/auth/login-rate-limiter.service.ts and `login` of auth.service.ts, for one normalized e-mail.
-- Redis, the hash of passwords and the random token are parameters.
use inmoagent.Prelude.{
  ℕ, ◌+◌, ◌*◌, ◌≤◌, ◌<◌, String, Bool, false, not, ◌&&◌, Option, none, some, List, ◌∷◌, leb, ◌==◌,
  if◌then◌else◌, ◌≡◌,
}

-- What Redis keeps under `login:fail:...`: a number, and when the key expires, if it does.
pub record Cell : Type 0 where
  pub failures : ℕ
  pub expires_at : Option ℕ

-- The commands at a time. `incr` gives the number afterwards.
pub record Counters : Type 0 where
  pub get : ℕ → Option Cell → Option ℕ
  pub incr : ℕ → Option Cell → ℕ × Option Cell
  pub expire : ℕ → ℕ → Option Cell → Option Cell
  pub del : Option Cell → Option Cell

-- Whether a key with this expiry is still there.
abbrev pub IsLive : ℕ → Option ℕ → Type 0
IsLive now none = Unit {0}
IsLive now (some at) = now < at

abbrev pub IsGone : ℕ → Option ℕ → Type 0
IsGone now none = ⊥
IsGone now (some at) = at ≤ now

-- What the documentation of Redis says of them: a key that has expired is no longer there, INCR keeps
-- the expiry of a key and begins at 0 without one, EXPIRE sets it.
pub record IsDocumented (r : Counters) : Type 0 where
  pub get_missing : (now : ℕ) → r.get now none ≡ none
  pub get_live :
      (now : ℕ) (c : Cell) → IsLive now c.expires_at → r.get now (some c) ≡ some c.failures
  pub get_gone : (now : ℕ) (c : Cell) → IsGone now c.expires_at → r.get now (some c) ≡ none
  pub incr_missing :
      (now : ℕ) → r.incr now none ≡ (1, some (record { failures = 1; expires_at = none }))
  pub incr_live :
      (now : ℕ) (c : Cell)
      → IsLive now c.expires_at
      → r.incr now (some c)
        ≡ (c.failures + 1, some (record { failures = c.failures + 1; expires_at = c.expires_at }))
  pub expire_sets :
      (now seconds : ℕ) (c : Cell)
      → r.expire now seconds (some c)
        ≡ some (record { failures = c.failures; expires_at = some (now + seconds * 1000) })
  pub del_missing : (cell : Option Cell) → r.del cell ≡ none

pub record Config : Type 0 where
  pub max_failed_attempts : ℕ
  pub window_seconds : ℕ
  pub session_ttl_ms : ℕ

module _ (r : Counters) (config : Config) where
  -- Whether `assertNotBlocked` throws 429.
  unfoldable pub is_blocked : ℕ → Option Cell → Bool
  is_blocked now cell = elim (r.get now cell) [
    | none ↦ leb config.max_failed_attempts 0
    | some failures ↦ leb config.max_failed_attempts failures
  ]

  unfoldable pub register_failure : ℕ → Option Cell → Option Cell
  register_failure now cell =
      let (failures, cell') = r.incr now cell in
      if failures == 1 then r.expire now config.window_seconds cell' else cell'

  unfoldable pub reset : Option Cell → Option Cell
  reset cell = r.del cell

pub record Person : Type 0 where
  pub id : String
  pub password_hash : String
  pub is_active : Bool
  pub is_tenant_active : Bool

pub record Session : Type 0 where
  pub token_hash : String
  pub person_id : String
  pub expires_at : ℕ

-- `verifyPassword`, the dummy hash, and the hash of a new token.
pub record Passwords : Type 0 where
  pub verify : String → String → Bool
  pub dummy_hash : String
  pub new_token_hash : String

-- One `verify` on each path.
unfoldable pub is_authenticated : Passwords → Option Person → String → Bool
is_authenticated p none password = let checked = p.verify p.dummy_hash password in false
is_authenticated p (some person) password =
    p.verify person.password_hash password && person.is_active && person.is_tenant_active

pub data LoginResult : Type 0 where
  too_many_requests unauthorized : LoginResult
  session : Session → LoginResult

abbrev pub session_of : Passwords → Config → ℕ → Person → Session
session_of p config now person = record {
  token_hash = p.new_token_hash;
  person_id = person.id;
  expires_at = now + config.session_ttl_ms;
}

-- The result, the counter and the sessions.
unfoldable pub login :
    Counters
    → Passwords
    → Config
    → ℕ
    → Option Person
    → String
    → Option Cell
    → List Session
    → LoginResult × Option Cell × List Session
unfolding is_blocked register_failure reset is_authenticated
login r p config now person password cell sessions =
    if is_blocked r config now cell
    then (too_many_requests, cell, sessions)
    else if not (is_authenticated p person password)
    then (unauthorized, register_failure r config now cell, sessions)
    else elim person [
      | none ↦ (unauthorized, register_failure r config now cell, sessions)
      | some known ↦ (
        session (session_of p config now known),
        reset r config cell,
        session_of p config now known ∷ sessions,
      )
    ]
