-- ===== src/Tests/Auth.antt =====
-- The login's rate limit with a concrete counter.
use inmoagent.Prelude.{
  ℕ, ◌+◌, ◌*◌, ◌≤◌, ◌<◌, Bool, true, false, Option, none, some, [], ◌∷◌, ltb, ◌≡◌, ◌↔◌, refl, arith,
  length, if◌then◌else◌,
}
use inmoagent.Auth.Login.{
  Cell, Counters, IsLive, IsGone, IsDocumented, Config, Person, Passwords, too_many_requests, login,
  is_blocked,
}
use inmoagent.Auth.Window.{register_failures, ends_at, login-window}

abbrev pub is_live : ℕ → Option ℕ → Bool
is_live now none = true
is_live now (some at) = ltb now at

abbrev pub expiring : ℕ → ℕ → Option Cell → Option Cell
expiring now seconds none = none
expiring now seconds (some c) =
    some (record { failures = c.failures; expires_at = some (now + seconds * 1000) })

abbrev pub reading : ℕ → Option Cell → Option ℕ
reading now none = none
reading now (some c) = if is_live now c.expires_at then some c.failures else none

abbrev pub counting : ℕ → Option Cell → ℕ × Option Cell
counting now none = (1, some (record { failures = 1; expires_at = none }))
counting now (some c) =
    if is_live now c.expires_at
    then (c.failures + 1, some (record { failures = c.failures + 1; expires_at = c.expires_at }))
    else (1, some (record { failures = 1; expires_at = none }))

abbrev pub counters : Counters
counters = record { get = reading; incr = counting; expire = expiring; del = λ cell. none }

live_true : (now : ℕ) (at : Option ℕ) → IsLive now at → is_live now at ≡ true
live_true now none h = refl
live_true now (some at) h = ground (arith, h)

gone_false : (now : ℕ) (at : Option ℕ) → IsGone now at → is_live now at ≡ false
gone_false now none h = absurd h
gone_false now (some at) h = ground (arith, h)

counters-IsDocumented : IsDocumented counters
counters-IsDocumented = record {
  get_missing = λ now. refl;
  get_live = λ now c h. rw (live_true now c.expires_at h);
  get_gone = λ now c h. rw (gone_false now c.expires_at h);
  incr_missing = λ now. refl;
  incr_live = λ now c h. rw (live_true now c.expires_at h);
  expire_sets = λ now seconds c. refl;
  del_missing = λ cell. refl;
}

abbrev pub limits : Config
limits = record { max_failed_attempts = 2; window_seconds = 900; session_ttl_ms = 3600000 }

abbrev pub passwords : Passwords
passwords = record { verify = λ hash password. true; dummy_hash = "d"; new_token_hash = "t" }

abbrev owner : Person
owner = record { id = "p1"; password_hash = "h"; is_active = true; is_tenant_active = true }

login-window_example :
    let cell = register_failures counters limits (10 ∷ 20 ∷ []) none in
    (30 < ends_at limits 10
      → ((login counters passwords limits 30 (some owner) "secret" cell []).0 ≡ too_many_requests)
        ↔ (limits.max_failed_attempts ≤ 1 + length {A = ℕ} (20 ∷ [])))
    × (ends_at limits 10 ≤ 30 → is_blocked counters limits 30 cell ≡ false)
login-window_example =
    login-window counters-IsDocumented limits passwords 10 30 (20 ∷ []) (some owner) "secret" []
      (omega arith) (omega arith, tt)
