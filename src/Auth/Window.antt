-- ===== src/Auth/Window.antt =====
-- The window of the login's rate limit.
use inmoagent.Prelude.{
  ℕ, ◌+◌, ◌*◌, ◌≤◌, ◌<◌, String, true, false, Option, none, some, List, [], ◌∷◌, leb, ◌≡◌, ◌∙◌, ap,
  All, length, arith, ◌↔◌,
}
use inmoagent.Auth.Login.{
  Cell, Counters, IsDocumented, Config, is_blocked, register_failure, Person, Session, Passwords,
  too_many_requests, login,
}

module _ (r : Counters) (config : Config) where
  -- Failures at these times, one after the other.
  unfoldable pub register_failures : List ℕ → Option Cell → Option Cell
  register_failures [] cell = cell
  register_failures (now ∷ times) cell =
      register_failures times (register_failure r config now cell)

abbrev pub ends_at : Config → ℕ → ℕ
ends_at config first = first + config.window_seconds * 1000

module _ {r : Counters} (doc : IsDocumented r) (config : Config) where
  register_failure-first :
      (first : ℕ)
      → register_failure r config first none
        ≡ some (record { failures = 1; expires_at = some (ends_at config first) })
  unfolding register_failure
  register_failure-first first =
      rw (doc.incr_missing first)
        (doc.expire_sets first config.window_seconds (record { failures = 1; expires_at = none }))

  register_failure-next :
      (now failures ends : ℕ)
      → 1 ≤ failures
      → now < ends
      → register_failure r config now
          (some (record { failures = failures; expires_at = some ends }))
        ≡ some (record { failures = failures + 1; expires_at = some ends })
  unfolding register_failure
  register_failure-next now failures ends some_before lt =
      rw (doc.incr_live now (record { failures = failures; expires_at = some ends }) lt)
        (ground (arith, some_before))

  register_failures-counted :
      (times : List ℕ) (failures ends : ℕ)
      → 1 ≤ failures
      → All (λ (t : ℕ). t < ends) times
      → register_failures r config times
          (some (record { failures = failures; expires_at = some ends }))
        ≡ some (record { failures = failures + length times; expires_at = some ends })
  unfolding register_failures
  register_failures-counted [] failures ends some_before h = ground arith
  register_failures-counted (t ∷ times) failures ends some_before h =
      ap (register_failures r config times) (register_failure-next t failures ends some_before h.0)
      ∙ register_failures-counted times (failures + 1) ends (omega arith) h.1
      ∙ ground arith

  counted :
      (first : ℕ) (times : List ℕ)
      → All (λ (t : ℕ). t < ends_at config first) times
      → register_failures r config (first ∷ times) none
        ≡ some (record { failures = 1 + length times; expires_at = some (ends_at config first) })
  unfolding register_failures
  counted first times h =
      ap (register_failures r config times) (register_failure-first first)
      ∙ register_failures-counted times 1 (ends_at config first) (omega arith) h

  blocked_live :
      (now failures ends : ℕ)
      → now < ends
      → is_blocked r config now (some (record { failures = failures; expires_at = some ends }))
        ≡ leb config.max_failed_attempts failures
  unfolding is_blocked
  blocked_live now failures ends lt =
      ground (arith, doc.get_live now (record { failures = failures; expires_at = some ends }) lt)

  blocked_gone :
      (now failures ends : ℕ)
      → 1 ≤ config.max_failed_attempts
      → ends ≤ now
      → is_blocked r config now (some (record { failures = failures; expires_at = some ends }))
        ≡ false
  unfolding is_blocked
  blocked_gone now failures ends pos le =
      ground
        (arith, pos, doc.get_gone now (record { failures = failures; expires_at = some ends }) le)

  login_blocked :
      (p : Passwords) (now : ℕ) (person : Option Person) (password : String) (cell : Option Cell)
      (sessions : List Session)
      → ((login r p config now person password cell sessions).0 ≡ too_many_requests)
        ↔ (is_blocked r config now cell ≡ true)
  unfolding login
  login_blocked p now none password cell sessions = ground arith
  login_blocked p now (some person) password cell sessions = ground arith

  -- Once the first of some failures has begun the window, and the others came within it, then until it
  -- ends a login is answered with 429 exactly if there were as many failures as are allowed, whoever
  -- asks and with the right password too; from its end on it is not.
  pub login-window :
      (p : Passwords) (first now : ℕ) (times : List ℕ) (person : Option Person) (password : String)
      (sessions : List Session)
      → 1 ≤ config.max_failed_attempts
      → All (λ (t : ℕ). t < ends_at config first) times
      → let cell = register_failures r config (first ∷ times) none in
        (now < ends_at config first
          → ((login r p config now person password cell sessions).0 ≡ too_many_requests)
            ↔ (config.max_failed_attempts ≤ 1 + length times))
        × (ends_at config first ≤ now → is_blocked r config now cell ≡ false)
  login-window p first now times person password sessions pos h =
      let e = counted first times h in
      let ends = ends_at config first in
      let failures : ℕ = 1 + length times in
      rw e (
        λ lt. (
          λ q. ground (
            arith,
            (login_blocked p now person password
                  (some (record { failures = failures; expires_at = some ends })) sessions).0
                q,
            blocked_live now failures ends lt,
          ),
          λ le.
              (login_blocked p now person password
                  (some (record { failures = failures; expires_at = some ends })) sessions).1
                (ground (arith, le, blocked_live now failures ends lt)),
        ),
        λ le. blocked_gone now failures ends pos le,
      )
