-- ===== src/Clock.antt =====
-- `Instant` as milliseconds since some origin. `elapsed` of a later instant is zero.
use rustdesk_server.Prelude.{ℕ, ◌-◌, ◌/◌, ltb, if◌then◌else◌}

abbrev pub elapsed_ms : ℕ → ℕ → ℕ
elapsed_ms now t = now - t

abbrev pub elapsed_secs : ℕ → ℕ → ℕ
elapsed_secs now t = (now - t) / 1000

-- `get_expired_time`: an hour ago, or now if the clock has not run for an hour.
unfoldable pub expired_time : ℕ → ℕ
expired_time now = if ltb now 3600000 then now else now - 3600000
