-- ===== src/Api/RateLimit.antt =====
-- apps/api/src/rate-limit: sliding-window.lua.ts, peek-window.lua.ts, rate-limiter.service.ts and the
-- tiers of rate-limit.config.ts. Redis' sorted sets are a parameter: a key's state is seen through
-- the scores of its members, in ascending order. A member's text is unique to its request, so ZADD
-- adds an entry. PEXPIRE only removes keys whose entries have all left their window; it is left out.
pub mod Redis
pub mod Window
pub mod Quota
use kvorum.Base.{
  leb, if◌then◌else◌, ℕ, ◌+◌, ◌-◌, ◌/◌, max, Bool, true, false, ◌&&◌, Option, none, some,
}
use kvorum.Api.RateLimit.Redis.{ZSets}

pub data Tier : Type 0 where
  authenticated_free dashboard auth_ip : Tier

pub record Limits : Type 0 where
  pub per_minute : ℕ
  pub per_day : ℕ

unfoldable pub tiers : Tier → Limits
tiers authenticated_free = record { per_minute = 60; per_day = 10000 }
tiers dashboard = record { per_minute = 240; per_day = 50000 }
tiers auth_ip = record { per_minute = 10; per_day = 200 }

abbrev pub minute_ms : ℕ
minute_ms = 60000

abbrev pub day_ms : ℕ
day_ms = 86400000

-- `math.ceil(ms / 1000)`.
abbrev pub ceil_seconds : ℕ → ℕ
ceil_seconds ms = (ms + 999) / 1000

pub data BindingWindow : Type 0 where
  minute day : BindingWindow

pub record RateLimitResult : Type 0 where
  pub allowed : Bool
  pub limit : ℕ
  pub remaining : ℕ
  pub reset_seconds : ℕ
  pub retry_after_seconds : ℕ
  pub binding_window : BindingWindow

pub record WindowState : Type 0 where
  pub used : ℕ
  pub limit : ℕ
  pub reset_seconds : ℕ

-- A `delta_ms` below 1 counts as 1; it is a difference that may be negative.
unfoldable pub until_expiry : ℕ → ℕ → ℕ → ℕ
until_expiry score window now =
    let delta = max 1 (score + window - now) in max 1 (ceil_seconds delta)

module _ (redis : ZSets) where
  open redis use {ZSet, zremrangebyscore, zcard, zadd, oldest}

  -- The states of the minute's and the day's key of one identity.
  pub record Keys : Type 0 where
    pub minute_key : ZSet
    pub day_key : ZSet

  abbrev seconds_until : Option ℕ → ℕ → ℕ → ℕ
  seconds_until none window now = ceil_seconds window
  seconds_until (some score) window now = until_expiry score window now

  unfoldable pub seconds_until_oldest_expires : ZSet → ℕ → ℕ → ℕ
  seconds_until_oldest_expires z window now = seconds_until (oldest z) window now

  -- The script behind both `trim_and_count`s, on the trimmed keys.
  decide : ℕ → Limits → ZSet → ZSet → Keys × RateLimitResult
  decide now limits m d =
      let minute_admit = leb (zcard m + 1) limits.per_minute in
      let day_admit = leb (zcard d + 1) limits.per_day in
      let minute_reset = seconds_until_oldest_expires m minute_ms now in
      if minute_admit && day_admit
      then (
        record { minute_key = zadd now m; day_key = zadd now d },
        record {
          allowed = true;
          limit = limits.per_minute;
          remaining = limits.per_minute - (zcard m + 1);
          reset_seconds = minute_reset;
          retry_after_seconds = 0;
          binding_window = minute;
        },
      )
      else (
        record { minute_key = m; day_key = d },
        record {
          allowed = false;
          limit = limits.per_minute;
          remaining = 0;
          reset_seconds = minute_reset;
          retry_after_seconds =
              if day_admit then minute_reset else seconds_until_oldest_expires d day_ms now;
          binding_window = if day_admit then minute else day;
        },
      )

  -- `consume`, as far as Redis is reachable.
  unfoldable pub consume : Tier → ℕ → Keys → Keys × RateLimitResult
  unfolding decide
  consume tier now k =
      decide now (tiers tier) (zremrangebyscore now minute_ms k.minute_key)
        (zremrangebyscore now day_ms k.day_key)

  abbrev peeked_reset : Option ℕ → ℕ → ℕ → ℕ
  peeked_reset none window now = 0
  peeked_reset (some score) window now = ceil_seconds (max 1 (score + window - now))

  unfoldable pub peek_window : ℕ → ℕ → ℕ → ZSet → WindowState
  peek_window now window limit z =
      let z' = zremrangebyscore now window z in
      record { used = zcard z'; limit = limit; reset_seconds = peeked_reset (oldest z') window now }

  -- `peek`: both windows, and the trimmed keys.
  unfoldable pub peek : Tier → ℕ → Keys → Keys × WindowState × WindowState
  peek tier now k = (
    record {
      minute_key = zremrangebyscore now minute_ms k.minute_key;
      day_key = zremrangebyscore now day_ms k.day_key;
    },
    peek_window now minute_ms (tiers tier).per_minute k.minute_key,
    peek_window now day_ms (tiers tier).per_day k.day_key,
  )
