-- ===== src/Shared/RelativeTime.antt =====
-- frontend/src/shared/utils/formatRelativeTime.ts: how long ago a time was, in its largest unit.
-- Times are milliseconds since a common origin. A text that is no date gives `NaN`, the time `none`.
pub mod Bounds
use ytshare.Base.{ℕ, ◌-◌, ◌*◌, ◌/◌, String, Bool, Option, none, some, if◌then◌else◌, ltb}

-- The suffixes.
pub data TimeUnit : Type 0 where
  s m h d mo y : TimeUnit

-- The number in front of the suffix, and the suffix. `none` is printed as `NaN`.
abbrev pub Ago : Type 0
Ago = Option ℕ × TimeUnit

-- The seconds: subtraction on ℕ stops at 0, as `Math.max(0, …)` does behind the division.
abbrev pub elapsed : ℕ → ℕ → ℕ
elapsed now time = (now - time) / 1000

abbrev pub bucket : ℕ → ℕ × TimeUnit
bucket sec =
    let min : ℕ = sec / 60 in
    let hours : ℕ = min / 60 in
    let days : ℕ = hours / 24 in
    let months : ℕ = days / 30 in
    if ltb sec 60
    then (sec, s)
    else (if ltb min 60
        then (min, m)
        else (if ltb hours 24
            then (hours, h)
            else (if ltb days 30
                then (days, d)
                else (if ltb months 12 then (months, mo) else (months / 12, y)))))

-- Every test of `NaN` is false, so it reaches the last line.
unfoldable pub format_relative_time : ℕ → Option ℕ → Ago
format_relative_time now none = (none, y)
format_relative_time now (some time) =
    let (amount, unit) = bucket (elapsed now time) in (some amount, unit)
