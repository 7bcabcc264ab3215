-- ===== src/Tests/Shared.antt =====
-- Relative times.
use ytshare.Base.{◌-◌, ◌/◌, ◌≡◌, refl, none, some}
use ytshare.Shared.RelativeTime.{s, m, mo, y, format_relative_time}
use ytshare.Shared.RelativeTime.Bounds.{IsBucket, format_relative_time-IsBucket}

-- A minute is printed as one, a year of 365 days as one, and a time ahead as no second.
relative_tests :
    (format_relative_time 61000 (some 1000) ≡ (some 1, m))
    × (format_relative_time 31536000000 (some 0) ≡ (some 1, y))
    × (format_relative_time 31103999999 (some 0) ≡ (some 11, mo))
    × (format_relative_time 0 (some 5000) ≡ (some 0, s))
    × (format_relative_time 0 none ≡ (none, y))
unfolding format_relative_time
relative_tests = (refl, refl, refl, refl, refl)

format_relative_time-IsBucket_example : IsBucket ((31536000000 - 0) / 1000) 1 y
format_relative_time-IsBucket_example =
    format_relative_time-IsBucket 31536000000 0 1 y relative_tests.1
