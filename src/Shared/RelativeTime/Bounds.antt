-- ===== src/Shared/RelativeTime/Bounds.antt =====
-- What the amounts of formatRelativeTime.ts say about the time.
use ytshare.Base.{
  ℕ, suc, ◌-◌, ◌*◌, ◌/◌, ◌≤◌, ◌<◌, ◌≡◌, refl, sym, ap, get_or, ◌⊎◌, some, ltb, Bool-cases, ltb→lt,
  ltb-false→le, inl, inr, arith,
}
use ytshare.Shared.RelativeTime.{TimeUnit, s, m, h, d, mo, y, elapsed, bucket, format_relative_time}

-- The seconds of a unit: a month has 30 days, a year 12 months.
abbrev pub unit_seconds : TimeUnit → ℕ
unit_seconds s = 1
unit_seconds m = 60
unit_seconds h = 3600
unit_seconds d = 86400
unit_seconds mo = 2592000
unit_seconds y = 31104000

-- How many of a unit make the next one; 0 where there is none.
abbrev pub unit_limit : TimeUnit → ℕ
unit_limit s = 60
unit_limit m = 60
unit_limit h = 24
unit_limit d = 30
unit_limit mo = 12
unit_limit y = 0

-- The least amount of a unit: only seconds may be 0.
abbrev pub unit_least : TimeUnit → ℕ
unit_least s = 0
unit_least _ = 1

pub record IsBucket (sec : ℕ) (amount : ℕ) (unit : TimeUnit) : Type 0 where
  pub reached : amount * unit_seconds unit ≤ sec
  pub not_passed : sec < suc amount * unit_seconds unit
  pub least : unit_least unit ≤ amount
  pub limit : (unit_limit unit ≡ 0) ⊎ (amount < unit_limit unit)

bucket-IsBucket : (sec : ℕ) → IsBucket sec (bucket sec).0 (bucket sec).1
bucket-IsBucket sec = elim (Bool-cases (ltb (sec) 60)) [
  | inl under ↦ rw (under) (record {
    reached = omega arith;
    not_passed = omega arith;
    least = omega arith;
    limit = inr (ltb→lt _ _ under);
  })
  | inr over_seconds ↦ elim (Bool-cases (ltb (sec / 60) 60)) [
    | inl under ↦
        rw (over_seconds, under)
          (record {
            reached = omega arith;
            not_passed = omega arith;
            least = omega (arith, ltb-false→le (sec) 60 over_seconds);
            limit = inr (ltb→lt _ _ under);
          })
    | inr over_minutes ↦ elim (Bool-cases (ltb (sec / 60 / 60) 24)) [
      | inl under ↦
          rw (over_seconds, over_minutes, under)
            (record {
              reached = omega arith;
              not_passed = omega arith;
              least = omega (arith, ltb-false→le (sec / 60) 60 over_minutes);
              limit = inr (ltb→lt _ _ under);
            })
      | inr over_hours ↦ elim (Bool-cases (ltb (sec / 60 / 60 / 24) 30)) [
        | inl under ↦
            rw (over_seconds, over_minutes, over_hours, under)
              (record {
                reached = omega arith;
                not_passed = omega arith;
                least = omega (arith, ltb-false→le (sec / 60 / 60) 24 over_hours);
                limit = inr (ltb→lt _ _ under);
              })
        | inr over_days ↦ elim (Bool-cases (ltb (sec / 60 / 60 / 24 / 30) 12)) [
          | inl under ↦
              rw (over_seconds, over_minutes, over_hours, over_days, under)
                (record {
                  reached = omega arith;
                  not_passed = omega arith;
                  least = omega (arith, ltb-false→le (sec / 60 / 60 / 24) 30 over_days);
                  limit = inr (ltb→lt _ _ under);
                })
          | inr over_months ↦
              rw (over_seconds, over_minutes, over_hours, over_days, over_months)
                (record {
                  reached = omega (arith, ltb-false→le (sec / 60 / 60 / 24 / 30) 12 over_months);
                  not_passed = omega (arith, ltb-false→le (sec / 60 / 60 / 24 / 30) 12 over_months);
                  least = omega (arith, ltb-false→le (sec / 60 / 60 / 24 / 30) 12 over_months);
                  limit = inl refl;
                })
        ]
      ]
    ]
  ]
]

-- What is printed for a date is its age in whole seconds, 0 if it lies ahead, cut down to a whole
-- amount of the unit: the amount is too small for the next unit, and at least 1 unless the unit is
-- the second. A month has 30 days, a year 360.
pub format_relative_time-IsBucket :
    (now time amount : ℕ) (unit : TimeUnit)
    → format_relative_time now (some time) ≡ (some amount, unit)
    → IsBucket ((now - time) / 1000) amount unit
unfolding format_relative_time
format_relative_time-IsBucket now time amount unit e =
    rw (ap (λ p. get_or p.0 0) (sym e), ap (λ p. p.1) (sym e)) (bucket-IsBucket (elapsed now time))
