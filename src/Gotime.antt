-- ===== src/Gotime.antt =====
-- package time, as the controllers use it: instants and durations in nanoseconds.
use managed_serviceaccount.Prelude.{ℕ, Bool}
use managed_serviceaccount.Prelude.Int.{ℤ, scale, ◌+ℤ◌, ◌-ℤ◌, ltb_ℤ, wrap64, saturate64, quo}

-- An instant, counted in nanoseconds from Go's zero time.
abbrev pub Time : Type 0
Time = ℤ

-- A signed 64-bit count of nanoseconds.
abbrev pub Duration : Type 0
Duration = ℤ

-- time.Second
abbrev pub second : ℕ
second = 1_000_000_000

-- t.After(u)
unfoldable pub after : Time → Time → Bool
after t u = ltb_ℤ u t

-- t.Sub(u) stops at the least and greatest duration.
unfoldable pub sub : Time → Time → Duration
sub t u = saturate64 (t -ℤ u)

-- t.Add(d)
unfoldable pub add : Time → Duration → Time
add t d = t +ℤ d

-- d + e
unfoldable pub plus : Duration → Duration → Duration
plus d e = wrap64 (d +ℤ e)

-- d * k
unfoldable pub times : Duration → ℕ → Duration
times d k = wrap64 (scale d k)

-- d / k
unfoldable pub divided : Duration → ℕ → Duration
divided d k = quo d k
