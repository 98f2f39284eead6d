-- ===== src/Time.antt =====
-- Go's `time.Time`, as far as the program reads it: an instant, counted from the zero time
-- (1 January of year 1, UTC), and the offset of its location from UTC in seconds.
use april_homework.Common.{◌≡◌, false, arith, ℕ, ◌+◌, ◌-◌, ◌*◌, ◌/◌, ◌&&◌, ◌||◌, Bool, ltb, ◌==◌}
use april_homework.Common.Int.{ℤ, pos, pos_part, neg_part}

pub record Time : Type 0 where
  pub sec : ℕ
  pub nsec : ℕ
  pub offset : ℤ

abbrev pub zero_time : Time
zero_time = record { sec = 0; nsec = 0; offset = pos 0 }

unfoldable pub is_zero : Time → Bool
is_zero t = t.sec == 0 && t.nsec == 0

-- t.After(u)
unfoldable pub after : Time → Time → Bool
after t u = ltb u.sec t.sec || (u.sec == t.sec && ltb u.nsec t.nsec)

pub after_irrefl : (t : Time) → after t t ≡ false
unfolding after
after_irrefl t = ground arith

-- t.UTC()
abbrev pub utc : Time → Time
utc t = record t { offset = pos 0 }

-- The days that have passed in the location of `t`; a day stands for year, month and day.
unfoldable pub day : Time → ℕ
day t = (t.sec + pos_part t.offset - neg_part t.offset) / 86400

-- time.Date(y, m, d, 0, 0, 0, 0, time.UTC)
unfoldable pub start_of_day : ℕ → Time
start_of_day d = record { sec = d * 86400; nsec = 0; offset = pos 0 }
