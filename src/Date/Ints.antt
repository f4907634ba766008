-- ===== src/Date/Ints.antt =====
-- base/date.cc: where no `int` on the way to a day number or to a date overflows.
use ccnet.Prelude.{ℕ, ◌+◌, ◌-◌, ◌*◌, ◌/◌, ◌≤◌, List, [], ◌∷◌, arith}
use ccnet.Prelude.Int.{ℤ, pos, ◌-ℤ◌, -ℤ-pos, pos_laws, -ℤ-+ℤ, shift_sum, IsInt, -ℤ-IsInt}
use ccnet.Date.{julian_day_number_ints, year_month_day_ints}
use ccnet.Date.Calendar.{
  IsDay, days_before, march_year, march_day, century, in_century, year_of, in_year, month_of,
  month_start,
}

-- Every one is an `int`.
unfoldable pub AreInts : List ℤ → Type 0
AreInts [] = Unit
AreInts (z ∷ zs) = IsInt z × AreInts zs

-- The last day count from March of 4801 BC for which the code's `4 * a + 3` is an `int`.
abbrev pub last_day_count : ℕ
last_day_count = 536870911

module _ (y m d : ℕ) (v : IsDay y m d) where
  year_fits :
      days_before (march_year y m) + march_day m d ≤ last_day_count → march_year y m ≤ 1470000
  unfolding days_before
  year_fits h = omega arith

  pub julian_day_number_ints-AreInts :
      days_before (march_year y m) + march_day m d ≤ last_day_count
      → AreInts (julian_day_number_ints (pos y -ℤ pos 4800) (pos m) (pos d))
  unfolding julian_day_number_ints AreInts
  julian_day_number_ints-AreInts h =
      rw (-ℤ-pos 14 m (omega (arith, v.month_hi)), -ℤ-+ℤ)
        (simp
          (
            pos_laws,
            -ℤ-pos y ((14 - m) / 12) (omega (arith, v.some_year)),
            -ℤ-pos (m + 12 * ((14 - m) / 12)) 3 (omega (arith, v.month_lo, v.month_hi)),
            λ (x : ℕ).
                -ℤ-pos (x + (y - (14 - m) / 12) * 365 + (y - (14 - m) / 12) / 4)
                  ((y - (14 - m) / 12) / 100) (omega arith),
          )
          (grind (arith, year_fits h, v.day_lo, -ℤ-IsInt)))

-- The same on the way back.
module _ (a : ℕ) (h : a ≤ last_day_count) where
  pub year_month_day_ints-AreInts : AreInts (year_month_day_ints (pos a -ℤ pos 32044))
  unfolding year_month_day_ints AreInts
  year_month_day_ints-AreInts = rw -ℤ-+ℤ (
      simp
        (
          pos_laws,
          -ℤ-pos a (century a * 146097 / 4) (omega arith),
          -ℤ-pos (in_century a) (1461 * year_of a / 4) (omega arith),
          -ℤ-pos (month_of (in_year a) + 3) (12 * (month_of (in_year a) / 10)) (omega arith),
          -ℤ-pos (in_year a) (month_start (month_of (in_year a))) (omega arith),
          shift_sum,
        )
        (grind (arith, h, -ℤ-IsInt)))
