-- ===== src/Tests/Dates.antt =====
-- The dates of the provenance tool: runs, and the theorem on `civil_from_days` applied.
use fluxora_contracts.Base.{◌≡◌, refl, arith, pos, negsuc, some, ◌+ℤ◌, ◌-ℤ◌, ◌*ℤ◌, ◌/ℤ◌}
use fluxora_contracts.Provenance.Calendar.{
  year_of_era, day_of_year, date_in_year, shifted_date, civil_from_days, digits, padded,
  format_unix,
}
use fluxora_contracts.Provenance.Gregorian.{next_day, days_later}
use fluxora_contracts.Provenance.Dates.{civil_from_days-eq}

before_epoch : civil_from_days (negsuc 0) ≡ some (pos 1969, 12, 31)
unfolding civil_from_days shifted_date date_in_year day_of_year year_of_era ◌+ℤ◌ ◌-ℤ◌ ◌*ℤ◌ ◌/ℤ◌
before_epoch = refl

era_start : civil_from_days (negsuc 719467) ≡ some (pos 0, 3, 1)
unfolding civil_from_days shifted_date date_in_year day_of_year year_of_era ◌+ℤ◌ ◌-ℤ◌ ◌*ℤ◌ ◌/ℤ◌
era_start = refl

leap_day : civil_from_days (pos 11016) ≡ some (pos 2000, 2, 29)
unfolding civil_from_days shifted_date date_in_year day_of_year year_of_era ◌+ℤ◌ ◌-ℤ◌ ◌*ℤ◌ ◌/ℤ◌
leap_day = refl

stamp_2023 : format_unix 1700000000 ≡ some "2023-11-14T22:13:20Z"
unfolding format_unix padded digits civil_from_days shifted_date date_in_year day_of_year
    year_of_era ◌+ℤ◌ ◌-ℤ◌ ◌*ℤ◌ ◌/ℤ◌
stamp_2023 = refl

civil_from_days-eq_example : civil_from_days (pos 60) ≡ some (pos 1970, 3, 2)
unfolding days_later next_day
civil_from_days-eq_example = civil_from_days-eq 60 (omega arith)
