-- ===== src/Validation/Tests.antt =====
-- The dates of the repository's tests, and the theorems at concrete dates.
use protoc_gen_apigw.Base.{refl, none, ◌≡◌, arith, Option, some, ℕ}
use protoc_gen_apigw.Validation.{
  missing_sunset_date, invalid_format, month_out_of_range, day_out_of_range, invalid_date,
  time_parse, date_format_regex, Deprecation, validate_sunset_date_format, validate_sunset_date,
  days_in, validate_deprecation_info,
}
use protoc_gen_apigw.Validation.Laws.{
  validate-format_date, validate_sound, format_date, IsCalendarDate,
}
use protoc_gen_apigw.Base.Text.{codes}
use Prim.Native.String.{String}

abbrev dated : String → Option Deprecation
dated s = some (record { sunset_date = codes s })

tests :
    (validate_deprecation_info none ≡ none)
    × (validate_deprecation_info (dated "2024-02-29") ≡ none)
    × (validate_deprecation_info (dated "2023-02-29") ≡ some (invalid_date day_out_of_range))
    × (validate_deprecation_info (dated "2024-13-01") ≡ some (invalid_date month_out_of_range))
    × (validate_deprecation_info (dated "2024-1-01") ≡ some invalid_format)
    × (validate_deprecation_info (dated "") ≡ some missing_sunset_date)
unfolding validate_deprecation_info validate_sunset_date validate_sunset_date_format
    date_format_regex time_parse
tests = (refl, refl, refl, refl, refl, refl)

leap_day : IsCalendarDate 2024 2 29
unfolding days_in
leap_day = omega arith

validate-format_date_example :
    validate_deprecation_info (some (record { sunset_date = format_date 2024 2 29 })) ≡ none
validate-format_date_example = validate-format_date 2024 2 29 leap_day

validate_sound_example :
    (y : ℕ) × (m : ℕ) × (d : ℕ) × IsCalendarDate y m d × (codes "2024-02-29" ≡ format_date y m d)
validate_sound_example = validate_sound (codes "2024-02-29") tests.1
