-- ===== src/Validation.antt =====
-- internal/apigw/validation.go: the checks of a deprecation's sunset date. The functions of
-- packages regexp and time that it calls are written out for the one pattern and the one layout.
pub mod Laws
mod Tests
use protoc_gen_apigw.Base.{
  [], ◌+◌, false, ◌*◌, ◌∷◌, none, not, ◌&&◌, ◌||◌, is_empty, leb, ltb, ◌%◌, ◌==◌, Bool,
  if◌then◌else◌, some, ◌-◌, Option, ℕ,
}
use protoc_gen_apigw.Base.Text.{Text}

-- Why a date is refused: by `time.Parse`, or by the code.
pub data DateFault : Type 0 where
  bad_layout month_out_of_range day_out_of_range : DateFault

pub data DateError : Type 0 where
  empty_date invalid_format missing_sunset_date : DateError
  invalid_date : DateFault → DateError

-- `apigw_v1.Deprecation`
pub record Deprecation : Type 0 where
  pub sunset_date : Text

-- `\d`
unfoldable pub is_digit : ℕ → Bool
is_digit c = leb b'0' c && leb c b'9'

-- `^\d{4}-\d{2}-\d{2}$`
unfoldable pub date_format_regex : Text → Bool
unfolding is_digit
date_format_regex (a ∷ b ∷ c ∷ d ∷ e ∷ f ∷ g ∷ h ∷ i ∷ j ∷ []) =
    (is_digit a && (is_digit b && (is_digit c && is_digit d)))
    && (e == b'-' && (is_digit f && (is_digit g && (h == b'-' && (is_digit i && is_digit j)))))
date_format_regex _ = false

unfoldable pub is_leap : ℕ → Bool
is_leap y = (y % 4 == 0) && (not (y % 100 == 0) || (y % 400 == 0))

-- `daysIn` of package time
unfoldable pub days_in : ℕ → ℕ → ℕ
unfolding is_leap
days_in m y =
    if m == 2
    then (if is_leap y then 29 else 28)
    else if (m == 4) || ((m == 6) || ((m == 9) || (m == 11)))
    then 30
    else 31

abbrev digit : ℕ → ℕ
digit c = c - b'0'

-- The tests of `time.Parse` on the numbers that it read.
unfoldable pub check_date : ℕ → ℕ → ℕ → Option DateFault
unfolding days_in
check_date y m d =
    if ltb m 1 || ltb 12 m
    then some month_out_of_range
    else if ltb d 1 || ltb (days_in m y) d
    then some day_out_of_range
    else none

-- `time.Parse(SunsetDateFormat, date)`, on texts that the pattern accepts; `none` is success.
unfoldable pub time_parse : Text → Option DateFault
unfolding check_date
time_parse (a ∷ b ∷ c ∷ d ∷ e ∷ f ∷ g ∷ h ∷ i ∷ j ∷ []) =
    check_date (digit a * 1000 + digit b * 100 + digit c * 10 + digit d) (digit f * 10 + digit g)
      (digit i * 10 + digit j)
time_parse _ = some bad_layout

-- `ValidateSunsetDateFormat`; `none` is a nil error.
unfoldable pub validate_sunset_date_format : Text → Option DateError
validate_sunset_date_format date =
    if is_empty date
    then some empty_date
    else if not (date_format_regex date)
    then some invalid_format
    else elim (time_parse date) [ some fault ↦ some (invalid_date fault) | none ↦ none ]

unfoldable pub validate_sunset_date : Text → Option DateError
validate_sunset_date date = validate_sunset_date_format date

unfoldable pub validate_deprecation_info : Option Deprecation → Option DateError
validate_deprecation_info none = none
validate_deprecation_info (some deprecation) =
    if is_empty deprecation.sunset_date
    then some missing_sunset_date
    else validate_sunset_date deprecation.sunset_date
