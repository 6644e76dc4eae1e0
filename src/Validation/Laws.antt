-- ===== src/Validation/Laws.antt =====
-- The validation accepts the dates of the calendar and nothing else.
use protoc_gen_apigw.Validation.{
  validate_sunset_date_format, is_digit, validate_sunset_date, digit, time_parse, date_format_regex,
  check_date, days_in, validate_deprecation_info,
}
use protoc_gen_apigw.Base.{
  refl, true, ◌∙◌, ◌*◌, [], ◌%◌, ◌∷◌, none, ◌/◌, arith, some, ◌+◌, ◌≡◌, ◌<◌, ◌≤◌, ℕ,
}
use protoc_gen_apigw.Base.Text.{Text}

abbrev pad2 : ℕ → Text
pad2 n = (b'0' + n / 10) ∷ (b'0' + n % 10) ∷ []

-- A date in the form YYYY-MM-DD.
abbrev pub format_date : ℕ → ℕ → ℕ → Text
format_date y m d =
    (b'0' + y / 1000)
    ∷ (b'0' + y / 100 % 10)
    ∷ (b'0' + y / 10 % 10)
    ∷ (b'0' + y % 10)
    ∷ b'-'
    ∷ (b'0' + m / 10)
    ∷ (b'0' + m % 10)
    ∷ b'-'
    ∷ (b'0' + d / 10)
    ∷ (b'0' + d % 10)
    ∷ []

-- A day of the (proleptic Gregorian) calendar with a year of four digits.
pub record IsCalendarDate (y m d : ℕ) : Type 0 where
  pub year : y < 10000
  pub month_from : 1 ≤ m
  pub month_to : m ≤ 12
  pub day_from : 1 ≤ d
  pub day_to : d ≤ days_in m y

days_in-le : (m y : ℕ) → days_in m y ≤ 31
unfolding days_in
days_in-le m y = ground arith

check_date-none : (y m d : ℕ) → y < 10000 → check_date y m d ≡ none → IsCalendarDate y m d
unfolding check_date
check_date-none y m d h e = ground arith

check_date_of_IsCalendarDate : (y m d : ℕ) → IsCalendarDate y m d → check_date y m d ≡ none
unfolding check_date
check_date_of_IsCalendarDate y m d v = ground arith

is_digit-add : (k : ℕ) → k < 10 → is_digit (b'0' + k) ≡ true
unfolding is_digit
is_digit-add k h = ground arith

IsDigit_of_is_digit : (c : ℕ) → is_digit c ≡ true → (b'0' ≤ c) × (c ≤ b'9')
unfolding is_digit
IsDigit_of_is_digit c h = ground arith

-- The two tests that an accepted date has passed.
validate_passed :
    (date : Text)
    → validate_deprecation_info (some (record { sunset_date = date })) ≡ none
    → (date_format_regex date ≡ true) × (time_parse date ≡ none)
unfolding validate_deprecation_info validate_sunset_date validate_sunset_date_format
validate_passed [] p = cc
validate_passed (a ∷ s) p = ground arith

validate_of_passed :
    (a : ℕ) (s : Text)
    → date_format_regex (a ∷ s) ≡ true
    → time_parse (a ∷ s) ≡ none
    → validate_deprecation_info (some (record { sunset_date = a ∷ s })) ≡ none
unfolding validate_deprecation_info validate_sunset_date validate_sunset_date_format
validate_of_passed a s h k = rw h (rw k)

regex-format_date :
    (y m d : ℕ) → y < 10000 → m < 100 → d < 100 → date_format_regex (format_date y m d) ≡ true
unfolding date_format_regex
regex-format_date y m d hy hm hd = simp (
  is_digit-add (y / 1000) (omega arith),
  is_digit-add (y / 100 % 10) (omega arith),
  is_digit-add (y / 10 % 10) (omega arith),
  is_digit-add (y % 10) (omega arith),
  is_digit-add (m / 10) (omega arith),
  is_digit-add (m % 10) (omega arith),
  is_digit-add (d / 10) (omega arith),
  is_digit-add (d % 10) (omega arith),
)

year_digits :
    (y : ℕ)
    → digit (b'0' + y / 1000) * 1000
        + digit (b'0' + y / 100 % 10) * 100
        + digit (b'0' + y / 10 % 10) * 10
        + digit (b'0' + y % 10)
      ≡ y
year_digits y = omega arith

two_digits : (m : ℕ) → digit (b'0' + m / 10) * 10 + digit (b'0' + m % 10) ≡ m
two_digits m = omega arith

time_parse-format_date : (y m d : ℕ) → time_parse (format_date y m d) ≡ check_date y m d
unfolding time_parse
time_parse-format_date y m d = λ i. check_date (year_digits y i) (two_digits m i) (two_digits d i)

-- `ValidateDeprecationInfo` returns no error for a calendar date written in the form YYYY-MM-DD.
pub validate-format_date :
    (y m d : ℕ)
    → IsCalendarDate y m d
    → validate_deprecation_info (some (record { sunset_date = format_date y m d })) ≡ none
validate-format_date y m d v =
    validate_of_passed _ _
      (regex-format_date y m d (omega arith) (omega arith) (omega (arith, days_in-le m y)))
      (time_parse-format_date y m d ∙ check_date_of_IsCalendarDate y m d v)

regex_digits :
    (a b c d e f g h i j : ℕ)
    → date_format_regex (a ∷ b ∷ c ∷ d ∷ e ∷ f ∷ g ∷ h ∷ i ∷ j ∷ []) ≡ true
    → (is_digit a ≡ true)
      × (is_digit b ≡ true)
      × (is_digit c ≡ true)
      × (is_digit d ≡ true)
      × (e ≡ b'-')
      × (is_digit f ≡ true)
      × (is_digit g ≡ true)
      × (h ≡ b'-')
      × (is_digit i ≡ true)
      × (is_digit j ≡ true)
unfolding date_format_regex
regex_digits a b c d e f g h i j p = ground arith

-- The digits of four bytes that are digits, and of two.
year_bytes :
    (a b c d : ℕ)
    → is_digit a ≡ true
    → is_digit b ≡ true
    → is_digit c ≡ true
    → is_digit d ≡ true
    → (y : ℕ) × (y ≡ digit a * 1000 + digit b * 100 + digit c * 10 + digit d)
      × (y < 10000)
      × (b'0' + y / 1000 ≡ a)
      × (b'0' + y / 100 % 10 ≡ b)
      × (b'0' + y / 10 % 10 ≡ c)
      × (b'0' + y % 10 ≡ d)
year_bytes a b c d p q r s =
    let ha = IsDigit_of_is_digit a p in
    let hb = IsDigit_of_is_digit b q in
    let hc = IsDigit_of_is_digit c r in
    let hd = IsDigit_of_is_digit d s in
    (
      digit a * 1000 + digit b * 100 + digit c * 10 + digit d,
      refl,
      omega arith,
      omega arith,
      omega arith,
      omega arith,
      omega arith,
    )

two_bytes :
    (a b : ℕ)
    → is_digit a ≡ true
    → is_digit b ≡ true
    → (b'0' + (digit a * 10 + digit b) / 10 ≡ a) × (b'0' + (digit a * 10 + digit b) % 10 ≡ b)
two_bytes a b p q =
    let ha = IsDigit_of_is_digit a p in
    let hb = IsDigit_of_is_digit b q in (omega arith, omega arith)

sound_from_tests :
    (date : Text)
    → date_format_regex date ≡ true
    → time_parse date ≡ none
    → (y : ℕ) × (m : ℕ) × (d : ℕ) × IsCalendarDate y m d × (date ≡ format_date y m d)
unfolding time_parse
sound_from_tests (a ∷ b ∷ c ∷ d ∷ e ∷ f ∷ g ∷ h ∷ i ∷ j ∷ []) p q =
    let (da, db, dc, dd, de, df, dg, dh, di, dj) = regex_digits a b c d e f g h i j p in
    let (y, ey, hy, ya, yb, yc, yd) = year_bytes a b c d da db dc dd in
    let (mf, mg) = two_bytes f g df dg in
    let (ni, nj) = two_bytes i j di dj in
    (y, digit f * 10 + digit g, digit i * 10 + digit j, check_date-none _ _ _ hy (rw ey q), cc)
sound_from_tests _ p q = unfold date_format_regex in cc

-- A sunset date for which `ValidateDeprecationInfo` returns no error is a calendar date in the form
-- YYYY-MM-DD.
pub validate_sound :
    (date : Text)
    → validate_deprecation_info (some (record { sunset_date = date })) ≡ none
    → (y : ℕ) × (m : ℕ) × (d : ℕ) × IsCalendarDate y m d × (date ≡ format_date y m d)
validate_sound date p =
    let (matched, parsed) = validate_passed date p in sound_from_tests date matched parsed
