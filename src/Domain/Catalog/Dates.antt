-- ===== src/Domain/Catalog/Dates.antt =====
-- src/domain/Catalog.cpp: validateReleaseDate.
use custom_game_launcher_bac.Base.{
  ℕ, ◌+◌, ◌-◌, ◌*◌, ◌%◌, Bool, false, ◌&&◌, ◌||◌, not, [], ◌∷◌, none, some, leb, ◌==◌,
  if◌then◌else◌, all, take, drop, length, get_elem?, Bytes, VoidResult, success, broken_rule, lit,
}

abbrev pub is_digit : ℕ → Bool
is_digit c = leb b'0' c && leb c b'9'

-- isDigits of a part that is not empty.
abbrev pub is_digits : Bytes → Bool
is_digits = all is_digit

unfoldable pub is_leap : ℕ → Bool
is_leap year = (year % 4 == 0 && not (year % 100 == 0)) || year % 400 == 0

unfoldable pub days_in_month : ℕ → ℕ → ℕ
unfolding is_leap
days_in_month year month =
    if month == 2
    then (if is_leap year then 29 else 28)
    else if month == 4 || (month == 6 || (month == 9 || month == 11))
    then 30
    else 31

-- std::stoi of digits.
unfoldable pub number_from : ℕ → Bytes → ℕ
number_from value [] = value
number_from value (c ∷ cs) = number_from (value * 10 + (c - b'0')) cs

abbrev pub hyphen_at : Bytes → ℕ → Bool
hyphen_at date position = elim (get_elem? date position) [ none ↦ false | some c ↦ c == b'-' ]

-- substr(position, size).
abbrev pub part : ℕ → ℕ → Bytes → Bytes
part position size date = take size (drop position date)

unfoldable pub is_calendar_day : ℕ → ℕ → ℕ → Bool
unfolding days_in_month
is_calendar_day year month day =
    (leb 1970 year && leb year 9999)
    && ((leb 1 month && leb month 12) && (leb 1 day && leb day (days_in_month year month)))

unfoldable pub validate_release_date : Bytes → VoidResult
unfolding is_calendar_day number_from
validate_release_date date =
    if (length date == 10 && (hyphen_at date 4 && hyphen_at date 7))
      && ((is_digits (part 0 4 date) && (is_digits (part 5 2 date) && is_digits (part 8 2 date)))
          && is_calendar_day (number_from 0 (part 0 4 date)) (number_from 0 (part 5 2 date))
              (number_from 0 (part 8 2 date)))
    then success
    else broken_rule (lit "releaseDate must be an ISO date, e.g. 2026-04-30" ∷ [])
        "release_date_invalid" []
