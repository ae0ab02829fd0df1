-- ===== src/Provenance/Calendar.antt =====
-- The time as text (tools/provenance/src/lib.rs: civil_from_days and format_unix).
use Prim.Native.String
use Prim.Native.String.{String}
use fluxora_contracts.Base.{
  ℕ, zero, suc, ◌+◌, ◌-◌, ◌*◌, ◌/◌, ◌%◌, ℤ, pos, pos_part, neg_part, ◌+ℤ◌, ◌-ℤ◌, ◌*ℤ◌, ◌/ℤ◌, leb_ℤ,
  ltb, leb, Bool, false, if◌then◌else◌, Option, List, [], ◌∷◌, negsuc, none, some, ◌==◌,
}

-- The year, the month from 1 and the day from 1.
abbrev pub CivilDate : Type 0
CivilDate = ℤ × ℕ × ℕ

abbrev pub in_i64 : ℤ → Bool
in_i64 z =
    if leb 9223372036854775808 (pos_part z) then false else leb (neg_part z) 9223372036854775808

abbrev pub era_of : ℤ → ℤ
era_of z = (if leb_ℤ (pos 0) z then z else z -ℤ pos 146096) /ℤ pos 146097

unfoldable pub year_of_era : ℕ → ℕ
year_of_era doe = (doe - doe / 1460 + doe / 36524 - doe / 146096) / 365

unfoldable pub day_of_year : ℕ → ℕ
day_of_year doe = let yoe = year_of_era doe in doe - (365 * yoe + yoe / 4 - yoe / 100)

unfoldable pub date_in_year : ℤ → ℕ → CivilDate
date_in_year y doy =
    let mp = (5 * doy + 2) / 153 in
    let d = doy - (153 * mp + 2) / 5 + 1 in
    let m = if ltb mp 10 then mp + 3 else mp - 9 in (if leb m 2 then y +ℤ pos 1 else y, m, d)

unfoldable pub shifted_date : ℤ → CivilDate
shifted_date z =
    let era = era_of z in
    let doe = pos_part (z -ℤ era *ℤ pos 146097) in
    date_in_year (pos (year_of_era doe) +ℤ era *ℤ pos 400) (day_of_year doe)

-- `none` is the panic of the overflow check on the first addition, the only one that can overflow.
unfoldable pub civil_from_days : ℤ → Option CivilDate
civil_from_days z = let z' = z +ℤ pos 719468 in if in_i64 z' then some (shifted_date z') else none

-- Decimal digits, at most as many as the first argument says, without leading zeros.
unfoldable pub digits : ℕ → ℕ → String
digits zero n = ""
digits (suc k) n =
    let rest = digits k (n / 10) in
    if n == 0 then "" else String.◌++◌ rest (String.slice "0123456789" (n % 10) (n % 10 + 1))

abbrev pub zeros : ℕ → String
zeros zero = ""
zeros (suc n) = String.◌++◌ "0" (zeros n)

-- Rust's `{:0w}` of a number of 64 bits, which has 20 digits at most.
unfoldable pub padded : ℕ → ℕ → String
padded w n = let text = digits 20 n in String.◌++◌ (zeros (w - String.count text)) text

abbrev pub padded_year : ℤ → String
padded_year (pos y) = padded 4 y
padded_year (negsuc y) = String.◌++◌ "-" (padded 3 (y + 1))

abbrev pub concat : List String → String
concat [] = ""
concat (s ∷ ss) = String.◌++◌ s (concat ss)

abbrev pub stamp : ℕ → CivilDate → String
stamp sod (y, m, d) = concat (
    padded_year y
    ∷ "-"
    ∷ padded 2 m
    ∷ "-"
    ∷ padded 2 d
    ∷ "T"
    ∷ padded 2 (sod / 3600)
    ∷ ":"
    ∷ padded 2 (sod % 3600 / 60)
    ∷ ":"
    ∷ padded 2 (sod % 60)
    ∷ "Z"
    ∷ [])

-- `none` is the panic of the overflow check.
abbrev pub stamp_of : ℕ → Option CivilDate → Option String
stamp_of sod none = none
stamp_of sod (some date) = some (stamp sod date)

unfoldable pub format_unix : ℕ → Option String
format_unix secs = stamp_of (secs % 86400) (civil_from_days (pos (secs / 86400)))
