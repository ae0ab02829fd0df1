-- ===== src/Provenance/Gregorian.antt =====
-- The calendar by its rule for the next day, and the months of a year that starts in March.
use fluxora_contracts.Base.{
  ℕ, zero, suc, ◌+◌, ◌-◌, ◌*◌, ◌/◌, ◌%◌, ◌≤◌, ◌<◌, ◌≡◌, sym, arith, pos, ltb, leb, Bool, true,
  false, if◌then◌else◌, ◌==◌, Bool-cases, inl, inr, ◌⊎◌, ◌∙◌, ap,
}
use fluxora_contracts.Provenance.Calendar.{CivilDate}

-- The Gregorian rule, by which a day follows another.
abbrev pub is_leap : ℕ → Bool
is_leap y = if y % 4 == 0 then (if y % 100 == 0 then y % 400 == 0 else true) else false

abbrev pub month_length : ℕ → ℕ → ℕ
month_length y m =
    if m == 2
    then (if is_leap y then 29 else 28)
    else if m == 4
    then 30
    else if m == 6
    then 30
    else if m == 9
    then 30
    else if m == 11
    then 30
    else 31

unfoldable pub next_day : ℕ × ℕ × ℕ → ℕ × ℕ × ℕ
next_day (y, m, d) =
    if ltb d (month_length y m)
    then (y, m, d + 1)
    else if ltb m 12
    then (y, m + 1, 1)
    else (y + 1, 1, 1)

-- The date that many days after 1970-01-01.
unfoldable pub days_later : ℕ → ℕ × ℕ × ℕ
days_later zero = (1970, 1, 1)
days_later (suc n) = next_day (days_later n)

abbrev pub civil : ℕ × ℕ × ℕ → CivilDate
civil (y, m, d) = (pos y, m, d)

-- The day `doy` of the year that starts in March of `y`, in its month `mp`, both from 0.
unfoldable pub in_month : ℕ → ℕ → ℕ → ℕ × ℕ × ℕ
in_month y doy mp =
    let d = doy - (153 * mp + 2) / 5 + 1 in
    let m = if ltb mp 10 then mp + 3 else mp - 9 in (if leb m 2 then y + 1 else y, m, d)

abbrev pub nat_date : ℕ → ℕ → ℕ × ℕ × ℕ
nat_date y doy = in_month y doy ((5 * doy + 2) / 153)

-- The length of the year that starts in March of `y`.
abbrev pub year_days : ℕ → ℕ
year_days y = if is_leap (y + 1) then 366 else 365

-- The day on which a month starts.
abbrev before : ℕ → ℕ
before mp = (153 * mp + 2) / 5

month_bounds :
    (doy : ℕ) → (before ((5 * doy + 2) / 153) ≤ doy) × (doy < before ((5 * doy + 2) / 153 + 1))
month_bounds doy = (omega arith, omega arith)

month_unique : (doy mp : ℕ) → before mp ≤ doy → doy < before (mp + 1) → (5 * doy + 2) / 153 ≡ mp
month_unique doy mp h k = omega (arith, h, k)

in_month-same :
    (y doy mp : ℕ)
    → mp < 12
    → before mp ≤ doy
    → doy + 1 < before (mp + 1)
    → doy + 1 < year_days y
    → next_day (in_month y doy mp) ≡ in_month y (doy + 1) mp
unfolding in_month next_day
in_month-same y doy mp low lo hi h = ground (arith, low, lo, hi, h)

in_month-next :
    (y doy mp : ℕ)
    → mp < 11
    → before mp ≤ doy
    → doy + 1 ≡ before (mp + 1)
    → next_day (in_month y doy mp) ≡ in_month y (doy + 1) (mp + 1)
unfolding in_month next_day
in_month-next y doy mp low lo hi = ground (arith, low, lo, hi)

pub next-turn : (y doy : ℕ) → doy + 1 ≡ year_days y → next_day (nat_date y doy) ≡ nat_date (y + 1) 0
unfolding next_day in_month
next-turn y doy h = ground (arith, h)

pub lt_or_ge : (a b : ℕ) → (a < b) ⊎ (b ≤ a)
lt_or_ge a b = elim (Bool-cases (ltb a b)) [
  | inl e ↦ inl (ground (arith, e))
  | inr e ↦ inr (ground (arith, e))
]

pub next-within :
    (y doy : ℕ) → doy + 1 < year_days y → next_day (nat_date y doy) ≡ nat_date y (doy + 1)
next-within y doy h =
    let (lo, hi) = month_bounds doy in
    let short : doy + 1 < 366 = ground (arith, h) in
    elim (lt_or_ge (doy + 1) (before ((5 * doy + 2) / 153 + 1))) [
      | inl within ↦
          in_month-same y doy ((5 * doy + 2) / 153) (omega (arith, short)) lo within h
          ∙ ap (in_month y (doy + 1))
              (sym (month_unique (doy + 1) ((5 * doy + 2) / 153) (omega (arith, lo)) within))
      | inr past ↦
          in_month-next y doy ((5 * doy + 2) / 153) (omega (arith, short, past)) lo
            (omega (arith, hi, past))
          ∙ ap (in_month y (doy + 1)) (
              sym (
                month_unique (doy + 1) ((5 * doy + 2) / 153 + 1) (omega (arith, past))
                  (omega (arith, hi, past))))
    ]
