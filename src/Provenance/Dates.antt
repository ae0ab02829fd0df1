-- ===== src/Provenance/Dates.antt =====
-- `civil_from_days` against the rule for the next day: years, then eras of 400 years, then all days.
use fluxora_contracts.Base.{
  ℕ, zero, suc, ◌+◌, ◌-◌, ◌*◌, ◌/◌, ◌%◌, ◌≤◌, ◌<◌, ◌≡◌, refl, sym, arith, pos, pos_part, ◌+ℤ◌, ◌-ℤ◌,
  ◌*ℤ◌, +ℤ_pos, -ℤ_pos, *ℤ_pos, /ℤ_pos, leb, true, some, inl, inr, ◌∙◌, ap,
}
use fluxora_contracts.Provenance.Calendar.{
  era_of, year_of_era, day_of_year, date_in_year, shifted_date, civil_from_days, stamp, stamp_of,
  format_unix,
}
use fluxora_contracts.Provenance.Gregorian.{
  next_day, days_later, civil, in_month, nat_date, year_days, lt_or_ge, next-within, next-turn,
}

abbrev start_of : ℕ → ℕ
start_of y = 365 * y + y / 4 - y / 100

year_of_era-start : (doe : ℕ) → doe < 146097 → start_of (year_of_era doe) ≤ doe
unfolding year_of_era
year_of_era-start doe h = omega (arith, h)

year_of_era-end : (doe : ℕ) → doe < 146096 → doe < start_of (year_of_era doe + 1)
unfolding year_of_era
year_of_era-end doe h = omega (arith, h)

year_of_era-bound : (doe : ℕ) → doe < 146097 → year_of_era doe < 400
unfolding year_of_era
year_of_era-bound doe h = omega (arith, h)

year_unique :
    (doe y : ℕ)
    → y < 400
    → doe < 146097
    → start_of y ≤ doe
    → doe < start_of (y + 1)
    → year_of_era doe ≡ y
unfolding year_of_era
year_unique doe y low h lo hi = omega (arith, low, h, lo, hi)

last_year : (doe : ℕ) → doe < 146097 → start_of 399 ≤ doe → year_of_era doe ≡ 399
unfolding year_of_era
last_year doe h lo = omega (arith, h, lo)

year_days-eq : (y era : ℕ) → y < 399 → start_of y + year_days (era * 400 + y) ≡ start_of (y + 1)
year_days-eq y era h = ground (arith, h)

year_days-last : (era : ℕ) → year_days (era * 400 + 399) ≡ 366
year_days-last era = ground arith

abbrev era_date : ℕ → ℕ → ℕ × ℕ × ℕ
era_date era doe = nat_date (era * 400 + year_of_era doe) (day_of_year doe)

day_of_year-eq : (doe y : ℕ) → year_of_era doe ≡ y → day_of_year doe ≡ doe - start_of y
unfolding day_of_year
day_of_year-eq doe y e = rw e refl

era_date-eq :
    (era doe y : ℕ)
    → year_of_era doe ≡ y
    → era_date era doe ≡ nat_date (era * 400 + y) (doe - start_of y)
era_date-eq era doe y e = rw (day_of_year-eq doe y e) (rw e refl)

era_next-turn :
    (era doe : ℕ)
    → doe + 1 < 146097
    → year_of_era doe < 399
    → start_of (year_of_era doe + 1) ≤ doe + 1
    → next_day (era_date era doe) ≡ era_date era (doe + 1)
era_next-turn era doe h early turn =
    let y = year_of_era doe in
    let start = year_of_era-start doe (omega (arith, h)) in
    let end = year_of_era-end doe (omega (arith, h)) in
    let days = year_days-eq y era early in
    let later = year_unique (doe + 1) (y + 1) (omega (arith, early)) h turn (omega (arith, end)) in
    ap next_day (era_date-eq era doe y refl)
    ∙ next-turn (era * 400 + y) (doe - start_of y) (omega (arith, start, end, days, turn))
    ∙ ap (λ k. nat_date k 0) (omega arith)
    ∙ ap (nat_date (era * 400 + (y + 1))) (omega (arith, start, end, turn))
    ∙ sym (era_date-eq era (doe + 1) (y + 1) later)

era_next-within :
    (era doe : ℕ)
    → doe + 1 < 146097
    → doe - start_of (year_of_era doe) + 1 < year_days (era * 400 + year_of_era doe)
    → year_of_era (doe + 1) ≡ year_of_era doe
    → next_day (era_date era doe) ≡ era_date era (doe + 1)
era_next-within era doe h room later =
    let y = year_of_era doe in
    let start = year_of_era-start doe (omega (arith, h)) in
    ap next_day (era_date-eq era doe y refl)
    ∙ next-within (era * 400 + y) (doe - start_of y) room
    ∙ ap (nat_date (era * 400 + y)) (omega (arith, start))
    ∙ sym (era_date-eq era (doe + 1) y later)

era_next : (era doe : ℕ) → doe + 1 < 146097 → next_day (era_date era doe) ≡ era_date era (doe + 1)
era_next era doe h =
    let y = year_of_era doe in
    let start = year_of_era-start doe (omega (arith, h)) in
    let bound = year_of_era-bound doe (omega (arith, h)) in
    let end = year_of_era-end doe (omega (arith, h)) in
    elim (lt_or_ge y 399) [
      | inl early ↦ elim (lt_or_ge (doe + 1) (start_of (y + 1))) [
        | inl within ↦
            let days = year_days-eq y era early in
            era_next-within era doe h (omega (arith, start, within, days))
              (year_unique (doe + 1) y bound h (omega (arith, start)) within)
        | inr turn ↦ era_next-turn era doe h early turn
      ]
      | inr late ↦
          let is_last : y ≡ 399 = omega (arith, late, bound) in
          let days = ap (λ k. year_days (era * 400 + k)) is_last ∙ year_days-last era in
          let from = ap start_of is_last in
          era_next-within era doe h (omega (arith, start, from, days, h))
            (last_year (doe + 1) h (omega (arith, start, from)) ∙ sym is_last)
    ]

last_day : (era : ℕ) → next_day (era_date era 146096) ≡ era_date (era + 1) 0
unfolding year_of_era
last_day era =
    ap next_day (era_date-eq era 146096 399 refl)
    ∙ next-turn (era * 400 + 399) (146096 - start_of 399) (sym (year_days-last era))
    ∙ ap (λ y. nat_date y 0) (omega arith)
    ∙ sym (era_date-eq (era + 1) 0 0 refl)

abbrev nat_shifted : ℕ → ℕ × ℕ × ℕ
nat_shifted n = era_date (n / 146097) (n % 146097)

same_era :
    (n : ℕ)
    → n % 146097 + 1 < 146097
    → ((n + 1) / 146097 ≡ n / 146097) × ((n + 1) % 146097 ≡ n % 146097 + 1)
same_era n h = (omega (arith, h), omega (arith, h))

next_era :
    (n : ℕ) → n % 146097 ≡ 146096 → ((n + 1) / 146097 ≡ n / 146097 + 1) × ((n + 1) % 146097 ≡ 0)
next_era n h = (omega (arith, h), omega (arith, h))

nat_next : (n : ℕ) → next_day (nat_shifted n) ≡ nat_shifted (n + 1)
nat_next n = elim (lt_or_ge (n % 146097 + 1) 146097) [
  | inl within ↦
      let (e, d) = same_era n within in
      era_next (n / 146097) (n % 146097) within ∙ sym (rw e (rw d refl))
  | inr turn ↦
      let last : n % 146097 ≡ 146096 = omega (arith, turn) in
      let (e, d) = next_era n last in
      ap (λ k. next_day (era_date (n / 146097) k)) last
      ∙ last_day (n / 146097)
      ∙ sym (rw e (rw d refl))
]

epoch : nat_shifted 719468 ≡ (1970, 1, 1)
unfolding in_month year_of_era day_of_year
epoch = refl

in_month-civil : (y doy : ℕ) → date_in_year (pos y) doy ≡ civil (nat_date y doy)
unfolding date_in_year in_month
in_month-civil y doy = let grown = +ℤ_pos y 1 in ground (arith, grown)

era_of-pos : (n : ℕ) → era_of (pos n) ≡ pos (n / 146097)
era_of-pos n = let small : leb 0 (n + 0) ≡ true = ground arith in rw small (/ℤ_pos n 146097)

day_of_era-pos : (n : ℕ) → pos_part (pos n -ℤ era_of (pos n) *ℤ pos 146097) ≡ n % 146097
day_of_era-pos n =
    let e = era_of-pos n in
    let days = *ℤ_pos (n / 146097) 146097 in
    let rest = -ℤ_pos n (n / 146097 * 146097) (omega arith) in
    rw e (rw days (rw rest (omega arith)))

year-pos : (n y : ℕ) → pos y +ℤ era_of (pos n) *ℤ pos 400 ≡ pos (n / 146097 * 400 + y)
year-pos n y =
    let e = era_of-pos n in
    let years = *ℤ_pos (n / 146097) 400 in
    rw e (rw years (+ℤ_pos y (n / 146097 * 400) ∙ ap pos (omega arith)))

shifted_date-pos : (n : ℕ) → shifted_date (pos n) ≡ civil (nat_shifted n)
unfolding shifted_date
shifted_date-pos n =
    ap (λ doe. date_in_year (pos (year_of_era doe) +ℤ era_of (pos n) *ℤ pos 400) (day_of_year doe))
      (day_of_era-pos n)
    ∙ ap (λ y. date_in_year y (day_of_year (n % 146097))) (year-pos n (year_of_era (n % 146097)))
    ∙ in_month-civil _ _

days_later-eq : (n : ℕ) → nat_shifted (n + 719468) ≡ days_later n
unfolding days_later
days_later-eq zero = epoch
days_later-eq (suc n) =
    ap nat_shifted (omega arith) ∙ sym (nat_next (n + 719468)) ∙ ap next_day (days_later-eq n)

-- For every number of days `n` for which `n + 719468` is below 2^63, `civil_from_days` does not
-- overflow, and the date that it computes is the one that is reached from 1970-01-01 by going to
-- the next day of the Gregorian calendar `n` times.
pub civil_from_days-eq :
    (n : ℕ)
    → n + 719468 < 9223372036854775808
    → civil_from_days (pos n) ≡ some (civil (days_later n))
unfolding civil_from_days
civil_from_days-eq n h =
    let shifted = +ℤ_pos n 719468 in
    let date = shifted_date-pos (n + 719468) ∙ ap civil (days_later-eq n) in
    rw shifted (rw date (ground (arith, h)))

-- The overflow check passes for every number of seconds of 64 bits.
format_unix-eq :
    (secs : ℕ)
    → secs < 18446744073709551616
    → format_unix secs ≡ some (stamp (secs % 86400) (civil (days_later (secs / 86400))))
unfolding format_unix
format_unix-eq secs h =
    ap (stamp_of (secs % 86400)) (civil_from_days-eq (secs / 86400) (omega (arith, h)))
