-- ===== src/Misc/Time.antt =====
-- `dissect_time` of src/misc.c, for a time that is not negative. Each `while` loop runs on fuel, the
-- time itself: a round subtracts at least 1.
use bopm.Prelude.{
  ℕ, zero, suc, ◌+◌, ◌-◌, ◌*◌, ◌%◌, ◌^◌, ◌≤◌, ◌<◌, ◌≡◌, refl, Bool, true, false, ◌||◌, [], ◌++◌,
  arith, ltb, leb, ◌==◌, if◌then◌else◌, Bytes, codes, decimal, decimal_02,
}
use bopm.Irc.Send.{snprintf}

-- One `while` loop: the count, an unsigned int, and the time that is left.
unfoldable pub peel : (fuel unit : ℕ) → (count time : ℕ) → ℕ × ℕ
peel zero unit count time = (count, time)
peel (suc fuel) unit count time = elim (leb unit time) [
  | true ↦ peel fuel unit ((count + 1) % 2 ^ 32) (time - unit)
  | false ↦ (count, time)
]

pub record Parts : Type 0 where
  pub years : ℕ
  pub weeks : ℕ
  pub days : ℕ
  pub hours : ℕ
  pub minutes : ℕ
  pub seconds : ℕ

-- The five loops.
unfoldable pub dissect : ℕ → Parts
unfolding peel
dissect time =
    let (years, after_years) = peel time (60 * 60 * 24 * 365) 0 time in
    let (weeks, after_weeks) = peel after_years (60 * 60 * 24 * 7) 0 after_years in
    let (days, after_days) = peel after_weeks (60 * 60 * 24) 0 after_weeks in
    let (hours, after_hours) = peel after_days (60 * 60) 0 after_days in
    let (minutes, seconds) = peel after_hours 60 0 after_hours in
    record {
      years = years;
      weeks = weeks;
      days = days;
      hours = hours;
      minutes = minutes;
      seconds = seconds;
    }

-- `%d year%s` and the like.
abbrev counted : ℕ → Bytes → Bytes
counted n unit = decimal n ++ (codes " " ++ (unit ++ (if n == 1 then [] else codes "s")))

abbrev comma : Bytes
comma = codes ", "

-- `%02d:%02d:%02d`
abbrev clock : Parts → Bytes
clock p =
    decimal_02 p.hours
    ++ (codes ":" ++ (decimal_02 p.minutes ++ (codes ":" ++ decimal_02 p.seconds)))

-- The text, before it is cut to its buffer.
unfoldable pub parts_text : Parts → Bytes
parts_text p =
    let seconds = counted p.seconds (codes "second") in
    let minutes = counted p.minutes (codes "minute") in
    let hours = counted p.hours (codes "hour") in
    let days = counted p.days (codes "day") ++ (comma ++ clock p) in
    let weeks = counted p.weeks (codes "week") ++ (comma ++ days) in
    if ltb 0 p.years
    then counted p.years (codes "year") ++ (comma ++ weeks)
    else if ltb 0 p.weeks
    then weeks
    else if ltb 0 p.days
    then days
    else if ltb 0 p.hours
    then if ltb 0 p.minutes || ltb 0 p.seconds
      then hours ++ (comma ++ (minutes ++ (comma ++ seconds)))
      else hours
    else if ltb 0 p.minutes
    then minutes ++ (comma ++ seconds)
    else seconds

unfoldable pub dissect_time : ℕ → Bytes
unfolding dissect parts_text
dissect_time time = snprintf 64 (parts_text (dissect time))

-- A loop that has fuel for the time divides it by the unit.
abbrev Divided : (unit whole : ℕ) → ℕ × ℕ → Type 0
Divided unit whole (count, rest) =
    (count * unit + rest ≡ whole) × (rest < unit) × (count + rest < 2 ^ 32)

peel-Divided :
    (fuel unit count time : ℕ)
    → 0 < unit
    → time ≤ fuel
    → count + time < 2 ^ 32
    → Divided unit (count * unit + time) (peel fuel unit count time)
unfolding peel
peel-Divided zero unit count time pos f small = (omega arith, omega arith, omega arith)
peel-Divided (suc fuel) unit count time pos f small =
    on_test (leb unit time) refl
      (λ below. peel-Divided fuel unit (count + 1) (time - unit) pos (omega arith) (omega arith))
  where
    on_test :
        (more : Bool)
        → leb unit time ≡ more
        → (unit ≤ time
            → Divided unit
                ((count + 1) * unit + (time - unit))
                (peel fuel unit (count + 1) (time - unit)))
        → Divided unit (count * unit + time) (elim more [
          | true ↦ peel fuel unit ((count + 1) % 2 ^ 32) (time - unit)
          | false ↦ (count, time)
        ])
    on_test true e rest =
        let le : unit ≤ time = ground arith in
        let next : (count + 1) % 2 ^ 32 ≡ count + 1 = omega arith in
        let same : (count + 1) * unit + (time - unit) ≡ count * unit + time = grind arith in
        rw next (rw same at (rest le))
    on_test false e rest = (refl, ground arith, small)

abbrev pub seconds_of : Parts → ℕ
seconds_of p =
    p.years * 31536000
    + p.weeks * 604800
    + p.days * 86400
    + p.hours * 3600
    + p.minutes * 60
    + p.seconds

-- For every time below 2 ^ 32 seconds, the parts of `dissect` add up to the time, and each but the
-- years stays below the next larger one: at most 52 weeks, 6 days, 23 hours, 59 minutes and 59
-- seconds.
pub dissect_lem :
    (time : ℕ)
    → time < 2 ^ 32
    → (seconds_of (dissect time) ≡ time)
      × ((dissect time).weeks ≤ 52)
      × ((dissect time).days ≤ 6)
      × ((dissect time).hours ≤ 23)
      × ((dissect time).minutes ≤ 59)
      × ((dissect time).seconds ≤ 59)
unfolding dissect
dissect_lem time small =
    let y = peel time 31536000 0 time in
    let w = peel y.1 604800 0 y.1 in
    let d = peel w.1 86400 0 w.1 in
    let h = peel d.1 3600 0 d.1 in
    let y_div = peel-Divided time 31536000 0 time (omega arith) (omega arith) (omega arith) in
    let w_div = peel-Divided y.1 604800 0 y.1 (omega arith) (omega arith) (omega arith) in
    let d_div = peel-Divided w.1 86400 0 w.1 (omega arith) (omega arith) (omega arith) in
    let h_div = peel-Divided d.1 3600 0 d.1 (omega arith) (omega arith) (omega arith) in
    let m_div = peel-Divided h.1 60 0 h.1 (omega arith) (omega arith) (omega arith) in
    omega (arith, y_div, w_div, d_div, h_div, m_div)
