-- ===== src/Cron.antt =====
-- frontend/src/cron.ts: the schedule builder's presets and the cron expressions they stand for.
-- `describeCron` and `isValidCron` only call a library.
pub mod Fields
pub mod RoundTrip
mod Tests
use willy.Prelude.{
  ℕ, zero, suc, ◌+◌, ◌-◌, ◌≡◌, Bool, true, false, not, ◌&&◌, ◌||◌, Option, none, some, List, [],
  ◌∷◌, ◌==◌, leb, ltb, if◌then◌else◌, map, contains, Text, codes, text_eq, split, join, sort_by,
  is_digits, decimal, to_decimal, trim, split_spaces, ◌++◌, length,
}

pub data CronFrequency : Type 0 where
  minute hourly daily weekly monthly custom : CronFrequency

pub record CronPreset : Type 0 where
  pub frequency : CronFrequency
  pub at_minute : ℕ
  pub at_hour : ℕ
  pub weekdays : List ℕ
  pub day_of_month : ℕ

abbrev pub default_preset : CronPreset
default_preset = record {
  frequency = CronFrequency.daily;
  at_minute = 0;
  at_hour = 0;
  weekdays = 1 ∷ [];
  day_of_month = 1;
}

abbrev pub star : Text
star = b'*' ∷ []

-- A template `${a} ${b} … ` with single spaces.
abbrev pub words : List Text → Text
words = join (32 ∷ [])

abbrev pub days_or_sunday : List ℕ → List ℕ
days_or_sunday [] = 0 ∷ []
days_or_sunday (d ∷ ds) = d ∷ ds

unfoldable pub weekday_list : List ℕ → Text
weekday_list weekdays = join (b',' ∷ []) (map to_decimal (sort_by ltb (days_or_sunday weekdays)))

build_for : CronFrequency → CronPreset → Text
unfolding weekday_list
build_for CronFrequency.minute p = words (star ∷ star ∷ star ∷ star ∷ star ∷ [])
build_for CronFrequency.hourly p = words (to_decimal p.at_minute ∷ star ∷ star ∷ star ∷ star ∷ [])
build_for CronFrequency.daily p =
    words (to_decimal p.at_minute ∷ to_decimal p.at_hour ∷ star ∷ star ∷ star ∷ [])
build_for CronFrequency.weekly p =
    words
      (to_decimal p.at_minute ∷ to_decimal p.at_hour ∷ star ∷ star ∷ weekday_list p.weekdays ∷ [])
build_for CronFrequency.monthly p =
    words
      (to_decimal p.at_minute ∷ to_decimal p.at_hour ∷ to_decimal p.day_of_month ∷ star ∷ star ∷ [])
build_for CronFrequency.custom p = []

unfoldable pub build_cron : CronPreset → Text
unfolding build_for
build_cron preset = build_for preset.frequency preset

unfoldable pub int_field : Text → ℕ → ℕ → Option ℕ
int_field field min max =
    if not (is_digits field)
    then none
    else if leb min (decimal field) && leb (decimal field) max
    then some (decimal field)
    else none

unfoldable pub weekday_num : Text → Option ℕ
weekday_num value =
    if not (is_digits value)
    then none
    else if ltb 7 (decimal value)
    then none
    else if decimal value == 7
    then some 0
    else some (decimal value)

-- `Set.prototype.add`, in insertion order.
unfoldable pub set_add : ℕ → List ℕ → List ℕ
set_add n out = if contains n out then out else out ++ n ∷ []

-- The loop `for (let i = a; i <= b; i++)`, by the rounds that are left.
add_range : ℕ → ℕ → List ℕ → List ℕ
unfolding set_add
add_range i zero out = out
add_range i (suc rounds) out = add_range (i + 1) rounds (set_add i out)

-- One round of the loop over the parts: `none` is the early return.
unfoldable pub add_part : List Text → List ℕ → Option (List ℕ)
unfolding add_range weekday_num set_add
add_part (one ∷ []) out = elim (weekday_num one) [ none ↦ none | some n ↦ some (set_add n out) ]
add_part (from ∷ to ∷ []) out = elim (weekday_num from) [
  | none ↦ none
  | some a ↦ elim (weekday_num to) [
    | none ↦ none
    | some b ↦ if ltb b a then none else some (add_range a (b + 1 - a) out)
  ]
]
add_part _ out = none

unfoldable pub add_parts : List Text → List ℕ → Option (List ℕ)
unfolding add_part
add_parts [] out = some out
add_parts (part ∷ parts) out = elim (add_part (split b'-' part) out) [
  | none ↦ none
  | some out' ↦ add_parts parts out'
]

abbrev pub nonempty_sorted : Option (List ℕ) → Option (List ℕ)
nonempty_sorted none = none
nonempty_sorted (some []) = none
nonempty_sorted (some (d ∷ ds)) = some (sort_by ltb (d ∷ ds))

unfoldable pub parse_weekdays : Text → Option (List ℕ)
unfolding add_parts
parse_weekdays field = nonempty_sorted (add_parts (split b',' field) [])

abbrev pub is_star : Text → Bool
is_star field = text_eq field star

abbrev pub is_blank : Text → Bool
is_blank [] = true
is_blank (c ∷ s) = false

abbrev pub timed : CronFrequency → ℕ → ℕ → CronPreset
timed frequency m h = record default_preset { frequency = frequency; at_minute = m; at_hour = h }

abbrev pub weekly_of : ℕ → ℕ → Option (List ℕ) → Option CronPreset
weekly_of m h none = none
weekly_of m h (some days) = some (record (timed CronFrequency.weekly m h) { weekdays = days })

abbrev pub monthly_of : ℕ → ℕ → Option ℕ → Option CronPreset
monthly_of m h none = none
monthly_of m h (some d) = some (record (timed CronFrequency.monthly m h) { day_of_month = d })

-- The tail of `parseCron`, where minute and hour are numbers.
unfoldable pub parse_timed : ℕ → ℕ → Text → Text → Option CronPreset
unfolding parse_weekdays int_field
parse_timed m h dom dow =
    if is_star dom && is_star dow
    then some (timed CronFrequency.daily m h)
    else if is_star dom && not (is_star dow)
    then weekly_of m h (parse_weekdays dow)
    else if is_star dow && not (is_star dom)
    then monthly_of m h (int_field dom 1 31)
    else none

abbrev pub both_timed : Option ℕ → Option ℕ → Text → Text → Option CronPreset
both_timed none h dom dow = none
both_timed (some m) none dom dow = none
both_timed (some m) (some h) dom dow = parse_timed m h dom dow

abbrev pub hourly_or : Option ℕ → Bool → Option CronPreset → Option CronPreset
hourly_or none b rest = rest
hourly_or (some m) b rest =
    if b
    then some (record default_preset { frequency = CronFrequency.hourly; at_minute = m })
    else rest

unfoldable pub parse_fields : Text → Text → Text → Text → Text → Option CronPreset
unfolding parse_timed int_field
parse_fields min hour dom month dow =
    if is_blank min
      || is_blank hour
      || is_blank dom
      || is_blank month
      || is_blank dow
      || not (is_star month)
    then none
    else if is_star min && is_star hour && is_star dom && is_star dow
    then some (record default_preset { frequency = CronFrequency.minute })
    else hourly_or (int_field min 0 59) (is_star hour && is_star dom && is_star dow)
        (both_timed (int_field min 0 59) (int_field hour 0 23) dom dow)

abbrev pub of_parts : List Text → Option CronPreset
of_parts (min ∷ hour ∷ dom ∷ month ∷ dow ∷ []) = parse_fields min hour dom month dow
of_parts _ = none

unfoldable pub parse_cron : Text → Option CronPreset
unfolding parse_fields
parse_cron expr = of_parts (split_spaces (trim expr))
