-- ===== src/Cron/RoundTrip.antt =====
-- A preset is read back from the expression that it builds.
use willy.Prelude.{
  ℕ, ◌≤◌, ◌≡◌, ◌≢◌, refl, false, Option, none, some, List, [], ◌∷◌, Text, to_decimal, text_eq, trim,
  split_spaces, arith, All, ◌∙◌,
}
use willy.Prelude.Splits.{IsWord, split_spaces-join, trim-join}
use willy.Cron.{
  CronFrequency, CronPreset, default_preset, star, words, build_cron, weekday_list, parse_cron,
  parse_fields, is_blank, int_field, timed,
}
use willy.Cron.Fields.{
  int_field-to_decimal, to_decimal-IsWord, star-IsWord, is_star-to_decimal, is_blank-ne-nil,
  IsAscending, parse_weekdays-weekday_list, is_star-weekday_list, weekday_list-IsWord,
}

-- What the builder's fields allow: clock fields in range, ascending weekdays, a day of the month.
pub record IsBuilt (p : CronPreset) : Type 0 where
  pub minute_fits : p.at_minute ≤ 59
  pub hour_fits : p.at_hour ≤ 23
  pub day_fits : (1 ≤ p.day_of_month) × (p.day_of_month ≤ 31)
  pub some_weekday : p.weekdays ≢ []
  pub ascending : IsAscending p.weekdays

-- The preset with the fields that its frequency does not use at their defaults; a custom schedule
-- builds the empty expression, which is no preset.
abbrev pub shown : CronFrequency → CronPreset → Option CronPreset
shown CronFrequency.minute p = some (record default_preset { frequency = CronFrequency.minute })
shown CronFrequency.hourly p =
    some (record default_preset { frequency = CronFrequency.hourly; at_minute = p.at_minute })
shown CronFrequency.daily p = some (timed CronFrequency.daily p.at_minute p.at_hour)
shown CronFrequency.weekly p =
    some (record (timed CronFrequency.weekly p.at_minute p.at_hour) { weekdays = p.weekdays })
shown CronFrequency.monthly p =
    some
      (record (timed CronFrequency.monthly p.at_minute p.at_hour) { day_of_month = p.day_of_month })
shown CronFrequency.custom p = none

parse_words :
    (a b c d e : Text)
    → IsWord a
    → IsWord b
    → IsWord c
    → IsWord d
    → IsWord e
    → parse_cron (words (a ∷ b ∷ c ∷ d ∷ e ∷ [])) ≡ parse_fields a b c d e
unfolding parse_cron
parse_words a b c d e ha hb hc hd he =
    let h : All IsWord (a ∷ b ∷ c ∷ d ∷ e ∷ []) = (ha, (hb, (hc, (hd, (he, tt))))) in
    rw (trim-join a (b ∷ c ∷ d ∷ e ∷ []) h, split_spaces-join a (b ∷ c ∷ d ∷ e ∷ []) h)

number_blank : (n : ℕ) → is_blank (to_decimal n) ≡ false
number_blank n = is_blank-ne-nil (to_decimal n) (to_decimal-IsWord n).0

minute_field :
    (p : CronPreset) → IsBuilt p → int_field (to_decimal p.at_minute) 0 59 ≡ some p.at_minute
minute_field p v = int_field-to_decimal p.at_minute 0 59 (omega arith) v.minute_fits

hour_field : (p : CronPreset) → IsBuilt p → int_field (to_decimal p.at_hour) 0 23 ≡ some p.at_hour
hour_field p v = int_field-to_decimal p.at_hour 0 23 (omega arith) v.hour_fits

fields_hourly :
    (p : CronPreset)
    → IsBuilt p
    → parse_fields (to_decimal p.at_minute) star star star star ≡ shown CronFrequency.hourly p
unfolding parse_fields text_eq
fields_hourly p v = rw (number_blank p.at_minute, is_star-to_decimal p.at_minute, minute_field p v)

fields_daily :
    (p : CronPreset)
    → IsBuilt p
    → parse_fields (to_decimal p.at_minute) (to_decimal p.at_hour) star star star
      ≡ shown CronFrequency.daily p
unfolding parse_fields text_eq
fields_daily p v = rw (
  number_blank p.at_minute,
  number_blank p.at_hour,
  is_star-to_decimal p.at_minute,
  is_star-to_decimal p.at_hour,
  minute_field p v,
  hour_field p v,
)

fields_monthly :
    (p : CronPreset)
    → IsBuilt p
    → parse_fields
        (to_decimal p.at_minute)
        (to_decimal p.at_hour)
        (to_decimal p.day_of_month)
        star
        star
      ≡ shown CronFrequency.monthly p
unfolding parse_fields text_eq
fields_monthly p v = simp (
  number_blank p.at_minute,
  number_blank p.at_hour,
  number_blank p.day_of_month,
  is_star-to_decimal p.at_minute,
  is_star-to_decimal p.at_hour,
  is_star-to_decimal p.day_of_month,
  minute_field p v,
  hour_field p v,
  int_field-to_decimal p.day_of_month 1 31 v.day_fits.0 v.day_fits.1,
)

fields_weekly :
    (p : CronPreset) (d : ℕ) (ds : List ℕ)
    → IsBuilt p
    → IsAscending (d ∷ ds)
    → parse_fields (to_decimal p.at_minute) (to_decimal p.at_hour) star star (weekday_list (d ∷ ds))
      ≡ shown CronFrequency.weekly (record p { weekdays = d ∷ ds })
unfolding parse_fields text_eq
fields_weekly p d ds v h = simp (
  number_blank p.at_minute,
  number_blank p.at_hour,
  is_blank-ne-nil _ (weekday_list-IsWord d ds h).0,
  is_star-to_decimal p.at_minute,
  is_star-to_decimal p.at_hour,
  is_star-weekday_list d ds h,
  minute_field p v,
  hour_field p v,
  parse_weekdays-weekday_list d ds h,
)

weekly_shown :
    (p : CronPreset) (days : List ℕ)
    → IsBuilt p
    → days ≢ []
    → IsAscending days
    → parse_cron (
        words
          (to_decimal p.at_minute ∷ to_decimal p.at_hour ∷ star ∷ star ∷ weekday_list days ∷ []))
      ≡ shown CronFrequency.weekly (record p { weekdays = days })
weekly_shown p [] v n h = absurd (n refl)
weekly_shown p (d ∷ ds) v n h =
    parse_words _ _ _ _ _ (to_decimal-IsWord p.at_minute) (to_decimal-IsWord p.at_hour) star-IsWord
      star-IsWord (weekday_list-IsWord d ds h)
    ∙ fields_weekly p d ds v h

custom_shown : parse_cron [] ≡ none
unfolding parse_cron split_spaces trim
custom_shown = refl

shown_built :
    (f : CronFrequency) (p : CronPreset)
    → IsBuilt p
    → parse_cron (build_cron (record p { frequency = f })) ≡ shown f p
unfolding build_cron
shown_built CronFrequency.minute p v =
    parse_words _ _ _ _ _ star-IsWord star-IsWord star-IsWord star-IsWord star-IsWord
    ∙ unfold parse_fields text_eq in refl
shown_built CronFrequency.hourly p v =
    parse_words _ _ _ _ _ (to_decimal-IsWord p.at_minute) star-IsWord star-IsWord star-IsWord
      star-IsWord
    ∙ fields_hourly p v
shown_built CronFrequency.daily p v =
    parse_words _ _ _ _ _ (to_decimal-IsWord p.at_minute) (to_decimal-IsWord p.at_hour) star-IsWord
      star-IsWord star-IsWord
    ∙ fields_daily p v
shown_built CronFrequency.weekly p v = weekly_shown p p.weekdays v v.some_weekday v.ascending
shown_built CronFrequency.monthly p v =
    parse_words _ _ _ _ _ (to_decimal-IsWord p.at_minute) (to_decimal-IsWord p.at_hour)
      (to_decimal-IsWord p.day_of_month) star-IsWord star-IsWord
    ∙ fields_monthly p v
shown_built CronFrequency.custom p v = custom_shown

-- The builder's expression is read back as the preset that built it, up to the fields that its
-- frequency does not use; a custom schedule is not read back. The preset's fields are in range and
-- its weekdays ascend.
pub parse_cron-build_cron :
    (p : CronPreset) → IsBuilt p → parse_cron (build_cron p) ≡ shown p.frequency p
parse_cron-build_cron p v = shown_built p.frequency p v
