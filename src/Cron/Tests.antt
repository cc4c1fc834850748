-- ===== src/Cron/Tests.antt =====
-- The cron builder on concrete expressions, and an instance of the round trip.
use willy.Prelude.{
  ◌≡◌, refl, none, some, [], ◌∷◌, codes, arith, join, split, text_eq, is_digits, decimal,
  to_decimal, trim, split_spaces, sort_by,
}
use willy.Cron.{CronFrequency, CronPreset, default_preset, build_cron, parse_cron}
use willy.Cron.RoundTrip.{IsBuilt, shown, parse_cron-build_cron}

abbrev workdays : CronPreset
workdays = record default_preset {
  frequency = CronFrequency.weekly;
  at_minute = 30;
  at_hour = 6;
  weekdays = 1 ∷ 3 ∷ 5 ∷ [];
}

built : build_cron workdays ≡ codes "30 6 * * 1,3,5"
unfolding build_cron join to_decimal sort_by
built = refl

weekday_range :
    parse_cron (codes " 5 4 * *  1-3,7 ")
    ≡ some (record default_preset {
      frequency = CronFrequency.weekly;
      at_minute = 5;
      at_hour = 4;
      weekdays = 0 ∷ 1 ∷ 2 ∷ 3 ∷ [];
    })
unfolding parse_cron trim split_spaces split text_eq is_digits decimal sort_by
weekday_range = refl

steps_refused : parse_cron (codes "*/5 * * * *") ≡ none
unfolding parse_cron trim split_spaces split text_eq is_digits decimal
steps_refused = refl

workdays-IsBuilt : IsBuilt workdays
workdays-IsBuilt = record {
  minute_fits = omega arith;
  hour_fits = omega arith;
  day_fits = omega arith;
  some_weekday = λ e. cc;
  ascending = omega arith;
}

parse_cron-build_cron_example :
    parse_cron (build_cron workdays) ≡ shown CronFrequency.weekly workdays
parse_cron-build_cron_example = parse_cron-build_cron workdays workdays-IsBuilt
