-- ===== src/Misc/Samples.antt =====
-- Texts of `dissect_time`, and its theorem at one time.
use bopm.Prelude.{◌≤◌, ◌≡◌, refl, arith, codes, decimal, decimal_02}
use bopm.Misc.Time.{dissect, dissect_time, seconds_of, dissect_lem}

day_text : dissect_time 90061 ≡ codes "1 day, 01:01:01"
unfolding dissect_time decimal decimal_02
day_text = refl

hour_text : dissect_time 7200 ≡ codes "2 hours"
unfolding dissect_time decimal decimal_02
hour_text = refl

dissect_lem_example :
    (seconds_of (dissect 694861) ≡ 694861)
    × ((dissect 694861).weeks ≤ 52)
    × ((dissect 694861).days ≤ 6)
    × ((dissect 694861).hours ≤ 23)
    × ((dissect 694861).minutes ≤ 59)
    × ((dissect 694861).seconds ≤ 59)
dissect_lem_example = dissect_lem 694861 (omega arith)
