-- ===== src/Common/Timer/Laws.antt =====
-- What `Tick` measures, with the wrap of the 32-bit clock.
use priston_tale_eu.Prelude.{ℕ, ◌+◌, ◌-◌, ◌^◌, ◌≤◌, ◌≡◌, arith, ltb, if◌then◌else◌}
use priston_tale_eu.Common.Timer.{WorldTimer, get_server_time, get_time_difference, tick}

-- A tick after the clock has gone on by `d` milliseconds, at most half its range, keeps the time of
-- the last tick, takes the clock's, and returns `d` if the 32-bit time has not wrapped in between,
-- and `d - 1` if it has.
pub tick_lem :
    (t : WorldTimer) (clock d : ℕ)
    → t.time ≡ get_server_time clock
    → d ≤ 2 ^ 31
    → let (diff, t') = tick t (clock + d) in
      (t'.prev_time ≡ t.time)
      × (t'.time ≡ get_server_time (clock + d))
      × (diff ≡ (if ltb (t.time + d) (2 ^ 32) then d else d - 1))
unfolding tick get_server_time get_time_difference
tick_lem t clock d e h = ground arith
