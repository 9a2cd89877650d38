-- ===== src/Common/Timer.antt =====
-- src/Shared/Common/Timer.h and Timer.cpp: the server's millisecond clock. The system clock, in
-- milliseconds since the start, is an argument.
pub mod Laws
use priston_tale_eu.Prelude.{ℕ, ◌%◌, ◌^◌, min, ltb, if◌then◌else◌, add_u32, sub_u32}

pub record WorldTimer : Type 0 where
  pub time : ℕ
  pub prev_time : ℕ

unfoldable pub get_server_time : ℕ → ℕ
get_server_time clock = clock % 2 ^ 32

unfoldable pub get_time_difference : ℕ → ℕ → ℕ
get_time_difference old_time new_time =
    if ltb new_time old_time
    then min (add_u32 (sub_u32 0xFFFFFFFF old_time) new_time) (sub_u32 old_time new_time)
    else sub_u32 new_time old_time

unfoldable pub tick_time : WorldTimer → ℕ
tick_time t = t.time

unfoldable pub tick_prev_time : WorldTimer → ℕ
tick_prev_time t = t.prev_time

unfoldable pub tick : WorldTimer → ℕ → ℕ × WorldTimer
unfolding get_server_time get_time_difference
tick t clock =
    let now = get_server_time clock in
    (get_time_difference t.time now, record { time = now; prev_time = t.time })
