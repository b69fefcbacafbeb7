-- ===== src/Timer/Examples.antt =====
-- Runs of the timer of controlserver/timer.py, and its theorems at concrete inputs.
use saarctf_gameserver.Prelude.{ℕ, ◌≤◌, ◌<◌, ◌≡◌, ◌≢◌, refl, inl, none, some, List, [], ◌∷◌, arith}
use saarctf_gameserver.Timer.State.{stopped, running, CtfTimer, init_timer}
use saarctf_gameserver.Timer.Redis.{init_from_redis, receive, receive_all}
use saarctf_gameserver.Timer.Slave
use saarctf_gameserver.Timer.Master
use saarctf_gameserver.Timer.Master.{World, on_update_times}
use saarctf_gameserver.Timer.System.{Command, check_time, set_start_at, receive_request, step, run}
use saarctf_gameserver.Timer.Phases.{idle, InOrder, run-InOrder, phase_after, timer-on_update_times}
use saarctf_gameserver.Timer.Ticks.{Follows, check_time-Follows}
use saarctf_gameserver.Timer.Limit.{loop, loop-le_stop_after_tick}
use saarctf_gameserver.Timer.Recovery.{
  messages, IsSaved, on_update_times-replicates, step-IsSaved, start_ctf_unsaved,
  on_update_times-IsSaved,
}
use saarctf_gameserver.Timer.Requests.{deliver, Agrees, slave_calls-Agree, slave_start_ctf}
use saarctf_gameserver.Timer.Schedule.{scheduled_start}

abbrev boot : World
boot = record { timer = init_timer 60; redis = λ c. none; effects = [] }

-- a game that runs its third tick, from 1120 to 1180
abbrev playing : World
playing = record boot {
  timer = record (init_timer 60) {
    state = running;
    desired_state = running;
    current_tick = 3;
    tick_start = some 1120;
    tick_end = some 1180;
  };
}

abbrev limited : World
limited = record playing { timer = record playing.timer { stop_after_tick = some 4 } }

abbrev waits : World
waits = record boot { timer = record boot.timer { start_at = some 1000 } }

-- `playing` after a request to stop, which is in Redis
abbrev stopping : World
stopping =
    on_update_times (record playing { timer = record playing.timer { desired_state = stopped } })

abbrev script : List Command
script =
    set_start_at (some 1000)
    ∷ check_time 999 999
    ∷ check_time 1001 1001
    ∷ check_time 1061 1061
    ∷ receive_request (Slave.stop_after_round (some 3))
    ∷ check_time 1121 1122
    ∷ check_time 1181 1181
    ∷ []

program : Unit {0}
unfolding run step receive Master.check_time Master.start_ctf Master.begin Master.end_tick_at
    Master.next_tick Master.halt Master.on_start_tick Master.on_start_ctf Master.on_end_ctf
    Master.on_update_times Master.update_tick_times Master.publish_all Master.set_start_at
program = tt

script_stops : (run script boot).timer.state ≡ stopped
unfolding program
script_stops = refl

script_ticks : (run script boot).timer.current_tick ≡ 3
unfolding program
script_ticks = refl

run-InOrder_example : InOrder (idle 0) (run script boot)
run-InOrder_example =
    run-InOrder (idle 0) script boot (record { follows = unfold phase_after in refl })

check_time-Follows_example :
    Follows 1181 1180 playing.timer (Master.check_time 1181 1181 playing).timer
check_time-Follows_example =
    check_time-Follows 1181 1181 1180 playing refl refl refl (omega arith) (omega arith)

loop-le_stop_after_tick_example :
    (loop ((1180, 1180) ∷ (1300, 1301) ∷ (1400, 1400) ∷ []) limited).timer.current_tick ≤ 4
loop-le_stop_after_tick_example =
    loop-le_stop_after_tick 4 ((1180, 1180) ∷ (1300, 1301) ∷ (1400, 1400) ∷ []) limited
      (omega arith) (record { unscheduled = refl; bound = inl (refl, omega arith) })

on_update_times-replicates_example :
    receive_all
      (messages [] (on_update_times (record playing { effects = [] })).effects)
      (init_timer 120)
    ≡ some playing.timer
on_update_times-replicates_example =
    on_update_times-replicates playing (init_timer 120) (omega arith)

step-IsSaved_example : IsSaved (step (check_time 1181 1181) (on_update_times playing))
step-IsSaved_example =
    step-IsSaved (check_time 1181 1181) (on_update_times playing) tt
      (on_update_times-IsSaved playing)

stopping_runs : stopping.timer.state ≡ running
stopping_runs = rw timer-on_update_times

stopping_stops : stopping.timer.desired_state ≢ running
stopping_stops = rw timer-on_update_times (λ e. cc e)

start_ctf_unsaved_example :
    ((Master.start_ctf 1150 stopping).timer.desired_state ≡ running)
    × ((t : CtfTimer)
        → init_from_redis t (Master.start_ctf 1150 stopping).redis ≡ some stopping.timer)
    × ¬ (IsSaved (Master.start_ctf 1150 stopping))
start_ctf_unsaved_example =
    start_ctf_unsaved 1150 stopping stopping_runs stopping_stops (on_update_times-IsSaved _)

slave_calls-Agree_example :
    Agrees (Slave.set_tick_time 90 playing.timer) playing (Master.set_tick_time 90 playing)
    × Agrees
        (Slave.set_stop_after_tick (some 9) playing.timer)
        playing
        (Master.set_stop_after_tick (some 9) playing)
    × Agrees
        (Slave.set_start_at (some 9) playing.timer)
        playing
        (Master.set_start_at (some 9) playing)
    × Agrees
        (Slave.set_open_vulnbox_access_at (some 9) playing.timer)
        playing
        (Master.set_open_vulnbox_access_at (some 9) playing)
    × Agrees
        (Slave.suspend_ctf_after_tick playing.timer)
        playing
        (Master.suspend_ctf_after_tick playing)
    × Agrees (Slave.stop_ctf_after_tick playing.timer) playing (Master.stop_ctf_after_tick playing)
slave_calls-Agree_example = slave_calls-Agree playing 90 (some 9) (omega arith)

slave_start_ctf_example :
    (Master.check_time 500 501 (deliver (Slave.start_ctf boot.timer).1 boot)).timer
    ≡ (Master.start_ctf 501 boot).timer
slave_start_ctf_example = slave_start_ctf 500 501 boot refl

abbrev readings : List (ℕ × ℕ)
readings = (994, 994) ∷ (997, 997) ∷ (1002, 1003) ∷ (1007, 1007) ∷ []

scheduled_start_example : 0 < (loop readings waits).timer.current_tick
scheduled_start_example =
    scheduled_start 1000 (omega arith) 990 readings waits
      (record { rests = refl; unwished = refl; scheduled = refl }) (omega arith) (omega arith)
