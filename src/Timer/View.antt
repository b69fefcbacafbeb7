-- ===== src/Timer/View.antt =====
-- The five outcomes of a call of `check_time` (controlserver/timer.py), each with its condition.
use saarctf_gameserver.Prelude.{
  ℕ, ◌≡◌, refl, none, Bool, true, false, not, ◌&&◌, if_ind, and_true, not-true, if◌then◌else◌,
  arith,
}
use saarctf_gameserver.Timer.State.{is_running}
use saarctf_gameserver.Timer.Master.{
  World, is_due, in_window, or_zero, end_tick_at, start_ctf, on_open_vulnbox_access,
  on_update_times, check_time,
}

second_false : (a b : Bool) → a ≡ true → (a && b) ≡ false → b ≡ false
second_false a b h k = ground arith

module _ (t now : ℕ) (w : World) where
  abbrev pub take_start : World
  take_start = record w { timer = record w.timer { start_at = none } }

  abbrev pub take_opening : World
  take_opening = record w { timer = record w.timer { open_vulnbox_access_at = none } }

  pub data Checked (u : World) : Type 0 where
    tick_over :
        is_running w.timer.state ≡ true
        → is_due t w.timer.tick_end ≡ true
        → u ≡ end_tick_at t (or_zero w.timer.tick_end) w
        → Checked u
    wanted :
        is_running w.timer.state ≡ false
        → is_running w.timer.desired_state ≡ true
        → u ≡ start_ctf now w
        → Checked u
    scheduled :
        is_running w.timer.state ≡ false
        → is_running w.timer.desired_state ≡ false
        → in_window t w.timer.start_at ≡ true
        → u ≡ start_ctf now take_start
        → Checked u
    opening :
        is_running w.timer.state ≡ false
        → in_window t w.timer.open_vulnbox_access_at ≡ true
        → u ≡ on_update_times (on_open_vulnbox_access take_opening)
        → Checked u
    waiting : u ≡ w → Checked u

  pub check_time-Checked : Checked (check_time t now w)
  unfolding check_time
  check_time-Checked =
      let c = w.timer in
      let idle = not (is_running c.state) in
      let opened = on_update_times (on_open_vulnbox_access take_opening) in
      let last : World = if idle && in_window t c.open_vulnbox_access_at then opened else w in
      let third : World =
        if idle && in_window t c.start_at then start_ctf now take_start else last in
      let second : World = if idle && is_running c.desired_state then start_ctf now w else third in
      if_ind Checked (is_running c.state && is_due t c.tick_end)
        (end_tick_at t (or_zero c.tick_end) w) second
        (λ b. let (busy, due) = and_true _ _ b in tick_over busy due refl)
        λ _.
          if_ind Checked (idle && is_running c.desired_state) (start_ctf now w) third
            (λ b. let (rest, wish) = and_true _ _ b in wanted (not-true _ rest) wish refl)
            λ unwished.
              if_ind Checked (idle && in_window t c.start_at) (start_ctf now take_start) last
                (λ b.
                  let (rest, due) = and_true _ _ b in
                  scheduled (not-true _ rest) (second_false _ _ rest unwished) due refl)
                λ _.
                  if_ind Checked (idle && in_window t c.open_vulnbox_access_at) opened w
                    (λ b. let (rest, due) = and_true _ _ b in opening (not-true _ rest) due refl)
                    (λ _. waiting refl)
