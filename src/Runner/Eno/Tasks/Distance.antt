-- ===== src/Runner/Eno/Tasks/Distance.antt =====
-- The tasks of a tick, for all slots that `gen_timeslots` gives.
use saarctf_gameserver.Prelude.{
  ℕ, zero, suc, ◌+◌, ◌-◌, ◌*◌, ◌≤◌, ◌<◌, ◌≡◌, refl, ◌∙◌, ap, subst, Bool, true, false, ◌==◌, Option,
  none, some, if◌then◌else◌, length, Returns, Returns-map, arith, ℤ, pos, ◌+ℤ◌, ◌≤ℤ◌, int_laws,
}
use saarctf_gameserver.Runner.Slots.{
  CheckerInfo, total_tasks_count, constrained_task_count, seconds, task_start_interval, Slots,
  Shuffle, Jitter, Entry, gen_timeslots_flat,
}
use saarctf_gameserver.Runner.Slots.Delays.{
  IsWithin, IsInRange, IsSpaced, gen_timeslots_flat-IsSpaced,
}
use saarctf_gameserver.Runner.Eno.Tasks.{
  Timeslots, range_map, slot_lists, gen_timeslots_fallback, gen_timeslots, flat_or_fallback,
  Gathering, create_tasks,
}
use saarctf_gameserver.Runner.Eno.Tasks.Pairs.{IsPaired}
use saarctf_gameserver.Runner.Eno.Tasks.Enough.{
  IsInOrder, recount, Returns-then, add_flag_tasks-IsInOrder, add_noise_tasks-IsInOrder,
  add_havoc_task-IsInOrder, for_variants-lem,
}

module _ (wait : ℤ) (e l : ℕ → ℤ) (n : ℕ) (spaced : (i : ℕ) → i < n → e i +ℤ wait ≤ℤ l i)
    (c : CheckerInfo) where
  suc-mul : (j p : ℕ) → suc j * p ≡ p + j * p
  suc-mul j p = grind arith

  abbrev FlagsLeft : ℕ → Gathering → Type 0
  FlagsLeft j =
      IsInOrder wait e l n spaced (j + c.noise_variants) (j * c.check_past_ticks + c.havoc_variants)

  abbrev NoiseLeft : ℕ → Gathering → Type 0
  NoiseLeft j = IsInOrder wait e l n spaced j c.havoc_variants

  create_tasks-IsInOrder :
      (team_id tick : ℕ) (slots : Timeslots)
      → n ≡ c.flag_variants + c.noise_variants
      → slots.early ≡ range_map e 0 n
      → slots.late ≡ range_map l 0 n
      → c.flag_variants * c.check_past_ticks + c.havoc_variants ≤ length slots.unconstrained
      → Returns (IsInOrder wait e l n spaced 0 0) (create_tasks team_id tick c slots)
  unfolding create_tasks
  create_tasks-IsInOrder team_id tick slots en e1 l1 enough =
      Returns-then (FlagsLeft 0) (IsInOrder wait e l n spaced 0 0) _ _
        (for_variants-lem wait e l n spaced team_id tick FlagsLeft _
          (λ v j g h.
            add_flag_tasks-IsInOrder wait e l n spaced team_id tick c.check_past_ticks v
              (j + c.noise_variants) (j * c.check_past_ticks + c.havoc_variants) g
              (recount wait e l n spaced (suc j + c.noise_variants) (suc (j + c.noise_variants))
                (suc j * c.check_past_ticks + c.havoc_variants)
                (c.check_past_ticks + (j * c.check_past_ticks + c.havoc_variants)) g (omega arith)
                (omega (arith, suc-mul j c.check_past_ticks)) h))
          0 c.flag_variants _
          (
            0,
            omega (arith, en),
            e1 ∙ ap (range_map e 0) en,
            l1 ∙ ap (range_map l 0) en,
            enough,
            tt,
          ))
        (λ g1 h1.
          Returns-then (NoiseLeft 0) (IsInOrder wait e l n spaced 0 0) _ _
            (for_variants-lem wait e l n spaced team_id tick NoiseLeft _
              (λ v j g.
                add_noise_tasks-IsInOrder wait e l n spaced team_id tick v j c.havoc_variants g)
              0 c.noise_variants g1
              (recount wait e l n spaced (0 + c.noise_variants) c.noise_variants
                (0 * c.check_past_ticks + c.havoc_variants) c.havoc_variants g1 (omega arith)
                (omega arith) h1))
            (for_variants-lem wait e l n spaced team_id tick (IsInOrder wait e l n spaced 0) _
              (λ v j g. add_havoc_task-IsInOrder wait e l n spaced team_id tick v 0 j g) 0
              c.havoc_variants))

length-range_map :
    {A : Type 0} (f : ℕ → A) (first count : ℕ) → length (range_map f first count) ≡ count
length-range_map f first zero = refl
length-range_map f first (suc count) = omega (arith, length-range_map f (suc first) count)

mul_comm : (a b : ℕ) → a * b ≡ b * a
mul_comm a b = grind arith

none_or :
    {A : Type 0} (P : A → Type 0) (b : Bool) (x y : A)
    → P x
    → (if b then none else some x) ≡ some y
    → P y
none_or P true x y h e = absurd (ground (arith, e))
none_or P false x y h e = subst P (ground (arith, e)) h

pub slot_lists-tasks :
    (c : CheckerInfo) (wait : ℤ) (s : Slots) (team_id tick : ℕ)
    → IsSpaced (constrained_task_count c) wait s
    → Returns (λ g. IsPaired wait g.tasks) (create_tasks team_id tick c (slot_lists c s))
unfolding slot_lists constrained_task_count total_tasks_count
slot_lists-tasks c wait s team_id tick h =
    Returns-map {A = Gathering} _ (λ g. IsPaired wait g.tasks) _
      (λ g (_, _, _, _, _, paired). paired)
      (create_tasks-IsInOrder wait s.early s.late (constrained_task_count c) h c team_id tick
        (slot_lists c s) refl refl refl
        (omega (
          arith,
          length-range_map s.unconstrained 0
              (total_tasks_count c - constrained_task_count c - constrained_task_count c),
          room,
        )))
  where
    room :
        c.flag_variants * c.check_past_ticks + c.havoc_variants
        ≤ total_tasks_count c - constrained_task_count c - constrained_task_count c
    room = grind (arith, mul_comm c.flag_variants c.check_past_ticks)

pub fallback-tasks :
    (c : CheckerInfo) (random : Jitter) (team_id tick : ℕ)
    → ((i : ℕ) → random.early i ≤ seconds c 15)
    → Returns
        (λ g. IsPaired (pos (seconds c 15)) g.tasks)
        (create_tasks team_id tick c (gen_timeslots_fallback c random))
unfolding gen_timeslots_fallback constrained_task_count
fallback-tasks c random team_id tick h =
    Returns-map {A = Gathering} _ (λ g. IsPaired (pos (seconds c 15)) g.tasks) _
      (λ g (_, _, _, _, _, paired). paired)
      (create_tasks-IsInOrder (pos (seconds c 15)) (λ i. pos (random.early i))
        (λ i. pos (seconds c 30) +ℤ pos (random.late i)) (constrained_task_count c)
        (λ i _. omega (int_laws, h i)) c team_id tick (gen_timeslots_fallback c random) refl refl
        refl
        (omega (
          arith,
          mul_comm c.flag_variants c.check_past_ticks,
          length-range_map (λ i. pos (random.unconstrained i)) 0
              (c.check_past_ticks * c.flag_variants + c.havoc_variants),
        )))

-- If gen_timeslots, called with a timeout of 15 seconds, gives slots for the tasks of a service
-- (whatever the random choices of its swaps and shuffles, and whether it shares out the tick or
-- falls back to fixed times), then execute_checker_async has a slot for every task of the tick,
-- and every task that looks for the flag or noise of the current tick starts at least 15 seconds
-- after a task that puts it. It is assumed that a shuffle takes the pairs of slots from those
-- there are, that the random delay within an interval of the tick is not longer than it, and that
-- the early delay of the fallback is at most 15 seconds.
pub create_tasks-IsPaired :
    (team_id tick tick_length : ℕ) (c : CheckerInfo) (choices : ℕ → ℕ → Entry × Entry)
    (order : Shuffle) (jitter random : Jitter) (slots : Timeslots)
    → IsInRange (constrained_task_count c) order.pairs
    → IsWithin (task_start_interval tick_length 15) jitter.early
    → ((i : ℕ) → random.early i ≤ seconds c 15)
    → gen_timeslots tick_length c 15 choices order jitter random ≡ some slots
    → Returns (λ g. IsPaired (pos (seconds c 15)) g.tasks) (create_tasks team_id tick c slots)
unfolding gen_timeslots flat_or_fallback
create_tasks-IsPaired team_id tick tick_length c choices order jitter random slots ho hj hr =
    none_or
      (λ x. Returns (λ g. IsPaired (pos (seconds c 15)) g.tasks) (create_tasks team_id tick c x))
      (constrained_task_count c == 0) _ slots
      (either (gen_timeslots_flat tick_length c 15 choices order jitter) refl)
  where
    either :
        (o : Option Slots)
        → gen_timeslots_flat tick_length c 15 choices order jitter ≡ o
        → Returns
            (λ g. IsPaired (pos (seconds c 15)) g.tasks)
            (create_tasks team_id tick c (flat_or_fallback c random o))
    either (some s) e =
        slot_lists-tasks c (pos (seconds c 15)) s team_id tick (
          gen_timeslots_flat-IsSpaced tick_length 15 c choices order jitter s (omega arith) ho hj e)
    either none e = fallback-tasks c random team_id tick hr
