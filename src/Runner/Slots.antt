-- ===== src/Runner/Slots.antt =====
-- checker_runner/runners/eno.py: `gen_timeslots_flat`, the delays of the tasks of a tick. Times are
-- integers in a unit of one second divided by the number of tasks, so that the division of the tick
-- is exact; rounding of floats is left out. The random choices, the shuffles and the jitter are
-- arguments. A list of slots is a function of its indices.
pub mod Clear
pub mod Delays
use saarctf_gameserver.Prelude.{
  ℕ, zero, suc, ◌+◌, ◌-◌, ◌*◌, ◌≡◌, Bool, true, false, not, ◌&&◌, ◌==◌, Option, none, some,
  if◌then◌else◌, List, [], ◌∷◌, ℤ, pos, ◌+ℤ◌, ◌-ℤ◌, mul_ℕ, sub_ℕ, leb_ℤ, leb,
}

-- the counts of `checker_info`, with `config.RUNNER.eno.check_past_ticks`
pub record CheckerInfo : Type 0 where
  pub flag_variants : ℕ
  pub noise_variants : ℕ
  pub havoc_variants : ℕ
  pub check_past_ticks : ℕ

unfoldable pub total_tasks_count : CheckerInfo → ℕ
total_tasks_count c =
    (2 + c.check_past_ticks) * c.flag_variants + (2 * c.noise_variants + c.havoc_variants)

unfoldable pub constrained_task_count : CheckerInfo → ℕ
constrained_task_count c = c.flag_variants + c.noise_variants

-- seconds, as times
abbrev pub seconds : CheckerInfo → ℕ → ℕ
seconds c s = s * total_tasks_count c

-- `last_possible_start_offset / total_tasks_count` with `TIME_BUFFER`: one unit is one second here
unfoldable pub task_start_interval : ℕ → ℕ → ℤ
task_start_interval tick_length timeout = sub_ℕ tick_length (5 + timeout)

-- `task_interval_start_offsets[i]`
unfoldable pub start_offset : ℤ → ℕ → ℤ
start_offset interval i = mul_ℕ interval i

-- EARLY_TASKS_TAGGED, UNCONSTRAINED_TAGGED and LATE_TASKS_TAGGED, by their index
pub record Slots : Type 0 where
  pub early : ℕ → ℤ
  pub unconstrained : ℕ → ℤ
  pub late : ℕ → ℤ

unfoldable pub initial_slots : CheckerInfo → ℤ → Slots
unfolding start_offset total_tasks_count constrained_task_count
initial_slots c interval =
    let n = constrained_task_count c in
    record {
      early = λ i. start_offset interval i;
      unconstrained = λ i. start_offset interval (n + i);
      late = λ i. start_offset interval (total_tasks_count c - n + i);
    }

unfoldable pub clearance_threshold : CheckerInfo → ℕ → ℤ → ℤ
clearance_threshold c timeout interval = pos (seconds c timeout) +ℤ interval

-- The three assertions. `early_task_slots[-1]` is the slot before the count, and an IndexError when
-- there is none.
unfoldable pub assertions : CheckerInfo → ℕ → ℤ → Bool
unfolding start_offset total_tasks_count constrained_task_count clearance_threshold
assertions c timeout interval =
    let total = total_tasks_count c in
    let n = constrained_task_count c in
    let first_late = start_offset interval (total - n) in
    let threshold = clearance_threshold c timeout interval in
    leb 1 n
    && leb_ℤ (start_offset interval (n - 1))
        (mul_ℕ interval total -ℤ mul_ℕ interval 2 -ℤ pos (seconds c timeout))
    && leb_ℤ threshold first_late
    && leb_ℤ (start_offset interval 0 +ℤ threshold) first_late

pub data SlotType : Type 0 where
  early unconstrained late : SlotType

pub record Entry : Type 0 where
  pub entry_type : SlotType
  pub idx : ℕ

abbrev pub put : ℕ → ℤ → (ℕ → ℤ) → ℕ → ℤ
put i x f j = if i == j then x else f j

abbrev pub get_at : SlotType → ℕ → Slots → ℤ
get_at early i s = s.early i
get_at unconstrained i s = s.unconstrained i
get_at late i s = s.late i

abbrev pub set_at : SlotType → ℕ → ℤ → Slots → Slots
set_at early i x s = record s { early = put i x s.early }
set_at unconstrained i x s = record s { unconstrained = put i x s.unconstrained }
set_at late i x s = record s { late = put i x s.late }

-- `offset` of an entry
abbrev pub get : Entry → Slots → ℤ
get e s = get_at e.entry_type e.idx s

abbrev pub swap : SlotType → ℕ → SlotType → ℕ → Slots → Slots
swap a i b j s = set_at b j (get_at a i s) (set_at a i (get_at b j s) s)

module _ (threshold : ℤ) where
  abbrev pub valid_clearance : ℤ → ℤ → Bool
  valid_clearance e l = leb_ℤ threshold (l -ℤ e)

  -- `_try_perform_swap`, for the current entry and the type and index of the target
  unfoldable pub try_perform_swap : SlotType → ℕ → SlotType → ℕ → Slots → Slots
  try_perform_swap a i unconstrained k s = swap a i unconstrained k s
  try_perform_swap a i early k s =
      if valid_clearance (get_at a i s) (s.late k) then swap a i early k s else s
  try_perform_swap a i late k s =
      if valid_clearance (s.early k) (get_at a i s) then swap a i late k s else s

  -- the late task of a pair with a random entry
  unfoldable pub swap_late : ℕ → Entry → Slots → Slots
  unfolding try_perform_swap
  swap_late i t s =
      if valid_clearance (s.early i) (get t s)
      then try_perform_swap late i t.entry_type t.idx s
      else s

  -- the early task of a pair with a random entry
  unfoldable pub swap_early : ℕ → Entry → Slots → Slots
  unfolding try_perform_swap
  swap_early j t s =
      if valid_clearance (get t s) (s.late j)
      then try_perform_swap early j t.entry_type t.idx s
      else s

  -- The loop over the pairs: pair `n - left`, and from the end pair `left - 1`.
  unfoldable pub swap_pairs : ℕ → ℕ → (ℕ → Entry × Entry) → Slots → Slots
  unfolding swap_late swap_early
  swap_pairs n zero choices s = s
  swap_pairs n (suc left) choices s =
      let i = n - suc left in
      let (late_target, early_target) = choices i in
      swap_pairs n left choices (swap_early left early_target (swap_late i late_target s))

  unfoldable pub swap_rounds : ℕ → ℕ → (ℕ → ℕ → Entry × Entry) → Slots → Slots
  unfolding swap_pairs
  swap_rounds n zero choices s = s
  swap_rounds n (suc rounds) choices s =
      swap_rounds n rounds choices (swap_pairs n n (choices rounds) s)

-- The order in which `random.shuffle` leaves a list: the old index of the slot at every index. The
-- early and the late slots are shuffled in pairs.
pub record Shuffle : Type 0 where
  pub pairs : ℕ → ℕ
  pub unconstrained : ℕ → ℕ

unfoldable pub shuffle_slots : Shuffle → Slots → Slots
shuffle_slots order s = record {
  early = λ i. s.early (order.pairs i);
  unconstrained = λ i. s.unconstrained (order.unconstrained i);
  late = λ i. s.late (order.pairs i);
}

-- `random.random() * task_start_interval`, for the slots
pub record Jitter : Type 0 where
  pub early : ℕ → ℕ
  pub unconstrained : ℕ → ℕ
  pub late : ℕ → ℕ

unfoldable pub add_jitter : Jitter → Slots → Slots
add_jitter j s = record {
  early = λ i. pos (j.early i) +ℤ s.early i;
  unconstrained = λ i. pos (j.unconstrained i) +ℤ s.unconstrained i;
  late = λ i. pos (j.late i) +ℤ s.late i;
}

-- `none` is an exception.
unfoldable pub gen_timeslots_flat :
    ℕ → CheckerInfo → ℕ → (ℕ → ℕ → Entry × Entry) → Shuffle → Jitter → Option Slots
unfolding assertions initial_slots swap_rounds shuffle_slots add_jitter task_start_interval
    clearance_threshold constrained_task_count
gen_timeslots_flat tick_length c timeout choices order jitter =
    let interval = task_start_interval tick_length timeout in
    if assertions c timeout interval
    then some (
        add_jitter jitter (
          shuffle_slots order (
            swap_rounds (clearance_threshold c timeout interval) (constrained_task_count c) 20
              choices (initial_slots c interval))))
    else none
