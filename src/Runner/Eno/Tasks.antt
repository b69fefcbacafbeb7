-- ===== src/Runner/Eno/Tasks.antt =====
-- checker_runner/runners/eno.py: `execute_checker_async`, which takes a delay for every task from
-- the slots of the tick, with `gen_timeslots` and its fallback. `none` is an iterator at its end.
pub mod Pairs
pub mod Enough
pub mod Distance
use saarctf_gameserver.Prelude.{
  ℕ, zero, suc, ◌+◌, ◌-◌, ◌*◌, Bool, ◌==◌, leb, Option, none, some, if◌then◌else◌, List, [], ◌∷◌,
  ◌++◌, ℤ, pos, ◌+ℤ◌,
}
use saarctf_gameserver.Runner.Slots.{
  CheckerInfo, total_tasks_count, constrained_task_count, seconds, Slots, Shuffle, Jitter, Entry,
  gen_timeslots_flat,
}
use saarctf_gameserver.Runner.Eno.{
  CheckerMethod, put_flag, get_flag, put_noise, get_noise, havoc, ChainKind, flag, noise, havoc,
  TaskChain, CheckerTaskMessage,
}

abbrev chain_kind : CheckerMethod → ChainKind
chain_kind put_flag = flag
chain_kind get_flag = flag
chain_kind put_noise = noise
chain_kind get_noise = noise
chain_kind havoc = havoc

-- `_message`; `related_tick or tick`
unfoldable pub message : ℕ → ℕ → CheckerMethod → ℕ → Option ℕ → CheckerTaskMessage
message team_id tick method variant_id related_tick =
    let related = or_tick related_tick in
    record {
      method = method;
      team_id = team_id;
      current_round_id = tick;
      related_round_id = related;
      variant_id = variant_id;
      task_chain_id = record {
        kind = chain_kind method;
        round = related;
        team_id = team_id;
        variant_id = variant_id;
      };
    }
  where
    or_tick : Option ℕ → ℕ
    or_tick none = tick
    or_tick (some r) = if r == 0 then tick else r

-- The delays of a tick, of the early, the late and the unconstrained tasks.
pub record Timeslots : Type 0 where
  pub early : List ℤ
  pub late : List ℤ
  pub unconstrained : List ℤ

-- `[f(i) for i in range(first, first + count)]`
abbrev pub range_map : {A : Type 0} → (ℕ → A) → ℕ → ℕ → List A
range_map f first zero = []
range_map f first (suc count) = f first ∷ range_map f (suc first) count

-- The slots in lists, as `gen_timeslots_flat` returns them.
unfoldable pub slot_lists : CheckerInfo → Slots → Timeslots
unfolding constrained_task_count total_tasks_count
slot_lists c s =
    let n = constrained_task_count c in
    record {
      early = range_map s.early 0 n;
      late = range_map s.late 0 n;
      unconstrained = range_map s.unconstrained 0 (total_tasks_count c - n - n);
    }

-- `gen_timeslots_fallback`, with the random numbers as times
unfoldable pub gen_timeslots_fallback : CheckerInfo → Jitter → Timeslots
unfolding constrained_task_count
gen_timeslots_fallback c random =
    let n = constrained_task_count c in
    record {
      early = range_map (λ i. pos (random.early i)) 0 n;
      late = range_map (λ i. pos (seconds c 30) +ℤ pos (random.late i)) 0 n;
      unconstrained =
          range_map (λ i. pos (random.unconstrained i)) 0
            (c.check_past_ticks * c.flag_variants + c.havoc_variants);
    }

unfoldable pub flat_or_fallback : CheckerInfo → Jitter → Option Slots → Timeslots
unfolding slot_lists gen_timeslots_fallback
flat_or_fallback c random (some s) = slot_lists c s
flat_or_fallback c random none = gen_timeslots_fallback c random

-- `gen_timeslots` catches an AssertionError only. A service without a task that has constraints
-- gives an IndexError, or a ZeroDivisionError if it has no tasks.
unfoldable pub gen_timeslots :
    ℕ → CheckerInfo → ℕ → (ℕ → ℕ → Entry × Entry) → Shuffle → Jitter → Jitter → Option Timeslots
unfolding gen_timeslots_flat flat_or_fallback
gen_timeslots tick_length c timeout choices order jitter random =
    if constrained_task_count c == 0
    then none
    else some
        (flat_or_fallback c random (gen_timeslots_flat tick_length c timeout choices order jitter))

-- The iterators and the tasks so far.
pub record Gathering : Type 0 where
  pub slots : Timeslots
  pub tasks : List (CheckerTaskMessage × ℤ)

pub data SlotKind : Type 0 where
  early late unconstrained : SlotKind

-- `next(...)` of an iterator
unfoldable pub next_slot : SlotKind → Timeslots → Option (ℤ × Timeslots)
next_slot early s = elim s.early [ [] ↦ none | d ∷ rest ↦ some (d, record s { early = rest }) ]
next_slot late s = elim s.late [ [] ↦ none | d ∷ rest ↦ some (d, record s { late = rest }) ]
next_slot unconstrained s = elim s.unconstrained [
  | [] ↦ none
  | d ∷ rest ↦ some (d, record s { unconstrained = rest })
]

unfoldable pub add_task : SlotKind → CheckerTaskMessage → Gathering → Option Gathering
unfolding next_slot
add_task kind msg g = elim (next_slot kind g.slots) [
  | none ↦ none
  | some (delay, slots) ↦ some (record { slots = slots; tasks = g.tasks ++ (msg, delay) ∷ [] })
]

-- one step after another
abbrev pub then_ : Option Gathering → (Gathering → Option Gathering) → Option Gathering
then_ none f = none
then_ (some g) f = f g

module _ (team_id tick : ℕ) where
  -- the loop over the ticks before this one: `left` rounds from `i` on
  unfoldable pub add_past_tasks : ℕ → ℕ → ℕ → Gathering → Option Gathering
  unfolding add_task message
  add_past_tasks variant_id zero i g = some g
  add_past_tasks variant_id (suc left) i g =
      if leb tick i
      then some g
      else then_
          (add_task unconstrained (message team_id tick get_flag variant_id (some (tick - i))) g)
          (add_past_tasks variant_id left (suc i))

  unfoldable pub add_flag_tasks : ℕ → ℕ → Gathering → Option Gathering
  unfolding add_past_tasks
  add_flag_tasks past variant_id g =
      then_
        (then_ (add_task early (message team_id tick put_flag variant_id none) g)
          (add_task late (message team_id tick get_flag variant_id none)))
        (add_past_tasks variant_id past 1)

  unfoldable pub add_noise_tasks : ℕ → Gathering → Option Gathering
  unfolding add_task message
  add_noise_tasks variant_id g =
      then_ (add_task early (message team_id tick put_noise variant_id none) g)
        (add_task late (message team_id tick get_noise variant_id none))

  unfoldable pub add_havoc_task : ℕ → Gathering → Option Gathering
  unfolding add_task message
  add_havoc_task variant_id = add_task unconstrained (message team_id tick havoc variant_id none)

  -- `for variant_id in range(first, first + count)`
  unfoldable pub for_variants :
      (ℕ → Gathering → Option Gathering) → ℕ → ℕ → Gathering → Option Gathering
  for_variants body first zero g = some g
  for_variants body first (suc count) g = then_ (body first g) (for_variants body (suc first) count)

  -- the tasks that `execute_checker_async` gathers
  unfoldable pub create_tasks : CheckerInfo → Timeslots → Option Gathering
  unfolding add_flag_tasks add_noise_tasks add_havoc_task for_variants
  create_tasks c slots =
      then_
        (for_variants (add_flag_tasks c.check_past_ticks) 0 c.flag_variants
          (record { slots = slots; tasks = [] }))
        (λ g1.
          then_ (for_variants add_noise_tasks 0 c.noise_variants g1)
            (λ g2. for_variants add_havoc_task 0 c.havoc_variants g2))
