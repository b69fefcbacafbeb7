-- ===== src/Runner/Slots/Delays.antt =====
-- The delays that `gen_timeslots_flat` returns.
use saarctf_gameserver.Prelude.{
  ℕ, suc, ◌+◌, ◌-◌, ◌*◌, ◌≤◌, ◌<◌, ◌≡◌, refl, ap, subst, Bool, true, false, none, some,
  if◌then◌else◌, arith, ℤ, pos, negsuc, pos_part, neg_part, ◌+ℤ◌, ◌-ℤ◌, ◌≤ℤ◌, mul_ℕ, leb→le, le→leb,
  int_laws,
}
use saarctf_gameserver.Runner.Slots.{
  CheckerInfo, total_tasks_count, constrained_task_count, seconds, task_start_interval,
  start_offset, Slots, initial_slots, clearance_threshold, assertions, Entry, swap_rounds, Shuffle,
  shuffle_slots, Jitter, add_jitter, gen_timeslots_flat,
}
use saarctf_gameserver.Runner.Slots.Clear.{IsClear, swap_rounds-IsClear}

mul_parts :
    (x : ℤ) (n : ℕ) → pos_part (mul_ℕ x n) + neg_part x * n ≡ neg_part (mul_ℕ x n) + pos_part x * n
mul_parts x n = ground arith

distrib : (p a b : ℕ) → p * (a + b) ≡ p * a + p * b
distrib p a b = grind arith

mul_add : (x : ℤ) (a b : ℕ) → mul_ℕ x (a + b) ≡ mul_ℕ x a +ℤ mul_ℕ x b
mul_add x a b = omega (
  int_laws,
  mul_parts x (a + b),
  mul_parts x a,
  mul_parts x b,
  distrib (pos_part x) a b,
  distrib (neg_part x) a b,
)

le-mul : (q m : ℕ) → 1 ≤ m → q ≤ q * m
le-mul q m h = grind arith

one_le-mul : (t m : ℕ) → 1 ≤ t → 1 ≤ m → 1 ≤ t * m
one_le-mul t m h k = omega (arith, le-mul t m k)

-- The second assertion fails if there is no time to start the tasks.
interval_nonneg : (x : ℤ) (t m : ℕ) → 1 ≤ t → 1 ≤ m → pos t +ℤ x ≤ℤ mul_ℕ x m → pos 0 ≤ℤ x
interval_nonneg (pos p) t m h k l = omega int_laws
interval_nonneg (negsuc q) t m h k l =
    absurd (omega (int_laws, mul_parts (negsuc q) m, le-mul (suc q) m k))

enough_tasks :
    (c : CheckerInfo) → constrained_task_count c + constrained_task_count c ≤ total_tasks_count c
unfolding constrained_task_count total_tasks_count
enough_tasks c = grind (arith, distrib c.flag_variants 2 c.check_past_ticks)

initial_slots-IsClear :
    (c : CheckerInfo) (interval threshold : ℤ)
    → threshold ≤ℤ start_offset interval (total_tasks_count c - constrained_task_count c)
    → IsClear threshold (constrained_task_count c) (initial_slots c interval)
unfolding initial_slots start_offset
initial_slots-IsClear c interval threshold h i l =
    let m = total_tasks_count c - constrained_task_count c in
    le→leb threshold (mul_ℕ interval (m + i) -ℤ mul_ℕ interval i)
      (omega (int_laws, ap pos_part (mul_add interval m i), ap neg_part (mul_add interval m i)))

-- What the assertions say, as far as it is needed.
assertions_lem :
    (c : CheckerInfo) (timeout : ℕ) (interval : ℤ)
    → assertions c timeout interval ≡ true
    → (1 ≤ constrained_task_count c)
      × (clearance_threshold c timeout interval
          ≤ℤ start_offset interval (total_tasks_count c - constrained_task_count c))
unfolding assertions
assertions_lem c timeout interval h = (
  ground arith,
  leb→le (clearance_threshold c timeout interval)
      (start_offset interval (total_tasks_count c - constrained_task_count c)) (ground arith),
)

-- The random delay within an interval, if there is one, is not longer than it.
abbrev pub IsWithin : ℤ → (ℕ → ℕ) → Type 0
IsWithin interval jitter = pos 0 ≤ℤ interval → (i : ℕ) → pos (jitter i) ≤ℤ interval

-- A shuffle of a list of that length takes its slots from the list.
abbrev pub IsInRange : ℕ → (ℕ → ℕ) → Type 0
IsInRange n order = (i : ℕ) → i < n → order i < n

shuffle_slots-IsClear :
    (threshold : ℤ) (n : ℕ) (order : Shuffle) (s : Slots)
    → IsInRange n order.pairs
    → IsClear threshold n s
    → IsClear threshold n (shuffle_slots order s)
unfolding shuffle_slots
shuffle_slots-IsClear threshold n order s range clear i l = clear (order.pairs i) (range i l)

-- The late task of every pair starts at least the timeout after its early task.
abbrev pub IsSpaced : ℕ → ℤ → Slots → Type 0
IsSpaced n wait s = (i : ℕ) → i < n → s.early i +ℤ wait ≤ℤ s.late i

add_jitter-IsSpaced :
    (n : ℕ) (wait interval : ℤ) (j : Jitter) (s : Slots)
    → ((i : ℕ) → pos (j.early i) ≤ℤ interval)
    → IsClear (wait +ℤ interval) n s
    → IsSpaced n wait (add_jitter j s)
unfolding add_jitter
add_jitter-IsSpaced n wait interval j s within clear i l =
    omega (int_laws, leb→le (wait +ℤ interval) (s.late i -ℤ s.early i) (clear i l), within i)

module _ (c : CheckerInfo) (timeout : ℕ) (interval : ℤ) (ht : 1 ≤ timeout)
    (good : assertions c timeout interval ≡ true) where
  has_time : 1 ≤ seconds c timeout
  has_time =
      let (hn, h) = assertions_lem c timeout interval good in
      one_le-mul timeout (total_tasks_count c) ht (omega (arith, hn, enough_tasks c))

  assertions-nonneg : pos 0 ≤ℤ interval
  unfolding clearance_threshold start_offset
  assertions-nonneg =
      let (hn, h) = assertions_lem c timeout interval good in
      interval_nonneg interval (seconds c timeout) (total_tasks_count c - constrained_task_count c)
        has_time (omega (arith, hn, enough_tasks c)) h

  assertions-positive : pos 1 ≤ℤ clearance_threshold c timeout interval
  unfolding clearance_threshold
  assertions-positive = omega (int_laws, assertions-nonneg, has_time)

  swaps-IsClear :
      (choices : ℕ → ℕ → Entry × Entry)
      → IsClear (clearance_threshold c timeout interval) (constrained_task_count c) (
          swap_rounds
            (clearance_threshold c timeout interval)
            (constrained_task_count c)
            20
            choices
            (initial_slots c interval))
  swaps-IsClear choices =
      let t = clearance_threshold c timeout interval in
      swap_rounds-IsClear t assertions-positive (constrained_task_count c) 20 choices
        (initial_slots c interval)
        (initial_slots-IsClear c interval t (assertions_lem c timeout interval good).1)

-- A property of an option's value holds for a test that has one result only.
pub some_if :
    {A : Type 0} (P : A → Type 0) (b : Bool) (x y : A)
    → (b ≡ true → P x)
    → (if b then some x else none) ≡ some y
    → P y
some_if P true x y h e = subst P (ground (arith, e)) (h refl)
some_if P false x y h e = absurd (ground (arith, e))

-- x
pub gen_timeslots_flat-IsSpaced :
    (tick_length timeout : ℕ) (c : CheckerInfo) (choices : ℕ → ℕ → Entry × Entry) (order : Shuffle)
    (j : Jitter) (s : Slots)
    → 1 ≤ timeout
    → IsInRange (constrained_task_count c) order.pairs
    → IsWithin (task_start_interval tick_length timeout) j.early
    → gen_timeslots_flat tick_length c timeout choices order j ≡ some s
    → IsSpaced (constrained_task_count c) (pos (seconds c timeout)) s
unfolding gen_timeslots_flat clearance_threshold
gen_timeslots_flat-IsSpaced tick_length timeout c choices order j s ht range within e =
    let interval = task_start_interval tick_length timeout in
    let n = constrained_task_count c in
    let wait = pos (seconds c timeout) in
    let swapped =
      swap_rounds (clearance_threshold c timeout interval) n 20 choices
        (initial_slots c interval) in
    some_if (IsSpaced n wait) (assertions c timeout interval) _ s
      (λ good.
        add_jitter-IsSpaced n wait interval j (shuffle_slots order swapped)
          (within (assertions-nonneg c timeout interval ht good))
          (shuffle_slots-IsClear (clearance_threshold c timeout interval) n order swapped range
            (swaps-IsClear c timeout interval ht good choices)))
      e
