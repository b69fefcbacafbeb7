-- ===== src/Runner/Eno/Tasks/Enough.antt =====
-- What the tasks of a tick take from the slots.
use saarctf_gameserver.Prelude.{
  ℕ, zero, suc, ◌+◌, ◌-◌, ◌≤◌, ◌<◌, ◌≡◌, refl, sym, subst, Bool, true, false, leb, Option, none,
  some, if_ind, List, [], ◌∷◌, ◌++◌, length, Returns, arith, ℤ, ◌+ℤ◌, ◌≤ℤ◌,
}
use saarctf_gameserver.Runner.Eno.{
  put_flag, get_flag, put_noise, get_noise, havoc, CheckerTaskMessage,
}
use saarctf_gameserver.Runner.Eno.Tasks.{
  message, range_map, Gathering, next_slot, early, late, unconstrained, add_task, then_,
  add_past_tasks, add_flag_tasks, add_noise_tasks, add_havoc_task, for_variants,
}
use saarctf_gameserver.Runner.Eno.Tasks.Pairs.{
  is_put, is_check, IsBefore, IsPaired, Any-append, Any-last, append-IsPaired,
}

pub Returns-then :
    (P Q : Gathering → Type 0) (o : Option Gathering) (f : Gathering → Option Gathering)
    → Returns P o
    → ((g : Gathering) → P g → Returns Q (f g))
    → Returns Q (then_ o f)
Returns-then P Q none f h k = elim h [ ]
Returns-then P Q (some g) f h k = k g h

true-false : {b : Bool} → b ≡ false → b ≡ true → ⊥
true-false h k = ground (arith, h, k)

module _ (wait : ℤ) (e l : ℕ → ℤ) (n : ℕ) (spaced : (i : ℕ) → i < n → e i +ℤ wait ≤ℤ l i) where
  -- The slots that are left, and the pairs so far.
  abbrev pub IsInOrder : ℕ → ℕ → Gathering → Type 0
  IsInOrder m u g =
      (k : ℕ) × (k + m ≡ n)
      × (g.slots.early ≡ range_map e k m)
      × (g.slots.late ≡ range_map l k m)
      × (u ≤ length g.slots.unconstrained)
      × IsPaired wait g.tasks

  abbrev with_early : Gathering → List ℤ → List ℤ → Gathering
  with_early g xs ys = record g { slots = record g.slots { early = xs; late = ys } }

  pair_step :
      (p q : CheckerTaskMessage) (m u : ℕ) (g : Gathering)
      → is_put p.method ≡ true
      → is_check p ≡ false
      → p.task_chain_id ≡ q.task_chain_id
      → IsInOrder (suc m) u g
      → Returns (IsInOrder m u) (then_ (add_task early p g) (add_task late q))
  unfolding add_task next_slot
  pair_step p q m u g put other chain (k, total, e1, l1, rest, paired) =
      subst
        (λ xs.
          Returns (IsInOrder m u)
            (then_ (add_task early p (with_early g xs g.slots.late)) (add_task late q)))
        (sym e1)
        (subst
          (λ ys.
            Returns (IsInOrder m u) (
              then_ (add_task early p (with_early g (range_map e k (suc m)) ys)) (add_task late q)))
          (sym l1)
          (
            suc k,
            omega (arith, total),
            refl,
            refl,
            rest,
            append-IsPaired wait (g.tasks ++ (p, e k) ∷ []) (q, l k)
                (λ _.
                  Any-append (IsBefore wait (q, l k)) (g.tasks ++ (p, e k) ∷ []) (q, l k)
                    (Any-last (IsBefore wait (q, l k)) g.tasks (p, e k)
                      (put, chain, spaced k (omega (arith, total)))))
                (append-IsPaired wait g.tasks (p, e k) (λ c. absurd (true-false other c)) paired),
          ))

  abbrev with_unconstrained : Gathering → List ℤ → Gathering
  with_unconstrained g xs = record g { slots = record g.slots { unconstrained = xs } }

  single_step :
      (p : CheckerTaskMessage) (m u : ℕ) (g : Gathering)
      → is_check p ≡ false
      → IsInOrder m (suc u) g
      → Returns (IsInOrder m u) (add_task unconstrained p g)
  unfolding add_task next_slot
  single_step p m u g other (k, total, e1, l1, rest, paired) = taken g.slots.unconstrained rest
    where
      taken :
          (xs : List ℤ)
          → suc u ≤ length xs
          → Returns (IsInOrder m u) (add_task unconstrained p (with_unconstrained g xs))
      taken [] h = absurd (omega (arith, h))
      taken (x ∷ xs) h = (
        k,
        total,
        e1,
        l1,
        omega (arith, h),
        append-IsPaired wait g.tasks (p, x) (λ c. absurd (true-false other c)) paired,
      )

  fewer : (m a b : ℕ) (g : Gathering) → b ≤ a → IsInOrder m a g → IsInOrder m b g
  fewer m a b g h (k, total, e1, l1, rest, paired) =
      (k, total, e1, l1, omega (arith, h, rest), paired)

  pub recount : (m m' a b : ℕ) (g : Gathering) → m ≡ m' → b ≤ a → IsInOrder m a g → IsInOrder m' b g
  recount m m' a b g em h o = subst (λ x. IsInOrder x b g) em (fewer m a b g h o)

  module _ (team_id tick : ℕ) where
    -- a task for an earlier tick checks nothing that was put in this one
    past-is_check :
        (variant_id i : ℕ)
        → 1 ≤ i
        → leb tick i ≡ false
        → is_check (message team_id tick get_flag variant_id (some (tick - i))) ≡ false
    unfolding message
    past-is_check variant_id i h k = ground arith

    add_past_tasks-IsInOrder :
        (variant_id left i m u : ℕ) (g : Gathering)
        → 1 ≤ i
        → IsInOrder m (left + u) g
        → Returns (IsInOrder m u) (add_past_tasks team_id tick variant_id left i g)
    unfolding add_past_tasks
    add_past_tasks-IsInOrder variant_id zero i m u g hi h = fewer m (0 + u) u g (omega arith) h
    add_past_tasks-IsInOrder variant_id (suc left) i m u g hi h =
        if_ind (Returns (IsInOrder m u)) (leb tick i) (some g)
          (then_
            (add_task unconstrained (message team_id tick get_flag variant_id (some (tick - i))) g)
            (add_past_tasks team_id tick variant_id left (suc i)))
          (λ _. fewer m (suc left + u) u g (omega arith) h)
          (λ more.
            Returns-then (IsInOrder m (left + u)) (IsInOrder m u) _ _
              (single_step _ m (left + u) g (past-is_check variant_id i hi more)
                (fewer m (suc left + u) (suc (left + u)) g (omega arith) h))
              (λ g'. add_past_tasks-IsInOrder variant_id left (suc i) m u g' (omega (arith, hi))))

    pub add_flag_tasks-IsInOrder :
        (past variant_id m u : ℕ) (g : Gathering)
        → IsInOrder (suc m) (past + u) g
        → Returns (IsInOrder m u) (add_flag_tasks team_id tick past variant_id g)
    unfolding add_flag_tasks message
    add_flag_tasks-IsInOrder past variant_id m u g h =
        Returns-then (IsInOrder m (past + u)) (IsInOrder m u) _ _
          (pair_step (message team_id tick put_flag variant_id none)
            (message team_id tick get_flag variant_id none) m (past + u) g refl refl refl h)
          (λ g'. add_past_tasks-IsInOrder variant_id past 1 m u g' (omega arith))

    pub add_noise_tasks-IsInOrder :
        (variant_id m u : ℕ) (g : Gathering)
        → IsInOrder (suc m) u g
        → Returns (IsInOrder m u) (add_noise_tasks team_id tick variant_id g)
    unfolding add_noise_tasks message
    add_noise_tasks-IsInOrder variant_id m u g h =
        pair_step (message team_id tick put_noise variant_id none)
          (message team_id tick get_noise variant_id none) m u g refl refl refl h

    pub add_havoc_task-IsInOrder :
        (variant_id m u : ℕ) (g : Gathering)
        → IsInOrder m (suc u) g
        → Returns (IsInOrder m u) (add_havoc_task team_id tick variant_id g)
    unfolding add_havoc_task message
    add_havoc_task-IsInOrder variant_id m u g h =
        single_step (message team_id tick havoc variant_id none) m u g refl h

    -- A loop over variants keeps a count down.
    pub for_variants-lem :
        (P : ℕ → Gathering → Type 0) (body : ℕ → Gathering → Option Gathering)
        → ((v j : ℕ) (g : Gathering) → P (suc j) g → Returns (P j) (body v g))
        → (first count : ℕ) (g : Gathering) → P count g
        → Returns (P 0) (for_variants team_id tick body first count g)
    unfolding for_variants
    for_variants-lem P body step first zero g h = h
    for_variants-lem P body step first (suc count) g h =
        Returns-then (P count) (P 0) _ _ (step first count g h)
          (for_variants-lem P body step (suc first) count)
