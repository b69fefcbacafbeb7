-- ===== src/Runner/Slots/Clear.antt =====
-- A late task and its early task under the swaps of `gen_timeslots_flat`.
use saarctf_gameserver.Prelude.{
  ℕ, zero, suc, ◌-◌, ◌<◌, ◌≡◌, subst, true, false, ◌==◌, ==_iff, if_ind, arith, ℤ, pos, ◌-ℤ◌, ◌≤ℤ◌,
  leb→le, int_laws,
}
use saarctf_gameserver.Runner.Slots.{
  Slots, SlotType, early, unconstrained, late, Entry, put, get_at, get, swap, valid_clearance,
  try_perform_swap, swap_late, swap_early, swap_pairs, swap_rounds,
}

flip : (k j : ℕ) → (k == j) ≡ true → (j == k) ≡ true
flip k j e = ground arith

module _ (threshold : ℤ) where
  abbrev pub IsClear : ℕ → Slots → Type 0
  IsClear n s = (i : ℕ) → i < n → valid_clearance threshold (s.early i) (s.late i) ≡ true

  module _ (positive : pos 1 ≤ℤ threshold) where
    not-valid_clearance : (x : ℤ) → valid_clearance threshold x x ≡ true → ⊥
    not-valid_clearance x t = omega (int_laws, leb→le threshold (x -ℤ x) t)

    abbrev Valid : ℤ → ℤ → Type 0
    Valid e l = valid_clearance threshold e l ≡ true

    -- An index that was changed, or not.
    put_ind :
        (P : ℤ → Type 0) (k j : ℕ) (x : ℤ) (f : ℕ → ℤ)
        → ((k == j) ≡ true → P x)
        → ((k == j) ≡ false → P (f j))
        → P (put k x f j)
    put_ind P k j x f a b = if_ind P (k == j) x (f j) a b

    at_index : (P : ℕ → Type 0) (i j : ℕ) → (i == j) ≡ true → P i → P j
    at_index P i j e h = subst P ((==_iff i j).0 e) h

    -- One index of the early slots and one of the late slots changed.
    put_both :
        (i k j : ℕ) (x y : ℤ) (s : Slots)
        → ((k == j) ≡ true → (i == j) ≡ true → Valid x y)
        → ((k == j) ≡ true → Valid x (s.late j))
        → ((i == j) ≡ true → Valid (s.early j) y)
        → Valid (s.early j) (s.late j)
        → Valid (put k x s.early j) (put i y s.late j)
    put_both i k j x y s both first second neither =
        put_ind (λ e. Valid e (put i y s.late j)) k j x s.early
          (λ a. put_ind (λ l. Valid x l) i j y s.late (both a) (λ _. first a))
          (λ _. put_ind (λ l. Valid (s.early j) l) i j y s.late second (λ _. neither))

    swap_late-IsClear :
        (n i : ℕ) (a : SlotType) (k : ℕ) (s : Slots)
        → Valid (s.early i) (get_at a k s)
        → IsClear n s
        → IsClear n (try_perform_swap threshold late i a k s)
    unfolding try_perform_swap
    swap_late-IsClear n i unconstrained k s v h j l =
        put_ind (λ x. Valid (s.early j) x) i j (s.unconstrained k) s.late
          (λ e. at_index (λ m. Valid (s.early m) (s.unconstrained k)) i j e v) (λ _. h j l)
    swap_late-IsClear n i early k s v h j l =
        if_ind (λ (t : Slots). Valid (t.early j) (t.late j))
          (valid_clearance threshold (s.late i) (s.late k)) (swap late i early k s) s
          (λ c.
            put_both i k j (s.late i) (s.early k) s
              (λ a b. absurd (
                not-valid_clearance (s.early k) (
                  at_index (λ m. Valid (s.early m) (s.early k)) j k (flip k j a)
                    (at_index (λ m. Valid (s.early m) (s.early k)) i j b v))))
              (λ a. at_index (λ m. Valid (s.late i) (s.late m)) k j a c)
              (λ b. at_index (λ m. Valid (s.early m) (s.early k)) i j b v) (h j l))
          (λ _. h j l)
    swap_late-IsClear n i late k s v h j l =
        if_ind (λ (t : Slots). Valid (t.early j) (t.late j))
          (valid_clearance threshold (s.early k) (s.late i)) (swap late i late k s) s
          (λ c.
            put_ind (λ x. Valid (s.early j) x) k j (s.late i) (put i (s.late k) s.late)
              (λ a. at_index (λ m. Valid (s.early m) (s.late i)) k j a c)
              (λ _.
                put_ind (λ x. Valid (s.early j) x) i j (s.late k) s.late
                  (λ b. at_index (λ m. Valid (s.early m) (s.late k)) i j b v) (λ _. h j l)))
          (λ _. h j l)

    swap_early-IsClear :
        (n i : ℕ) (a : SlotType) (k : ℕ) (s : Slots)
        → Valid (get_at a k s) (s.late i)
        → IsClear n s
        → IsClear n (try_perform_swap threshold early i a k s)
    unfolding try_perform_swap
    swap_early-IsClear n i unconstrained k s v h j l =
        put_ind (λ x. Valid x (s.late j)) i j (s.unconstrained k) s.early
          (λ e. at_index (λ m. Valid (s.unconstrained k) (s.late m)) i j e v) (λ _. h j l)
    swap_early-IsClear n i early k s v h j l =
        if_ind (λ (t : Slots). Valid (t.early j) (t.late j))
          (valid_clearance threshold (s.early i) (s.late k)) (swap early i early k s) s
          (λ c.
            put_ind (λ x. Valid x (s.late j)) k j (s.early i) (put i (s.early k) s.early)
              (λ a. at_index (λ m. Valid (s.early i) (s.late m)) k j a c)
              (λ _.
                put_ind (λ x. Valid x (s.late j)) i j (s.early k) s.early
                  (λ b. at_index (λ m. Valid (s.early k) (s.late m)) i j b v) (λ _. h j l)))
          (λ _. h j l)
    swap_early-IsClear n i late k s v h j l =
        if_ind (λ (t : Slots). Valid (t.early j) (t.late j))
          (valid_clearance threshold (s.early k) (s.early i)) (swap early i late k s) s
          (λ c.
            put_both k i j (s.late k) (s.early i) s
              (λ b a. absurd (
                not-valid_clearance (s.late k) (
                  at_index (λ m. Valid (s.late k) (s.late m)) j k (flip k j a)
                    (at_index (λ m. Valid (s.late k) (s.late m)) i j b v))))
              (λ b. at_index (λ m. Valid (s.late k) (s.late m)) i j b v)
              (λ a. at_index (λ m. Valid (s.early m) (s.early i)) k j a c) (h j l))
          (λ _. h j l)

    step-IsClear :
        (n i j : ℕ) (a b : Entry) (s : Slots)
        → IsClear n s
        → IsClear n (swap_early threshold j b (swap_late threshold i a s))
    unfolding swap_early swap_late
    step-IsClear n i j a b s h =
        let s' = swap_late threshold i a s in
        if_ind (IsClear n) (valid_clearance threshold (get b s') (s'.late j)) _ s'
          (λ v. swap_early-IsClear n j b.entry_type b.idx s' v first) (λ _. first)
      where
        first : IsClear n (swap_late threshold i a s)
        first =
            if_ind (IsClear n) (valid_clearance threshold (s.early i) (get a s)) _ s
              (λ v. swap_late-IsClear n i a.entry_type a.idx s v h) (λ _. h)

    swap_pairs-IsClear :
        (n m left : ℕ) (choices : ℕ → Entry × Entry) (s : Slots)
        → IsClear n s
        → IsClear n (swap_pairs threshold m left choices s)
    unfolding swap_pairs
    swap_pairs-IsClear n m zero choices s h = h
    swap_pairs-IsClear n m (suc left) choices s h =
        swap_pairs-IsClear n m left choices _ (step-IsClear n (m - suc left) left _ _ s h)

    pub swap_rounds-IsClear :
        (n rounds : ℕ) (choices : ℕ → ℕ → Entry × Entry) (s : Slots)
        → IsClear n s
        → IsClear n (swap_rounds threshold n rounds choices s)
    unfolding swap_rounds
    swap_rounds-IsClear n zero choices s h = h
    swap_rounds-IsClear n (suc rounds) choices s h =
        swap_rounds-IsClear n rounds choices _ (swap_pairs-IsClear n n n (choices rounds) s h)
