-- ===== src/Wireguard/Retry/Bounded.antt =====
-- The calls and the waiting of `retry`.
use Prim.Native.Nat.{◌^◌}
use saarctf_gameserver.Prelude.{ℕ, zero, suc, ◌+◌, ◌≤◌, ◌<◌, ◌≡◌, refl, arith, leb, if_ind, sym, ap}
use saarctf_gameserver.Wireguard.Retry.{
  api_error, other_error, assertion_error, value_error, no_interface, out_of_fuel, Result, ok, err,
  Retried, retry_limit, ends, answered, retry_loop, retry,
}

module _ {W A : Type 0} (func : W → W × Result A) where
  -- the world after some calls
  abbrev pub calls : ℕ → W → W
  calls zero w = w
  calls (suc n) w = calls n (func w).0

  -- the time before call `n`, from an error count of `e`
  abbrev pub waits : ℕ → ℕ → ℕ
  waits e zero = 0
  waits e (suc n) = 2 ^ e + waits (e + 1) n

  -- `k` calls raised an ApiError, and the one after them gave the result.
  pub record IsRetried (w : W) (limit k : ℕ) (r : Retried W A) : Type 0 where
    pub bounded : k ≤ limit
    pub failing : (n : ℕ) → n < k → (func (calls n w)).1 ≡ err api_error
    pub world : r.world ≡ (func (calls k w)).0
    pub result : r.result ≡ (func (calls k w)).1
    pub exhausted : r.result ≡ err api_error → k ≡ limit

  abbrev Bounded : ℕ → ℕ → ℕ → W → Retried W A → Type 0
  Bounded limit e s w r = (k : ℕ) × IsRetried w limit k r × (r.slept ≡ s + waits e k)

  at_once :
      (limit e s : ℕ) (w : W) (c : W × Result A)
      → func w ≡ c
      → (c.1 ≡ err api_error → 0 ≡ limit)
      → Bounded limit e s w (ends func c s)
  at_once limit e s w c q h = (
    0,
    record {
      bounded = omega arith;
      failing = λ n l. absurd (omega arith);
      world = ap (λ x. x.0) (sym q);
      result = ap (λ x. x.1) (sym q);
      exhausted = h;
    },
    omega arith,
  )

  -- One more failing call before the others.
  one_more :
      (w : W) (limit k : ℕ) (r : Retried W A)
      → (func w).1 ≡ err api_error
      → IsRetried (func w).0 limit k r
      → IsRetried w (suc limit) (suc k) r
  one_more w limit k r e t = record {
    bounded = omega (arith, t.bounded);
    failing = failing;
    world = t.world;
    result = t.result;
    exhausted = λ h. ap suc (t.exhausted h);
  }
    where
      failing : (n : ℕ) → n < suc k → (func (calls n w)).1 ≡ err api_error
      failing zero l = e
      failing (suc n) l = t.failing n (omega arith)

  -- The last round that the limit allows.
  last_round :
      (e s : ℕ) (w : W) (rest : Retried W A) (c : W × Result A)
      → retry_limit ≤ e
      → func w ≡ c
      → Bounded 0 e s w (answered func e s c rest)
  unfolding answered
  last_round e s w rest (v, ok a) h q = at_once 0 e s w (v, ok a) q (λ _. refl)
  last_round e s w rest (v, err api_error) h q =
      if_ind (Bounded 0 e s w) (leb retry_limit e) _ _
        (λ _. at_once 0 e s w (v, err api_error) q (λ _. refl)) (λ b. absurd (ground arith))
  last_round e s w rest (v, err other_error) h q = at_once 0 e s w _ q (λ _. refl)
  last_round e s w rest (v, err assertion_error) h q = at_once 0 e s w _ q (λ _. refl)
  last_round e s w rest (v, err value_error) h q = at_once 0 e s w _ q (λ _. refl)
  last_round e s w rest (v, err no_interface) h q = at_once 0 e s w _ q (λ _. refl)
  last_round e s w rest (v, err out_of_fuel) h q = at_once 0 e s w _ q (λ _. refl)

  round :
      (n e s : ℕ) (w : W) (rest : Retried W A) (c : W × Result A)
      → e < retry_limit
      → func w ≡ c
      → Bounded n (e + 1) (s + 2 ^ e) (func w).0 rest
      → Bounded (suc n) e s w (answered func e s c rest)
  unfolding answered
  round n e s w rest (v, ok a) h q b = at_once (suc n) e s w (v, ok a) q (λ x. cc)
  round n e s w rest (v, err api_error) h q (k, t, slept) =
      if_ind (Bounded (suc n) e s w) (leb retry_limit e) _ _ (λ b. absurd (ground arith))
        (λ _. (suc k, one_more w n k rest (ap (λ x. x.1) q) t, omega arith))
  round n e s w rest (v, err other_error) h q b = at_once (suc n) e s w _ q (λ x. cc)
  round n e s w rest (v, err assertion_error) h q b = at_once (suc n) e s w _ q (λ x. cc)
  round n e s w rest (v, err value_error) h q b = at_once (suc n) e s w _ q (λ x. cc)
  round n e s w rest (v, err no_interface) h q b = at_once (suc n) e s w _ q (λ x. cc)
  round n e s w rest (v, err out_of_fuel) h q b = at_once (suc n) e s w _ q (λ x. cc)

  retry_loop-Bounded :
      (n e s : ℕ) (w : W) → n + e ≡ retry_limit → Bounded n e s w (retry_loop func (suc n) e s w)
  unfolding retry_loop
  retry_loop-Bounded zero e s w h = last_round e s w _ (func w) (omega arith) refl
  retry_loop-Bounded (suc n) e s w h =
      round n e s w _ (func w) (omega arith) refl
        (retry_loop-Bounded n (e + 1) (s + 2 ^ e) (func w).0 (omega arith))

  waits_bound : (k : ℕ) → k ≤ retry_limit → waits 0 k ≤ 7
  waits_bound zero h = omega arith
  waits_bound (suc zero) h = omega arith
  waits_bound (suc (suc zero)) h = omega arith
  waits_bound (suc (suc (suc zero))) h = omega arith
  waits_bound (suc (suc (suc (suc k)))) h = absurd (omega arith)

  -- The loop of retry ends. There is a number of at most three calls that raise an ApiError, the
  -- call after them gives the world and the result of retry, an ApiError is passed on only after
  -- the fourth call, and the pauses add up to at most seven seconds.
  pub retry-IsRetried :
      (w : W) → (k : ℕ) × IsRetried w retry_limit k (retry func w) × ((retry func w).slept ≤ 7)
  unfolding retry
  retry-IsRetried w =
      let (k, t, slept) = retry_loop-Bounded retry_limit 0 0 w refl in
      (k, t, omega (arith, waits_bound k t.bounded))
