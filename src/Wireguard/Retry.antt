-- ===== src/Wireguard/Retry.antt =====
-- wireguard_sync/__init__.py: `InterfaceManager.retry`, for calls that change a world and return a
-- value or raise an exception. Waiting is counted in seconds.
pub mod Bounded
use saarctf_gameserver.Prelude.{ℕ, zero, suc, ◌+◌, leb, if◌then◌else◌}
use Prim.Native.Nat.{◌^◌}

pub data Error : Type 0 where
  api_error other_error assertion_error value_error no_interface out_of_fuel : Error

pub data Result (A : Type 0) : Type 0 where
  ok : A → Result A
  err : Error → Result A

-- The world afterwards, what the call returned or raised, and the time that was waited.
pub record Retried (W A : Type 0) : Type 0 where
  pub world : W
  pub result : Result A
  pub slept : ℕ

abbrev pub retry_limit : ℕ
retry_limit = 3

module _ {W A : Type 0} (func : W → W × Result A) where
  abbrev pub ends : W × Result A → ℕ → Retried W A
  ends (w, r) slept = record { world = w; result = r; slept = slept }

  -- what follows an answer, with the rest of the loop for an ApiError
  unfoldable pub answered : ℕ → ℕ → W × Result A → Retried W A → Retried W A
  answered error_count slept (w, ok a) rest = ends (w, ok a) slept
  answered error_count slept (w, err api_error) rest =
      if leb retry_limit error_count then ends (w, err api_error) slept else rest
  answered error_count slept (w, err e) rest = ends (w, err e) slept

  -- `while True`
  unfoldable pub retry_loop : ℕ → ℕ → ℕ → W → Retried W A
  unfolding answered
  retry_loop zero error_count slept w = ends (w, err out_of_fuel) slept
  retry_loop (suc fuel) error_count slept w =
      let rest = retry_loop fuel (error_count + 1) (slept + 2 ^ error_count) (func w).0 in
      answered error_count slept (func w) rest

  -- Every round but the last counts an error, up to the limit.
  unfoldable pub retry : W → Retried W A
  unfolding retry_loop
  retry w = retry_loop (retry_limit + 1) 0 0 w
