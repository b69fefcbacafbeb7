-- ===== src/Dispatcher/Examples.antt =====
-- The theorems on controlserver/dispatcher.py at concrete inputs.
use saarctf_gameserver.Prelude.{ℕ, ◌≡◌, refl, true, false, ◌&&◌, ◌==◌, List, [], ◌∷◌}
use saarctf_gameserver.Dispatcher.{
  Team, Service, Combination, failure, started, retry, dispatch_checker_scripts, handle_all,
  collect, last_finished,
}
use saarctf_gameserver.Dispatcher.Results.{
  status_in, has_combination, task_of, status_after, handle_all-status, all_done, is_none,
  collect-fails,
}
use saarctf_gameserver.Dispatcher.Combinations.{
  is_playing, is_checked, dispatch_checker_scripts-exact,
}

abbrev script : ℕ → ℕ → Combination
script t s = record { team_id = t; service_id = s; tick = 3 }

abbrev scripts : List Combination
scripts = script 1 1 ∷ script 2 1 ∷ script 3 1 ∷ []

handle_all-status_example :
    status_in (handle_all scripts (failure true ∷ started ∷ retry ∷ []) []) (script 2 1)
    ≡ status_after
        (task_of scripts (failure true ∷ started ∷ retry ∷ []) (script 2 1))
        (status_in [] (script 2 1))
unfolding has_combination
handle_all-status_example =
    handle_all-status scripts (failure true ∷ started ∷ retry ∷ []) [] (script 2 1)
      (refl, (refl, (refl, tt)))

-- all scripts of the tick run into their time limit
collect-fails_example :
    is_none (collect scripts (failure true ∷ failure true ∷ failure true ∷ []) [] 600).warning ≡ (
      all_done scripts (failure true ∷ failure true ∷ failure true ∷ [])
      && is_none (last_finished 3 []))
collect-fails_example =
    collect-fails (script 1 1) (script 2 1 ∷ script 3 1 ∷ [])
      (failure true ∷ failure true ∷ failure true ∷ []) [] 600

fails :
    (all_done scripts (failure true ∷ failure true ∷ failure true ∷ [])
      && is_none (last_finished 3 []))
    ≡ true
unfolding all_done last_finished
fails = refl

abbrev teams : List Team
teams =
    record { id = 1; vpn_connected = true; vpn2_connected = false; wg_vulnbox_connected = false }
    ∷ record { id = 2; vpn_connected = false; vpn2_connected = false; wg_vulnbox_connected = false }
    ∷ []

abbrev services : List Service
services = record { id = 1; checker_enabled = true } ∷ []

dispatch_checker_scripts-exact_example :
    has_combination (dispatch_checker_scripts (λ ks. ks) true teams services 3) (script 2 1)
    ≡ (is_playing true teams 2 && (is_checked services 1 && 3 == 3))
dispatch_checker_scripts-exact_example =
    dispatch_checker_scripts-exact 3 (script 2 1) (λ ks. ks) (λ ks. refl) true teams services
