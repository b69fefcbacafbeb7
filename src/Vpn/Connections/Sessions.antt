-- ===== src/Vpn/Connections/Sessions.antt =====
-- The columns that the scripts of OpenVPN keep (vpn/on-*.py) and the sessions of the players.
use saarctf_gameserver.Prelude.{
  ℕ, suc, ◌≡◌, refl, Bool, true, false, ◌==◌, Option, none, some, if◌then◌else◌, List, [], ◌∷◌,
  ◌++◌, pos, succ, pred, arith, if_ind, subst, sym, ap, ◌∙◌,
}
use saarctf_gameserver.Vpn.Connections.{
  Team, new_team, has_team, update, update_or_create, connected, disconnected, on_connect,
  on_disconnect, count_up, count_down, no_count, on_cloud_connect, on_cloud_disconnect,
  on_cloud_down, Call, connect, disconnect, cloud_connect, cloud_disconnect, cloud_down, call,
  calls,
}

-- The sessions of the players of a team in the cloud, and whether its two other connections are up.
pub record Sessions : Type 0 where
  pub players : ℕ
  pub self_up : Bool
  pub cloud_up : Bool

abbrev pub team_of : Call → ℕ
team_of (connect v now i) = i
team_of (disconnect v now i) = i
team_of (cloud_connect i) = i
team_of (cloud_disconnect i) = i
team_of (cloud_down i) = i

-- What OpenVPN does for a team, and meanwhile for others: only a session that is open ends. All sessions end when the server goes down.
pub data Runs (i : ℕ) : Sessions → List Call → Sessions → Type 0 where
  done : (s : Sessions) → Runs i s [] s
  joins :
      (s s' : Sessions) (cs : List Call)
      → Runs i (record s { players = suc s.players }) cs s'
      → Runs i s (cloud_connect i ∷ cs) s'
  leaves :
      (s s' : Sessions) (n : ℕ) (cs : List Call)
      → s.players ≡ suc n
      → Runs i (record s { players = n }) cs s'
      → Runs i s (cloud_disconnect i ∷ cs) s'
  goes_down :
      (s s' : Sessions) (cs : List Call)
      → Runs i (record s { players = 0 }) cs s'
      → Runs i s (cloud_down i ∷ cs) s'
  comes_up :
      (s s' : Sessions) (v : Bool) (now : ℕ) (cs : List Call)
      → Runs i (if v then record s { cloud_up = true } else record s { self_up = true }) cs s'
      → Runs i s (connect v now i ∷ cs) s'
  drops :
      (s s' : Sessions) (v : Bool) (now : ℕ) (cs : List Call)
      → Runs i (if v then record s { cloud_up = false } else record s { self_up = false }) cs s'
      → Runs i s (disconnect v now i ∷ cs) s'
  elsewhere :
      (s s' : Sessions) (c : Call) (cs : List Call)
      → (team_of c == i) ≡ false
      → Runs i s cs s'
      → Runs i s (c ∷ cs) s'

-- the row of a team
unfoldable pub find_team : ℕ → List Team → Option Team
find_team i [] = none
find_team i (t ∷ ts) = if t.id == i then some t else find_team i ts

-- The row says what is up, and how many sessions there are.
abbrev pub Shows : Sessions → Option Team → Type 0
Shows s none = ⊥
Shows s (some t) =
    (t.vpn_connection_count ≡ pos s.players)
    × ((t.vpn_connected ≡ s.self_up) × (t.vpn2_connected ≡ s.cloud_up))

abbrev map_team : (Team → Team) → Option Team → Option Team
map_team f none = none
map_team f (some t) = some (f t)

find-update :
    (i : ℕ) (f : Team → Team) (ts : List Team)
    → ((t : Team) → (f t).id ≡ t.id)
    → find_team i (update i f ts) ≡ map_team f (find_team i ts)
unfolding find_team update
find-update i f [] h = refl
find-update i f (t ∷ ts) h = ground (arith, h t, find-update i f ts h)

find-absent : (i : ℕ) (ts : List Team) → has_team ts i ≡ false → find_team i ts ≡ none
unfolding find_team has_team
find-absent i [] h = refl
find-absent i (t ∷ ts) h = ground (arith, h, find-absent i ts)

module _ (f : Team → Team) (keeps : (t : Team) → (f t).id ≡ t.id) (s s' : Sessions) where
  module _ (turns : (t : Team) → Shows s (some t) → Shows s' (some (f t))) where
    Shows-map : (o : Option Team) → Shows s o → Shows s' (map_team f o)
    Shows-map (some t) h = turns t h
    Shows-map none h = h

    Shows-update :
        (i : ℕ) (ts : List Team) → Shows s (find_team i ts) → Shows s' (find_team i (update i f ts))
    Shows-update i ts h =
        subst (Shows s') (sym (find-update i f ts keeps)) (Shows-map (find_team i ts) h)

    Shows-update_or_create :
        (i : ℕ) (ts : List Team)
        → Shows s (find_team i ts)
        → Shows s' (find_team i (update_or_create i f ts))
    unfolding update_or_create
    Shows-update_or_create i ts h =
        if_ind (λ us. Shows s' (find_team i us)) (has_team ts i) _ _ (λ _. Shows-update i ts h)
          (λ no. elim (subst (Shows s) (find-absent i ts no) h) [ ])

connect-Shows :
    (v : Bool) (now i : ℕ) (ts : List Team) (s : Sessions)
    → Shows s (find_team i ts)
    → Shows
        (if v then record s { cloud_up = true } else record s { self_up = true })
        (find_team i (on_connect v now i ts))
unfolding on_connect
connect-Shows true now i ts s h =
    Shows-update_or_create (connected true now) (λ t. refl) s _ (λ t (n, (a, b)). (n, (a, refl))) i
      ts h
connect-Shows false now i ts s h =
    Shows-update_or_create (connected false now) (λ t. refl) s _ (λ t (n, (a, b)). (n, (refl, b))) i
      ts h

disconnect-Shows :
    (v : Bool) (now i : ℕ) (ts : List Team) (s : Sessions)
    → Shows s (find_team i ts)
    → Shows
        (if v then record s { cloud_up = false } else record s { self_up = false })
        (find_team i (on_disconnect v now i ts))
unfolding on_disconnect
disconnect-Shows true now i ts s h =
    Shows-update (disconnected true now) (λ t. ground arith) s _
      (λ t (n, (a, b)). ground (arith, n, a, b)) i ts h
disconnect-Shows false now i ts s h =
    Shows-update (disconnected false now) (λ t. ground arith) s _
      (λ t (n, (a, b)). ground (arith, n, a, b)) i ts h

update-other :
    (i j : ℕ) (f : Team → Team) (ts : List Team)
    → (j == i) ≡ false
    → ((t : Team) → (f t).id ≡ t.id)
    → find_team i (update j f ts) ≡ find_team i ts
unfolding find_team update
update-other i j f [] h k = refl
update-other i j f (t ∷ ts) h k = ground (arith, h, k t, update-other i j f ts h k)

append-other :
    (i : ℕ) (t : Team) (ts : List Team)
    → (t.id == i) ≡ false
    → find_team i (ts ++ (t ∷ [])) ≡ find_team i ts
unfolding find_team
append-other i t [] h = ground (arith, h)
append-other i t (u ∷ ts) h = ground (arith, append-other i t ts h)

update_or_create-other :
    (i j : ℕ) (f : Team → Team) (ts : List Team)
    → (j == i) ≡ false
    → ((t : Team) → (f t).id ≡ t.id)
    → find_team i (update_or_create j f ts) ≡ find_team i ts
unfolding update_or_create
update_or_create-other i j f ts h k =
    ground (arith, update-other i j f ts h k, append-other i (f (new_team j)) ts, k (new_team j), h)

call-other :
    (i : ℕ) (c : Call) (ts : List Team)
    → (team_of c == i) ≡ false
    → find_team i (call c ts) ≡ find_team i ts
unfolding call on_connect on_disconnect on_cloud_connect on_cloud_disconnect on_cloud_down
call-other i (connect true now j) ts h = update_or_create-other i j _ ts h (λ t. refl)
call-other i (connect false now j) ts h = update_or_create-other i j _ ts h (λ t. refl)
call-other i (disconnect true now j) ts h =
    update-other i j (disconnected true now) ts h (λ t. ground arith)
call-other i (disconnect false now j) ts h =
    update-other i j (disconnected false now) ts h (λ t. ground arith)
call-other i (cloud_connect j) ts h = update_or_create-other i j count_up ts h (λ t. refl)
call-other i (cloud_disconnect j) ts h = update-other i j count_down ts h (λ t. refl)
call-other i (cloud_down j) ts h = update-other i j no_count ts h (λ t. refl)

-- If the row of a team says which of its two connections are up and how many sessions of players
-- are open in the cloud, then it still does after any calls of the scripts of OpenVPN in which
-- only open sessions of the team end and going down ends all of them, whatever calls for other
-- teams are in between.
pub calls-Shows :
    (i : ℕ) (s s' : Sessions) (cs : List Call) (ts : List Team)
    → Runs i s cs s'
    → Shows s (find_team i ts)
    → Shows s' (find_team i (calls cs ts))
unfolding calls call on_cloud_connect on_cloud_disconnect on_cloud_down
calls-Shows i _ _ _ ts (done s) h = h
calls-Shows i _ _ _ ts (joins s s' cs r) h =
    calls-Shows i _ s' cs _ r
      (Shows-update_or_create count_up (λ t. refl) s _ (λ t (n, k). (ap succ n, k)) i ts h)
calls-Shows i _ _ _ ts (leaves s s' n cs e r) h = calls-Shows i _ s' cs _ r (
    Shows-update count_down (λ t. refl) s _ (λ t (m, k). (ap pred m ∙ ap (λ j. pred (pos j)) e, k))
      i ts h)
calls-Shows i _ _ _ ts (goes_down s s' cs r) h =
    calls-Shows i _ s' cs _ r (Shows-update no_count (λ t. refl) s _ (λ t (m, k). (refl, k)) i ts h)
calls-Shows i _ _ _ ts (comes_up s s' v now cs r) h =
    calls-Shows i _ s' cs _ r (connect-Shows v now i ts s h)
calls-Shows i _ _ _ ts (drops s s' v now cs r) h =
    calls-Shows i _ s' cs _ r (disconnect-Shows v now i ts s h)
calls-Shows i _ _ _ ts (elsewhere s s' c cs e r) h =
    calls-Shows i s s' cs _ r (subst (Shows s) (sym (call-other i c ts e)) h)
