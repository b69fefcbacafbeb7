-- ===== src/Scoreboard/FirstBloods.antt =====
-- controlserver/scoring/scoreboard.py: when a scoreboard is frozen, and `__get_first_blood_info`.
use saarctf_gameserver.Prelude.{
  ℕ, ◌+◌, ◌-◌, Bool, false, not, ◌&&◌, ◌||◌, ltb, leb, ◌==◌, Option, none, some, if◌then◌else◌,
  List, [], ◌∷◌, ℤ, pos, leb_ℤ, ltb_ℤ,
}

-- `config.SCOREBOARD_FREEZE`
unfoldable pub is_frozen : Option ℕ → ℤ → Bool → Bool
is_frozen none tick public = false
is_frozen (some freeze) tick public = public && ltb_ℤ (pos freeze) tick

pub record CheckerResultLite : Type 0 where
  pub status : ℕ
  pub message : ℕ

-- the columns of a flag that the scoreboard reads; `is_firstblood` is 0 for no mark
pub record SubmittedFlag : Type 0 where
  pub tick_submitted : ℤ
  pub is_firstblood : ℕ
  pub ts : ℕ
  pub service_id : ℕ
  pub payload : ℕ
  pub submitted_by : ℕ

pub record FirstBlood : Type 0 where
  pub name : ℕ
  pub ts : ℕ
  pub confirmed : Bool
  pub level : ℕ

pub record Service : Type 0 where
  pub id : ℕ
  pub name : ℕ
  pub num_payloads : ℕ

-- `.filter(...)`
abbrev pub is_shown : ℕ → ℤ → SubmittedFlag → Bool
is_shown level tick f =
    leb_ℤ f.tick_submitted tick && ltb 0 f.is_firstblood && leb f.is_firstblood level

unfoldable pub shown_flags : ℕ → ℤ → List SubmittedFlag → List SubmittedFlag
shown_flags level tick [] = []
shown_flags level tick (f ∷ fs) =
    let rest = shown_flags level tick fs in if is_shown level tick f then f ∷ rest else rest

-- `.order_by(-is_firstblood, ts)`
abbrev pub comes_first : SubmittedFlag → SubmittedFlag → Bool
comes_first f g =
    ltb g.is_firstblood f.is_firstblood || f.is_firstblood == g.is_firstblood && leb f.ts g.ts

unfoldable pub insert_flag : SubmittedFlag → List SubmittedFlag → List SubmittedFlag
insert_flag f [] = f ∷ []
insert_flag f (g ∷ gs) = if comes_first f g then f ∷ g ∷ gs else g ∷ insert_flag f gs

unfoldable pub order_flags : List SubmittedFlag → List SubmittedFlag
unfolding insert_flag
order_flags [] = []
order_flags (f ∷ fs) = insert_flag f (order_flags fs)

abbrev pub contains : List ℕ → ℕ → Bool
contains [] n = false
contains (m ∷ ms) n = m == n || contains ms n

-- The entry for a flag, after the last one in the list: a team that scores several within five
-- minutes has one.
abbrev is_joined : FirstBlood → FirstBlood → Bool
is_joined q fp =
    q.name == fp.name
    && (if q.confirmed then fp.confirmed else not fp.confirmed)
    && ltb (q.ts - fp.ts + (fp.ts - q.ts)) 300

unfoldable pub add_entry : FirstBlood → List FirstBlood → List FirstBlood
add_entry fp [] = fp ∷ []
add_entry fp (q ∷ []) = if is_joined q fp then q ∷ [] else q ∷ fp ∷ []
add_entry fp (q ∷ r ∷ rs) = q ∷ add_entry fp (r ∷ rs)

-- `__get_first_blood_info` for a service: the entries, and the payloads that were taken
unfoldable pub first_bloods :
    ℕ → ℕ → List SubmittedFlag → List FirstBlood → List ℕ → List FirstBlood × List ℕ
unfolding add_entry
first_bloods level service [] entries payloads = (entries, payloads)
first_bloods level service (f ∷ fs) entries payloads =
    let fp : FirstBlood = record {
      name = f.submitted_by;
      ts = f.ts;
      confirmed = f.is_firstblood == level;
      level = f.is_firstblood;
    } in
    let skips = not (f.service_id == service) || contains payloads f.payload in
    first_bloods level service fs (if skips then entries else add_entry fp entries)
      (if skips then payloads else f.payload ∷ payloads)

unfoldable pub get_first_blood_info : ℕ → ℤ → List SubmittedFlag → ℕ → List FirstBlood × List ℕ
unfolding shown_flags order_flags first_bloods
get_first_blood_info level tick flags service =
    first_bloods level service (order_flags (shown_flags level tick flags)) [] []
