-- ===== src/Scoreboard/Entries.antt =====
-- The entries of the teams in a frozen file, up to their order, and how they are sorted.
use saarctf_gameserver.Prelude.{
  ℕ, ◌≡◌, refl, ap, subst, false, if_ind, Option, none, some, List, [], ◌∷◌, All, All-map,
}
use mathlib.Core.List.Permᴰ
use mathlib.Core.List.{Permᴰ}
use saarctf_gameserver.Scoring.Float.{Float, IsOrdered}
use saarctf_gameserver.Scoreboard.{TeamEntry, cons?, insert_entry, sort_entries, RoundJson}

module _ (F : Float) where
  abbrev pub collect : (ℕ → Option (TeamEntry F)) → List ℕ → Option (List (TeamEntry F))
  collect e [] = some []
  collect e (t ∷ ts) = cons? F (e t) (collect e ts)

  -- both lists, or none
  abbrev pub SameEntries : Option (List (TeamEntry F)) → Option (List (TeamEntry F)) → Type 0
  SameEntries none none = Unit
  SameEntries none (some _) = ⊥
  SameEntries (some _) none = ⊥
  SameEntries (some es) (some es') = Permᴰ es es'

  SameEntries-cons :
      (x : Option (TeamEntry F)) (o o' : Option (List (TeamEntry F)))
      → SameEntries o o'
      → SameEntries (cons? F x o) (cons? F x o')
  SameEntries-cons none o o' p = tt
  SameEntries-cons (some x) none none p = tt
  SameEntries-cons (some x) none (some es) p = p
  SameEntries-cons (some x) (some es) none p = p
  SameEntries-cons (some x) (some es) (some es') p = Permᴰ.cons refl p

  SameEntries-swap :
      (x y : Option (TeamEntry F)) (o : Option (List (TeamEntry F)))
      → SameEntries (cons? F x (cons? F y o)) (cons? F y (cons? F x o))
  SameEntries-swap none none o = tt
  SameEntries-swap none (some y) none = tt
  SameEntries-swap none (some y) (some es) = tt
  SameEntries-swap (some x) none none = tt
  SameEntries-swap (some x) none (some es) = tt
  SameEntries-swap (some x) (some y) none = tt
  SameEntries-swap (some x) (some y) (some es) = Permᴰ.swap refl refl

  SameEntries-trans :
      (o o' o'' : Option (List (TeamEntry F)))
      → SameEntries o o'
      → SameEntries o' o''
      → SameEntries o o''
  SameEntries-trans none none o'' p q = q
  SameEntries-trans none (some es) o'' p q = elim p [ ]
  SameEntries-trans (some es) none o'' p q = elim p [ ]
  SameEntries-trans (some es) (some es') none p q = q
  SameEntries-trans (some es) (some es') (some es'') p q = Permᴰ.trans p q

  pub collect-perm :
      (e : ℕ → Option (TeamEntry F)) {ts ts' : List ℕ}
      → Permᴰ ts ts'
      → SameEntries (collect e ts) (collect e ts')
  collect-perm e Permᴰ.nil = Permᴰ.nil
  collect-perm e (Permᴰ.cons {a} {b} {l₁} {l₂} q p) =
      subst (λ x. SameEntries (cons? F (e a) (collect e l₁)) (cons? F x (collect e l₂))) (ap e q)
        (SameEntries-cons (e a) (collect e l₁) (collect e l₂) (collect-perm e p))
  collect-perm e (Permᴰ.swap {a} {b} {l = l} q r) =
      subst (λ x. SameEntries (cons? F (e a) (cons? F (e b) (collect e l))) x)
        (λ i. cons? F (e (r i)) (cons? F (e (q i)) (collect e l)))
        (SameEntries-swap (e a) (e b) (collect e l))
  collect-perm e (Permᴰ.trans {l₁} {l₂} {l₃} p q) =
      SameEntries-trans (collect e l₁) (collect e l₂) (collect e l₃) (collect-perm e p)
        (collect-perm e q)

  insert_entry-perm :
      (e : TeamEntry F) (es : List (TeamEntry F)) → Permᴰ (insert_entry F e es) (e ∷ es)
  unfolding insert_entry
  insert_entry-perm e [] = Permᴰ.refl (e ∷ [])
  insert_entry-perm e (q ∷ qs) =
      if_ind (λ xs. Permᴰ xs (e ∷ q ∷ qs)) (F.lt e.points q.points) (q ∷ insert_entry F e qs)
        (e ∷ q ∷ qs)
        (λ _. Permᴰ.trans (Permᴰ.cons refl (insert_entry-perm e qs)) (Permᴰ.swap refl refl))
        (λ _. Permᴰ.refl (e ∷ q ∷ qs))

  pub sort_entries-perm : (es : List (TeamEntry F)) → Permᴰ (sort_entries F es) es
  unfolding sort_entries
  sort_entries-perm [] = Permᴰ.nil
  sort_entries-perm (e ∷ es) =
      Permᴰ.trans (insert_entry-perm e (sort_entries F es)) (Permᴰ.cons refl (sort_entries-perm es))

  -- no entry has less points than a later one
  abbrev pub IsSorted : List (TeamEntry F) → Type 0
  IsSorted [] = Unit
  IsSorted (e ∷ es) = All (λ q. F.lt e.points q.points ≡ false) es × IsSorted es

  -- Both files, or none: with the same tick and services, and the same entries, each list in the
  -- order of the points that it shows.
  pub record SameFiles (f f' : RoundJson F) : Type 0 where
    pub same_tick : f.tick ≡ f'.tick
    pub same_services : f.services ≡ f'.services
    pub same_teams : Permᴰ f.scoreboard f'.scoreboard
    pub first_sorted : IsSorted f.scoreboard
    pub second_sorted : IsSorted f'.scoreboard

  abbrev pub ShowsSame : Option (RoundJson F) → Option (RoundJson F) → Type 0
  ShowsSame none none = Unit
  ShowsSame none (some _) = ⊥
  ShowsSame (some _) none = ⊥
  ShowsSame (some f) (some f') = SameFiles f f'

  module _ (ordered : IsOrdered F) where
    insert_entry-All :
        (P : TeamEntry F → Type 0) (e : TeamEntry F) (es : List (TeamEntry F))
        → P e
        → All P es
        → All P (insert_entry F e es)
    unfolding insert_entry
    insert_entry-All P e [] h k = (h, tt)
    insert_entry-All P e (q ∷ qs) h (k, ks) =
        if_ind (All P) (F.lt e.points q.points) _ _ (λ _. (k, insert_entry-All P e qs h ks))
          (λ _. (h, (k, ks)))

    insert_entry-IsSorted :
        (e : TeamEntry F) (es : List (TeamEntry F)) → IsSorted es → IsSorted (insert_entry F e es)
    unfolding insert_entry
    insert_entry-IsSorted e [] h = (tt, tt)
    insert_entry-IsSorted e (q ∷ qs) (h, hs) =
        if_ind IsSorted (F.lt e.points q.points) _ _
          (λ t. (
            insert_entry-All (λ x. F.lt q.points x.points ≡ false) e qs
                (ordered.lt_asymm e.points q.points t) h,
            insert_entry-IsSorted e qs hs,
          ))
          (λ f. (
            (
              f,
              All-map (λ x. F.lt q.points x.points ≡ false) (λ x. F.lt e.points x.points ≡ false) qs
                  (λ x k. ordered.le_trans x.points q.points e.points k f) h,
            ),
            (h, hs),
          ))

    pub sort_entries-IsSorted : (es : List (TeamEntry F)) → IsSorted (sort_entries F es)
    unfolding sort_entries
    sort_entries-IsSorted [] = tt
    sort_entries-IsSorted (e ∷ es) =
        insert_entry-IsSorted e (sort_entries F es) (sort_entries-IsSorted es)
