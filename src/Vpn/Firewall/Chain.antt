-- ===== src/Vpn/Firewall/Chain.antt =====
-- The helpers of vpn/manage-iptables.py on the rules of the chain: which rules it has after each.
use saarctf_gameserver.Prelude.{
  ℕ, zero, suc, ◌+◌, ◌<◌, ◌≡◌, refl, Bool, true, false, not, ◌&&◌, ◌||◌, ◌==◌, leb, ltb, Option,
  none, some, List, [], ◌∷◌, ◌++◌, arith, ap,
}
use saarctf_gameserver.Vpn.Network.{contains}
use saarctf_gameserver.Vpn.Firewall.{
  Rule, from_vulnbox, to_vulnbox, kind, interface, team, same, has_rule, remove_first, Iptables,
  IsDocumented, count_rule, iptables_add, iptables_insert, remove_loop, iptables_remove,
  insert_vulnbox_rules, ban_rules, unban_rules, allow_rules, disallow_rules, ban_all, allow_all,
}

same_trans : (p q r : Rule) → same p q ≡ true → same p r ≡ same q r
same_trans p q r h = ground (arith, h)

same-right : (p q r : Rule) → same q r ≡ true → same p q ≡ same p r
same-right p q r h = ground (arith, h)

has-append :
    (qs : List Rule) (q r : Rule) → has_rule (qs ++ (q ∷ [])) r ≡ (same q r || has_rule qs r)
unfolding has_rule
has-append [] q r = refl
has-append (p ∷ qs) q r = ground (arith, has-append qs q r)

has-same : (qs : List Rule) (q r : Rule) → same q r ≡ true → has_rule qs q ≡ has_rule qs r
unfolding has_rule
has-same [] q r h = refl
has-same (p ∷ qs) q r h = ground (arith, same-right p q r h, has-same qs q r h)

count-remove_first :
    (q : Rule) (qs : List Rule)
    → has_rule qs q ≡ true
    → suc (count_rule q (remove_first q qs)) ≡ count_rule q qs
unfolding has_rule remove_first count_rule
count-remove_first q [] h = ground arith
count-remove_first q (p ∷ qs) h = ground (arith, h, count-remove_first q qs)

has-remove_first :
    (q r : Rule) (qs : List Rule)
    → same q r ≡ false
    → has_rule (remove_first q qs) r ≡ has_rule qs r
unfolding has_rule remove_first
has-remove_first q r [] h = refl
has-remove_first q r (p ∷ qs) h = ground (arith, h, has-remove_first q r qs h, same_trans p q r)

-- the rules against a team
abbrev pub is_ban_rule : ℕ → Rule → Bool
is_ban_rule i r =
    (kind r == 4 || kind r == 5)
    && (team r == i && (interface r == i || (interface r == 1000 + i || interface r == 2000 + i)))

-- the rules for a team and the game servers
abbrev pub is_allow_rule : ℕ → Rule → Bool
is_allow_rule i r = (kind r == 6 || kind r == 7) && (team r == i && interface r == 0)

-- a rule against a team of the list, and one for it
abbrev pub bans : List ℕ → Rule → Bool
bans ids r = contains ids (team r) && is_ban_rule (team r) r

abbrev pub allows : List ℕ → Rule → Bool
allows ids r = contains ids (team r) && is_allow_rule (team r) r

module _ (I : Iptables) (doc : IsDocumented I) where
  abbrev pub has : I.Chain → Rule → Bool
  has c r = has_rule (I.rules c) r

  pub has-flush : (c : I.Chain) (r : Rule) → has (I.flush c) r ≡ false
  unfolding has_rule
  has-flush c r = rw doc.flush_lem

  pub has-iptables_add :
      (q r : Rule) (c : I.Chain) → has (iptables_add I q c) r ≡ (same q r || has c r)
  unfolding iptables_add
  has-iptables_add q r c = ground (
    arith,
    doc.check_lem q c,
    doc.append_lem q c,
    has-append (I.rules c) q r,
    has-same (I.rules c) q r,
  )

  pub has-iptables_insert :
      (q r : Rule) (c : I.Chain) → has (iptables_insert I q c) r ≡ (same q r || has c r)
  unfolding iptables_insert has_rule
  has-iptables_insert q r c =
      ground (arith, doc.check_lem q c, doc.insert_lem q c, has-same (I.rules c) q r)

  remove-absent :
      (q r : Rule) (c : I.Chain) → has c q ≡ false → has c r ≡ (has c r && not (same q r))
  remove-absent q r c h = ground (arith, h, has-same (I.rules c) q r)

  -- one round of the loop, where the rest of it does what it should
  remove_round :
      (fuel : ℕ) (q r : Rule) (c : I.Chain) (o : Option I.Chain)
      → I.delete q c ≡ o
      → count_rule q (I.rules c) < suc fuel
      → ((c' : I.Chain)
          → count_rule q (I.rules c') < fuel
          → has (remove_loop I fuel q c') r ≡ (has c' r && not (same q r)))
      → has (elim o [ none ↦ c | some c' ↦ remove_loop I fuel q c' ]) r
        ≡ (has c r && not (same q r))
  remove_round fuel q r c none e h rest = remove-absent q r c (doc.delete_none q c e)
  remove_round fuel q r c (some c') e h rest =
      let (there, left) = doc.delete_some q c c' e in
      ground (
        arith,
        left,
        there,
        rest c' (omega (arith, h, count-remove_first q (I.rules c) there, ap (count_rule q) left)),
        has-remove_first q r (I.rules c),
        has-same (I.rules c) q r,
      )

  remove_loop_lem :
      (fuel : ℕ) (q r : Rule) (c : I.Chain)
      → count_rule q (I.rules c) < fuel
      → has (remove_loop I fuel q c) r ≡ (has c r && not (same q r))
  unfolding remove_loop
  remove_loop_lem zero q r c h = ground (arith, h)
  remove_loop_lem (suc fuel) q r c h =
      remove_round fuel q r c (I.delete q c) refl h (remove_loop_lem fuel q r)

  pub has-iptables_remove :
      (q r : Rule) (c : I.Chain) → has (iptables_remove I q c) r ≡ (has c r && not (same q r))
  unfolding iptables_remove
  has-iptables_remove q r c = remove_loop_lem (suc (count_rule q (I.rules c))) q r c (omega arith)

  pub has-insert_vulnbox_rules :
      (n i : ℕ) (r : Rule) (c : I.Chain)
      → has (insert_vulnbox_rules I n i c) r ≡ (
          ((kind r == 2 || kind r == 3)
            && (interface r == 0 && (leb i (team r) && ltb (team r) (i + n))))
          || has c r)
  unfolding insert_vulnbox_rules kind interface team
  has-insert_vulnbox_rules zero i r c = ground arith
  has-insert_vulnbox_rules (suc n) i r c = ground (
    arith,
    has-insert_vulnbox_rules n (suc i) r
        (iptables_insert I (to_vulnbox i) (iptables_insert I (from_vulnbox i) c)),
    has-iptables_insert (to_vulnbox i) r (iptables_insert I (from_vulnbox i) c),
    has-iptables_insert (from_vulnbox i) r c,
  )

  pub has-ban_rules :
      (i : ℕ) (r : Rule) (c : I.Chain) → has (ban_rules I i c) r ≡ (is_ban_rule i r || has c r)
  unfolding ban_rules kind interface team
  has-ban_rules i r c =
      rw
        (
          has-iptables_add, has-iptables_add, has-iptables_add, has-iptables_add, has-iptables_add,
          has-iptables_add,
        )
        (ground arith)

  pub has-unban_rules :
      (i : ℕ) (r : Rule) (c : I.Chain)
      → has (unban_rules I i c) r ≡ (has c r && not (is_ban_rule i r))
  unfolding unban_rules kind interface team
  has-unban_rules i r c =
      rw
        (
          has-iptables_remove, has-iptables_remove, has-iptables_remove, has-iptables_remove,
          has-iptables_remove, has-iptables_remove,
        )
        (ground arith)

  pub has-allow_rules :
      (i : ℕ) (r : Rule) (c : I.Chain) → has (allow_rules I i c) r ≡ (is_allow_rule i r || has c r)
  unfolding allow_rules kind interface team
  has-allow_rules i r c = rw (has-iptables_insert, has-iptables_insert) (ground arith)

  pub has-disallow_rules :
      (i : ℕ) (r : Rule) (c : I.Chain)
      → has (disallow_rules I i c) r ≡ (has c r && not (is_allow_rule i r))
  unfolding disallow_rules kind interface team
  has-disallow_rules i r c = rw (has-iptables_remove, has-iptables_remove) (ground arith)

  pub has-ban_all :
      (ids : List ℕ) (r : Rule) (c : I.Chain) → has (ban_all I ids c) r ≡ (bans ids r || has c r)
  unfolding ban_all contains
  has-ban_all [] r c = refl
  has-ban_all (i ∷ ids) r c =
      ground (arith, has-ban_all ids r (ban_rules I i c), has-ban_rules i r c)

  pub has-allow_all :
      (ids : List ℕ) (r : Rule) (c : I.Chain)
      → has (allow_all I ids c) r ≡ (allows ids r || has c r)
  unfolding allow_all contains
  has-allow_all [] r c = refl
  has-allow_all (i ∷ ids) r c =
      ground (arith, has-allow_all ids r (allow_rules I i c), has-allow_rules i r c)
