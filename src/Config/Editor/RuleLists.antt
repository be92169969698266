-- ===== src/Config/Editor/RuleLists.antt =====
-- The edits of the rules of one profile (src/config/configuration_editor.cpp).
use cc_switch_trans.Common.{
  ℕ, suc, ◌+◌, ◌≤◌, ◌≡◌, refl, ap, subst, inl, inr, false, none, some, List, [], ◌∷◌, ◌++◌, Text, ℤ,
  pos, int_eq, text_eq, text_eq_iff, length, length-append, leb, if◌then◌else◌, arith, Bool-cases,
  predecessor,
}
use cc_switch_trans.Config.Profile.{StoredRule}
use cc_switch_trans.Config.Editor.{max_rules_per_profile, has_rule_id}
use cc_switch_trans.Config.Editor.Lists.{
  find_first, modify_first, erase_first, insert_at, count, one_if, count-append, count-insert_at,
  count-erase_first, count-modify_first, count-find_none, length-erase_first, length-insert_at,
  length-modify_first,
}
use cc_switch_trans.Config.Editor.Draft.{assign_keys}
use cc_switch_trans.Config.Editor.Sound.{IsRules}

pub IsRules-append :
    (rs : List StoredRule) (r : StoredRule)
    → IsRules rs
    → find_first (has_rule_id r.rule_id) rs ≡ none
    → leb max_rules_per_profile (length rs) ≡ false
    → IsRules (rs ++ r ∷ [])
unfolding count
IsRules-append rs r s new room = record {
  ids = λ id. elim (Bool-cases (text_eq r.rule_id id)) [
    | inl y ↦ omega (
      arith,
      more id,
      ap one_if y,
      subst (λ (t : Text). count (has_rule_id t) rs ≡ 0) ((text_eq_iff r.rule_id id).0 y)
          (count-find_none (has_rule_id r.rule_id) rs new),
    )
    | inr o ↦ omega (arith, more id, ap one_if o, s.ids id)
  ];
  bounded = below;
}
  where
    more :
        (id : Text)
        → count (has_rule_id id) (rs ++ r ∷ [])
          ≡ count (has_rule_id id) rs + one_if (text_eq r.rule_id id)
    more id = ground (arith, count-append (has_rule_id id) rs (r ∷ []))

    below : length (rs ++ r ∷ []) ≤ max_rules_per_profile
    below = ground (arith, room, length-append rs (r ∷ []))

pub IsRules-erase :
    (rs : List StoredRule) (id : Text) (r : StoredRule)
    → IsRules rs
    → find_first (has_rule_id id) rs ≡ some r
    → IsRules (erase_first (has_rule_id id) rs)
IsRules-erase rs id r s f = record {
  ids = λ j. omega (arith, count-erase_first (has_rule_id j) (has_rule_id id) r rs f, s.ids j);
  bounded = omega (arith, length-erase_first (has_rule_id id) r rs f, s.bounded);
}

pub IsRules-move :
    (rs : List StoredRule) (id : Text) (r : StoredRule) (i : ℕ)
    → IsRules rs
    → find_first (has_rule_id id) rs ≡ some r
    → IsRules (insert_at i r (erase_first (has_rule_id id) rs))
IsRules-move rs id r i s f = record {
  ids = λ j. omega (
    arith,
    count-erase_first (has_rule_id j) (has_rule_id id) r rs f,
    count-insert_at (has_rule_id j) i r (erase_first (has_rule_id id) rs),
    s.ids j,
  );
  bounded = omega (
    arith,
    length-erase_first (has_rule_id id) r rs f,
    length-insert_at i r (erase_first (has_rule_id id) rs),
    s.bounded,
  );
}

pub IsRules-modify :
    (rs : List StoredRule) (id : Text) (r r' : StoredRule)
    → IsRules rs
    → find_first (has_rule_id id) rs ≡ some r
    → r'.rule_id ≡ r.rule_id
    → IsRules (modify_first (has_rule_id id) (λ old. r') rs)
IsRules-modify rs id r r' s f same = record {
  ids = λ j. omega (
    arith,
    count-modify_first (has_rule_id j) (has_rule_id id) r r' rs f,
    ap (λ (t : Text). one_if (text_eq t j)) same,
    s.ids j,
  );
  bounded = omega (arith, length-modify_first (has_rule_id id) r' rs, s.bounded);
}

-- Draft keys change neither the ids nor the number of the rules.
count-assign_keys :
    (id : Text) (next : ℤ) (rs : List StoredRule)
    → count (has_rule_id id) (assign_keys next rs).0 ≡ count (has_rule_id id) rs
unfolding count assign_keys
count-assign_keys id next [] = refl
count-assign_keys id next (r ∷ rs) = elim (Bool-cases (int_eq r.key (pos 0))) [
  | inl y ↦ rw (y, assign_keys, count) (more (count-assign_keys id (predecessor next) rs))
  | inr o ↦ rw (o, assign_keys, count) (more (count-assign_keys id next rs))
]
  where
    more :
        {a b : ℕ}
        → a ≡ b
        → (if text_eq r.rule_id id then suc a else a) ≡ (if text_eq r.rule_id id then suc b else b)
    more e = ap (λ (c : ℕ). if text_eq r.rule_id id then suc c else c) e

length-assign_keys : (next : ℤ) (rs : List StoredRule) → length (assign_keys next rs).0 ≡ length rs
unfolding assign_keys
length-assign_keys next [] = refl
length-assign_keys next (r ∷ rs) =
    ap suc (length-assign_keys (if int_eq r.key (pos 0) then predecessor next else next) rs)

pub IsRules-assign_keys :
    (next : ℤ) (rs : List StoredRule) → IsRules rs → IsRules (assign_keys next rs).0
IsRules-assign_keys next rs s = record {
  ids = λ id. omega (arith, count-assign_keys id next rs, s.ids id);
  bounded = omega (arith, length-assign_keys next rs, s.bounded);
}
