-- ===== src/Config/Editor/Sound.antt =====
-- What holds of the profiles of a draft (src/config/configuration_editor.cpp), and the edits of one
-- profile that keep it.
use cc_switch_trans.Common.{
  ℕ, zero, suc, ◌+◌, ◌≤◌, ◌≡◌, sym, ap, subst, ◌∙◌, inl, inr, Bool, true, false, some, List, [],
  ◌∷◌, ◌++◌, Text, ℤ, negsuc, int_eq, int_eq_iff, text_eq, text_eq_iff, length, arith, Bool-cases,
}
use cc_switch_trans.Config.Profile.{StoredRule, StoredProfile}
use cc_switch_trans.Config.Editor.{max_rules_per_profile, has_key, has_id, has_rule_id}
use cc_switch_trans.Config.Editor.Lists.{
  find_first, modify_first, erase_first, insert_at, count, one_if, count-append, count-insert_at,
  count-erase_first, count-modify_first,
}

-- The rules of a profile: no two with one id, and no more than a profile may have.
pub record IsRules (rules : List StoredRule) : Type 0 where
  pub ids : (id : Text) → count (has_rule_id id) rules ≤ 1
  pub bounded : length rules ≤ max_rules_per_profile

-- Every profile has such rules.
unfoldable pub AllRules : List StoredProfile → Type 0
AllRules [] = Unit
AllRules (p ∷ ps) = IsRules p.rules × AllRules ps

-- No two profiles have one id or one key, no profile has a draft key from -(n + 1) down, which are
-- those that are still to be given out.
pub record IsDraft (n : ℕ) (profiles : List StoredProfile) : Type 0 where
  pub ids : (id : Text) → count (has_id id) profiles ≤ 1
  pub keys : (k : ℤ) → count (has_key k) profiles ≤ 1
  pub fresh : (m : ℕ) → n ≤ m → count (has_key (negsuc m)) profiles ≡ 0
  pub rules : AllRules profiles

pub AllRules-find :
    (q : StoredProfile → Bool) (ps : List StoredProfile) (p : StoredProfile)
    → AllRules ps
    → find_first q ps ≡ some p
    → IsRules p.rules
unfolding AllRules find_first
AllRules-find q [] p a h = absurd (cc h)
AllRules-find q (x ∷ ps) p (r, rs) h = elim (Bool-cases (q x)) [
  | inl y ↦
      (let e : x ≡ p = ground (arith, h, y) in subst (λ (z : StoredProfile). IsRules z.rules) e r)
  | inr n ↦ AllRules-find q ps p rs (ground (arith, h, n))
]

AllRules-erase :
    (q : StoredProfile → Bool) (ps : List StoredProfile) → AllRules ps → AllRules (erase_first q ps)
unfolding AllRules erase_first
AllRules-erase q [] a = a
AllRules-erase q (x ∷ ps) (r, rs) = elim (Bool-cases (q x)) [
  | inl y ↦ rw (y, erase_first) rs
  | inr n ↦ rw (n, erase_first) (r, AllRules-erase q ps rs)
]

AllRules-modify :
    (q : StoredProfile → Bool) (ps : List StoredProfile) (p' : StoredProfile)
    → AllRules ps
    → IsRules p'.rules
    → AllRules (modify_first q (λ old. p') ps)
unfolding AllRules modify_first
AllRules-modify q [] p' a r' = a
AllRules-modify q (x ∷ ps) p' (r, rs) r' = elim (Bool-cases (q x)) [
  | inl y ↦ rw (y, modify_first) (r', rs)
  | inr n ↦ rw (n, modify_first) (r, AllRules-modify q ps p' rs r')
]

AllRules-insert :
    (n : ℕ) (p : StoredProfile) (ps : List StoredProfile)
    → AllRules ps
    → IsRules p.rules
    → AllRules (insert_at n p ps)
unfolding AllRules insert_at
AllRules-insert zero p ps a r = (r, a)
AllRules-insert (suc n) p [] a r = (r, a)
AllRules-insert (suc n) p (x ∷ ps) (y, ys) r = (y, AllRules-insert n p ps ys r)

AllRules-append :
    (ps : List StoredProfile) (p : StoredProfile)
    → AllRules ps
    → IsRules p.rules
    → AllRules (ps ++ p ∷ [])
unfolding AllRules
AllRules-append [] p a r = (r, tt)
AllRules-append (x ∷ ps) p (y, ys) r = (y, AllRules-append ps p ys r)

-- A profile that takes the place of the one with the key `k`.
pub IsDraft-modify :
    (n : ℕ) (ps : List StoredProfile) (k : ℤ) (p p' : StoredProfile)
    → IsDraft n ps
    → find_first (has_key k) ps ≡ some p
    → p'.key ≡ p.key
    → ((id : Text) → count (has_id id) (modify_first (has_key k) (λ old. p') ps) ≤ 1)
    → IsRules p'.rules
    → IsDraft n (modify_first (has_key k) (λ old. p') ps)
IsDraft-modify n ps k p p' d f same ids r = record {
  ids = ids;
  keys = λ j. omega (arith, keys_same j, d.keys j);
  fresh = λ m h. omega (arith, keys_same (negsuc m), d.fresh m h);
  rules = AllRules-modify (has_key k) ps p' d.rules r;
}
  where
    keys_same :
        (j : ℤ) → count (has_key j) (modify_first (has_key k) (λ old. p') ps) ≡ count (has_key j) ps
    keys_same j =
        (let e = count-modify_first (has_key j) (has_key k) p p' ps f in
          let t : one_if (int_eq p.key j) ≡ one_if (int_eq p'.key j) =
            ap (λ (i : ℤ). one_if (int_eq i j)) (sym same) in
          omega (arith, e, t))

-- A profile whose id stays.
pub IsDraft-modify_rules :
    (n : ℕ) (ps : List StoredProfile) (k : ℤ) (p p' : StoredProfile)
    → IsDraft n ps
    → find_first (has_key k) ps ≡ some p
    → p'.key ≡ p.key
    → p'.profile_id ≡ p.profile_id
    → IsRules p'.rules
    → IsDraft n (modify_first (has_key k) (λ old. p') ps)
IsDraft-modify_rules n ps k p p' d f same kept r =
    IsDraft-modify n ps k p p' d f same
      (λ id.
        (let e = count-modify_first (has_id id) (has_key k) p p' ps f in
          let t : one_if (text_eq p.profile_id id) ≡ one_if (text_eq p'.profile_id id) =
            ap (λ (i : Text). one_if (text_eq i id)) (sym kept) in
          omega (arith, e, t, d.ids id)))
      r

pub IsDraft-erase :
    (n : ℕ) (ps : List StoredProfile) (k : ℤ) (p : StoredProfile)
    → IsDraft n ps
    → find_first (has_key k) ps ≡ some p
    → IsDraft n (erase_first (has_key k) ps)
IsDraft-erase n ps k p d f = record {
  ids = λ id. omega (arith, count-erase_first (has_id id) (has_key k) p ps f, d.ids id);
  keys = λ j. omega (arith, count-erase_first (has_key j) (has_key k) p ps f, d.keys j);
  fresh =
      λ m h. omega (arith, count-erase_first (has_key (negsuc m)) (has_key k) p ps f, d.fresh m h);
  rules = AllRules-erase (has_key k) ps d.rules;
}

pub IsDraft-move :
    (n : ℕ) (ps : List StoredProfile) (k : ℤ) (p : StoredProfile) (i : ℕ)
    → IsDraft n ps
    → find_first (has_key k) ps ≡ some p
    → IsDraft n (insert_at i p (erase_first (has_key k) ps))
IsDraft-move n ps k p i d f = record {
  ids = λ id. omega (arith, moved (has_id id), d.ids id);
  keys = λ j. omega (arith, moved (has_key j), d.keys j);
  fresh = λ m h. omega (arith, moved (has_key (negsuc m)), d.fresh m h);
  rules =
      AllRules-insert i p (erase_first (has_key k) ps) (AllRules-erase (has_key k) ps d.rules)
        (AllRules-find (has_key k) ps p d.rules f);
}
  where
    moved :
        (t : StoredProfile → Bool)
        → count t (insert_at i p (erase_first (has_key k) ps)) ≡ count t ps
    moved t =
        count-insert_at t i p (erase_first (has_key k) ps)
        ∙ sym (count-erase_first t (has_key k) p ps f)

count-append_one :
    (ps : List StoredProfile) (p : StoredProfile) (t : StoredProfile → Bool)
    → count t (ps ++ p ∷ []) ≡ count t ps + one_if (t p)
unfolding count
count-append_one ps p t = ground (arith, count-append t ps (p ∷ []))

at_most_one :
    (ps : List StoredProfile) (p : StoredProfile) (t : StoredProfile → Bool)
    → count t ps ≤ 1
    → (t p ≡ true → count t ps ≡ 0)
    → count t (ps ++ p ∷ []) ≤ 1
at_most_one ps p t h new = elim (Bool-cases (t p)) [
  | inl y ↦ omega (arith, count-append_one ps p t, ap one_if y, new y)
  | inr o ↦ omega (arith, count-append_one ps p t, ap one_if o, h)
]

-- A new profile, with a new id and the next draft key.
pub IsDraft-append :
    (n : ℕ) (ps : List StoredProfile) (p : StoredProfile)
    → IsDraft n ps
    → p.key ≡ negsuc n
    → count (has_id p.profile_id) ps ≡ 0
    → IsRules p.rules
    → IsDraft (suc n) (ps ++ p ∷ [])
IsDraft-append n ps p d key new r = record {
  ids = λ id.
      at_most_one ps p (has_id id) (d.ids id) (λ y.
        subst (λ (t : Text). count (has_id t) ps ≡ 0) ((text_eq_iff p.profile_id id).0 y) new);
  keys = λ j. at_most_one ps p (has_key j) (d.keys j) (λ y.
      subst (λ (i : ℤ). count (has_key i) ps ≡ 0) (sym key ∙ (int_eq_iff p.key j).0 y)
        (d.fresh n (omega arith)));
  fresh = λ m h.
      count-append_one ps p (has_key (negsuc m))
      ∙ omega (arith, d.fresh m (omega (arith, h)), ap one_if (other m h));
  rules = AllRules-append ps p d.rules r;
}
  where
    other : (m : ℕ) → suc n ≤ m → int_eq p.key (negsuc m) ≡ false
    other m h = ap (λ (i : ℤ). int_eq i (negsuc m)) key ∙ ground (arith, h)
