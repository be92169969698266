-- ===== src/Config/Editor/Runs.antt =====
-- Every call of the editor that changes profiles or rules keeps the draft sound
-- (src/config/configuration_editor.cpp).
use cc_switch_trans.Common.{
  ℕ, suc, ◌-◌, ◌≡◌, refl, ap, Bool, true, false, not, Option, none, some, [], Text, ℤ, negsuc,
  predecessor, length, if◌then◌else◌, arith,
}
use cc_switch_trans.Config.Profile.{StoredRule, StoredProfile, is_valid_profile_id}
use cc_switch_trans.Config.Editor.{
  EditError, ConfigurationEditor, has_key, has_id, has_rule_id, Outcome, put_profile, set_failure,
  inactive_failure, inactive,
}
use cc_switch_trans.Config.Editor.Draft.{
  new_profile, is_position, create_profile, remove_profile, move_profile, on_profile, on_rule,
}
use cc_switch_trans.Config.Editor.Lists.{find_first, count, count-find_none}
use cc_switch_trans.Config.Editor.Sound.{
  IsRules, AllRules-find, IsDraft, IsDraft-modify_rules, IsDraft-erase, IsDraft-move,
  IsDraft-append,
}

-- The draft of the editor is sound, and its next profile key is a draft key that is not in use.
pub record IsSound {Origin : Type 0} (e : ConfigurationEditor Origin) : Type 0 where
  pub n : ℕ
  pub next : e.next_draft_profile_key ≡ negsuc n
  pub draft : IsDraft n e.draft.profiles

-- The same of what a call leaves.
pub record Keeps {Origin : Type 0} (o : Outcome Origin) : Type 0 where
  pub kept : IsSound o.0

module _ {Origin : Type 0} where
  pub keep : {e : ConfigurationEditor Origin} {r : Option EditError} → IsSound e → Keeps (e, r)
  keep s = record { kept = s }

  -- The branches of a call.
  pub Keeps-if :
      (b : Bool) (x y : Outcome Origin)
      → (b ≡ true → Keeps x)
      → (b ≡ false → Keeps y)
      → Keeps (if b then x else y)
  Keeps-if true x y s t = s refl
  Keeps-if false x y s t = t refl

  pub Keeps-found :
      {A : Type 0} (o : Option A) (x : Outcome Origin) (f : A → Outcome Origin)
      → (o ≡ none → Keeps x)
      → ((a : A) → o ≡ some a → Keeps (f a))
      → Keeps (elim o as (λ y. Outcome Origin) [ none ↦ x | some a ↦ f a ])
  Keeps-found none x f s t = s refl
  Keeps-found (some a) x f s t = t a refl

  pub Keeps-active :
      (e : ConfigurationEditor Origin) (x : Outcome Origin)
      → IsSound e
      → Keeps x
      → Keeps (if e.active then x else set_failure e inactive_failure [] inactive)
  Keeps-active e x s t =
      Keeps-if e.active _ _ (λ _. t)
        (λ _. keep (record { n = s.n; next = s.next; draft = s.draft }))

  pub Keeps-profile :
      (e : ConfigurationEditor Origin) (k : ℤ) (rest : StoredProfile → Outcome Origin)
      → IsSound e
      → ((p : StoredProfile)
          → find_first (has_key k) e.draft.profiles ≡ some p
          → IsRules p.rules
          → Keeps (rest p))
      → Keeps (on_profile e k rest)
  Keeps-profile e k rest s t =
      Keeps-found (find_first (has_key k) e.draft.profiles) _ rest (λ _. keep s)
        (λ p f. t p f (AllRules-find (has_key k) e.draft.profiles p s.draft.rules f))

  pub Keeps-rule :
      (e : ConfigurationEditor Origin) (k : ℤ) (id : Text)
      (rest : StoredProfile → StoredRule → Outcome Origin)
      → IsSound e
      → ((p : StoredProfile) (r : StoredRule)
          → find_first (has_key k) e.draft.profiles ≡ some p
          → find_first (has_rule_id id) p.rules ≡ some r
          → IsRules p.rules
          → Keeps (rest p r))
      → Keeps (on_rule e k id rest)
  Keeps-rule e k id rest s t = Keeps-profile e k _ s (λ p f rs.
      Keeps-found (find_first (has_rule_id id) p.rules) _ _ (λ _. keep s) (λ r q. t p r f q rs))

  pub IsSound-put :
      (e : ConfigurationEditor Origin) (k : ℤ) (p p' : StoredProfile)
      → IsSound e
      → find_first (has_key k) e.draft.profiles ≡ some p
      → p'.key ≡ p.key
      → p'.profile_id ≡ p.profile_id
      → IsRules p'.rules
      → IsSound (put_profile e k p')
  IsSound-put e k p p' s f same kept r = record {
    n = s.n;
    next = s.next;
    draft = IsDraft-modify_rules s.n e.draft.profiles k p p' s.draft f same kept r;
  }

  pub create_profile-Keeps :
      (e : ConfigurationEditor Origin) (id : Text) → IsSound e → Keeps (create_profile e id)
  unfolding create_profile count
  create_profile-Keeps e id s = Keeps-active e _ s (
      Keeps-if (not (is_valid_profile_id id)) _ _ (λ _. keep s)
        (λ _.
          Keeps-found (find_first (has_id id) e.draft.profiles) _ _
            (λ h. keep (record {
              n = suc s.n;
              next = ap predecessor s.next;
              draft =
                  IsDraft-append s.n e.draft.profiles (new_profile e.next_draft_profile_key id)
                    s.draft s.next (count-find_none (has_id id) e.draft.profiles h)
                    (record { ids = λ j. omega arith; bounded = omega arith });
            }))
            (λ p f. keep s)))

  pub remove_profile-Keeps :
      (e : ConfigurationEditor Origin) (k : ℤ) → IsSound e → Keeps (remove_profile e k)
  unfolding remove_profile
  remove_profile-Keeps e k s = Keeps-active e _ s (
      Keeps-found (find_first (has_key k) e.draft.profiles) _ _ (λ _. keep s)
        (λ p f. keep (record {
          n = s.n;
          next = s.next;
          draft = IsDraft-erase s.n e.draft.profiles k p s.draft f;
        })))

  pub move_profile-Keeps :
      (e : ConfigurationEditor Origin) (k : ℤ) (position : ℕ)
      → IsSound e
      → Keeps (move_profile e k position)
  unfolding move_profile
  move_profile-Keeps e k position s = Keeps-active e _ s (
      Keeps-if (not (is_position position (length e.draft.profiles))) _ _ (λ _. keep s)
        (λ _.
          Keeps-found (find_first (has_key k) e.draft.profiles) _ _ (λ _. keep s)
            (λ p f. keep (record {
              n = s.n;
              next = s.next;
              draft = IsDraft-move s.n e.draft.profiles k p (position - 1) s.draft f;
            }))))
