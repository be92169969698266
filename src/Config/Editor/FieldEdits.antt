-- ===== src/Config/Editor/FieldEdits.antt =====
-- Edits of one field keep the draft sound (src/config/configuration_editor.cpp,
-- src/config/field_descriptor.cpp).
use cc_switch_trans.Common.{
  ◌&&◌, not, codes, Bool, if◌then◌else◌, ◌≤◌, ◌≡◌, refl, sym, ap, subst, ◌∙◌, ◌⊎◌, inl, inr, true,
  false, none, some, List, Text, ℤ, int_eq, int_eq_iff, text_eq, text_eq_iff, arith, Bool-cases,
  Option-cases,
}
use cc_switch_trans.Config.Profile.{StoredProfile}
use cc_switch_trans.Config.Fields.{
  FieldDescriptor, application, profile, FieldValue, string, number, truth, FieldError, Checked,
  fine, wrong, find_configuration_field_descriptor, write_profile_field, is_set,
  apply_profile_field, clear_profile_field, reset_profile_field,
}
use cc_switch_trans.Config.Settings.{
  ApplicationSettings, apply_application_field, reset_application_field,
}
use cc_switch_trans.Config.Editor.{
  SetCommand, ResetCommand, ConfigurationEditor, ConfigurationEditFailure, has_key, has_id, Outcome,
  put_profile, clear_failure, id_collision, set_application_field, set_profile_field, apply_set,
  reset_in_application, reset_in_profile, apply_reset,
}
use cc_switch_trans.Config.Editor.Lists.{
  find_first, modify_first, count, one_if, count-modify_first, count-find_none, found, found_same,
}
use cc_switch_trans.Config.Editor.Sound.{IsRules, AllRules-find, IsDraft-modify}
use cc_switch_trans.Config.Editor.Runs.{
  IsSound, Keeps, keep, Keeps-if, Keeps-found, Keeps-active, IsSound-put,
}

write_profile_field-IsEdit :
    (p p' : StoredProfile) (key : Text) (value : FieldValue)
    → write_profile_field p key value ≡ fine p'
    → (p'.key ≡ p.key)
      × (p'.rules ≡ p.rules)
      × ((p'.profile_id ≡ p.profile_id)
          ⊎ ((text_eq key (codes "id") ≡ true) × (value ≡ string p'.profile_id)))
unfolding write_profile_field
write_profile_field-IsEdit p p' key (string t) h = ground (arith, h)
write_profile_field-IsEdit p p' key (number n) h = ground (arith, h)
write_profile_field-IsEdit p p' key (truth b) h = ground (arith, h)

written :
    (p p' : StoredProfile) (d : FieldDescriptor) (value : FieldValue)
    → apply_profile_field p d value ≡ fine p'
    → write_profile_field p d.key value ≡ fine p'
unfolding apply_profile_field
written p p' d value h = ground (arith, h)

-- A profile with the key, the rules and the id of another.
abbrev Stays : StoredProfile → StoredProfile → Type 0
Stays p p' = (p'.key ≡ p.key) × (p'.rules ≡ p.rules) × (p'.profile_id ≡ p.profile_id)

-- Where this comes to a profile, it is such a profile.
record LeadsTo (p p' : StoredProfile) (c : Checked StoredProfile) : Type 0 where
  pub leads : c ≡ fine p' → Stays p p'

-- One test of a chain of them, and the last.
next-Stays :
    (p p' : StoredProfile) (b : Bool) (q : StoredProfile) (y : Checked StoredProfile)
    → Stays p q
    → LeadsTo p p' y
    → LeadsTo p p' (if b then fine q else y)
next-Stays p p' true q y s t = record {
  leads = λ h. (let e : q ≡ p' = cc h in subst (Stays p) e s);
}
next-Stays p p' false q y s t = t

last-Stays :
    (p p' : StoredProfile) (b : Bool) (x y : FieldError)
    → LeadsTo p p' (if b then wrong x else wrong y)
last-Stays p p' true x y = record { leads = λ h. absurd (cc h) }
last-Stays p p' false x y = record { leads = λ h. absurd (cc h) }

clear_profile_field-LeadsTo :
    (p p' : StoredProfile) (key : Text) → LeadsTo p p' (clear_profile_field p key)
unfolding clear_profile_field
clear_profile_field-LeadsTo p p' key =
    next-Stays p p' (text_eq key (codes "enabled")) _ _ (refl, refl, refl)
      (next-Stays p p' (text_eq key (codes "protocol") && is_set p.protocol) _ _ (refl, refl, refl)
        (next-Stays p p' (text_eq key (codes "local.request-path") && is_set p.local_request_path) _
          _ (refl, refl, refl)
          (next-Stays p p' (text_eq key (codes "local.usage-path") && is_set p.local_usage_path) _ _
            (refl, refl, refl)
            (next-Stays p p' (text_eq key (codes "upstream.base-url") && is_set p.upstream_base_url)
              _ _ (refl, refl, refl)
              (next-Stays p p'
                (text_eq key (codes "upstream.request-path") && is_set p.upstream_request_path) _ _
                (refl, refl, refl)
                (next-Stays p p'
                  (text_eq key (codes "upstream.usage-path") && is_set p.upstream_usage_path) _ _
                  (refl, refl, refl) (last-Stays p p' (not (text_eq key (codes "id"))) _ _)))))))

cleared :
    (p p' : StoredProfile) (d : FieldDescriptor)
    → reset_profile_field p d ≡ fine p'
    → clear_profile_field p d.key ≡ fine p'
unfolding reset_profile_field
cleared p p' d h = ground (arith, h)

reset_profile_field-Stays :
    (p p' : StoredProfile) (d : FieldDescriptor) → reset_profile_field p d ≡ fine p' → Stays p p'
reset_profile_field-Stays p p' d h =
    (clear_profile_field-LeadsTo p p' d.key).leads (cleared p p' d h)

-- Without a collision, nobody else has the id that the profile takes.
id_collision-free :
    (ps : List StoredProfile) (k : ℤ) (p : StoredProfile) (key id : Text)
    → count (has_key k) ps ≤ 1
    → find_first (has_key k) ps ≡ some p
    → text_eq key (codes "id") ≡ true
    → id_collision ps p key (string id) ≡ false
    → (find_first (has_id id) ps ≡ none) ⊎ (p.profile_id ≡ id)
unfolding id_collision
id_collision-free ps k p key id once f y h = elim (Option-cases (find_first (has_id id) ps)) [
  | inl n ↦ inl n
  | inr (q, g) ↦
      (let same : int_eq q.key p.key ≡ true = ground (arith, h, y, g) in
        let mine : p.key ≡ k = (int_eq_iff p.key k).0 (found (has_key k) p ps f) in
        let key_q : int_eq q.key k ≡ true =
          (int_eq_iff q.key k).1 ((int_eq_iff q.key p.key).0 same ∙ mine) in
        let e : q ≡ p = found_same (has_key k) (has_id id) p q ps once f g key_q in
        inr (
          ap (λ (x : StoredProfile). x.profile_id) (sym e)
          ∙ (text_eq_iff q.profile_id id).0 (found (has_id id) q ps g)))
]

-- The ids after a profile took an id that nobody had.
ids-modify :
    (ps : List StoredProfile) (k : ℤ) (p p' : StoredProfile)
    → ((id : Text) → count (has_id id) ps ≤ 1)
    → find_first (has_key k) ps ≡ some p
    → find_first (has_id p'.profile_id) ps ≡ none
    → (id : Text) → count (has_id id) (modify_first (has_key k) (λ old. p') ps) ≤ 1
ids-modify ps k p p' d f new id =
    let e = count-modify_first (has_id id) (has_key k) p p' ps f in
    elim (Bool-cases (text_eq p'.profile_id id)) [
      | inl y ↦ omega (
        arith,
        e,
        ap one_if y,
        subst (λ (t : Text). count (has_id t) ps ≡ 0) ((text_eq_iff p'.profile_id id).0 y)
            (count-find_none (has_id p'.profile_id) ps new),
      )
      | inr n ↦ omega (arith, e, ap one_if n, d id)
    ]

module _ {Origin : Type 0} where
  put_edited-IsSound :
      (e : ConfigurationEditor Origin) (k : ℤ) (p p' : StoredProfile) (d : FieldDescriptor)
      (value : FieldValue)
      → IsSound e
      → find_first (has_key k) e.draft.profiles ≡ some p
      → id_collision e.draft.profiles p d.key value ≡ false
      → apply_profile_field p d value ≡ fine p'
      → IsSound (put_profile e k p')
  put_edited-IsSound e k p p' d value s f free h =
      let (same, kept, id) = write_profile_field-IsEdit p p' d.key value (written p p' d value h) in
      let rules : IsRules p'.rules =
        subst IsRules (sym kept) (AllRules-find (has_key k) e.draft.profiles p s.draft.rules f) in
      elim id [
        | inl stays ↦ IsSound-put e k p p' s f same stays rules
        | inr (y, v) ↦
            elim (id_collision-free e.draft.profiles k p d.key p'.profile_id (s.draft.keys k) f y
              (ap (id_collision e.draft.profiles p d.key) (sym v) ∙ free)) [
                | inr stays ↦ IsSound-put e k p p' s f same (sym stays) rules
                | inl new ↦ record {
                  n = s.n;
                  next = s.next;
                  draft =
                      IsDraft-modify s.n e.draft.profiles k p p' s.draft f same
                        (ids-modify e.draft.profiles k p p' s.draft.ids f new) rules;
                }
              ]
      ]

  settings-IsSound :
      (e : ConfigurationEditor Origin) (settings : ApplicationSettings)
      → IsSound e
      → IsSound (record e { draft = record e.draft { application = settings } })
  settings-IsSound e settings s = record { n = s.n; next = s.next; draft = s.draft }

  failed-IsSound :
      (e : ConfigurationEditor Origin) (f : ConfigurationEditFailure)
      → IsSound e
      → IsSound (record e { last_failure = f })
  failed-IsSound e f s = record { n = s.n; next = s.next; draft = s.draft }

  -- A field that was checked, or an error.
  Keeps-checked :
      {A : Type 0} (c : Checked A) (x : FieldError → Outcome Origin) (f : A → Outcome Origin)
      → ((error : FieldError) → Keeps (x error))
      → ((a : A) → c ≡ fine a → Keeps (f a))
      → Keeps (elim c as (λ y. Outcome Origin) [ wrong error ↦ x error | fine a ↦ f a ])
  Keeps-checked (wrong error) x f s t = s error
  Keeps-checked (fine a) x f s t = t a refl

  set_application_field-Keeps :
      (e : ConfigurationEditor Origin) (key : Text) (value : FieldValue)
      → IsSound e
      → Keeps (set_application_field e key value)
  unfolding set_application_field
  set_application_field-Keeps e key value s =
      Keeps-found (find_configuration_field_descriptor application key) _ _
        (λ _. keep (failed-IsSound e _ s))
        (λ d _.
          Keeps-checked (apply_application_field e.draft.application d value) _ _
            (λ _. keep (failed-IsSound e _ s)) (λ a _. keep (settings-IsSound e a s)))

  set_profile_field-Keeps :
      (e : ConfigurationEditor Origin) (k : ℤ) (key : Text) (value : FieldValue)
      → IsSound e
      → Keeps (set_profile_field e k key value)
  unfolding set_profile_field
  set_profile_field-Keeps e k key value s =
      Keeps-found (find_configuration_field_descriptor profile key) _ _
        (λ _. keep (failed-IsSound e _ s))
        (λ d _.
          Keeps-found (find_first (has_key k) e.draft.profiles) _ _
            (λ _. keep (failed-IsSound e _ s))
            (λ p f.
              Keeps-if (id_collision e.draft.profiles p d.key value) _ _
                (λ _. keep (failed-IsSound e _ s))
                (λ free.
                  Keeps-checked (apply_profile_field p d value) _ _
                    (λ _. keep (failed-IsSound e _ s))
                    (λ p' h. keep (put_edited-IsSound e k p p' d value s f free h)))))

  pub apply_set-Keeps :
      (e : ConfigurationEditor Origin) (c : SetCommand) → IsSound e → Keeps (apply_set e c)
  unfolding apply_set
  apply_set-Keeps e c s = Keeps-active (clear_failure e) _ (failed-IsSound e _ s) (
      Keeps-found c.profile_key _ _
        (λ _. set_application_field-Keeps (clear_failure e) c.key c.value (failed-IsSound e _ s))
        (λ k _. set_profile_field-Keeps (clear_failure e) k c.key c.value (failed-IsSound e _ s)))

  reset_in_application-Keeps :
      (e : ConfigurationEditor Origin) (key : Text) → IsSound e → Keeps (reset_in_application e key)
  unfolding reset_in_application
  reset_in_application-Keeps e key s =
      Keeps-found (find_configuration_field_descriptor application key) _ _
        (λ _. keep (failed-IsSound e _ s))
        (λ d _.
          Keeps-checked (reset_application_field e.draft.application d) _ _
            (λ _. keep (failed-IsSound e _ s)) (λ a _. keep (settings-IsSound e a s)))

  reset_in_profile-Keeps :
      (e : ConfigurationEditor Origin) (k : ℤ) (key : Text)
      → IsSound e
      → Keeps (reset_in_profile e k key)
  unfolding reset_in_profile
  reset_in_profile-Keeps e k key s =
      Keeps-found (find_configuration_field_descriptor profile key) _ _
        (λ _. keep (failed-IsSound e _ s))
        (λ d _.
          Keeps-found (find_first (has_key k) e.draft.profiles) _ _
            (λ _. keep (failed-IsSound e _ s))
            (λ p f.
              Keeps-checked (reset_profile_field p d) _ _ (λ _. keep (failed-IsSound e _ s))
                (λ p' h.
                  (let (same, kept, id) = reset_profile_field-Stays p p' d h in
                    keep (
                      IsSound-put e k p p' s f same id (
                        subst IsRules (sym kept)
                          (AllRules-find (has_key k) e.draft.profiles p s.draft.rules f)))))))

  pub apply_reset-Keeps :
      (e : ConfigurationEditor Origin) (c : ResetCommand) → IsSound e → Keeps (apply_reset e c)
  unfolding apply_reset
  apply_reset-Keeps e c s = Keeps-active (clear_failure e) _ (failed-IsSound e _ s) (
      Keeps-found c.profile_key _ _
        (λ _. reset_in_application-Keeps (clear_failure e) c.key (failed-IsSound e _ s))
        (λ k _. reset_in_profile-Keeps (clear_failure e) k c.key (failed-IsSound e _ s)))
