-- ===== src/Config/Editor/Effects.antt =====
-- What batches and moves leave (src/config/configuration_editor.cpp).
use cc_switch_trans.Common.{
  ℕ, suc, ◌-◌, ◌≤◌, ◌≡◌, refl, sym, ap, ◌∙◌, inl, inr, Bool, true, false, none, some, List, [],
  ◌++◌, ℤ, length, get_elem?, take, drop, if◌then◌else◌, arith, Option-cases,
}
use cc_switch_trans.Config.Profile.{StoredProfile}
use cc_switch_trans.Config.Editor.{
  set_failure, inactive_failure, inactive, with_profiles, Calls, EditError, SetCommand,
  ResetCommand, ConfigurationEditor, has_key, Outcome,
}
use cc_switch_trans.Config.Editor.Draft.{move_profile}
use cc_switch_trans.Config.Editor.Steps.{
  validate, and_then, apply_sets, apply_resets, or_restore, apply_batch,
}
use cc_switch_trans.Config.Editor.Lists.{
  find_first, erase_first, insert_at, length-erase_first, get_elem?-insert_at,
}

module _ {Origin : Type 0} (calls : Calls Origin) where
  validate-none :
      (e : ConfigurationEditor Origin)
      → (validate calls e).1 ≡ none
      → calls.validate_snapshot (validate calls e).0.draft ≡ none
  unfolding validate
  validate-none e h = ground (arith, h)

  and_then-none :
      (o : Outcome Origin) (rest : ConfigurationEditor Origin → Outcome Origin)
      → (and_then calls o rest).1 ≡ none
      → ((e : ConfigurationEditor Origin)
          → (rest e).1 ≡ none
          → calls.validate_snapshot (rest e).0.draft ≡ none)
      → calls.validate_snapshot (and_then calls o rest).0.draft ≡ none
  and_then-none (e, none) rest h t = t e h
  and_then-none (e, some error) rest h t = absurd (cc h)

  -- What a batch may leave.
  record IsBatch (e : ConfigurationEditor Origin) (v : Bool) (o : Outcome Origin) : Type 0 where
    pub failing : (error : EditError) → o.1 ≡ some error → o.0.draft ≡ e.draft
    pub succeeding : o.1 ≡ none → v ≡ true → calls.validate_snapshot o.0.draft ≡ none

  or_restore-IsBatch :
      (e : ConfigurationEditor Origin) (v : Bool) (o : Outcome Origin)
      → (o.1 ≡ none → v ≡ true → calls.validate_snapshot o.0.draft ≡ none)
      → IsBatch e v (or_restore calls e.draft o)
  or_restore-IsBatch e v (e', none) t = record {
    failing = λ error h. absurd (cc h);
    succeeding = t;
  }
  or_restore-IsBatch e v (e', some x) t = record {
    failing = λ error h. refl;
    succeeding = λ h. absurd (cc h);
  }

  IsBatch-if :
      (e : ConfigurationEditor Origin) (v b : Bool) (x y : Outcome Origin)
      → IsBatch e v x
      → IsBatch e v y
      → IsBatch e v (if b then x else y)
  IsBatch-if e v true x y s t = s
  IsBatch-if e v false x y s t = t

  checked :
      (x : ConfigurationEditor Origin) (v : Bool)
      → v ≡ true
      → (if v then validate calls x else (x, none)).1 ≡ none
      → calls.validate_snapshot (if v then validate calls x else (x, none)).0.draft ≡ none
  checked x true y h = validate-none x h
  checked x false y h = absurd (cc y)

  apply_batch-IsBatch :
      (e : ConfigurationEditor Origin) (sets : List SetCommand) (resets : List ResetCommand)
      (v : Bool)
      → IsBatch e v (apply_batch calls e sets resets v)
  unfolding apply_batch
  apply_batch-IsBatch e sets resets v =
      IsBatch-if e v e.active
        (or_restore calls e.draft (and_then calls (apply_sets calls e sets) rest))
        (set_failure e inactive_failure [] inactive)
        (or_restore-IsBatch e v (and_then calls (apply_sets calls e sets) rest) (λ h y.
          and_then-none (apply_sets calls e sets) rest h (λ e' h'.
            and_then-none (apply_resets calls e' resets) last h' (λ e'' h''. checked e'' v y h''))))
        (record { failing = λ error h. refl; succeeding = λ h. absurd (cc h) })
    where
      last : ConfigurationEditor Origin → Outcome Origin
      last e'' = if v then validate calls e'' else (e'', none)

      rest : ConfigurationEditor Origin → Outcome Origin
      rest e' = and_then calls (apply_resets calls e' resets) last

  -- A batch that fails, at whichever command or at the validation, leaves the draft as it was; one
  -- that succeeds with the validation asked for leaves a draft that is valid.
  pub apply_batch-IsAtomic :
      (e : ConfigurationEditor Origin) (sets : List SetCommand) (resets : List ResetCommand)
      (v : Bool)
      → ((error : EditError)
          → (apply_batch calls e sets resets v).1 ≡ some error
          → (apply_batch calls e sets resets v).0.draft ≡ e.draft)
        × ((apply_batch calls e sets resets v).1 ≡ none
            → v ≡ true
            → calls.validate_snapshot (apply_batch calls e sets resets v).0.draft ≡ none)
  apply_batch-IsAtomic e sets resets v =
      (let b = apply_batch-IsBatch e sets resets v in (b.failing, b.succeeding))

module _ {Origin : Type 0} where
  move_profile-none :
      (e e' : ConfigurationEditor Origin) (k : ℤ) (position : ℕ)
      → move_profile e k position ≡ (e', none)
      → find_first (has_key k) e.draft.profiles ≡ none
      → ⊥
  unfolding move_profile
  move_profile-none e e' k position h n = ground (arith, h, n)

  move_profile-inv :
      (e e' : ConfigurationEditor Origin) (k : ℤ) (position : ℕ) (p : StoredProfile)
      → move_profile e k position ≡ (e', none)
      → find_first (has_key k) e.draft.profiles ≡ some p
      → (1 ≤ position)
        × (position ≤ length e.draft.profiles)
        × (with_profiles e (insert_at (position - 1) p (erase_first (has_key k) e.draft.profiles))
            ≡ e')
  unfolding move_profile
  move_profile-inv e e' k position p h f = ground (arith, h, f)

-- A move that succeeds puts the profile with the key at the position, counted from 1, and leaves
-- the other profiles in their order and nothing else changed.
pub move_profile-moves :
    {Origin : Type 0} (e e' : ConfigurationEditor Origin) (k : ℤ) (position : ℕ)
    → move_profile e k position ≡ (e', none)
    → (p : StoredProfile) × (find_first (has_key k) e.draft.profiles ≡ some p)
      × (get_elem? e'.draft.profiles (position - 1) ≡ some p)
      × (take (position - 1) e'.draft.profiles ++ drop position e'.draft.profiles
          ≡ erase_first (has_key k) e.draft.profiles)
      × (record e' { draft = record e'.draft { profiles = e.draft.profiles } } ≡ e)
move_profile-moves {Origin} e e' k position h =
    elim (Option-cases (find_first (has_key k) e.draft.profiles)) [
      | inl n ↦ absurd (move_profile-none e e' k position h n)
      | inr (p, f) ↦
          (let (low, high, q) = move_profile-inv e e' k position p h f in
            let size = length-erase_first (has_key k) p e.draft.profiles f in
            let (there, others) =
              get_elem?-insert_at (position - 1) p (erase_first (has_key k) e.draft.profiles)
                (omega (arith, low, high, size)) in
            let listed : insert_at (position - 1) p (erase_first (has_key k) e.draft.profiles)
                ≡ e'.draft.profiles =
              ap (λ (x : ConfigurationEditor Origin). x.draft.profiles) q in
            let place : suc (position - 1) ≡ position = omega (arith, low) in
            (
              p,
              f,
              ap (λ (ps : List StoredProfile). get_elem? ps (position - 1)) (sym listed) ∙ there,
              ap (λ (i : ℕ). take (position - 1) e'.draft.profiles ++ drop i e'.draft.profiles)
                    (sym place)
                  ∙ ap
                      (λ (ps : List StoredProfile).
                        take (position - 1) ps ++ drop (suc (position - 1)) ps)
                      (sym listed)
                  ∙ others,
              ap
                  (λ (x : ConfigurationEditor Origin). record x {
                    draft = record x.draft { profiles = e.draft.profiles };
                  })
                  (sym q),
            ))
    ]
