-- ===== src/Config/Editor/Batch.antt =====
-- Sequences of calls of the editor, and batches (src/config/configuration_editor.cpp).
use cc_switch_trans.Common.{
  ℕ, ◌≡◌, refl, ◌∙◌, Bool, true, false, none, some, List, [], ◌∷◌, map, ℤ, if◌then◌else◌, arith,
}
use cc_switch_trans.Config.Profile.{StoredProfile}
use cc_switch_trans.Config.Editor.{
  ConfigurationSnapshot, Calls, SetCommand, ResetCommand, ConfigurationEditor, Outcome,
  clear_failure, begin, discard, apply_set, apply_reset, set_application_field, set_profile_field,
  reset_in_application, reset_in_profile,
}
use cc_switch_trans.Config.Editor.Steps.{
  saved_profile, validate, and_then, apply_sets, apply_resets, or_restore, apply_batch, commit,
  Command, begins, discards, validates, commits, sets, resets, batches, creates_profile,
  removes_profile, moves_profile, adds_rule, removes_rule, enables_rule, sets_option, unsets_option,
  moves_rule, replaces_rules, step, run_commands,
}
use cc_switch_trans.Config.Editor.Sound.{IsDraft}
use cc_switch_trans.Config.Editor.Runs.{
  IsSound, Keeps, keep, Keeps-if, Keeps-found, Keeps-active, create_profile-Keeps,
  remove_profile-Keeps, move_profile-Keeps,
}
use cc_switch_trans.Config.Editor.RuleEdits.{
  add_rule-Keeps, remove_rule-Keeps, set_rule_enabled-Keeps, set_rule_option-Keeps,
  unset_rule_option-Keeps, move_rule-Keeps, ParsesRules, replace_rules_text-Keeps,
}
use cc_switch_trans.Config.Editor.FieldEdits.{apply_set-Keeps, apply_reset-Keeps}

-- What the repository and the rules text promise: a snapshot that is loaded or was saved has no two
-- profiles with one id or key, no draft key, and sound rules in each profile; and rules text that
-- parses gives sound rules.
pub record CallsLaws {Origin : Type 0} (calls : Calls Origin) : Type 0 where
  pub loads : (s : ConfigurationSnapshot Origin) → calls.load ≡ some s → IsDraft 0 s.profiles
  pub saves :
      (desired s : ConfigurationSnapshot Origin)
      → calls.save_snapshot desired ≡ some s
      → IsDraft 0 s.profiles
  pub parses : ParsesRules calls

module _ {Origin : Type 0} (calls : Calls Origin) where
  Keeps-and_then :
      (o : Outcome Origin) (rest : ConfigurationEditor Origin → Outcome Origin)
      → Keeps o
      → ((e : ConfigurationEditor Origin) → IsSound e → Keeps (rest e))
      → Keeps (and_then calls o rest)
  Keeps-and_then (e, none) rest s t = t e s.kept
  Keeps-and_then (e, some error) rest s t = keep s.kept

  validate-Keeps : (e : ConfigurationEditor Origin) → IsSound e → Keeps (validate calls e)
  unfolding validate
  validate-Keeps e s =
      Keeps-active (clear_failure e) _ (record { n = s.n; next = s.next; draft = s.draft })
        (Keeps-found (calls.validate_snapshot e.draft) _ _
          (λ _. keep (record { n = s.n; next = s.next; draft = s.draft }))
          (λ f _. keep (record { n = s.n; next = s.next; draft = s.draft })))

  apply_sets-Keeps :
      (e : ConfigurationEditor Origin) (cs : List SetCommand)
      → IsSound e
      → Keeps (apply_sets calls e cs)
  unfolding apply_sets
  apply_sets-Keeps e [] s = keep s
  apply_sets-Keeps e (c ∷ cs) s =
      Keeps-and_then (apply_set e c) _ (apply_set-Keeps e c s) (λ e' s'. apply_sets-Keeps e' cs s')

  apply_resets-Keeps :
      (e : ConfigurationEditor Origin) (cs : List ResetCommand)
      → IsSound e
      → Keeps (apply_resets calls e cs)
  unfolding apply_resets
  apply_resets-Keeps e [] s = keep s
  apply_resets-Keeps e (c ∷ cs) s =
      Keeps-and_then (apply_reset e c) _ (apply_reset-Keeps e c s)
        (λ e' s'. apply_resets-Keeps e' cs s')

  apply_set-next_key :
      (e : ConfigurationEditor Origin) (c : SetCommand)
      → (apply_set e c).0.next_draft_profile_key ≡ e.next_draft_profile_key
  unfolding apply_set set_application_field set_profile_field
  apply_set-next_key e c = ground arith

  apply_reset-next_key :
      (e : ConfigurationEditor Origin) (c : ResetCommand)
      → (apply_reset e c).0.next_draft_profile_key ≡ e.next_draft_profile_key
  unfolding apply_reset reset_in_application reset_in_profile
  apply_reset-next_key e c = ground arith

  validate-next_key :
      (e : ConfigurationEditor Origin)
      → (validate calls e).0.next_draft_profile_key ≡ e.next_draft_profile_key
  unfolding validate
  validate-next_key e = ground arith

  and_then-next_key :
      (o : Outcome Origin) (rest : ConfigurationEditor Origin → Outcome Origin) (k : ℤ)
      → o.0.next_draft_profile_key ≡ k
      → ((e : ConfigurationEditor Origin)
          → e.next_draft_profile_key ≡ k
          → (rest e).0.next_draft_profile_key ≡ k)
      → (and_then calls o rest).0.next_draft_profile_key ≡ k
  and_then-next_key (e, none) rest k h t = t e h
  and_then-next_key (e, some error) rest k h t = h

  apply_sets-next_key :
      (e : ConfigurationEditor Origin) (cs : List SetCommand) (k : ℤ)
      → e.next_draft_profile_key ≡ k
      → (apply_sets calls e cs).0.next_draft_profile_key ≡ k
  unfolding apply_sets
  apply_sets-next_key e [] k h = h
  apply_sets-next_key e (c ∷ cs) k h =
      and_then-next_key (apply_set e c) _ k (apply_set-next_key e c ∙ h)
        (λ e' h'. apply_sets-next_key e' cs k h')

  apply_resets-next_key :
      (e : ConfigurationEditor Origin) (cs : List ResetCommand) (k : ℤ)
      → e.next_draft_profile_key ≡ k
      → (apply_resets calls e cs).0.next_draft_profile_key ≡ k
  unfolding apply_resets
  apply_resets-next_key e [] k h = h
  apply_resets-next_key e (c ∷ cs) k h =
      and_then-next_key (apply_reset e c) _ k (apply_reset-next_key e c ∙ h)
        (λ e' h'. apply_resets-next_key e' cs k h')

  -- The parts of a batch, up to the restoring of the draft.
  batch_parts :
      ConfigurationEditor Origin → List SetCommand → List ResetCommand → Bool → Outcome Origin
  batch_parts e ss rs v = and_then calls (apply_sets calls e ss) (λ e'.
      and_then calls (apply_resets calls e' rs)
        (λ e''. if v then validate calls e'' else (e'', none)))

  batch_parts-Keeps :
      (e : ConfigurationEditor Origin) (ss : List SetCommand) (rs : List ResetCommand) (v : Bool)
      → IsSound e
      → Keeps (batch_parts e ss rs v)
  unfolding batch_parts
  batch_parts-Keeps e ss rs v s =
      Keeps-and_then (apply_sets calls e ss) _ (apply_sets-Keeps e ss s) (λ e' s'.
        Keeps-and_then (apply_resets calls e' rs) _ (apply_resets-Keeps e' rs s')
          (λ e'' s''. Keeps-if v _ _ (λ _. validate-Keeps e'' s'') (λ _. keep s'')))

  batch_parts-next_key :
      (e : ConfigurationEditor Origin) (ss : List SetCommand) (rs : List ResetCommand) (v : Bool)
      → (batch_parts e ss rs v).0.next_draft_profile_key ≡ e.next_draft_profile_key
  unfolding batch_parts
  batch_parts-next_key e ss rs v =
      and_then-next_key (apply_sets calls e ss) _ _ (apply_sets-next_key e ss _ refl) (λ e' h'.
        and_then-next_key (apply_resets calls e' rs) _ _ (apply_resets-next_key e' rs _ h')
          (λ e'' h''. checked e'' h'' v))
    where
      checked :
          (x : ConfigurationEditor Origin)
          → x.next_draft_profile_key ≡ e.next_draft_profile_key
          → (w : Bool)
          → (if w then validate calls x else (x, none)).0.next_draft_profile_key
            ≡ e.next_draft_profile_key
      checked x h true = validate-next_key x ∙ h
      checked x h false = h

  or_restore-Keeps :
      (e : ConfigurationEditor Origin) (o : Outcome Origin)
      → IsSound e
      → Keeps o
      → o.0.next_draft_profile_key ≡ e.next_draft_profile_key
      → Keeps (or_restore calls e.draft o)
  or_restore-Keeps e (e', none) s t h = t
  or_restore-Keeps e (e', some error) s t h =
      keep (record { n = s.n; next = h ∙ s.next; draft = s.draft })

  apply_batch-Keeps :
      (e : ConfigurationEditor Origin) (ss : List SetCommand) (rs : List ResetCommand) (v : Bool)
      → IsSound e
      → Keeps (apply_batch calls e ss rs v)
  unfolding apply_batch batch_parts
  apply_batch-Keeps e ss rs v s = Keeps-active e _ s (
      or_restore-Keeps e (batch_parts e ss rs v) s (batch_parts-Keeps e ss rs v s)
        (batch_parts-next_key e ss rs v))

  module _ (laws : CallsLaws calls) where
    stored : (n : ℕ) (ps : List StoredProfile) → IsDraft 0 ps → IsDraft n ps
    stored n ps d = record {
      ids = d.ids;
      keys = d.keys;
      fresh = λ m h. d.fresh m (omega arith);
      rules = d.rules;
    }

    begin-Keeps : (e : ConfigurationEditor Origin) → IsSound e → Keeps (begin calls e)
    unfolding begin
    begin-Keeps e s =
        Keeps-if e.active _ _ (λ _. keep (record { n = s.n; next = s.next; draft = s.draft }))
          (λ _.
            Keeps-found calls.load _ _
              (λ _. keep (record { n = s.n; next = s.next; draft = s.draft }))
              (λ snapshot h. keep (record { n = 0; next = refl; draft = laws.loads snapshot h })))

    commit-Keeps : (e : ConfigurationEditor Origin) → IsSound e → Keeps (commit calls e)
    unfolding commit
    commit-Keeps e s = Keeps-and_then (validate calls e) _ (validate-Keeps e s) (λ e' s'.
        Keeps-found
          (calls.save_snapshot (record e'.draft { profiles = map saved_profile e'.draft.profiles }))
          _ _ (λ _. keep s')
          (λ committed h. keep (record {
            n = s'.n;
            next = s'.next;
            draft = stored s'.n committed.profiles (laws.saves _ committed h);
          })))

    step-Keeps :
        (e : ConfigurationEditor Origin) (c : Command calls) → IsSound e → Keeps (step calls e c)
    unfolding step discard
    step-Keeps e begins s = begin-Keeps e s
    step-Keeps e discards s = keep (record { n = s.n; next = s.next; draft = s.draft })
    step-Keeps e validates s = validate-Keeps e s
    step-Keeps e commits s = commit-Keeps e s
    step-Keeps e (sets c) s = apply_set-Keeps e c s
    step-Keeps e (resets c) s = apply_reset-Keeps e c s
    step-Keeps e (batches ss rs v) s = apply_batch-Keeps e ss rs v s
    step-Keeps e (creates_profile id) s = create_profile-Keeps e id s
    step-Keeps e (removes_profile k) s = remove_profile-Keeps e k s
    step-Keeps e (moves_profile k n) s = move_profile-Keeps e k n s
    step-Keeps e (adds_rule k id type) s = add_rule-Keeps e k id type s
    step-Keeps e (removes_rule k id) s = remove_rule-Keeps e k id s
    step-Keeps e (enables_rule k id b) s = set_rule_enabled-Keeps e k id b s
    step-Keeps e (sets_option k id option json) s = set_rule_option-Keeps calls e k id option json s
    step-Keeps e (unsets_option k id option) s = unset_rule_option-Keeps calls e k id option s
    step-Keeps e (moves_rule k id n) s = move_rule-Keeps e k id n s
    step-Keeps e (replaces_rules k content) s =
        replace_rules_text-Keeps calls e k content laws.parses s

    -- From a sound draft, any calls of the editor leave a sound one: no two profiles have one id or
    -- one key, the keys for new profiles are not in use, no two rules of a profile have one id, and
    -- no profile has more rules than are allowed; given that what the repository loads and saves,
    -- and rules text that parses, are sound.
    pub run_commands-IsSound :
        (cs : List (Command calls)) (e : ConfigurationEditor Origin)
        → IsSound e
        → IsSound (run_commands calls e cs)
    unfolding run_commands
    run_commands-IsSound [] e s = s
    run_commands-IsSound (c ∷ cs) e s =
        run_commands-IsSound cs (step calls e c).0 (step-Keeps e c s).kept
