-- ===== src/Config/Editor/Steps.antt =====
-- Batches, validation and commit of the editor, and sequences of its calls
-- (src/config/configuration_editor.cpp).
use cc_switch_trans.Common.{
  Bool, false, none, some, List, [], ◌∷◌, map, Text, ℤ, pos, is_negative, ℕ, if◌then◌else◌,
}
use cc_switch_trans.Config.Profile.{StoredRule, StoredProfile}
use cc_switch_trans.Config.Editor.{
  ConfigurationSnapshot, ValidationFailure, snapshot_invalid, route_collision, candidate_invalid,
  Calls, save_failed, validation_failed, FailureCode, validation_failed_failure,
  route_collision_failure, SetCommand, ResetCommand, ConfigurationEditor, Outcome, refuse,
  set_failure, clear_failure, when_active, begin, discard, apply_set, apply_reset,
}
use cc_switch_trans.Config.Editor.Draft.{
  create_profile, remove_profile, move_profile, add_rule, remove_rule, set_rule_enabled,
  set_rule_option, unset_rule_option, move_rule, replace_rules_text,
}

abbrev failure_code : ValidationFailure → FailureCode
failure_code (route_collision field) = route_collision_failure
failure_code (snapshot_invalid field) = validation_failed_failure
failure_code (candidate_invalid field) = validation_failed_failure

abbrev failure_field : ValidationFailure → Text
failure_field (route_collision field) = field
failure_field (snapshot_invalid field) = field
failure_field (candidate_invalid field) = field

abbrev saved_key : ℤ → ℤ
saved_key key = if is_negative key then pos 0 else key

-- Draft keys become 0, for the repository to give them a key.
abbrev saved_rule : StoredRule → StoredRule
saved_rule r = record r { key = saved_key r.key }

abbrev pub saved_profile : StoredProfile → StoredProfile
saved_profile p = record p { key = saved_key p.key; rules = map saved_rule p.rules }

module _ {Origin : Type 0} (calls : Calls Origin) where
  unfoldable pub validate : ConfigurationEditor Origin → Outcome Origin
  validate e = when_active (clear_failure e) (λ e. elim (calls.validate_snapshot e.draft) [
    | none ↦ (e, none)
    | some f ↦ set_failure e (failure_code f) (failure_field f) (validation_failed f)
  ])

  -- The next part of a call that goes on only if the one before it returned true.
  abbrev pub and_then :
      Outcome Origin → (ConfigurationEditor Origin → Outcome Origin) → Outcome Origin
  and_then (e, some error) rest = (e, some error)
  and_then (e, none) rest = rest e

  unfoldable pub apply_sets : ConfigurationEditor Origin → List SetCommand → Outcome Origin
  apply_sets e [] = (e, none)
  apply_sets e (c ∷ cs) = and_then (apply_set e c) (λ e'. apply_sets e' cs)

  unfoldable pub apply_resets : ConfigurationEditor Origin → List ResetCommand → Outcome Origin
  apply_resets e [] = (e, none)
  apply_resets e (c ∷ cs) = and_then (apply_reset e c) (λ e'. apply_resets e' cs)

  -- draft_ = std::move(previous), where a part failed.
  abbrev pub or_restore : ConfigurationSnapshot Origin → Outcome Origin → Outcome Origin
  or_restore previous (e, some error) = (record e { draft = previous }, some error)
  or_restore previous (e, none) = (e, none)

  unfoldable pub apply_batch :
      ConfigurationEditor Origin → List SetCommand → List ResetCommand → Bool → Outcome Origin
  apply_batch e sets resets validate_candidate = when_active e (λ e. or_restore e.draft (
      and_then (apply_sets e sets) (λ e'.
        and_then (apply_resets e' resets)
          (λ e''. if validate_candidate then validate e'' else (e'', none)))))

  unfoldable pub commit : ConfigurationEditor Origin → Outcome Origin
  commit e = and_then (validate e) (λ e.
      elim (calls.save_snapshot
        (record e.draft { profiles = map saved_profile e.draft.profiles })) [
          | none ↦ refuse e save_failed
          | some committed ↦ (record e { draft = committed; active = false }, none)
        ])

  pub data Command : Type 0 where
    begins discards validates commits : Command
    sets : SetCommand → Command
    resets : ResetCommand → Command
    batches : List SetCommand → List ResetCommand → Bool → Command
    creates_profile : Text → Command
    removes_profile : ℤ → Command
    moves_profile : ℤ → ℕ → Command
    adds_rule : ℤ → Text → Text → Command
    removes_rule : ℤ → Text → Command
    enables_rule : ℤ → Text → Bool → Command
    sets_option : ℤ → Text → Text → Text → Command
    unsets_option : ℤ → Text → Text → Command
    moves_rule : ℤ → Text → ℕ → Command
    replaces_rules : ℤ → Text → Command

  unfoldable pub step : ConfigurationEditor Origin → Command → Outcome Origin
  step e begins = begin calls e
  step e discards = (discard e, none)
  step e validates = validate e
  step e commits = commit e
  step e (sets c) = apply_set e c
  step e (resets c) = apply_reset e c
  step e (batches ss rs v) = apply_batch e ss rs v
  step e (creates_profile id) = create_profile e id
  step e (removes_profile k) = remove_profile e k
  step e (moves_profile k n) = move_profile e k n
  step e (adds_rule k id type) = add_rule e k id type
  step e (removes_rule k id) = remove_rule e k id
  step e (enables_rule k id b) = set_rule_enabled e k id b
  step e (sets_option k id option json) = set_rule_option calls e k id option json
  step e (unsets_option k id option) = unset_rule_option calls e k id option
  step e (moves_rule k id n) = move_rule e k id n
  step e (replaces_rules k content) = replace_rules_text calls e k content

  unfoldable pub run_commands :
      ConfigurationEditor Origin → List Command → ConfigurationEditor Origin
  run_commands e [] = e
  run_commands e (c ∷ cs) = run_commands (step e c).0 cs
