-- ===== src/Tests/Editors.antt =====
-- An editor that loads one profile, adds another and moves it (src/config/configuration_editor.cpp).
use cc_switch_trans.Common.{
  ◌-◌, ◌≡◌, refl, subst, true, false, none, some, List, [], ◌∷◌, ◌++◌, codes, pos, negsuc,
  get_elem?, take, drop, arith,
}
use cc_switch_trans.Config.Profile.{StoredRule, StoredProfile}
use cc_switch_trans.Config.Settings.{default_settings}
use cc_switch_trans.Config.Fields.{string}
use cc_switch_trans.Config.Editor.{
  ConfigurationSnapshot, Calls, options, no_failure, EditError, SetCommand, ConfigurationEditor,
  has_key,
}
use cc_switch_trans.Config.Editor.Lists.{find_first, erase_first, insert_at, count}
use cc_switch_trans.Config.Editor.Draft.{new_profile, move_profile}
use cc_switch_trans.Config.Editor.Steps.{
  Command, begins, creates_profile, moves_profile, adds_rule, replaces_rules, commits, apply_batch,
  run_commands,
}
use cc_switch_trans.Config.Editor.Sound.{IsRules, AllRules, IsDraft}
use cc_switch_trans.Config.Editor.Runs.{IsSound}
use cc_switch_trans.Config.Editor.RuleEdits.{ParsesRules}
use cc_switch_trans.Config.Editor.Batch.{CallsLaws, run_commands-IsSound}
use cc_switch_trans.Config.Editor.Effects.{apply_batch-IsAtomic, move_profile-moves}

abbrev stored : ConfigurationSnapshot Unit
stored = record {
  application = default_settings;
  profiles = new_profile (pos 1) (codes "main") ∷ [];
  origin = tt;
}

-- A repository that always holds this snapshot, and rules text that always means no rules.
abbrev calls : Calls Unit
calls = record {
  load = some stored;
  save_snapshot = λ desired. some stored;
  validate_snapshot = λ snapshot. none;
  parse_rules_text = λ content current. some [];
  set_option = λ json option value. options value;
  unset_option = λ json option. options json;
}

stored-IsDraft : IsDraft 0 stored.profiles
unfolding count AllRules
stored-IsDraft = record {
  ids = λ id. ground arith;
  keys = λ k. ground arith;
  fresh = λ m h. refl;
  rules = (record { ids = λ id. omega arith; bounded = omega arith }, tt);
}

calls-CallsLaws : CallsLaws calls
unfolding ParsesRules count
calls-CallsLaws = record {
  loads = λ s h. held s h;
  saves = λ desired s h. held s h;
  parses = λ content current rules h. no_rules rules h;
}
  where
    held : (s : ConfigurationSnapshot Unit) → some stored ≡ some s → IsDraft 0 s.profiles
    held s h =
        (let e : stored ≡ s = cc h in
          subst (λ (x : ConfigurationSnapshot Unit). IsDraft 0 x.profiles) e stored-IsDraft)

    no_rules : (rules : List StoredRule) → some [] ≡ some rules → IsRules rules
    no_rules rules h =
        (let e : [] ≡ rules = cc h in
          subst IsRules e (record { ids = λ id. omega arith; bounded = omega arith }))

abbrev idle : ConfigurationEditor Unit
idle = record {
  draft = record { application = default_settings; profiles = []; origin = tt };
  next_draft_profile_key = negsuc 0;
  next_draft_rule_key = negsuc 0;
  active = false;
  last_failure = record { code = no_failure; field = [] };
}

idle-IsSound : IsSound idle
unfolding count AllRules
idle-IsSound = record {
  n = 0;
  next = refl;
  draft = record {
    ids = λ id. omega arith;
    keys = λ k. omega arith;
    fresh = λ m h. refl;
    rules = tt;
  };
}

abbrev commands : List (Command calls)
commands =
    begins
    ∷ creates_profile (codes "other")
    ∷ moves_profile (negsuc 0) 1
    ∷ adds_rule (pos 1) (codes "r") (codes "set_field")
    ∷ replaces_rules (pos 1) (codes "[]")
    ∷ commits
    ∷ []

run_commands-IsSound_example : IsSound (run_commands calls idle commands)
run_commands-IsSound_example = run_commands-IsSound calls calls-CallsLaws commands idle idle-IsSound

abbrev two_profiles : ConfigurationEditor Unit
two_profiles = record idle {
  draft = record stored {
    profiles = new_profile (pos 1) (codes "main") ∷ new_profile (negsuc 0) (codes "other") ∷ [];
  };
  active = true;
}

abbrev moved : ConfigurationEditor Unit
moved = record two_profiles {
  draft = record stored {
    profiles = new_profile (negsuc 0) (codes "other") ∷ new_profile (pos 1) (codes "main") ∷ [];
  };
}

two_profiles-moved : move_profile two_profiles (negsuc 0) 1 ≡ (moved, none)
unfolding move_profile find_first erase_first insert_at
two_profiles-moved = refl

move_profile-moves_example :
    (p : StoredProfile) × (find_first (has_key (negsuc 0)) two_profiles.draft.profiles ≡ some p)
    × (get_elem? moved.draft.profiles (1 - 1) ≡ some p)
    × (take (1 - 1) moved.draft.profiles ++ drop 1 moved.draft.profiles
        ≡ erase_first (has_key (negsuc 0)) two_profiles.draft.profiles)
    × (record moved { draft = record moved.draft { profiles = two_profiles.draft.profiles } }
        ≡ two_profiles)
move_profile-moves_example = move_profile-moves two_profiles moved (negsuc 0) 1 two_profiles-moved

abbrev edits : List SetCommand
edits =
    record { profile_key = some (pos 1); key = codes "id"; value = string (codes "first") }
    ∷ record { profile_key = some (pos 1); key = codes "no-such-field"; value = string [] }
    ∷ []

apply_batch-IsAtomic_example :
    ((error : EditError)
      → (apply_batch calls two_profiles edits [] true).1 ≡ some error
      → (apply_batch calls two_profiles edits [] true).0.draft ≡ two_profiles.draft)
    × ((apply_batch calls two_profiles edits [] true).1 ≡ none
        → true ≡ true
        → calls.validate_snapshot (apply_batch calls two_profiles edits [] true).0.draft ≡ none)
apply_batch-IsAtomic_example = apply_batch-IsAtomic calls two_profiles edits [] true
