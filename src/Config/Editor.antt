-- ===== src/Config/Editor.antt =====
-- The configuration editor (src/config/configuration_editor.cpp). Its calls of other parts come as
-- functions of `Calls`. Error texts are constructors, with the code of `last_failure_` beside them.
pub mod Lists
pub mod Draft
pub mod Steps
pub mod Sound
pub mod RuleLists
pub mod Runs
pub mod RuleEdits
pub mod FieldEdits
pub mod Batch
pub mod Effects
use cc_switch_trans.Common.{
  ℕ, ◌-◌, Bool, true, false, not, ◌&&◌, ◌||◌, Option, none, some, List, [], ◌∷◌, ◌++◌, map, Text,
  codes, text_eq, ℤ, pos, negsuc, int_eq, is_negative, predecessor, length, ltb, leb, ◌==◌,
  if◌then◌else◌,
}
use cc_switch_trans.Config.Profile.{
  StoredRule, StoredProfile, is_valid_profile_id, is_valid_rule_id, is_valid_rule_type,
  is_valid_rule_option_name,
}
use cc_switch_trans.Config.Fields.{
  FieldDescriptor, application, profile, FieldValue, string, number, truth, FieldError, Checked,
  fine, wrong, find_configuration_field_descriptor, apply_profile_field, reset_profile_field,
}
use cc_switch_trans.Config.Settings.{
  ApplicationSettings, apply_application_field, reset_application_field,
}
use cc_switch_trans.Config.Editor.Lists.{find_first, modify_first, erase_first, insert_at}

-- kMaxRulesPerProfile
abbrev pub max_rules_per_profile : ℕ
max_rules_per_profile = 64

-- `Origin` is what a snapshot says of the repository: its revision and where it was migrated from.
pub record ConfigurationSnapshot (Origin : Type 0) : Type 0 where
  pub application : ApplicationSettings
  pub profiles : List StoredProfile
  pub origin : Origin

pub data ValidationFailure : Type 0 where
  snapshot_invalid route_collision candidate_invalid : Text → ValidationFailure

-- What a rule's options become, as JSON text, or why not.
pub data Options : Type 0 where
  options : Text → Options
  options_not_object options_too_large options_invalid option_not_set : Options

-- The rest of the program, and the JSON library, as the editor calls them: the repository's load and
-- save, the validation of a snapshot, the rules text and the options of a rule.
pub record Calls (Origin : Type 0) : Type 0 where
  pub load : Option (ConfigurationSnapshot Origin)
  pub save_snapshot : ConfigurationSnapshot Origin → Option (ConfigurationSnapshot Origin)
  pub validate_snapshot : ConfigurationSnapshot Origin → Option ValidationFailure
  pub parse_rules_text : Text → List StoredRule → Option (List StoredRule)
  pub set_option : Text → Text → Text → Options
  pub unset_option : Text → Text → Options

pub data EditError : Type 0 where
  already_active load_failed inactive unknown_field profile_not_found invalid_profile_id : EditError
  profile_already_exists invalid_position invalid_rule too_many_rules rule_already_exists :
      EditError
  rule_not_found invalid_option_name rules_invalid save_failed : EditError
  invalid_field : FieldError → EditError
  options_refused : Options → EditError
  validation_failed : ValidationFailure → EditError

-- ConfigurationEditError
pub data FailureCode : Type 0 where
  no_failure inactive_failure invalid_field_failure profile_not_found_failure : FailureCode
  profile_already_exists_failure validation_failed_failure route_collision_failure : FailureCode
  rules_invalid_failure : FailureCode

pub record ConfigurationEditFailure : Type 0 where
  pub code : FailureCode
  pub field : Text

pub record SetCommand : Type 0 where
  pub profile_key : Option ℤ
  pub key : Text
  pub value : FieldValue

pub record ResetCommand : Type 0 where
  pub profile_key : Option ℤ
  pub key : Text

-- `draft_` holds the last draft also when `active_` is false.
pub record ConfigurationEditor (Origin : Type 0) : Type 0 where
  pub draft : ConfigurationSnapshot Origin
  pub next_draft_profile_key : ℤ
  pub next_draft_rule_key : ℤ
  pub active : Bool
  pub last_failure : ConfigurationEditFailure

abbrev pub has_key : ℤ → StoredProfile → Bool
has_key k p = int_eq p.key k

abbrev pub has_id : Text → StoredProfile → Bool
has_id id p = text_eq p.profile_id id

abbrev pub has_rule_id : Text → StoredRule → Bool
has_rule_id id r = text_eq r.rule_id id

abbrev pub with_rules : StoredProfile → List StoredRule → StoredProfile
with_rules p rules = record p { rules = rules }

-- What a call leaves, with the error if it returned false.
abbrev pub Outcome : Type 0 → Type 0
Outcome Origin = ConfigurationEditor Origin × Option EditError

-- Another profile has the id that the profile is about to take.
unfoldable pub id_collision : List StoredProfile → StoredProfile → Text → FieldValue → Bool
id_collision profiles p key (string id) =
    if text_eq key (codes "id")
    then (elim (find_first (has_id id) profiles) [
      | none ↦ false
      | some collision ↦ not (int_eq collision.key p.key)
    ])
    else false
id_collision profiles p key _ = false

module _ {Origin : Type 0} where
  abbrev pub refuse : ConfigurationEditor Origin → EditError → Outcome Origin
  refuse e error = (e, some error)

  abbrev pub set_failure :
      ConfigurationEditor Origin → FailureCode → Text → EditError → Outcome Origin
  set_failure e code field error =
      (record e { last_failure = record { code = code; field = field } }, some error)

  abbrev pub clear_failure : ConfigurationEditor Origin → ConfigurationEditor Origin
  clear_failure e = record e { last_failure = record { code = no_failure; field = [] } }

  abbrev pub with_profiles :
      ConfigurationEditor Origin → List StoredProfile → ConfigurationEditor Origin
  with_profiles e profiles = record e { draft = record e.draft { profiles = profiles } }

  abbrev pub put_profile :
      ConfigurationEditor Origin → ℤ → StoredProfile → ConfigurationEditor Origin
  put_profile e k p = with_profiles e (modify_first (has_key k) (λ old. p) e.draft.profiles)

  -- require_active, and the rest of the call.
  abbrev pub when_active :
      ConfigurationEditor Origin → (ConfigurationEditor Origin → Outcome Origin) → Outcome Origin
  when_active e rest = if e.active then rest e else set_failure e inactive_failure [] inactive

  unfoldable pub begin : Calls Origin → ConfigurationEditor Origin → Outcome Origin
  begin calls e = if e.active then refuse (clear_failure e) already_active else elim calls.load [
    | none ↦ refuse (clear_failure e) load_failed
    | some snapshot ↦ (
      record e {
        draft = snapshot;
        next_draft_profile_key = negsuc 0;
        next_draft_rule_key = negsuc 0;
        active = true;
        last_failure = record { code = no_failure; field = [] };
      },
      none,
    )
  ]

  unfoldable pub discard : ConfigurationEditor Origin → ConfigurationEditor Origin
  discard e = record e { active = false }

  unfoldable pub set_application_field :
      ConfigurationEditor Origin → Text → FieldValue → Outcome Origin
  set_application_field e key value = elim (find_configuration_field_descriptor application key) [
    | none ↦ set_failure e invalid_field_failure key unknown_field
    | some d ↦ elim (apply_application_field e.draft.application d value) [
      | wrong error ↦ set_failure e invalid_field_failure key (invalid_field error)
      | fine settings ↦ (record e { draft = record e.draft { application = settings } }, none)
    ]
  ]

  unfoldable pub set_profile_field :
      ConfigurationEditor Origin → ℤ → Text → FieldValue → Outcome Origin
  set_profile_field e k key value = elim (find_configuration_field_descriptor profile key) [
    | none ↦ set_failure e invalid_field_failure key unknown_field
    | some d ↦ elim (find_first (has_key k) e.draft.profiles) [
      | none ↦ set_failure e profile_not_found_failure key profile_not_found
      | some p ↦
          if id_collision e.draft.profiles p d.key value
          then set_failure e profile_already_exists_failure (codes "id") profile_already_exists
          else elim (apply_profile_field p d value) [
            | wrong error ↦ set_failure e invalid_field_failure key (invalid_field error)
            | fine p' ↦ (put_profile e k p', none)
          ]
    ]
  ]

  -- apply(const SetConfigurationFieldCommand&)
  unfoldable pub apply_set : ConfigurationEditor Origin → SetCommand → Outcome Origin
  apply_set e c = when_active (clear_failure e) (λ e'. elim c.profile_key [
    | none ↦ set_application_field e' c.key c.value
    | some k ↦ set_profile_field e' k c.key c.value
  ])

  unfoldable pub reset_in_application : ConfigurationEditor Origin → Text → Outcome Origin
  reset_in_application e key = elim (find_configuration_field_descriptor application key) [
    | none ↦ set_failure e invalid_field_failure key unknown_field
    | some d ↦ elim (reset_application_field e.draft.application d) [
      | wrong error ↦ set_failure e invalid_field_failure key (invalid_field error)
      | fine settings ↦ (record e { draft = record e.draft { application = settings } }, none)
    ]
  ]

  unfoldable pub reset_in_profile : ConfigurationEditor Origin → ℤ → Text → Outcome Origin
  reset_in_profile e k key = elim (find_configuration_field_descriptor profile key) [
    | none ↦ set_failure e invalid_field_failure key unknown_field
    | some d ↦ elim (find_first (has_key k) e.draft.profiles) [
      | none ↦ set_failure e profile_not_found_failure key profile_not_found
      | some p ↦ elim (reset_profile_field p d) [
        | wrong error ↦ set_failure e invalid_field_failure key (invalid_field error)
        | fine p' ↦ (put_profile e k p', none)
      ]
    ]
  ]

  -- apply(const ResetConfigurationFieldCommand&)
  unfoldable pub apply_reset : ConfigurationEditor Origin → ResetCommand → Outcome Origin
  apply_reset e c = when_active (clear_failure e) (λ e'. elim c.profile_key [
    | none ↦ reset_in_application e' c.key
    | some k ↦ reset_in_profile e' k c.key
  ])
