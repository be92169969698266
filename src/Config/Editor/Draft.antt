-- ===== src/Config/Editor/Draft.antt =====
-- The calls of the editor that change the profiles and rules of the draft
-- (src/config/configuration_editor.cpp). The key that `create_profile` hands out is that of the last
-- profile afterwards.
use cc_switch_trans.Common.{
  ℕ, ◌-◌, Bool, false, not, ◌&&◌, ◌||◌, none, some, List, [], ◌∷◌, ◌++◌, Text, codes, ℤ, pos,
  int_eq, predecessor, length, ltb, leb, if◌then◌else◌,
}
use cc_switch_trans.Config.Profile.{
  StoredRule, StoredProfile, is_valid_profile_id, is_valid_rule_id, is_valid_rule_type,
  is_valid_rule_option_name,
}
use cc_switch_trans.Config.Editor.Lists.{find_first, modify_first, erase_first, insert_at}
use cc_switch_trans.Config.Editor.{
  max_rules_per_profile, Options, options, Calls, profile_not_found, invalid_profile_id,
  profile_already_exists, invalid_position, invalid_rule, too_many_rules, rule_already_exists,
  rule_not_found, invalid_option_name, rules_invalid, options_refused, profile_not_found_failure,
  rules_invalid_failure, ConfigurationEditor, has_key, has_id, has_rule_id, with_rules, Outcome,
  refuse, set_failure, clear_failure, with_profiles, put_profile, when_active,
}

abbrev pub new_profile : ℤ → Text → StoredProfile
new_profile key id = record {
  key = key;
  profile_id = id;
  enabled = false;
  protocol = none;
  local_request_path = none;
  local_usage_path = none;
  upstream_base_url = none;
  upstream_request_path = none;
  upstream_usage_path = none;
  rules = [];
}

abbrev pub new_rule : ℤ → Text → Text → StoredRule
new_rule key id type = record {
  key = key;
  rule_id = id;
  enabled = false;
  type = type;
  options_json = codes "{}";
}

-- A position in a list of this size, from 1.
abbrev pub is_position : ℕ → ℕ → Bool
is_position position size = ltb 0 position && leb position size

-- The rules that were parsed, with draft keys for those without a key, and the next draft key.
unfoldable pub assign_keys : ℤ → List StoredRule → List StoredRule × ℤ
assign_keys next [] = ([], next)
assign_keys next (r ∷ rs) =
    let (rest, after) = assign_keys (if int_eq r.key (pos 0) then predecessor next else next) rs in
    ((if int_eq r.key (pos 0) then record r { key = next } else r) ∷ rest, after)

module _ {Origin : Type 0} where
  unfoldable pub create_profile : ConfigurationEditor Origin → Text → Outcome Origin
  create_profile e id = when_active e (λ e.
      if not (is_valid_profile_id id)
      then refuse e invalid_profile_id
      else elim (find_first (has_id id) e.draft.profiles) [
        | some p ↦ refuse e profile_already_exists
        | none ↦ (
          record e {
            draft = record e.draft {
              profiles = e.draft.profiles ++ new_profile e.next_draft_profile_key id ∷ [];
            };
            next_draft_profile_key = predecessor e.next_draft_profile_key;
          },
          none,
        )
      ])

  unfoldable pub remove_profile : ConfigurationEditor Origin → ℤ → Outcome Origin
  remove_profile e k = when_active e (λ e. elim (find_first (has_key k) e.draft.profiles) [
    | none ↦ refuse e profile_not_found
    | some p ↦ (with_profiles e (erase_first (has_key k) e.draft.profiles), none)
  ])

  unfoldable pub move_profile : ConfigurationEditor Origin → ℤ → ℕ → Outcome Origin
  move_profile e k position = when_active e (λ e.
      if not (is_position position (length e.draft.profiles))
      then refuse e invalid_position
      else elim (find_first (has_key k) e.draft.profiles) [
        | none ↦ refuse e profile_not_found
        | some moving ↦ (
          with_profiles e
              (insert_at (position - 1) moving (erase_first (has_key k) e.draft.profiles)),
          none,
        )
      ])

  -- The profile of a call and the rest of it.
  abbrev pub on_profile :
      ConfigurationEditor Origin → ℤ → (StoredProfile → Outcome Origin) → Outcome Origin
  on_profile e k rest = elim (find_first (has_key k) e.draft.profiles) [
    | none ↦ refuse e profile_not_found
    | some p ↦ rest p
  ]

  unfoldable pub add_rule : ConfigurationEditor Origin → ℤ → Text → Text → Outcome Origin
  add_rule e k id type = when_active e (λ e. on_profile e k (λ p.
      if not (is_valid_rule_id id) || not (is_valid_rule_type type)
      then refuse e invalid_rule
      else if leb max_rules_per_profile (length p.rules)
      then refuse e too_many_rules
      else elim (find_first (has_rule_id id) p.rules) [
        | some r ↦ refuse e rule_already_exists
        | none ↦ (
          record (put_profile e k
              (with_rules p (p.rules ++ new_rule e.next_draft_rule_key id type ∷ []))) {
                next_draft_rule_key = predecessor e.next_draft_rule_key;
              },
          none,
        )
      ]))

  -- A rule of the profile and the rest of the call.
  abbrev pub on_rule :
      ConfigurationEditor Origin
      → ℤ
      → Text
      → (StoredProfile → StoredRule → Outcome Origin)
      → Outcome Origin
  on_rule e k id rest = on_profile e k (λ p. elim (find_first (has_rule_id id) p.rules) [
    | none ↦ refuse e rule_not_found
    | some r ↦ rest p r
  ])

  abbrev pub put_rule :
      ConfigurationEditor Origin
      → ℤ
      → StoredProfile
      → Text
      → StoredRule
      → ConfigurationEditor Origin
  put_rule e k p id r =
      put_profile e k (with_rules p (modify_first (has_rule_id id) (λ old. r) p.rules))

  unfoldable pub remove_rule : ConfigurationEditor Origin → ℤ → Text → Outcome Origin
  remove_rule e k id = when_active e (λ e.
      on_rule e k id
        (λ p r. (put_profile e k (with_rules p (erase_first (has_rule_id id) p.rules)), none)))

  unfoldable pub set_rule_enabled : ConfigurationEditor Origin → ℤ → Text → Bool → Outcome Origin
  set_rule_enabled e k id enabled =
      when_active e
        (λ e. on_rule e k id (λ p r. (put_rule e k p id (record r { enabled = enabled }), none)))

  -- The rule's options are written if the JSON library and the checks accept them.
  abbrev pub put_options :
      ConfigurationEditor Origin → ℤ → StoredProfile → Text → StoredRule → Options → Outcome Origin
  put_options e k p id r result = elim result [
    | options json ↦ (put_rule e k p id (record r { options_json = json }), none)
    | refused ↦ refuse e (options_refused refused)
  ]

  unfoldable pub set_rule_option :
      Calls Origin → ConfigurationEditor Origin → ℤ → Text → Text → Text → Outcome Origin
  set_rule_option calls e k id option value_json = when_active e (λ e.
      if not (is_valid_rule_option_name option)
      then refuse e invalid_option_name
      else on_rule e k id
          (λ p r. put_options e k p id r (calls.set_option r.options_json option value_json)))

  unfoldable pub unset_rule_option :
      Calls Origin → ConfigurationEditor Origin → ℤ → Text → Text → Outcome Origin
  unset_rule_option calls e k id option = when_active e (λ e.
      on_rule e k id (λ p r. put_options e k p id r (calls.unset_option r.options_json option)))

  unfoldable pub move_rule : ConfigurationEditor Origin → ℤ → Text → ℕ → Outcome Origin
  move_rule e k id position = when_active e (λ e. on_profile e k (λ p.
      if not (is_position position (length p.rules))
      then refuse e invalid_position
      else elim (find_first (has_rule_id id) p.rules) [
        | none ↦ refuse e rule_not_found
        | some moving ↦ (
          put_profile e k (
              with_rules p
                (insert_at (position - 1) moving (erase_first (has_rule_id id) p.rules))),
          none,
        )
      ]))

  unfoldable pub replace_rules_text :
      Calls Origin → ConfigurationEditor Origin → ℤ → Text → Outcome Origin
  replace_rules_text calls e k content = when_active (clear_failure e) (λ e.
      elim (find_first (has_key k) e.draft.profiles) [
        | none ↦ set_failure e profile_not_found_failure (codes "rules") profile_not_found
        | some p ↦ elim (calls.parse_rules_text content p.rules) [
          | none ↦ set_failure e rules_invalid_failure (codes "rules") rules_invalid
          | some parsed ↦
              (let (rules, next) = assign_keys e.next_draft_rule_key parsed in
                (
                  record (put_profile e k (with_rules p rules)) { next_draft_rule_key = next },
                  none,
                ))
        ]
      ])
