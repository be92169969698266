-- ===== src/Config/Editor/RuleEdits.antt =====
-- The calls of the editor that change the rules of a profile keep the draft sound
-- (src/config/configuration_editor.cpp).
use cc_switch_trans.Common.{
  ℕ, ◌-◌, ◌≡◌, refl, Bool, not, ◌||◌, some, List, [], ◌∷◌, ◌++◌, Text, ℤ, length, leb,
}
use cc_switch_trans.Config.Profile.{
  StoredRule, StoredProfile, is_valid_rule_id, is_valid_rule_type, is_valid_rule_option_name,
}
use cc_switch_trans.Config.Editor.{
  max_rules_per_profile, Options, options, options_not_object, options_too_large, options_invalid,
  option_not_set, Calls, ConfigurationEditor, has_key, has_rule_id, with_rules, put_profile,
  clear_failure, ConfigurationEditFailure,
}
use cc_switch_trans.Config.Editor.Draft.{
  new_rule, is_position, add_rule, put_rule, remove_rule, set_rule_enabled, put_options,
  set_rule_option, unset_rule_option, move_rule, assign_keys, replace_rules_text,
}
use cc_switch_trans.Config.Editor.Lists.{find_first, modify_first, erase_first, insert_at}
use cc_switch_trans.Config.Editor.Sound.{IsRules}
use cc_switch_trans.Config.Editor.RuleLists.{
  IsRules-append, IsRules-erase, IsRules-move, IsRules-modify, IsRules-assign_keys,
}
use cc_switch_trans.Config.Editor.Runs.{
  IsSound, Keeps, keep, Keeps-if, Keeps-found, Keeps-active, Keeps-profile, Keeps-rule, IsSound-put,
}

module _ {Origin : Type 0} where
  -- New rules for a profile.
  put_rules :
      (e : ConfigurationEditor Origin) (k : ℤ) (p : StoredProfile) (rules : List StoredRule)
      → IsSound e
      → find_first (has_key k) e.draft.profiles ≡ some p
      → IsRules rules
      → IsSound (put_profile e k (with_rules p rules))
  put_rules e k p rules s f r = IsSound-put e k p (with_rules p rules) s f refl refl r

  -- Another next rule key.
  IsSound-next :
      (e : ConfigurationEditor Origin) (next : ℤ)
      → IsSound e
      → IsSound (record e { next_draft_rule_key = next })
  IsSound-next e next s = record { n = s.n; next = s.next; draft = s.draft }

  pub add_rule-Keeps :
      (e : ConfigurationEditor Origin) (k : ℤ) (id type : Text)
      → IsSound e
      → Keeps (add_rule e k id type)
  unfolding add_rule
  add_rule-Keeps e k id type s = Keeps-active e _ s (
      Keeps-profile e k _ s (λ p f r.
        Keeps-if (not (is_valid_rule_id id) || not (is_valid_rule_type type)) _ _ (λ _. keep s)
          (λ _.
            Keeps-if (leb max_rules_per_profile (length p.rules)) _ _ (λ _. keep s)
              (λ room.
                Keeps-found (find_first (has_rule_id id) p.rules) _ _
                  (λ new. keep (
                    IsSound-next _ _ (
                      put_rules e k p (p.rules ++ new_rule e.next_draft_rule_key id type ∷ []) s f (
                        IsRules-append p.rules (new_rule e.next_draft_rule_key id type) r new
                          room))))
                  (λ q h. keep s)))))

  pub remove_rule-Keeps :
      (e : ConfigurationEditor Origin) (k : ℤ) (id : Text) → IsSound e → Keeps (remove_rule e k id)
  unfolding remove_rule
  remove_rule-Keeps e k id s = Keeps-active e _ s (
      Keeps-rule e k id _ s (λ p r f q rs. keep (
        put_rules e k p (erase_first (has_rule_id id) p.rules) s f
          (IsRules-erase p.rules id r rs q))))

  put_rule-IsSound :
      (e : ConfigurationEditor Origin) (k : ℤ) (id : Text) (p : StoredProfile) (r r' : StoredRule)
      → IsSound e
      → find_first (has_key k) e.draft.profiles ≡ some p
      → find_first (has_rule_id id) p.rules ≡ some r
      → IsRules p.rules
      → r'.rule_id ≡ r.rule_id
      → IsSound (put_rule e k p id r')
  put_rule-IsSound e k id p r r' s f q rs same =
      put_rules e k p (modify_first (has_rule_id id) (λ old. r') p.rules) s f
        (IsRules-modify p.rules id r r' rs q same)

  pub set_rule_enabled-Keeps :
      (e : ConfigurationEditor Origin) (k : ℤ) (id : Text) (b : Bool)
      → IsSound e
      → Keeps (set_rule_enabled e k id b)
  unfolding set_rule_enabled
  set_rule_enabled-Keeps e k id b s = Keeps-active e _ s (
      Keeps-rule e k id _ s
        (λ p r f q rs. keep (put_rule-IsSound e k id p r (record r { enabled = b }) s f q rs refl)))

  put_options-Keeps :
      (e : ConfigurationEditor Origin) (k : ℤ) (id : Text) (p : StoredProfile) (r : StoredRule)
      (o : Options)
      → IsSound e
      → find_first (has_key k) e.draft.profiles ≡ some p
      → find_first (has_rule_id id) p.rules ≡ some r
      → IsRules p.rules
      → Keeps (put_options e k p id r o)
  put_options-Keeps e k id p r (options json) s f q rs =
      keep (put_rule-IsSound e k id p r (record r { options_json = json }) s f q rs refl)
  put_options-Keeps e k id p r options_not_object s f q rs = keep s
  put_options-Keeps e k id p r options_too_large s f q rs = keep s
  put_options-Keeps e k id p r options_invalid s f q rs = keep s
  put_options-Keeps e k id p r option_not_set s f q rs = keep s

  pub set_rule_option-Keeps :
      (calls : Calls Origin) (e : ConfigurationEditor Origin) (k : ℤ) (id option json : Text)
      → IsSound e
      → Keeps (set_rule_option calls e k id option json)
  unfolding set_rule_option
  set_rule_option-Keeps calls e k id option json s = Keeps-active e _ s (
      Keeps-if (not (is_valid_rule_option_name option)) _ _ (λ _. keep s)
        (λ _. Keeps-rule e k id _ s (λ p r f q rs.
          put_options-Keeps e k id p r (calls.set_option r.options_json option json) s f q rs)))

  pub unset_rule_option-Keeps :
      (calls : Calls Origin) (e : ConfigurationEditor Origin) (k : ℤ) (id option : Text)
      → IsSound e
      → Keeps (unset_rule_option calls e k id option)
  unfolding unset_rule_option
  unset_rule_option-Keeps calls e k id option s = Keeps-active e _ s (
      Keeps-rule e k id _ s (λ p r f q rs.
        put_options-Keeps e k id p r (calls.unset_option r.options_json option) s f q rs))

  pub move_rule-Keeps :
      (e : ConfigurationEditor Origin) (k : ℤ) (id : Text) (position : ℕ)
      → IsSound e
      → Keeps (move_rule e k id position)
  unfolding move_rule
  move_rule-Keeps e k id position s = Keeps-active e _ s (
      Keeps-profile e k _ s (λ p f rs.
        Keeps-if (not (is_position position (length p.rules))) _ _ (λ _. keep s)
          (λ _.
            Keeps-found (find_first (has_rule_id id) p.rules) _ _ (λ _. keep s)
              (λ r q. keep (
                put_rules e k p (insert_at (position - 1) r (erase_first (has_rule_id id) p.rules))
                  s f (IsRules-move p.rules id r (position - 1) rs q))))))

  -- The rules text gives sound rules.
  unfoldable pub ParsesRules : Calls Origin → Type 0
  ParsesRules calls =
      (content : Text) (current rules : List StoredRule)
      → calls.parse_rules_text content current ≡ some rules
      → IsRules rules

  pub replace_rules_text-Keeps :
      (calls : Calls Origin) (e : ConfigurationEditor Origin) (k : ℤ) (content : Text)
      → ParsesRules calls
      → IsSound e
      → Keeps (replace_rules_text calls e k content)
  unfolding replace_rules_text ParsesRules
  replace_rules_text-Keeps calls e k content parses s = Keeps-active (clear_failure e) _ s' (
      Keeps-found (find_first (has_key k) e.draft.profiles) _ _ (λ _. keep s'')
        (λ p f.
          Keeps-found (calls.parse_rules_text content p.rules) _ _ (λ _. keep s'')
            (λ rules q. keep (
              IsSound-next _ _ (
                put_rules (clear_failure e) k p (assign_keys e.next_draft_rule_key rules).0 s' f (
                  IsRules-assign_keys e.next_draft_rule_key rules
                    (parses content p.rules rules q)))))))
    where
      s' : IsSound (clear_failure e)
      s' = record { n = s.n; next = s.next; draft = s.draft }

      s'' : {f : ConfigurationEditFailure} → IsSound (record e { last_failure = f })
      s'' = record { n = s.n; next = s.next; draft = s.draft }
