-- ===== src/Rules/Fields/SetField.antt =====
-- What `set_field` does to a request body (src/rules/generic_json_rules.cpp).
use cc_switch_trans.Common.{
  ◌≡◌, ◌↔◌, refl, ap, ◌∙◌, ◌⊎◌, inl, inr, true, false, none, some, List, [], ◌∷◌, Text,
  if◌then◌else◌, arith, Option-cases,
}
use cc_switch_trans.Rules.Json.{JsonLibrary, JsonLaws}
use cc_switch_trans.Rules.Pointer.{ParsedJsonPointer}
use cc_switch_trans.Rules.Fields.{
  RuleRuntimeError, RuleApplyResult, applied, failed, Edited, unchanged, changed, refused, set_at,
  resolve_child, write_back, field_outcome, field_result, set_field_apply,
}
use cc_switch_trans.Rules.Fields.Lookup.{diverge, resolve_at, edit_at}
use cc_switch_trans.Rules.Fields.Edits.{
  Resolved-cases, Edits, edit_at-Edits, edit_at-none, edit_at-same, edit_at-change,
}

module _ (lib : JsonLibrary) where
  abbrev put : lib.Json → lib.Json → Edited lib.Json
  put value target = if lib.equal target value then unchanged else changed value

  set_at-edit :
      (tokens : List Text) (value body : lib.Json)
      → set_at lib tokens value body ≡ edit_at lib (put value) tokens body
  unfolding set_at edit_at
  set_at-edit [] value body = refl
  set_at-edit (token ∷ tokens) value body =
      elim (Resolved-cases lib (resolve_child lib body token)) [
        | inl (e, r) ↦ rw (r, set_at, edit_at) refl
        | inr (place, child, r) ↦
            rw (r, set_at, edit_at)
              (ap (write_back lib body place) (set_at-edit tokens value child))
      ]

  put-cases :
      (value old : lib.Json)
      → ((lib.equal old value ≡ true) × (put value old ≡ unchanged))
        ⊎ ((lib.equal old value ≡ false) × (put value old ≡ changed value))
  put-cases value old = ground arith

  set_field_apply-edit :
      (p : ParsedJsonPointer) (value body : lib.Json) (said : Edited lib.Json)
      → edit_at lib (put value) p.tokens body ≡ said
      → set_field_apply lib p value body ≡ field_outcome lib p.trace_target "field_set" body said
  unfolding set_field_apply
  set_field_apply-edit p value body said h =
      ap (field_outcome lib p.trace_target "field_set" body) (set_at-edit p.tokens value body ∙ h)

  -- `set_field` fails exactly if the pointer names nothing in the body.
  pub set_field_apply-fails_iff :
      (p : ParsedJsonPointer) (value body : lib.Json)
      → ((e : RuleRuntimeError) × (set_field_apply lib p value body ≡ failed e))
        ↔ (resolve_at lib p.tokens body ≡ none)
  set_field_apply-fails_iff p value body = (
    λ (e, h). elim (Option-cases (resolve_at lib p.tokens body)) [
      | inl n ↦ n
      | inr (old, s) ↦ absurd (found old s e h)
    ],
    λ n.
        (let (e, q) = edit_at-none lib (put value) p.tokens body n in
          (e, set_field_apply-edit p value body (refused e) q)),
  )
    where
      found :
          (old : lib.Json)
          → resolve_at lib p.tokens body ≡ some old
          → (e : RuleRuntimeError) → set_field_apply lib p value body ≡ failed e
          → ⊥
      found old s e h = elim (put-cases value old) [
        | inl (_, q) ↦ cc (
          h,
          set_field_apply-edit p value body unchanged
              (edit_at-same lib (put value) p.tokens body old unchanged s q (λ parent place. refl)),
        )
        | inr (_, q) ↦
            (let (after, c) = edit_at-change lib (put value) p.tokens body old value s q in
              cc (h, set_field_apply-edit p value body (changed after) c))
      ]

  -- What `set_field` leaves of a body whose target is `old`: nothing new for an equal value, and
  -- otherwise the value at the target, with what tokens that part from the pointer's name as before.
  pub Sets : List Text → lib.Json → lib.Json → lib.Json → RuleApplyResult → lib.Json → Type 0
  Sets tokens value body old r after =
      ((lib.equal old value ≡ true) × (r.modified ≡ false) × (after ≡ body))
      ⊎ ((lib.equal old value ≡ false)
          × (r.modified ≡ true)
          × (resolve_at lib tokens after ≡ some value)
          × ((us : List Text)
              → diverge tokens us ≡ true
              → resolve_at lib us after ≡ resolve_at lib us body))

  module _ (laws : JsonLaws lib) where
    -- When the pointer names a value in the body, `set_field` succeeds: it changes nothing if the
    -- value is equal to the new one, and otherwise the pointer then names the new value, while what
    -- pointers that part from it name, if anything, is as before.
    pub set_field_apply-Sets :
        (p : ParsedJsonPointer) (value body old : lib.Json)
        → resolve_at lib p.tokens body ≡ some old
        → (r : RuleApplyResult) × (after : lib.Json) × (set_field_apply lib p value body
            ≡ applied r after)
          × Sets p.tokens value body old r after
    unfolding Sets Edits
    set_field_apply-Sets p value body old s = elim (put-cases value old) [
      | inl (e, q) ↦ (
        field_result lib p.trace_target false "value_unchanged",
        body,
        set_field_apply-edit p value body unchanged
            (edit_at-same lib (put value) p.tokens body old unchanged s q (λ parent place. refl)),
        inl (e, refl, refl),
      )
      | inr (e, q) ↦
          (let (after, c) = edit_at-change lib (put value) p.tokens body old value s q in
            let (old', new, made, edit, here, others) =
              edit_at-Edits lib laws (put value) p.tokens body after c in
            (
              field_result lib p.trace_target true "field_set",
              after,
              set_field_apply-edit p value body (changed after) c,
              inr (e, refl, here ∙ ap some (cc (s, made, edit, q)), others),
            ))
    ]
