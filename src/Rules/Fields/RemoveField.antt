-- ===== src/Rules/Fields/RemoveField.antt =====
-- What `remove_field` does to a request body (src/rules/generic_json_rules.cpp).
use cc_switch_trans.Common.{
  ℕ, ◌<◌, ◌≡◌, ◌≢◌, refl, sym, ap, subst, ◌∙◌, ◌⊎◌, inl, inr, Bool, true, false, none, some, List,
  [], ◌∷◌, ◌++◌, Text, text_eq, text_eq_iff, text_eq_refl, length, if◌then◌else◌, arith,
  Option-cases, decimal,
}
use cc_switch_trans.Rules.Json.{JsonLibrary, JsonLaws}
use cc_switch_trans.Rules.Pointer.{ParsedJsonPointer, index, parse_array_index}
use cc_switch_trans.Rules.Pointer.Index.{parse-decimal}
use cc_switch_trans.Rules.Fields.{
  RuleRuntimeError, RuleApplyResult, applied, Edited, unchanged, changed, refused, remove_at,
  resolve_child, write_back, field_outcome, remove_child, remove_below, remove_field_apply,
}
use cc_switch_trans.Rules.Fields.Lookup.{diverge, resolve_at, edit_at}
use cc_switch_trans.Rules.Fields.Edits.{
  Resolved-cases, Edits, edit_at-Edits, edit_at-none, edit_at-same, edit_at-change,
}

module _ (lib : JsonLibrary) where
  -- What `remove_field` leaves of the target's parent: an object without the member, or an array
  -- without the element that the token is the index of.
  pub Removes : Text → lib.Json → lib.Json → Type 0
  Removes last parent new =
      ((lib.is_object new ≡ true)
        × (old : lib.Json) × (lib.find parent last ≡ some old)
        × (lib.find new last ≡ none)
        × ((k : Text) → last ≢ k → lib.find new k ≡ lib.find parent k))
      ⊎ ((xs : List lib.Json) × (i : ℕ) × (lib.elements parent ≡ some xs)
          × (i < length xs)
          × (last ≡ decimal i)
          × (lib.elements new ≡ some (remove_at i xs)))

  abbrev rem : Text → lib.Json → Edited lib.Json
  rem last j = remove_child lib j last

  remove_below-edit :
      (token last : Text) (tokens : List Text) (body : lib.Json)
      → remove_below lib token (tokens ++ last ∷ []) body
        ≡ edit_at lib (rem last) (token ∷ tokens) body
  unfolding remove_below edit_at
  remove_below-edit token last [] body = elim (Resolved-cases lib (resolve_child lib body token)) [
    | inl (e, r) ↦ rw (r, remove_below, edit_at) refl
    | inr (place, child, r) ↦ rw (r, remove_below, edit_at) refl
  ]
  remove_below-edit token last (next ∷ tokens) body =
      elim (Resolved-cases lib (resolve_child lib body token)) [
        | inl (e, r) ↦ rw (r, remove_below, edit_at) refl
        | inr (place, child, r) ↦
            rw (r, remove_below, edit_at)
              (ap (write_back lib body place) (remove_below-edit next last tokens child))
      ]

  remove_field_apply-edit :
      (p : ParsedJsonPointer) (tokens : List Text) (last : Text) (body : lib.Json)
      → p.tokens ≡ tokens ++ last ∷ []
      → remove_field_apply lib p body
        ≡ field_outcome lib p.trace_target "field_removed" body (edit_at lib (rem last) tokens body)
  unfolding remove_field_apply remove_below edit_at
  remove_field_apply-edit p [] last body h = rw h refl
  remove_field_apply-edit p (t ∷ tokens) last body h = rw h (
      ap (field_outcome lib p.trace_target "field_removed" body)
        (remove_below-edit t last tokens body))

  remove_child-cases :
      (parent new : lib.Json) (last : Text)
      → remove_child lib parent last ≡ changed new
      → ((lib.is_object parent ≡ true)
          × (old : lib.Json) × (lib.find parent last ≡ some old)
          × (new ≡ lib.without_member parent last))
        ⊎ ((xs : List lib.Json) × (i : ℕ) × (lib.elements parent ≡ some xs)
            × (parse_array_index last (length xs) ≡ index i)
            × (new ≡ lib.with_elements parent (remove_at i xs)))
  unfolding remove_child
  remove_child-cases parent new last h = ground (arith, h)

  remove_child-changes :
      (parent : lib.Json) (last : Text) → remove_child lib parent last ≢ unchanged
  unfolding remove_child
  remove_child-changes parent last h = ground (arith, h)

  remove_child-outcome :
      (parent : lib.Json) (last : Text)
      → ((new : lib.Json) × (remove_child lib parent last ≡ changed new))
        ⊎ ((e : RuleRuntimeError) × (remove_child lib parent last ≡ refused e))
  remove_child-outcome parent last = of (remove_child lib parent last) refl
    where
      of :
          (x : Edited lib.Json)
          → remove_child lib parent last ≡ x
          → ((new : lib.Json) × (remove_child lib parent last ≡ changed new))
            ⊎ ((e : RuleRuntimeError) × (remove_child lib parent last ≡ refused e))
      of unchanged h = absurd (remove_child-changes parent last h)
      of (changed new) h = inl (new, h)
      of (refused e) h = inr (e, h)

  module _ (laws : JsonLaws lib) where
    remove_child-Removes :
        (parent new : lib.Json) (last : Text)
        → remove_child lib parent last ≡ changed new
        → Removes last parent new
    unfolding Removes
    remove_child-Removes parent new last h = elim (remove_child-cases parent new last h) [
      | inl (o, old, f, e) ↦ inl (
        ap lib.is_object e ∙ laws.without_member_object parent last ∙ o,
        old,
        f,
        gone last (text_eq_refl last) o e,
        λ k n.
            ap (λ (j : lib.Json). lib.find j k) e
            ∙ laws.find_without parent last k o
            ∙ ap (λ (b : Bool). if b then none else lib.find parent k) (other_key k n),
      )
      | inr (xs, i, e, q, w) ↦
          (let (below, spelled) = parse-decimal last i (length xs) q in
            inr (
              xs,
              i,
              e,
              below,
              spelled,
              ap lib.elements w ∙ laws.with_elements_elements parent xs (remove_at i xs) e,
            ))
    ]
      where
        other_key : (k : Text) → last ≢ k → text_eq last k ≡ false
        other_key k n = ground (arith, n, text_eq_iff last k)

        gone :
            (k : Text)
            → text_eq last k ≡ true
            → lib.is_object parent ≡ true
            → new ≡ lib.without_member parent last
            → lib.find new k ≡ none
        gone k n o e =
            ap (λ (j : lib.Json). lib.find j k) e
            ∙ laws.find_without parent last k o
            ∙ ap (λ (b : Bool). if b then none else lib.find parent k) n

    -- When `remove_field` succeeds, the tokens before the last name a value both before and after,
    -- which lost the member, or the element, that the last token names and nothing else; it says
    -- that it modified the body, and what pointers that part from that value's name is as before.
    pub remove_field_apply-Removes :
        (p : ParsedJsonPointer) (tokens : List Text) (last : Text) (body after : lib.Json)
        (r : RuleApplyResult)
        → p.tokens ≡ tokens ++ last ∷ []
        → remove_field_apply lib p body ≡ applied r after
        → (parent new : lib.Json) × (r.modified ≡ true)
          × (resolve_at lib tokens body ≡ some parent)
          × (resolve_at lib tokens after ≡ some new)
          × Removes last parent new
          × ((us : List Text)
              → diverge tokens us ≡ true
              → resolve_at lib us after ≡ resolve_at lib us body)
    unfolding Edits
    remove_field_apply-Removes p tokens last body after r e h =
        elim (Option-cases (resolve_at lib tokens body)) [
          | inl n ↦ (let (x, q) = edit_at-none lib (rem last) tokens body n in absurd (refusal x q))
          | inr (parent, s) ↦ elim (remove_child-outcome parent last) [
            | inr (x, q) ↦ absurd (
                refusal x (
                  edit_at-same lib (rem last) tokens body parent (refused x) s q
                    (λ up place. refl)))
            | inl (new, q) ↦
                (let (after', c) = edit_at-change lib (rem last) tokens body parent new s q in
                  let (old, new', found, edit, here, others) =
                    edit_at-Edits lib laws (rem last) tokens body after' c in
                  let h' = sym (outcome (changed after') c) ∙ h in
                  let said : after' ≡ after = cc h' in
                  let told : old ≡ parent = cc (s, found) in
                  (
                    parent,
                    new',
                    success h',
                    s,
                    subst (λ (j : lib.Json). resolve_at lib tokens j ≡ some new') said here,
                    remove_child-Removes parent new' last (sym (ap (rem last) told) ∙ edit),
                    λ us d. sym (ap (resolve_at lib us) said) ∙ others us d,
                  ))
          ]
        ]
      where
        outcome :
            (x : Edited lib.Json)
            → edit_at lib (rem last) tokens body ≡ x
            → remove_field_apply lib p body
              ≡ field_outcome lib p.trace_target "field_removed" body x
        outcome x q =
            remove_field_apply-edit p tokens last body e
            ∙ ap (field_outcome lib p.trace_target "field_removed" body) q

        success :
            {j : lib.Json}
            → field_outcome lib p.trace_target "field_removed" body (changed j) ≡ applied r after
            → r.modified ≡ true
        success q = cc q

        refusal : (x : RuleRuntimeError) → edit_at lib (rem last) tokens body ≡ refused x → ⊥
        refusal x q = cc (outcome (refused x) q, h)
