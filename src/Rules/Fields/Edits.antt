-- ===== src/Rules/Fields/Edits.antt =====
-- An edit of the value that a list of tokens names, and what it leaves as it was
-- (src/rules/generic_json_rules.cpp).
use cc_switch_trans.Common.{
  ◌≡◌, refl, sym, ap, subst, ◌∙◌, ◌⊎◌, inl, inr, true, false, none, some, List, [], ◌∷◌, Text,
  text_eq, text_eq_iff, arith,
}
use cc_switch_trans.Rules.Json.{JsonLibrary, JsonLaws}
use cc_switch_trans.Rules.Fields.{
  RuleRuntimeError, Place, Resolved, resolved, unresolved, Edited, unchanged, changed, refused,
  resolve_child, write_child, write_back,
}
use cc_switch_trans.Rules.Fields.Lookup.{
  diverge, resolve_at, edit_at, resolve_child-write, resolve_child-write_other,
}

module _ (lib : JsonLibrary) where
  diverge-cases :
      (t : Text) (ts us : List Text)
      → diverge (t ∷ ts) us ≡ true
      → (u : Text) × (rest : List Text) × (us ≡ u ∷ rest)
        × (((t ≡ u) × (diverge ts rest ≡ true)) ⊎ (text_eq t u ≡ false))
  unfolding diverge
  diverge-cases t ts [] h = cc h
  diverge-cases t ts (u ∷ rest) h = (u, rest, refl, ground (arith, h, text_eq_iff t u))

  pub Resolved-cases :
      (r : Resolved lib.Json)
      → ((e : RuleRuntimeError) × (r ≡ unresolved e))
        ⊎ ((place : Place) × (child : lib.Json) × (r ≡ resolved place child))
  Resolved-cases (unresolved e) = inl (e, refl)
  Resolved-cases (resolved place child) = inr (place, child, refl)

  resolve_at-step :
      (body child : lib.Json) (token : Text) (tokens : List Text) (place : Place)
      → resolve_child lib body token ≡ resolved place child
      → resolve_at lib (token ∷ tokens) body ≡ resolve_at lib tokens child
  unfolding resolve_at
  resolve_at-step body child token tokens place h = rw (h, resolve_at) refl

  edit_at-step :
      (f : lib.Json → Edited lib.Json) (body child : lib.Json) (token : Text) (tokens : List Text)
      (place : Place)
      → resolve_child lib body token ≡ resolved place child
      → edit_at lib f (token ∷ tokens) body ≡ write_back lib body place (edit_at lib f tokens child)
  unfolding edit_at
  edit_at-step f body child token tokens place h = rw (h, edit_at) refl

  edit_at-unresolved :
      (f : lib.Json → Edited lib.Json) (body : lib.Json) (token : Text) (tokens : List Text)
      (e : RuleRuntimeError)
      → resolve_child lib body token ≡ unresolved e
      → edit_at lib f (token ∷ tokens) body ≡ refused e
  unfolding edit_at
  edit_at-unresolved f body token tokens e h = rw (h, edit_at) refl

  resolve_at-same :
      (a b : lib.Json) (token : Text) (tokens : List Text)
      → resolve_child lib a token ≡ resolve_child lib b token
      → resolve_at lib (token ∷ tokens) a ≡ resolve_at lib (token ∷ tokens) b
  unfolding resolve_at
  resolve_at-same a b token tokens h = rw (h, resolve_at) refl

  write_back-changed :
      (parent after : lib.Json) (place : Place) (e : Edited lib.Json)
      → write_back lib parent place e ≡ changed after
      → (new : lib.Json) × (e ≡ changed new) × (after ≡ write_child lib parent place new)
  write_back-changed parent after place unchanged h = cc h
  write_back-changed parent after place (refused e) h = cc h
  write_back-changed parent after place (changed new) h = (new, refl, cc h)

  resolve_at-unresolved :
      (body : lib.Json) (token : Text) (tokens : List Text) (e : RuleRuntimeError)
      → resolve_child lib body token ≡ unresolved e
      → resolve_at lib (token ∷ tokens) body ≡ none
  unfolding resolve_at
  resolve_at-unresolved body token tokens e h = rw (h, resolve_at) refl

  -- The outcome of an edit, by what the tokens name.
  pub edit_at-none :
      (f : lib.Json → Edited lib.Json) (tokens : List Text) (body : lib.Json)
      → resolve_at lib tokens body ≡ none
      → (e : RuleRuntimeError) × (edit_at lib f tokens body ≡ refused e)
  edit_at-none f [] body h = absurd (unfold resolve_at in cc h)
  edit_at-none f (token ∷ tokens) body h = elim (Resolved-cases (resolve_child lib body token)) [
    | inl (e, r) ↦ (e, edit_at-unresolved f body token tokens e r)
    | inr (place, child, r) ↦
        (let (e, below) =
            edit_at-none f tokens child
              (sym (resolve_at-step body child token tokens place r) ∙ h) in
          (
            e,
            edit_at-step f body child token tokens place r ∙ ap (write_back lib body place) below,
          ))
  ]

  -- An edit that says no more than `unchanged` or an error at its target says the same of the body.
  pub edit_at-same :
      (f : lib.Json → Edited lib.Json) (tokens : List Text) (body old : lib.Json)
      (said : Edited lib.Json)
      → resolve_at lib tokens body ≡ some old
      → f old ≡ said
      → ((parent : lib.Json) (place : Place) → write_back lib parent place said ≡ said)
      → edit_at lib f tokens body ≡ said
  unfolding resolve_at edit_at
  edit_at-same f [] body old said h q up = (let e : body ≡ old = cc h in ap f e ∙ q)
  edit_at-same f (token ∷ tokens) body old said h q up =
      elim (Resolved-cases (resolve_child lib body token)) [
        | inl (e, r) ↦ absurd (cc (h, resolve_at-unresolved body token tokens e r))
        | inr (place, child, r) ↦
            edit_at-step f body child token tokens place r
            ∙ ap (write_back lib body place) (
                edit_at-same f tokens child old said
                  (sym (resolve_at-step body child token tokens place r) ∙ h) q up)
            ∙ up body place
      ]

  pub edit_at-change :
      (f : lib.Json → Edited lib.Json) (tokens : List Text) (body old new : lib.Json)
      → resolve_at lib tokens body ≡ some old
      → f old ≡ changed new
      → (after : lib.Json) × (edit_at lib f tokens body ≡ changed after)
  unfolding resolve_at edit_at
  edit_at-change f [] body old new h q = (let e : body ≡ old = cc h in (new, ap f e ∙ q))
  edit_at-change f (token ∷ tokens) body old new h q =
      elim (Resolved-cases (resolve_child lib body token)) [
        | inl (e, r) ↦ absurd (cc (h, resolve_at-unresolved body token tokens e r))
        | inr (place, child, r) ↦
            (let (after, below) =
                edit_at-change f tokens child old new
                  (sym (resolve_at-step body child token tokens place r) ∙ h) q in
              (
                write_child lib body place after,
                edit_at-step f body child token tokens place r
                    ∙ ap (write_back lib body place) below,
              ))
      ]

  -- An edit that changed the body: the value that the tokens name became what `f` makes of it, and
  -- what tokens that part from them name is as before.
  unfoldable pub Edits : (lib.Json → Edited lib.Json) → List Text → lib.Json → lib.Json → Type 0
  Edits f tokens body after =
      (old new : lib.Json) × (resolve_at lib tokens body ≡ some old)
      × (f old ≡ changed new)
      × (resolve_at lib tokens after ≡ some new)
      × ((us : List Text)
          → diverge tokens us ≡ true
          → resolve_at lib us after ≡ resolve_at lib us body)

  module _ (laws : JsonLaws lib) where
    -- What tokens that part from `token ∷ tokens` name, once the child at `token` is new.
    beside :
        (body child after new : lib.Json) (token : Text) (tokens : List Text) (place : Place)
        → resolve_child lib body token ≡ resolved place child
        → after ≡ write_child lib body place new
        → ((us : List Text)
            → diverge tokens us ≡ true
            → resolve_at lib us new ≡ resolve_at lib us child)
        → (us : List Text) → diverge (token ∷ tokens) us ≡ true
        → resolve_at lib us after ≡ resolve_at lib us body
    beside body child after new token tokens place r written others us d =
        let (u, rest, e, part) = diverge-cases token tokens us d in
        rw e (
          rw written (elim part [
            | inl (same, later) ↦
                subst
                  (λ (t : Text).
                    resolve_at lib (t ∷ rest) (write_child lib body place new)
                    ≡ resolve_at lib (t ∷ rest) body)
                  same
                  (resolve_at-step (write_child lib body place new) new token rest place
                      (resolve_child-write lib laws body child new token place r)
                    ∙ others rest later
                    ∙ sym (resolve_at-step body child token rest place r))
            | inr apart ↦
                resolve_at-same (write_child lib body place new) body u rest
                  (resolve_child-write_other lib laws body child new token u place r apart)
          ]))

    pub edit_at-Edits :
        (f : lib.Json → Edited lib.Json) (tokens : List Text) (body after : lib.Json)
        → edit_at lib f tokens body ≡ changed after
        → Edits f tokens body after
    unfolding Edits resolve_at
    edit_at-Edits f [] body after h =
        (body, after, refl, unfold edit_at in h, refl, λ us e. absurd (unfold diverge in cc e))
    edit_at-Edits f (token ∷ tokens) body after h =
        elim (Resolved-cases (resolve_child lib body token)) [
          | inl (e, r) ↦ absurd (cc (h, edit_at-unresolved f body token tokens e r))
          | inr (place, child, r) ↦
              (let (new, below, written) =
                  write_back-changed body after place (edit_at lib f tokens child)
                    (sym (edit_at-step f body child token tokens place r) ∙ h) in
                let (old, made, there, edit, here, others) =
                  edit_at-Edits f tokens child new below in
                let found = resolve_child-write lib laws body child new token place r in
                (
                  old,
                  made,
                  resolve_at-step body child token tokens place r ∙ there,
                  edit,
                  ap (resolve_at lib (token ∷ tokens)) written
                      ∙ resolve_at-step (write_child lib body place new) new token tokens place
                          found
                      ∙ here,
                  beside body child after new token tokens place r written others,
                ))
        ]
