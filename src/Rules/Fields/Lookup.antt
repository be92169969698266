-- ===== src/Rules/Fields/Lookup.antt =====
-- Edits of the value that a list of tokens names, for `set_field` and `remove_field`
-- (src/rules/generic_json_rules.cpp): what is found along a list of tokens before and after.
use cc_switch_trans.Common.{
  ℕ, ◌≡◌, ◌≢◌, refl, sym, ap, ◌∙◌, ◌⊎◌, inl, inr, Bool, true, false, Option, none, some, List, [],
  ◌∷◌, Text, text_eq, text_eq_iff, text_eq_refl, length, get_elem?, set, length-set, get_elem?-set,
  get_elem?-set_other, if◌then◌else◌, arith, Bool-cases, Option-cases,
}
use cc_switch_trans.Rules.Json.{JsonLibrary, JsonLaws}
use cc_switch_trans.Rules.Pointer.{IndexResult, index, bad_index, parse_array_index}
use cc_switch_trans.Rules.Pointer.Index.{parse-decimal}
use cc_switch_trans.Rules.Fields.{
  bad_array_index, Place, member, element, resolved, unresolved, Edited, refused, child_at,
  resolve_element, resolve_child, write_child, write_back,
}

-- Two lists of tokens that part at some token, so that neither is a prefix of the other.
unfoldable pub diverge : List Text → List Text → Bool
diverge [] us = false
diverge (t ∷ ts) [] = false
diverge (t ∷ ts) (u ∷ us) = if text_eq t u then diverge ts us else true

module _ (lib : JsonLibrary) where
  -- The value that a list of tokens names, if there is one.
  unfoldable pub resolve_at : List Text → lib.Json → Option lib.Json
  resolve_at [] body = some body
  resolve_at (token ∷ tokens) body = elim (resolve_child lib body token) [
    | unresolved e ↦ none
    | resolved place child ↦ resolve_at tokens child
  ]

  -- An edit of that value, and back up through its parents.
  unfoldable pub edit_at : (lib.Json → Edited lib.Json) → List Text → lib.Json → Edited lib.Json
  edit_at f [] target = f target
  edit_at f (token ∷ tokens) target = elim (resolve_child lib target token) [
    | unresolved e ↦ refused e
    | resolved place child ↦ write_back lib target place (edit_at f tokens child)
  ]

  -- Where a child was found.
  record MemberAt (parent : lib.Json) (token : Text) (place : Place) (child : lib.Json)
      : Type 0 where
    pub object : lib.is_object parent ≡ true
    pub found : lib.find parent token ≡ some child
    pub placed : place ≡ member token

  record ElementAt (parent : lib.Json) (token : Text) (place : Place) (child : lib.Json)
      : Type 0 where
    pub i : ℕ
    pub xs : List lib.Json
    pub plain : lib.is_object parent ≡ false
    pub array : lib.elements parent ≡ some xs
    pub parsed : parse_array_index token (length xs) ≡ index i
    pub found : get_elem? xs i ≡ some child
    pub placed : place ≡ element i

  element_facts :
      (parent child : lib.Json) (token : Text) (place : Place) (xs : List lib.Json)
      → lib.is_object parent ≡ false
      → lib.elements parent ≡ some xs
      → resolve_child lib parent token ≡ resolved place child
      → (i : ℕ) × (parse_array_index token (length xs) ≡ index i)
        × (get_elem? xs i ≡ some child)
        × (place ≡ element i)
  unfolding resolve_child resolve_element child_at
  element_facts parent child token place xs n e h = ground (arith, n, e, h)

  member_facts :
      (parent child : lib.Json) (token : Text) (place : Place)
      → lib.is_object parent ≡ true
      → resolve_child lib parent token ≡ resolved place child
      → (lib.find parent token ≡ some child) × (place ≡ member token)
  unfolding resolve_child
  member_facts parent child token place o h = ground (arith, o, h)

  resolve_child-inv :
      (parent child : lib.Json) (token : Text) (place : Place)
      → resolve_child lib parent token ≡ resolved place child
      → MemberAt parent token place child ⊎ ElementAt parent token place child
  resolve_child-inv parent child token place h = elim (Bool-cases (lib.is_object parent)) [
    | inl o ↦
        (let (f, q) = member_facts parent child token place o h in
          inl (record { object = o; found = f; placed = q }))
    | inr n ↦ elim (Option-cases (lib.elements parent)) [
      | inl e ↦ absurd (unfold resolve_child in ground (arith, h))
      | inr (xs, e) ↦
          (let (i, p, g, q) = element_facts parent child token place xs n e h in
            inr
              (record { i = i; xs = xs; plain = n; array = e; parsed = p; found = g; placed = q }))
    ]
  ]

  -- What an array finds, and what an object finds, at a token.
  resolve_element_at :
      (xs : List lib.Json) (token : Text) (i : ℕ) (child : lib.Json)
      → parse_array_index token (length xs) ≡ index i
      → get_elem? xs i ≡ some child
      → resolve_element lib token xs ≡ resolved (element i) child
  unfolding resolve_element child_at
  resolve_element_at xs token i child p g = ground (arith, p, g)

  resolve_child_array :
      (parent : lib.Json) (token : Text) (xs : List lib.Json)
      → lib.is_object parent ≡ false
      → lib.elements parent ≡ some xs
      → resolve_child lib parent token ≡ resolve_element lib token xs
  unfolding resolve_child
  resolve_child_array parent token xs n e = ground (arith, n, e)

  resolve_child_object :
      (a b : lib.Json) (token : Text)
      → lib.is_object a ≡ true
      → lib.is_object b ≡ true
      → lib.find a token ≡ lib.find b token
      → resolve_child lib a token ≡ resolve_child lib b token
  unfolding resolve_child
  resolve_child_object a b token o o' e = rw o (rw o' (rw e refl))

  resolve_child_member :
      (a child : lib.Json) (token : Text)
      → lib.is_object a ≡ true
      → lib.find a token ≡ some child
      → resolve_child lib a token ≡ resolved (member token) child
  unfolding resolve_child
  resolve_child_member a child token o e = ground (arith, o, e)

  resolve_element-set :
      (xs : List lib.Json) (token : Text) (i : ℕ) (v : lib.Json)
      → parse_array_index token (length xs) ≢ index i
      → resolve_element lib token (set xs i v) ≡ resolve_element lib token xs
  unfolding resolve_element child_at
  resolve_element-set xs token i v n =
      rw (length-set xs i v, resolve_element) (elsewhere (parse_array_index token (length xs)) n)
    where
      elsewhere :
          (r : IndexResult)
          → r ≢ index i
          → (elim r [
            | index j ↦ child_at lib (set xs i v) j
            | bad_index e ↦ unresolved (bad_array_index e)
          ])
            ≡ (elim r [
              | index j ↦ child_at lib xs j
              | bad_index e ↦ unresolved (bad_array_index e)
            ])
      elsewhere (index j) n =
          rw (get_elem?-set_other xs i j v (λ (e : i ≡ j). n (ap index (sym e))), child_at) refl
      elsewhere (bad_index e) n = refl

  module _ (laws : JsonLaws lib) where
    array_plain :
        (j : lib.Json) (xs : List lib.Json) → lib.elements j ≡ some xs → lib.is_object j ≡ false
    array_plain j xs e = elim (Bool-cases (lib.is_object j)) [
      | inl o ↦ absurd (cc (laws.object_apart j o, e))
      | inr n ↦ n
    ]

    write_element :
        (parent new : lib.Json) (xs : List lib.Json) (i : ℕ)
        → lib.elements parent ≡ some xs
        → write_child lib parent (element i) new ≡ lib.with_elements parent (set xs i new)
    unfolding write_child
    write_element parent new xs i e = rw (e, write_child) refl

    -- What a token finds in an array with a new element.
    resolve_written :
        (parent new : lib.Json) (xs : List lib.Json) (i : ℕ) (u : Text)
        → lib.elements parent ≡ some xs
        → resolve_child lib (write_child lib parent (element i) new) u
          ≡ resolve_element lib u (set xs i new)
    resolve_written parent new xs i u e =
        let after = laws.with_elements_elements parent xs (set xs i new) e in
        ap (λ (j : lib.Json). resolve_child lib j u) (write_element parent new xs i e)
        ∙ resolve_child_array (lib.with_elements parent (set xs i new)) u (set xs i new)
            (array_plain (lib.with_elements parent (set xs i new)) (set xs i new) after) after

    -- What a key finds in an object with a new member.
    find-write :
        (parent child new : lib.Json) (token u : Text)
        → lib.is_object parent ≡ true
        → lib.find parent token ≡ some child
        → lib.find (write_child lib parent (member token) new) u
          ≡ (if text_eq token u then some new else lib.find parent u)
    unfolding write_child
    find-write parent child new token u o f = laws.find_with parent new child token u o f

    is_object-write :
        (parent new : lib.Json) (token : Text)
        → lib.is_object (write_child lib parent (member token) new) ≡ lib.is_object parent
    unfolding write_child
    is_object-write parent new token = laws.with_member_object parent new token

    -- A child that is written is the child that is found, at the same place.
    pub resolve_child-write :
        (parent child new : lib.Json) (token : Text) (place : Place)
        → resolve_child lib parent token ≡ resolved place child
        → resolve_child lib (write_child lib parent place new) token ≡ resolved place new
    resolve_child-write parent child new token place h =
        elim (resolve_child-inv parent child token place h) [
          | inl m ↦ rw m.placed (
              resolve_child_member (write_child lib parent (member token) new) new token
                (is_object-write parent new token ∙ m.object)
                (find-write parent child new token token m.object m.found
                  ∙ ap (λ (b : Bool). if b then some new else lib.find parent token)
                      (text_eq_refl token)))
          | inr w ↦ rw w.placed (
              resolve_written parent new w.xs w.i token w.array
              ∙ resolve_element_at (set w.xs w.i new) token w.i new
                  (ap (parse_array_index token) (length-set w.xs w.i new) ∙ w.parsed)
                  (get_elem?-set w.xs w.i new child w.found))
        ]

    -- The other children stay.
    pub resolve_child-write_other :
        (parent child new : lib.Json) (token u : Text) (place : Place)
        → resolve_child lib parent token ≡ resolved place child
        → text_eq token u ≡ false
        → resolve_child lib (write_child lib parent place new) u ≡ resolve_child lib parent u
    resolve_child-write_other parent child new token u place h n =
        elim (resolve_child-inv parent child token place h) [
          | inl m ↦ rw m.placed (
              resolve_child_object (write_child lib parent (member token) new) parent u
                (is_object-write parent new token ∙ m.object) m.object
                (find-write parent child new token u m.object m.found
                  ∙ ap (λ (b : Bool). if b then some new else lib.find parent u) n))
          | inr w ↦ rw w.placed (
              resolve_written parent new w.xs w.i u w.array
              ∙ resolve_element-set w.xs u w.i new (other_index w)
              ∙ sym (resolve_child_array parent u w.xs w.plain w.array))
        ]
      where
        other_index :
            (w : ElementAt parent token place child) → parse_array_index u (length w.xs) ≢ index w.i
        other_index w e =
            (let same : token ≡ u =
                (parse-decimal token w.i (length w.xs) w.parsed).1
                ∙ sym (parse-decimal u w.i (length w.xs) e).1 in
              absurd (cc ((text_eq_iff token u).1 same, n)))
