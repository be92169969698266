-- ===== src/Rules/Tools/Laws.antt =====
-- What `remove_tool` leaves of a request (src/rules/remove_tool_rule.cpp).
use cc_switch_trans.Common.{
  ℕ, ◌+◌, ◌≡◌, ◌≢◌, refl, sym, ap, ◌∙◌, ◌⊎◌, inl, inr, Bool, true, false, some, List, [], ◌∷◌, Text,
  text_eq, text_eq_iff, length, if◌then◌else◌, arith, Bool-cases, Option-cases,
}
use cc_switch_trans.Rules.Json.{JsonLibrary, JsonLaws}
use cc_switch_trans.Rules.Fields.{applied, RuleApplyResult}
use cc_switch_trans.Rules.Tools.{
  ToolLayout, tools_key, tools_result, matches_tool, remove_if, erase_tools, remove_tool_apply,
}

module _ (lib : JsonLibrary) where
  -- The elements that `p` does not hold of, in order.
  unfoldable pub outside : (lib.Json → Bool) → List lib.Json → List lib.Json
  outside p [] = []
  outside p (x ∷ xs) = if p x then outside p xs else x ∷ outside p xs

  remove_if-outside :
      (p : lib.Json → Bool) (xs : List lib.Json)
      → ((remove_if lib p xs).0 ≡ outside p xs)
        × (length xs ≡ length (outside p xs) + (remove_if lib p xs).1)
  unfolding remove_if outside
  remove_if-outside p [] = (refl, omega arith)
  remove_if-outside p (x ∷ xs) = ground (arith, remove_if-outside p xs)

  -- What is outside is not removed a second time.
  remove_if-again :
      (p : lib.Json → Bool) (xs : List lib.Json) → (remove_if lib p (outside p xs)).1 ≡ 0
  unfolding remove_if outside
  remove_if-again p [] = refl
  remove_if-again p (x ∷ xs) = ground (arith, remove_if-again p xs)

module _ (lib : JsonLibrary) (layout : ToolLayout) (tool_name : Text) where
  abbrev pub matched : lib.Json → Bool
  matched x = matches_tool lib x layout tool_name

  abbrev pub without_tool : List lib.Json → List lib.Json
  without_tool xs = outside lib matched xs

  -- A request whose array `tools` lost `removed` elements, those that the rule matches.
  pub record Removal (body after : lib.Json) (removed : ℕ) : Type 0 where
    pub tools : lib.Json
    pub before : List lib.Json
    pub root : lib.is_object body ≡ true
    pub found : lib.find body tools_key ≡ some tools
    pub array : lib.elements tools ≡ some before
    pub swept :
        after ≡ lib.with_member body tools_key (lib.with_elements tools (without_tool before))
    pub counted : length before ≡ length (without_tool before) + removed

  erase_tools-inv :
      (body tools after : lib.Json) (r : RuleApplyResult) (s : List lib.Json × ℕ)
      → erase_tools lib body tools s ≡ applied r after
      → ((r.modified ≡ false) × (after ≡ body))
        ⊎ ((after ≡ lib.with_member body tools_key (lib.with_elements tools s.0))
            × (r.summary.affected_count ≡ s.1))
  unfolding erase_tools
  erase_tools-inv body tools after r (retained, removed) h = ground (arith, h)

  remove_tool_apply-array :
      (body tools : lib.Json) (xs : List lib.Json)
      → lib.is_object body ≡ true
      → lib.find body tools_key ≡ some tools
      → lib.elements tools ≡ some xs
      → remove_tool_apply lib layout tool_name body
        ≡ erase_tools lib body tools
            (remove_if lib (λ (x : lib.Json). matches_tool lib x layout tool_name) xs)
  unfolding remove_tool_apply
  remove_tool_apply-array body tools xs o f e = rw o (rw f (rw e refl))

  -- A call either leaves the request as it is or removes tools from it.
  pub remove_tool_apply-inv :
      (body after : lib.Json) (r : RuleApplyResult)
      → remove_tool_apply lib layout tool_name body ≡ applied r after
      → ((r.modified ≡ false) × (after ≡ body)) ⊎ Removal body after r.summary.affected_count
  remove_tool_apply-inv body after r h = elim (Bool-cases (lib.is_object body)) [
    | inl o ↦ elim (Option-cases (lib.find body tools_key)) [
      | inl n ↦ inl (unfold remove_tool_apply in ground (arith, h))
      | inr (tools, f) ↦ elim (Option-cases (lib.elements tools)) [
        | inl n ↦ inl (unfold remove_tool_apply in ground (arith, h))
        | inr (xs, e) ↦ swept_from tools xs o f e (
            erase_tools-inv body tools after r (remove_if lib matched xs)
              (sym (remove_tool_apply-array body tools xs o f e) ∙ h))
      ]
    ]
    | inr n ↦ absurd (unfold remove_tool_apply in ground (arith, h))
  ]
    where
      swept_from :
          (tools : lib.Json) (xs : List lib.Json)
          → lib.is_object body ≡ true
          → lib.find body tools_key ≡ some tools
          → lib.elements tools ≡ some xs
          → ((r.modified ≡ false) × (after ≡ body))
            ⊎ ((after
                  ≡ lib.with_member body tools_key
                      (lib.with_elements tools (remove_if lib matched xs).0))
                × (r.summary.affected_count ≡ (remove_if lib matched xs).1))
          → ((r.modified ≡ false) × (after ≡ body)) ⊎ Removal body after r.summary.affected_count
      swept_from tools xs o f e (inl a) = inl a
      swept_from tools xs o f e (inr (q, c)) =
          (let (kept, count) = remove_if-outside lib matched xs in
            inr (record {
              tools = tools;
              before = xs;
              root = o;
              found = f;
              array = e;
              swept =
                  q
                  ∙ ap
                      (λ (ys : List lib.Json).
                        lib.with_member body tools_key (lib.with_elements tools ys))
                      kept;
              counted = omega (arith, count, c);
            }))

  -- The text keys are told apart.
  other_key : (k : Text) → tools_key ≢ k → text_eq tools_key k ≡ false
  other_key k n = ground (arith, n, text_eq_iff tools_key k)

  module _ (laws : JsonLaws lib) where
    find-swept :
        (body after : lib.Json) (n : ℕ) (w : Removal body after n) (k : Text)
        → lib.find after k ≡ (
            if text_eq tools_key k
            then some (lib.with_elements w.tools (without_tool w.before))
            else lib.find body k)
    find-swept body after n w k =
        ap (λ (j : lib.Json). lib.find j k) w.swept
        ∙ laws.find_with body (lib.with_elements w.tools (without_tool w.before)) w.tools tools_key
            k w.root w.found

    find-swept_tools :
        (body after : lib.Json) (n : ℕ) (w : Removal body after n)
        → lib.find after tools_key ≡ some (lib.with_elements w.tools (without_tool w.before))
    unfolding text_eq
    find-swept_tools body after n w = find-swept body after n w tools_key

    elements-swept :
        (body after : lib.Json) (n : ℕ) (w : Removal body after n)
        → lib.elements (lib.with_elements w.tools (without_tool w.before))
          ≡ some (without_tool w.before)
    elements-swept body after n w =
        laws.with_elements_elements w.tools w.before (without_tool w.before) w.array

    is_object-swept :
        (body after : lib.Json) (n : ℕ) → Removal body after n → lib.is_object after ≡ true
    is_object-swept body after n w =
        ap lib.is_object w.swept
        ∙ laws.with_member_object body (lib.with_elements w.tools (without_tool w.before)) tools_key
        ∙ w.root

    -- When `remove_tool` says that it modified the request, the new array `tools` has exactly the
    -- elements that the rule does not match, in their order, the count in the summary is that of
    -- the elements that went, the other members are as before, and the request is still an object.
    pub remove_tool_apply-removes :
        (body after : lib.Json) (r : RuleApplyResult)
        → remove_tool_apply lib layout tool_name body ≡ applied r after
        → r.modified ≡ true
        → (tools new : lib.Json) × (before : List lib.Json) × (lib.find body tools_key ≡ some tools)
          × (lib.elements tools ≡ some before)
          × (lib.find after tools_key ≡ some new)
          × (lib.elements new ≡ some (without_tool before))
          × (length before ≡ length (without_tool before) + r.summary.affected_count)
          × (lib.is_object after ≡ true)
          × ((k : Text) → tools_key ≢ k → lib.find after k ≡ lib.find body k)
    remove_tool_apply-removes body after r h m = elim (remove_tool_apply-inv body after r h) [
      | inl (f, _) ↦ absurd (cc (m, f))
      | inr w ↦ (
        w.tools,
        lib.with_elements w.tools (without_tool w.before),
        w.before,
        w.found,
        w.array,
        find-swept_tools body after r.summary.affected_count w,
        elements-swept body after r.summary.affected_count w,
        w.counted,
        is_object-swept body after r.summary.affected_count w,
        λ k n.
            find-swept body after r.summary.affected_count w k
            ∙ ap
                (λ (b : Bool).
                  if b
                  then some (lib.with_elements w.tools (without_tool w.before))
                  else lib.find body k)
                (other_key k n),
      )
    ]

    erase_tools-none :
        (body tools : lib.Json) (s : List lib.Json × ℕ)
        → s.1 ≡ 0
        → erase_tools lib body tools s ≡ applied (tools_result false "tool_not_found" 0) body
    unfolding erase_tools
    erase_tools-none body tools (kept, removed) e = ground (arith, e)

    -- Applying `remove_tool` to the request that it left changes nothing: the second call says that
    -- it modified nothing and leaves the same request.
    pub remove_tool_apply-again :
        (body after : lib.Json) (r : RuleApplyResult)
        → remove_tool_apply lib layout tool_name body ≡ applied r after
        → (again : RuleApplyResult) × (remove_tool_apply lib layout tool_name after
            ≡ applied again after)
          × (again.modified ≡ false)
    remove_tool_apply-again body after r h = elim (remove_tool_apply-inv body after r h) [
      | inl (f, e) ↦ (r, ap (remove_tool_apply lib layout tool_name) e ∙ h, f)
      | inr w ↦ (
        tools_result false "tool_not_found" 0,
        remove_tool_apply-array after (lib.with_elements w.tools (without_tool w.before))
              (without_tool w.before) (is_object-swept body after r.summary.affected_count w)
              (find-swept_tools body after r.summary.affected_count w)
              (elements-swept body after r.summary.affected_count w)
            ∙ erase_tools-none after (lib.with_elements w.tools (without_tool w.before))
                (remove_if lib matched (without_tool w.before))
                (remove_if-again lib matched w.before),
        refl,
      )
    ]
