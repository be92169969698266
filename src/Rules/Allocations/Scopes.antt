-- ===== src/Rules/Allocations/Scopes.antt =====
-- The context that a thread's allocators take, which scopes set and restore
-- (RuleJsonAllocationContext::current and RuleJsonAllocationScope in src/rules/rule_json.cpp).
use cc_switch_trans.Common.{ℕ, ◌≡◌, refl, ◌++◌, Option, List, [], ◌∷◌}

-- A pointer to a context, by a number.
abbrev pub Pointer : Type 0
Pointer = Option ℕ

-- std::exchange on `current_context`: what it is from now on, and what it was.
set_current : Pointer → Pointer → Pointer × Pointer
set_current current_context context = (context, current_context)

pub record RuleJsonAllocationScope : Type 0 where
  pub previous : Pointer

-- The constructor and the destructor.
open_scope : Pointer → Pointer → Pointer × RuleJsonAllocationScope
open_scope current_context context =
    let (current, previous) = set_current current_context context in
    (current, record { previous = previous })

close_scope : Pointer → RuleJsonAllocationScope → Pointer
close_scope current_context scope = (set_current current_context scope.previous).0

-- What a thread does: it makes an allocator with the current context, or it opens a scope, does
-- something in it and leaves it.
pub data Activity : Type 0 where
  ends : Activity
  allocator : Activity → Activity
  scoped : Pointer → Activity → Activity → Activity

-- The current context afterwards, and the contexts that the allocators took.
perform : Pointer → Activity → Pointer × List Pointer
perform current ends = (current, [])
perform current (allocator after) =
    let (last, taken) = perform current after in (last, current ∷ taken)
perform current (scoped context inner after) =
    let (inside, scope) = open_scope current context in
    let (left, taken) = perform inside inner in
    let (last, more) = perform (close_scope left scope) after in (last, taken ++ more)

-- The contexts of the scopes around the allocators.
lexical : Pointer → Activity → List Pointer
lexical current ends = []
lexical current (allocator after) = current ∷ lexical current after
lexical current (scoped context inner after) = lexical context inner ++ lexical current after

-- Scopes that are left in the order in which they nest give every allocator the context of the scope
-- around it, or the one from before, and leave the thread's current context as it was.
perform-lexical :
    (current : Pointer) (a : Activity) → perform current a ≡ (current, lexical current a)
unfolding perform lexical open_scope close_scope set_current
perform-lexical current ends = refl
perform-lexical current (allocator after) = rw (perform-lexical current after) refl
perform-lexical current (scoped context inner after) =
    rw (perform-lexical context inner, perform-lexical current after) refl
