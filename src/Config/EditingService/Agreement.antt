-- ===== src/Config/EditingService/Agreement.antt =====
-- The checks of `validate_config_candidate` in src/config/config_editing_service.cpp against the
-- compiler of src/config/runtime_compiler.cpp, which runs after them.
use cc_switch_trans.Common.{
  ◌≡◌, refl, sym, ◌∙◌, inl, inr, Bool, true, false, ◌&&◌, Option, none, some, [], ◌∷◌, Text, String,
  text_eq, find_key, all, empty?, if◌then◌else◌, arith, Option-cases, subst,
}
use cc_switch_trans.Core.Url.{canonical, canonicalize_http_path}
use cc_switch_trans.Routing.{
  RuntimeProfile, RouteEntry, RouteTable, added, valid_method, upper_token_byte, is_reserved, add,
}
use cc_switch_trans.Routing.Lookup.{route, add-Admitted, add-succeeds}
use cc_switch_trans.Config.RuntimeCompiler.Runnable.{canonical_or_rejected}
use cc_switch_trans.Config.EditingService.{
  CandidateRoute, Routes, route_key, passed, add_candidate_route,
}

abbrev has {ℓ} : {A : Type ℓ} → Option A → Bool
has none = false
has (some x) = true

has-none : {A : Type 0} (o : Option A) → has o ≡ false → o ≡ none
has-none none h = refl
has-none (some x) h = cc h

has_if :
    {A B : Type 0} (b : Bool) (x : A) (y : B) (o : Option A) (q : Option B)
    → has o ≡ has q
    → has (if b then some x else o) ≡ has (if b then some y else q)
has_if true x y o q h = refl
has_if false x y o q h = h

-- The key of a route determines its method and its path, since no valid method has a zero byte.
route_key-eq :
    (m n c p : Text)
    → all upper_token_byte m ≡ true
    → all upper_token_byte n ≡ true
    → text_eq (route_key m c) (route_key n p) ≡ (text_eq m n && text_eq c p)
unfolding route_key text_eq
route_key-eq [] [] c p a b = refl
route_key-eq [] (y ∷ n) c p a b = ground arith
route_key-eq (x ∷ m) [] c p a b = ground arith
route_key-eq (x ∷ m) (y ∷ n) c p a b =
    ground (arith, route_key-eq m n c p (ground arith) (ground arith))

valid_method-bytes : (m : Text) → valid_method m ≡ true → all upper_token_byte m ≡ true
unfolding valid_method
valid_method-bytes m h = ground arith

-- What a route that the checks took has behind it.
pub record Taken (routes routes' : Routes) (method path : Text) : Type 0 where
  pub resolved_path : Text
  pub resolved : canonicalize_http_path path ≡ canonical resolved_path
  pub free : find_key (route_key method resolved_path) routes ≡ none
  pub entry : CandidateRoute
  pub placed : routes' ≡ (route_key method resolved_path, entry) ∷ routes

pub add_candidate_route-Taken :
    (routes routes' : Routes) (method path id : Text) (field : String)
    → add_candidate_route routes method path id field ≡ passed routes'
    → Taken routes routes' method path
unfolding add_candidate_route
add_candidate_route-Taken routes routes' method path id field h =
    elim (canonical_or_rejected (canonicalize_http_path path)) [
      | inr (e, q) ↦ absurd (ground arith)
      | inl (c, q) ↦ elim (Option-cases (find_key (route_key method c) routes)) [
        | inr (x, k) ↦ absurd (ground arith)
        | inl k ↦ record {
          resolved_path = c;
          resolved = q;
          free = k;
          entry = record { profile_id = id; field = field };
          placed = ground arith;
        }
      ]
    ]

-- The routes of the checks and those of a table are for the same methods and paths.
module _ {Handler Pipeline : Type 0} where
  pub record Agrees (routes : Routes) (t : RouteTable Handler Pipeline) : Type 0 where
    pub same :
        (m p : Text)
        → valid_method m ≡ true
        → has (find_key (route_key m p) routes) ≡ has (route t m p)

  -- What the checks before leave to be known of an entry.
  pub record IsReady (entry : RouteEntry Handler Pipeline) : Type 0 where
    pub profile_set :
        (profile : RuntimeProfile Handler Pipeline) × (handler : Handler) × (entry.profile
          ≡ some profile)
        × (profile.handler ≡ some handler)
    pub method_ok : valid_method entry.method ≡ true
    pub path : Text
    pub resolved : canonicalize_http_path entry.local_path ≡ canonical path
    pub open_path : is_reserved path ≡ false
    pub base : empty? entry.upstream.base_url ≡ false
    pub target : empty? entry.upstream.path ≡ false

  pub Taken-Agrees :
      (routes routes' : Routes) (t : RouteTable Handler Pipeline)
      (entry : RouteEntry Handler Pipeline) (ready : IsReady entry)
      → Agrees routes t
      → Taken routes routes' entry.method entry.local_path
      → (t' : RouteTable Handler Pipeline) × (add t entry ≡ added t') × Agrees routes' t'
  unfolding find_key
  Taken-Agrees routes routes' t entry ready agrees taken =
      let one : taken.resolved_path ≡ ready.path = cc (taken.resolved, ready.resolved) in
      let free : route t entry.method ready.path ≡ none =
        has-none (route t entry.method ready.path) (
          sym (agrees.same entry.method ready.path ready.method_ok)
          ∙ subst (λ (c : Text). has (find_key (route_key entry.method c) routes) ≡ false) one
              (rw taken.free refl)) in
      let (profile, handler, set, held) = ready.profile_set in
      let (t', done) =
        add-succeeds t entry set held ready.method_ok ready.resolved ready.open_path ready.base
          ready.target free in
      let a = add-Admitted t t' entry done in
      let two : a.path ≡ ready.path = cc (a.resolved, ready.resolved) in
      (
        t',
        done,
        record {
          same = λ m p v.
              let k =
                route_key-eq entry.method m ready.path p
                  (valid_method-bytes entry.method ready.method_ok) (valid_method-bytes m v) in
              rw (taken.placed, one, a.placed m p, two, k)
                (has_if (text_eq entry.method m && text_eq ready.path p) taken.entry
                  (record entry { local_path = ready.path }) (find_key (route_key m p) routes)
                  (route t m p) (agrees.same m p v));
        },
      )
