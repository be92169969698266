-- ===== src/Routing.antt =====
-- src/routing/route_table.hpp and route_table.cpp, with the profile of src/routing/profile.hpp. The
-- two hash maps are association lists; their order is observable nowhere. `Handler` and `Pipeline`
-- stand for what a profile points to, which the table compares with null at most.
pub mod Lookup
pub mod Namespace
pub mod Methods
pub mod Listed
pub mod Answers
use cc_switch_trans.Common.{
  ℕ, ◌+◌, Bool, true, false, not, ◌&&◌, ◌||◌, Option, none, some, List, [], ◌∷◌, ◌++◌, Text, codes,
  text_eq, find_key, put_key, length, empty?, all, ltb, leb, ◌==◌, if◌then◌else◌,
}
use cc_switch_trans.Core.Url.{PathError, PathResult, canonical, rejected, canonicalize_http_path}
use cc_switch_trans.Core.UpstreamUrl.{is_prefix}

pub record RuntimeProfile (Handler Pipeline : Type 0) : Type 0 where
  pub id : Text
  pub handler : Option Handler
  pub source_enabled : Bool
  pub request_pipeline : Option Pipeline

pub record UpstreamTarget : Type 0 where
  pub base_url : Text
  pub path : Text

pub data RouteKind : Type 0 where
  request usage : RouteKind

-- A `shared_ptr` that may be null is an `Option`.
pub record RouteEntry (Handler Pipeline : Type 0) : Type 0 where
  pub profile : Option (RuntimeProfile Handler Pipeline)
  pub kind : RouteKind
  pub method : Text
  pub local_path : Text
  pub upstream : UpstreamTarget

-- The texts of `error`, with what they name.
pub data AddError : Type 0 where
  null_profile invalid_method : AddError
  no_handler reserved_namespace incomplete_upstream : Text → AddError
  invalid_local_route : Text → PathError → AddError
  route_collision : Text → Text → AddError

abbrev pub upper_token_byte : ℕ → Bool
upper_token_byte ch = (leb b'A' ch && leb ch b'Z') || (leb b'0' ch && leb ch b'9') || (ch == b'-')

-- The same function stands in src/protocols/protocol_registry.cpp.
unfoldable pub valid_method : Text → Bool
valid_method method =
    if empty? method || ltb 32 (length method) then false else all upper_token_byte method

-- operator< of std::string
unfoldable pub text_lt : Text → Text → Bool
text_lt [] [] = false
text_lt [] (b ∷ t) = true
text_lt (a ∷ s) [] = false
text_lt (a ∷ s) (b ∷ t) = ltb a b || ((a == b) && text_lt s t)

-- std::sort
unfoldable pub insert_sorted : Text → List Text → List Text
insert_sorted m [] = m ∷ []
insert_sorted m (n ∷ ns) =
    let rest = insert_sorted m ns in if text_lt n m then n ∷ rest else m ∷ n ∷ ns

unfoldable pub sort : List Text → List Text
sort [] = []
sort (m ∷ ms) = insert_sorted m (sort ms)

pub record PathRoutes (Handler Pipeline : Type 0) : Type 0 where
  pub by_method : List (Text × RouteEntry Handler Pipeline)
  pub allowed_methods : List Text

pub record RouteTable (Handler Pipeline : Type 0) : Type 0 where
  pub routes_by_path : List (Text × PathRoutes Handler Pipeline)
  pub size : ℕ

pub data AddResult (Handler Pipeline : Type 0) : Type 0 where
  added : RouteTable Handler Pipeline → AddResult Handler Pipeline
  refused : AddError → AddResult Handler Pipeline

pub data RouteLookup (Handler Pipeline : Type 0) : Type 0 where
  matched : RouteEntry Handler Pipeline → Text → RouteLookup Handler Pipeline
  method_not_allowed : List Text → Text → RouteLookup Handler Pipeline
  not_found : Text → RouteLookup Handler Pipeline
  invalid_path : PathError → RouteLookup Handler Pipeline

-- canonical == "/_ccs-trans" || canonical.rfind("/_ccs-trans/", 0) == 0
unfoldable pub is_reserved : Text → Bool
is_reserved path = text_eq path (codes "/_ccs-trans") || is_prefix (codes "/_ccs-trans/") path

module _ {Handler Pipeline : Type 0} where
  abbrev pub empty_table : RouteTable Handler Pipeline
  empty_table = record { routes_by_path = []; size = 0 }

  -- routes_by_path_[canonical], which starts empty
  abbrev pub routes_at : Option (PathRoutes Handler Pipeline) → PathRoutes Handler Pipeline
  routes_at none = record { by_method = []; allowed_methods = [] }
  routes_at (some routes) = routes

  abbrev pub profile_id_of : Option (RuntimeProfile Handler Pipeline) → Text
  profile_id_of none = []
  profile_id_of (some profile) = profile.id

  -- The table with an entry whose checks passed; `canonical` is its local path from here on.
  unfoldable pub place :
      RouteTable Handler Pipeline
      → RouteEntry Handler Pipeline
      → Text
      → Text
      → AddResult Handler Pipeline
  place t entry profile_id path =
      let routes = routes_at (find_key path t.routes_by_path) in
      elim (find_key entry.method routes.by_method) [
        | some existing ↦ refused (route_collision (profile_id_of existing.profile) profile_id)
        | none ↦ added (record {
          routes_by_path =
              put_key path
                (record {
                  by_method = (entry.method, record entry { local_path = path }) ∷ routes.by_method;
                  allowed_methods = sort (routes.allowed_methods ++ entry.method ∷ []);
                })
                t.routes_by_path;
          size = t.size + 1;
        })
      ]

  unfoldable pub add_checked :
      RouteTable Handler Pipeline → RouteEntry Handler Pipeline → Text → AddResult Handler Pipeline
  add_checked t entry profile_id =
      if not (valid_method entry.method)
      then refused invalid_method
      else elim (canonicalize_http_path entry.local_path) [
        | rejected e ↦ refused (invalid_local_route profile_id e)
        | canonical path ↦
            if is_reserved path
            then refused (reserved_namespace profile_id)
            else if empty? entry.upstream.base_url || empty? entry.upstream.path
            then refused (incomplete_upstream profile_id)
            else place t entry profile_id path
      ]

  unfoldable pub add :
      RouteTable Handler Pipeline → RouteEntry Handler Pipeline → AddResult Handler Pipeline
  add t entry = elim entry.profile [
    | none ↦ refused null_profile
    | some profile ↦ elim profile.handler [
      | none ↦ refused (no_handler profile.id)
      | some handler ↦ add_checked t entry profile.id
    ]
  ]

  unfoldable pub lookup : RouteTable Handler Pipeline → Text → Text → RouteLookup Handler Pipeline
  lookup t method path = elim (canonicalize_http_path path) [
    | rejected e ↦ invalid_path e
    | canonical c ↦ elim (find_key c t.routes_by_path) [
      | none ↦ not_found c
      | some routes ↦ elim (find_key method routes.by_method) [
        | some entry ↦ matched entry c
        | none ↦ method_not_allowed routes.allowed_methods c
      ]
    ]
  ]
