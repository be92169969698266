-- ===== src/Routing/Answers.antt =====
-- The answers of `RouteTable::lookup` of src/routing/route_table.cpp on a table that was filled by
-- `add`, and the methods that it allows.
use cc_switch_trans.Common.{
  ◌≡◌, ◌↔◌, inl, inr, true, none, some, List, Text, find_key, arith, Option-cases,
}
use cc_switch_trans.Core.Url.{PathError, canonical, rejected, canonicalize_http_path}
use cc_switch_trans.Routing.{
  RouteEntry, PathRoutes, RouteTable, RouteLookup, matched, method_not_allowed, not_found,
  invalid_path, empty_table, lookup,
}
use cc_switch_trans.Routing.Lookup.{route, PathResult-cases, lookup-route}
use cc_switch_trans.Routing.Methods.{has_method, IsAscending}
use cc_switch_trans.Routing.Namespace.{add_all}
use cc_switch_trans.Routing.Listed.{is_some, IsListed, add_all-IsListed, empty-IsListed}

module _ {Handler Pipeline : Type 0} where
  -- The methods that are allowed: in ascending order, those that have a route to the path.
  pub record Allows (t : RouteTable Handler Pipeline) (c : Text) (ms : List Text) : Type 0 where
    pub ascending : IsAscending ms
    pub same : (m : Text) → has_method m ms ≡ is_some (route t m c)

  -- What a lookup says, read off the table as a function.
  pub record Answers (t : RouteTable Handler Pipeline) (method path : Text)
      (r : RouteLookup Handler Pipeline) : Type 0 where
    pub bad_path :
        (e : PathError) → (r ≡ invalid_path e) ↔ (canonicalize_http_path path ≡ rejected e)
    pub hit :
        (entry : RouteEntry Handler Pipeline) (c : Text)
        → (r ≡ matched entry c)
          ↔ ((canonicalize_http_path path ≡ canonical c) × (route t method c ≡ some entry))
    pub miss :
        (c : Text)
        → (r ≡ not_found c)
          ↔ ((canonicalize_http_path path ≡ canonical c) × ((m : Text) → route t m c ≡ none))
    pub other_method :
        (c : Text)
        → ((ms : List Text) × (r ≡ method_not_allowed ms c)) ↔ (
            (canonicalize_http_path path ≡ canonical c)
            × (route t method c ≡ none)
            × ((m : Text) × (is_some (route t m c) ≡ true)))
    pub allowed : (ms : List Text) (c : Text) → r ≡ method_not_allowed ms c → Allows t c ms

  served :
      (t : RouteTable Handler Pipeline) (c : Text) (routes : PathRoutes Handler Pipeline)
      → IsListed t
      → find_key c t.routes_by_path ≡ some routes
      → (m : Text) × (is_some (route t m c) ≡ true)
  served t c routes v h = let s = (v c routes h).1 in (s.method, ground (arith, h, s.found))

  no_path :
      (t : RouteTable Handler Pipeline) (c m : Text)
      → find_key c t.routes_by_path ≡ none
      → route t m c ≡ none
  unfolding find_key
  no_path t c m h = ground (arith, h)

  miss_lem :
      (t : RouteTable Handler Pipeline) (method path c : Text)
      → IsListed t
      → canonicalize_http_path path ≡ canonical c
      → ((m : Text) → route t m c ≡ none)
      → lookup t method path ≡ not_found c
  unfolding lookup
  miss_lem t method path c v h f = elim (Option-cases (find_key c t.routes_by_path)) [
    | inl n ↦ ground (arith, h, n)
    | inr (routes, e) ↦ let (m, y) = served t c routes v e in absurd (ground (arith, y, f m))
  ]

  other_method_lem :
      (t : RouteTable Handler Pipeline) (method path c m : Text)
      → canonicalize_http_path path ≡ canonical c
      → route t method c ≡ none
      → is_some (route t m c) ≡ true
      → (ms : List Text) × (lookup t method path ≡ method_not_allowed ms c)
  unfolding lookup
  other_method_lem t method path c m h f y = elim (Option-cases (find_key c t.routes_by_path)) [
    | inl n ↦ absurd (ground (arith, y, no_path t c m n))
    | inr (routes, e) ↦ (routes.allowed_methods, ground (arith, h, e, f))
  ]

  -- A lookup that names allowed methods found the routes of the path, but none for the method.
  record Refusal (t : RouteTable Handler Pipeline) (method path c : Text) (ms : List Text)
      : Type 0 where
    resolved : canonicalize_http_path path ≡ canonical c
    routes : PathRoutes Handler Pipeline
    found : find_key c t.routes_by_path ≡ some routes
    unserved : find_key method routes.by_method ≡ none
    methods : ms ≡ routes.allowed_methods

  lookup-Refusal :
      (t : RouteTable Handler Pipeline) (method path c : Text) (ms : List Text)
      → lookup t method path ≡ method_not_allowed ms c
      → Refusal t method path c ms
  unfolding lookup
  lookup-Refusal t method path c ms h = elim (PathResult-cases (canonicalize_http_path path)) [
    | inl (d, p) ↦ elim (Option-cases (find_key d t.routes_by_path)) [
      | inl n ↦ absurd (ground (arith, h, p, n))
      | inr (routes, e) ↦
          let same : d ≡ c = ground (arith, h, p, e) in
          record {
            resolved = ground (arith, p, same);
            routes = routes;
            found = ground (arith, e, same);
            unserved = ground (arith, h, p, e);
            methods = ground (arith, h, p, e);
          }
    ]
    | inr (x, p) ↦ absurd (ground (arith, h, p))
  ]

  record Missing (t : RouteTable Handler Pipeline) (path c : Text) : Type 0 where
    resolved : canonicalize_http_path path ≡ canonical c
    missing : find_key c t.routes_by_path ≡ none

  lookup-Missing :
      (t : RouteTable Handler Pipeline) (method path c : Text)
      → lookup t method path ≡ not_found c
      → Missing t path c
  unfolding lookup
  lookup-Missing t method path c h = record {
    resolved = ground (arith, h);
    missing = ground (arith, h);
  }

  listed-Answers :
      (t : RouteTable Handler Pipeline) (method path : Text)
      → IsListed t
      → Answers t method path (lookup t method path)
  unfolding lookup
  listed-Answers t method path v = record {
    bad_path = λ e. ground arith;
    hit = lookup-route t method path;
    miss = λ c. (
      λ h. let r = lookup-Missing t method path c h in (r.resolved, λ m. no_path t c m r.missing),
      λ x. miss_lem t method path c v x.0 x.1,
    );
    other_method = λ c. (
      λ x.
          let r = lookup-Refusal t method path c x.0 x.1 in
          (r.resolved, ground (arith, r.found, r.unserved), served t c r.routes v r.found),
      λ x.
          let (resolved, unserved, (m, y)) = x in
          other_method_lem t method path c m resolved unserved y,
    );
    allowed = λ ms c h.
        let r = lookup-Refusal t method path c ms h in
        let l = (v c r.routes r.found).0 in
        rw r.methods
          (record { ascending = l.ascending; same = λ m. ground (arith, r.found, l.same m) });
  }

  -- Whatever entries are offered to a new table, a lookup is invalid exactly if canonicalisation
  -- refuses its path, with the same error. It matches an entry exactly if the table has that entry for
  -- the method and the canonical path. It says `not_found` exactly of a canonical path without an
  -- entry for any method, and `method_not_allowed` exactly of one without an entry for this method
  -- but with one for another. The methods that it then allows are those with an entry for the path,
  -- each once, in ascending order.
  pub lookup-Answers :
      (es : List (RouteEntry Handler Pipeline)) (method path : Text)
      → Answers (add_all empty_table es) method path (lookup (add_all empty_table es) method path)
  lookup-Answers es method path =
      listed-Answers (add_all empty_table es) method path
        (add_all-IsListed empty_table es empty-IsListed)
