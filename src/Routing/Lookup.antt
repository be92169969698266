-- ===== src/Routing/Lookup.antt =====
-- What `RouteTable::add` and `RouteTable::lookup` of src/routing/route_table.cpp promise one another.
use cc_switch_trans.Common.{
  ◌+◌, ◌≡◌, refl, ap, ◌⊎◌, ◌↔◌, inl, inr, true, false, ◌&&◌, Option, none, some, List, [], ◌∷◌,
  ◌++◌, Text, text_eq, text_eq_iff, find_key, put_key, find_key-put_key, empty?, arith,
  if◌then◌else◌, Option-cases,
}
use cc_switch_trans.Core.Url.{PathError, PathResult, canonical, rejected, canonicalize_http_path}
use cc_switch_trans.Routing.{
  RuntimeProfile, RouteEntry, PathRoutes, RouteTable, AddError, AddResult, added, refused, matched,
  valid_method, routes_at, is_reserved, place, add_checked, add, lookup, sort,
}

pub PathResult-cases :
    (r : PathResult) → ((c : Text) × (r ≡ canonical c)) ⊎ ((e : PathError) × (r ≡ rejected e))
PathResult-cases (canonical c) = inl (c, refl)
PathResult-cases (rejected e) = inr (e, refl)

AddResult-cases :
    {Handler Pipeline : Type 0} (r : AddResult Handler Pipeline)
    → ((t : RouteTable Handler Pipeline) × (r ≡ added t)) ⊎ ((e : AddError) × (r ≡ refused e))
AddResult-cases (added t) = inl (t, refl)
AddResult-cases (refused e) = inr (e, refl)

module _ {Handler Pipeline : Type 0} where
  -- The table as a function: the entry for a method and a canonical path.
  abbrev pub route :
      RouteTable Handler Pipeline → Text → Text → Option (RouteEntry Handler Pipeline)
  route t method path = find_key method (routes_at (find_key path t.routes_by_path)).by_method

  -- What an entry that was added has gone through.
  pub record Admitted (t t' : RouteTable Handler Pipeline) (entry : RouteEntry Handler Pipeline)
      : Type 0 where
    pub path : Text
    pub resolved : canonicalize_http_path entry.local_path ≡ canonical path
    pub open_path : is_reserved path ≡ false
    pub method_ok : valid_method entry.method ≡ true
    pub target : (empty? entry.upstream.base_url ≡ false) × (empty? entry.upstream.path ≡ false)
    pub free : route t entry.method path ≡ none
    pub placed :
        (m p : Text)
        → route t' m p ≡ (
            if text_eq entry.method m && text_eq path p
            then some (record entry { local_path = path })
            else route t m p)
    pub counted : t'.size ≡ t.size + 1

  route-place :
      (routes : List (Text × PathRoutes Handler Pipeline)) (path method m p : Text)
      (entry : RouteEntry Handler Pipeline) (methods : List Text)
      → find_key m
          (routes_at (
            find_key p (
              put_key path
                (record {
                  by_method = (method, entry) ∷ (routes_at (find_key path routes)).by_method;
                  allowed_methods = methods;
                })
                routes))).by_method
        ≡ (if text_eq method m && text_eq path p
            then some entry
            else find_key m (routes_at (find_key p routes)).by_method)
  unfolding find_key
  route-place routes path method m p entry methods = ground (
    arith,
    find_key-put_key path p
        (record {
          by_method = (method, entry) ∷ (routes_at (find_key path routes)).by_method;
          allowed_methods = methods;
        })
        routes,
    text_eq_iff path p,
    Option-cases (find_key p routes),
  )

  -- What the checks of `add` leave open.
  pub record Checks (entry : RouteEntry Handler Pipeline) : Type 0 where
    pub path : Text
    pub resolved : canonicalize_http_path entry.local_path ≡ canonical path
    pub open_path : is_reserved path ≡ false
    pub method_ok : valid_method entry.method ≡ true
    pub target : (empty? entry.upstream.base_url ≡ false) × (empty? entry.upstream.path ≡ false)

  place-added :
      (t t' : RouteTable Handler Pipeline) (entry : RouteEntry Handler Pipeline) (id path : Text)
      → place t entry id path ≡ added t'
      → (route t entry.method path ≡ none)
        × ((m p : Text)
            → route t' m p ≡ (
                if text_eq entry.method m && text_eq path p
                then some (record entry { local_path = path })
                else route t m p))
        × (t'.size ≡ t.size + 1)
  unfolding place
  place-added t t' entry id path h = elim (Option-cases (route t entry.method path)) [
    | inl n ↦
        let methods =
          sort
            ((routes_at (find_key path t.routes_by_path)).allowed_methods ++ entry.method ∷ []) in
        let e : t' ≡ record {
          routes_by_path =
              put_key path
                (record {
                  by_method =
                      (entry.method, record entry { local_path = path })
                      ∷ (routes_at (find_key path t.routes_by_path)).by_method;
                  allowed_methods = methods;
                })
                t.routes_by_path;
          size = t.size + 1;
        } =
          ground arith in
        (
          n,
          λ m p. rw e (
              route-place t.routes_by_path path entry.method m p
                (record entry { local_path = path }) methods),
          ap (λ (x : RouteTable Handler Pipeline). x.size) e,
        )
    | inr (x, e) ↦ ground arith
  ]

  pub add_checked-place :
      (t t' : RouteTable Handler Pipeline) (entry : RouteEntry Handler Pipeline) (id : Text)
      → add_checked t entry id ≡ added t'
      → (c : Checks entry) × (place t entry id c.path ≡ added t')
  unfolding add_checked
  add_checked-place t t' entry id h =
      elim (PathResult-cases (canonicalize_http_path entry.local_path)) [
        | inl (c, e) ↦ (
          record {
            path = c;
            resolved = e;
            open_path = ground arith;
            method_ok = ground arith;
            target = ground arith;
          },
          ground arith,
        )
        | inr (x, e) ↦ ground arith
      ]

  pub add-add_checked :
      (t t' : RouteTable Handler Pipeline) (entry : RouteEntry Handler Pipeline)
      → add t entry ≡ added t'
      → (id : Text) × (add_checked t entry id ≡ added t')
  unfolding add
  add-add_checked t t' entry h = elim (Option-cases entry.profile) [
    | inl n ↦ ground arith
    | inr (profile, e) ↦ (profile.id, ground arith)
  ]

  -- An entry that `add` takes has a valid method, a complete upstream target, and a path whose
  -- canonical form is outside the management namespace and was free for that method. From then on
  -- exactly this method and path lead to it, with the canonical path written in, all others lead
  -- where they led, and the size has grown by one.
  pub add-Admitted :
      (t t' : RouteTable Handler Pipeline) (entry : RouteEntry Handler Pipeline)
      → add t entry ≡ added t'
      → Admitted t t' entry
  add-Admitted t t' entry h =
      let (id, e) = add-add_checked t t' entry h in
      let (c, q) = add_checked-place t t' entry id e in
      let (free, placed, counted) = place-added t t' entry id c.path q in
      record {
        path = c.path;
        resolved = c.resolved;
        open_path = c.open_path;
        method_ok = c.method_ok;
        target = c.target;
        free = free;
        placed = placed;
        counted = counted;
      }

  -- An entry that passes the checks is added, if its method and path lead nowhere yet.
  pub add-succeeds :
      (t : RouteTable Handler Pipeline) (entry : RouteEntry Handler Pipeline)
      {profile : RuntimeProfile Handler Pipeline} {handler : Handler} {c : Text}
      → entry.profile ≡ some profile
      → profile.handler ≡ some handler
      → valid_method entry.method ≡ true
      → canonicalize_http_path entry.local_path ≡ canonical c
      → is_reserved c ≡ false
      → empty? entry.upstream.base_url ≡ false
      → empty? entry.upstream.path ≡ false
      → route t entry.method c ≡ none
      → (t' : RouteTable Handler Pipeline) × (add t entry ≡ added t')
  unfolding add add_checked place
  add-succeeds t entry {profile} {handler} {c} p h m k o b u f =
      let r = add t entry in
      elim (AddResult-cases r) [ inl x ↦ x | inr (e, q) ↦ absurd (ground arith) ]

  find_key_nil : (k : Text) → find_key {V = RouteEntry Handler Pipeline} k [] ≡ none
  unfolding find_key
  find_key_nil k = refl

  -- A lookup matches an entry exactly if the table has that entry for the method and the canonical
  -- path.
  pub lookup-route :
      (t : RouteTable Handler Pipeline) (method path : Text) (entry : RouteEntry Handler Pipeline)
      (c : Text)
      → (lookup t method path ≡ matched entry c)
        ↔ ((canonicalize_http_path path ≡ canonical c) × (route t method c ≡ some entry))
  unfolding lookup
  lookup-route t method path entry c = (
    ground (arith, find_key_nil method),
    ground (arith, find_key_nil method, find_key c t.routes_by_path),
  )
