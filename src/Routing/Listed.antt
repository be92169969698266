-- ===== src/Routing/Listed.antt =====
-- What `RouteTable::add` of src/routing/route_table.cpp keeps of the methods that a path allows.
use cc_switch_trans.Common.{
  ◌≡◌, refl, sym, inl, inr, Bool, true, false, Option, none, some, List, [], ◌∷◌, Text, text_eq,
  text_eq_iff, text_eq_refl, find_key, put_key, find_key-put_key, arith, Option-cases, Bool-cases,
}
use cc_switch_trans.Routing.{
  RouteEntry, PathRoutes, RouteTable, AddResult, added, refused, routes_at, empty_table, place, add,
}
use cc_switch_trans.Routing.Lookup.{route, add-add_checked, add_checked-place}
use cc_switch_trans.Routing.Methods.{
  has_method, IsAscending, with_method, has_method-with_method, with_method-IsAscending,
}
use cc_switch_trans.Routing.Namespace.{after, add_all}

abbrev pub is_some : {A : Type 0} → Option A → Bool
is_some none = false
is_some (some a) = true

module _ {Handler Pipeline : Type 0} where
  -- The methods that a path allows are those with an entry, in ascending order.
  pub record Lists (routes : PathRoutes Handler Pipeline) : Type 0 where
    pub ascending : IsAscending routes.allowed_methods
    pub same :
        (m : Text) → has_method m routes.allowed_methods ≡ is_some (find_key m routes.by_method)

  -- A path that the table has has a method.
  pub record IsServed (routes : PathRoutes Handler Pipeline) : Type 0 where
    pub method : Text
    pub entry : RouteEntry Handler Pipeline
    pub found : find_key method routes.by_method ≡ some entry

  abbrev pub IsListed : RouteTable Handler Pipeline → Type 0
  IsListed t =
      (c : Text) (routes : PathRoutes Handler Pipeline)
      → find_key c t.routes_by_path ≡ some routes
      → Lists routes × IsServed routes

  -- The routes of a path with one more.
  abbrev extended :
      PathRoutes Handler Pipeline → RouteEntry Handler Pipeline → PathRoutes Handler Pipeline
  extended routes entry = record {
    by_method = (entry.method, entry) ∷ routes.by_method;
    allowed_methods = with_method routes.allowed_methods entry.method;
  }

  extended-Lists :
      (routes : PathRoutes Handler Pipeline) (entry : RouteEntry Handler Pipeline)
      → find_key entry.method routes.by_method ≡ none
      → Lists routes
      → Lists (extended routes entry)
  unfolding find_key
  extended-Lists routes entry free v = record {
    ascending =
        with_method-IsAscending entry.method routes.allowed_methods
          (ground (arith, free, v.same entry.method)) v.ascending;
    same = λ m. ground (
      arith,
      has_method-with_method m entry.method routes.allowed_methods,
      v.same m,
      text_eq_iff m entry.method,
      text_eq_iff entry.method m,
    );
  }

  extended-IsServed :
      (routes : PathRoutes Handler Pipeline) (entry : RouteEntry Handler Pipeline)
      → IsServed (extended routes entry)
  unfolding find_key
  extended-IsServed routes entry = record {
    method = entry.method;
    entry = entry;
    found = ground (arith, text_eq_refl entry.method);
  }

  routes_at-Lists :
      (t : RouteTable Handler Pipeline) (c : Text)
      → IsListed t
      → Lists (routes_at (find_key c t.routes_by_path))
  unfolding find_key
  routes_at-Lists t c v = elim (Option-cases (find_key c t.routes_by_path)) [
    | inl n ↦ rw n (record { ascending = tt; same = λ m. refl })
    | inr (routes, e) ↦ rw e (v c routes e).0
  ]

  -- What `add` writes into the table.
  record Written (t t' : RouteTable Handler Pipeline) : Type 0 where
    path : Text
    entry : RouteEntry Handler Pipeline
    free : find_key entry.method (routes_at (find_key path t.routes_by_path)).by_method ≡ none
    table :
        t'.routes_by_path
        ≡ put_key path
            (extended (routes_at (find_key path t.routes_by_path)) entry)
            t.routes_by_path

  place-Written :
      (t t' : RouteTable Handler Pipeline) (entry : RouteEntry Handler Pipeline) (id path : Text)
      → place t entry id path ≡ added t'
      → Written t t'
  unfolding place
  place-Written t t' entry id path h = elim (Option-cases (route t entry.method path)) [
    | inl n ↦ record {
      path = path;
      entry = record entry { local_path = path };
      free = n;
      table = ground (arith, h, n);
    }
    | inr (x, e) ↦ absurd (ground (arith, h, e))
  ]

  add-Written :
      (t t' : RouteTable Handler Pipeline) (entry : RouteEntry Handler Pipeline)
      → add t entry ≡ added t'
      → Written t t'
  add-Written t t' entry h =
      let (id, e) = add-add_checked t t' entry h in
      let (c, q) = add_checked-place t t' entry id e in place-Written t t' entry id c.path q

  Written-IsListed : (t t' : RouteTable Handler Pipeline) → Written t t' → IsListed t → IsListed t'
  Written-IsListed t t' w v c routes h =
      let old = routes_at (find_key w.path t.routes_by_path) in
      let new = extended old w.entry in
      let put = find_key-put_key w.path c new t.routes_by_path in
      elim (Bool-cases (text_eq w.path c)) [
        | inl y ↦
            let e : new ≡ routes = ground (arith, h, y, put, w.table) in
            rw (sym e) (
              extended-Lists old w.entry w.free (routes_at-Lists t w.path v),
              extended-IsServed old w.entry,
            )
        | inr n ↦ v c routes (ground (arith, h, n, put, w.table))
      ]

  after-IsListed :
      (t : RouteTable Handler Pipeline) (e : RouteEntry Handler Pipeline)
      (r : AddResult Handler Pipeline)
      → add t e ≡ r
      → IsListed t
      → IsListed (after t r)
  after-IsListed t e (added t') h v = Written-IsListed t t' (add-Written t t' e h) v
  after-IsListed t e (refused x) h v = v

  pub add_all-IsListed :
      (t : RouteTable Handler Pipeline) (es : List (RouteEntry Handler Pipeline))
      → IsListed t
      → IsListed (add_all t es)
  unfolding add_all
  add_all-IsListed t [] v = v
  add_all-IsListed t (e ∷ es) v =
      add_all-IsListed (after t (add t e)) es (after-IsListed t e (add t e) refl v)

  pub empty-IsListed : IsListed empty_table
  unfolding find_key
  empty-IsListed c routes h = cc h
