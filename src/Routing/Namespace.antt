-- ===== src/Routing/Namespace.antt =====
-- The routes of a whole table (src/routing/route_table.cpp), however it was filled.
use cc_switch_trans.Common.{
  ◌≡◌, refl, inl, inr, true, false, ◌&&◌, some, List, [], ◌∷◌, Text, text_eq, text_eq_iff, find_key,
  arith, Bool-cases,
}
use cc_switch_trans.Core.Url.{canonical, canonicalize_http_path}
use cc_switch_trans.Routing.{
  RouteEntry, RouteTable, AddResult, added, refused, matched, empty_table, is_reserved,
  valid_method, add, lookup,
}
use cc_switch_trans.Routing.Lookup.{route, Admitted, add-Admitted, lookup-route}

module _ {Handler Pipeline : Type 0} where
  abbrev pub after :
      RouteTable Handler Pipeline → AddResult Handler Pipeline → RouteTable Handler Pipeline
  after t (added t') = t'
  after t (refused e) = t

  -- One `add` for each entry; a refused one leaves the table as it was.
  unfoldable pub add_all :
      RouteTable Handler Pipeline → List (RouteEntry Handler Pipeline) → RouteTable Handler Pipeline
  add_all t [] = t
  add_all t (e ∷ es) = add_all (after t (add t e)) es

  -- What holds of an entry that a method and a path lead to.
  pub record IsRoute (method path : Text) (entry : RouteEntry Handler Pipeline) : Type 0 where
    pub own_method : entry.method ≡ method
    pub own_path : entry.local_path ≡ path
    pub token : valid_method method ≡ true
    pub open_path : is_reserved path ≡ false

  abbrev IsSound : RouteTable Handler Pipeline → Type 0
  IsSound t = (m p : Text) (e : RouteEntry Handler Pipeline) → route t m p ≡ some e → IsRoute m p e

  Admitted-IsSound :
      (t t' : RouteTable Handler Pipeline) (entry : RouteEntry Handler Pipeline)
      → Admitted t t' entry
      → IsSound t
      → IsSound t'
  Admitted-IsSound t t' entry a v m p e h =
      elim (Bool-cases (text_eq entry.method m && text_eq a.path p)) [
        | inl y ↦
            let new : some (record entry { local_path = a.path }) ≡ some e =
              ground (arith, a.placed m p) in
            record {
              own_method = ground (arith, text_eq_iff entry.method m);
              own_path = ground (arith, text_eq_iff a.path p);
              token = ground (arith, text_eq_iff entry.method m, a.method_ok);
              open_path = ground (arith, text_eq_iff a.path p, a.open_path);
            }
        | inr n ↦ v m p e (ground (arith, a.placed m p))
      ]

  after-IsSound :
      (t : RouteTable Handler Pipeline) (e : RouteEntry Handler Pipeline)
      (r : AddResult Handler Pipeline)
      → add t e ≡ r
      → IsSound t
      → IsSound (after t r)
  after-IsSound t e (added t') h v = Admitted-IsSound t t' e (add-Admitted t t' e h) v
  after-IsSound t e (refused x) h v = v

  add_all-IsSound :
      (t : RouteTable Handler Pipeline) (es : List (RouteEntry Handler Pipeline))
      → IsSound t
      → IsSound (add_all t es)
  unfolding add_all
  add_all-IsSound t [] v = v
  add_all-IsSound t (e ∷ es) v =
      add_all-IsSound (after t (add t e)) es (after-IsSound t e (add t e) refl v)

  empty-IsSound : IsSound empty_table
  unfolding find_key
  empty-IsSound m p e h = cc

  -- Whatever entries are offered to a new table, a request that it matches got there by its own
  -- method and its own canonical path, and that path is outside the management namespace.
  pub lookup-IsRoute :
      (es : List (RouteEntry Handler Pipeline)) (method path c : Text)
      (entry : RouteEntry Handler Pipeline)
      → lookup (add_all empty_table es) method path ≡ matched entry c
      → IsRoute method c entry × (canonicalize_http_path path ≡ canonical c)
  lookup-IsRoute es method path c entry h =
      let (resolved, found) = (lookup-route (add_all empty_table es) method path entry c).0 h in
      (add_all-IsSound empty_table es empty-IsSound method c entry found, resolved)
