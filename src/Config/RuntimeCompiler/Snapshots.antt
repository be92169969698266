-- ===== src/Config/RuntimeCompiler/Snapshots.antt =====
-- What a snapshot of src/config/runtime_compiler.cpp serves, once it was compiled.
use cc_switch_trans.Common.{
  ◌+◌, ◌≡◌, refl, subst, inl, inr, ◌&&◌, Option, none, some, List, Text, text_eq, text_eq_iff,
  arith, Bool-cases, Option-cases,
}
use cc_switch_trans.Core.Url.{canonical, canonicalize_http_path}
use cc_switch_trans.Routing.{
  RouteEntry, RouteTable, AddResult, add, added, refused, matched, lookup,
}
use cc_switch_trans.Routing.Lookup.{route, add-Admitted, lookup-route}
use cc_switch_trans.Config.Document.{ConfigJson}
use cc_switch_trans.Config.Document.Profiles.{is_some, one_if}
use cc_switch_trans.Protocols.{ProtocolHandler}
use cc_switch_trans.Rules.Pipeline.{CompiledRule}
use cc_switch_trans.Rules.Registry.{refused}
use cc_switch_trans.Config.RuntimeCompiler.{
  Profile, Table, Definition, Outcome, ok, failed, and_then, routes_added, request_route,
  usage_route, add_request, add_usage, with_value,
}

module _ {Handler Pipeline : Type 0} where
  -- A request by this method, for the local path of the entry, leads to the entry.
  pub record IsServed (t : RouteTable Handler Pipeline) (entry : RouteEntry Handler Pipeline)
      : Type 0 where
    pub path : Text
    pub resolved : canonicalize_http_path entry.local_path ≡ canonical path
    pub found : route t entry.method path ≡ some (record entry { local_path = path })

  -- Every route stays.
  pub record Extends (t t' : RouteTable Handler Pipeline) : Type 0 where
    pub stays :
        (m p : Text) (e : RouteEntry Handler Pipeline)
        → route t m p ≡ some e
        → route t' m p ≡ some e

  pub Extends-trans :
      {a b c : RouteTable Handler Pipeline} → Extends a b → Extends b c → Extends a c
  Extends-trans x y = record { stays = λ m p e h. y.stays m p e (x.stays m p e h) }

  pub Extends-refl : (a : RouteTable Handler Pipeline) → Extends a a
  Extends-refl a = record { stays = λ m p e h. h }

  pub IsServed-Extends :
      {t t' : RouteTable Handler Pipeline} {entry : RouteEntry Handler Pipeline}
      → Extends t t'
      → IsServed t entry
      → IsServed t' entry
  IsServed-Extends {entry} x s = record {
    path = s.path;
    resolved = s.resolved;
    found = x.stays entry.method s.path (record entry { local_path = s.path }) s.found;
  }

  -- What an entry that is added leaves.
  record Served (t t' : RouteTable Handler Pipeline) (entry : RouteEntry Handler Pipeline)
      : Type 0 where
    extends : Extends t t'
    served : IsServed t' entry
    counted : t'.size ≡ t.size + 1

  add-Served :
      (t t' : RouteTable Handler Pipeline) (entry : RouteEntry Handler Pipeline)
      → add t entry ≡ added t'
      → Served t t' entry
  add-Served t t' entry h =
      let a = add-Admitted t t' entry h in
      record {
        extends = record {
          stays = λ m p e k. elim (Bool-cases (text_eq entry.method m && text_eq a.path p)) [
            | inl y ↦
                let same : route t entry.method a.path ≡ route t m p =
                  ground (arith, text_eq_iff entry.method m, text_eq_iff a.path p) in
                absurd (ground (arith, a.free))
            | inr n ↦ ground (arith, a.placed m p)
          ];
        };
        served = record {
          path = a.path;
          resolved = a.resolved;
          found = ground (
            arith,
            a.placed entry.method a.path,
            text_eq_iff entry.method entry.method,
            text_eq_iff a.path a.path,
          );
        };
        counted = a.counted;
      }

  pub IsServed-lookup :
      (t : RouteTable Handler Pipeline) (entry : RouteEntry Handler Pipeline) (s : IsServed t entry)
      → lookup t entry.method entry.local_path
        ≡ matched (record entry { local_path = s.path }) s.path
  IsServed-lookup t entry s =
      (lookup-route t entry.method entry.local_path (record entry { local_path = s.path }) s.path).1
        (s.resolved, s.found)

pub and_then-ok :
    {A B : Type 0} (x : Outcome A) (f : A → Outcome B) (b : B)
    → and_then x f ≡ ok b
    → (a : A) × (x ≡ ok a) × (f a ≡ ok b)
and_then-ok (ok a) f b h = (a, refl, h)
and_then-ok (failed e) f b h = cc h

pub with_value-ok :
    {A : Type 0} (x : Option Text) (f : Text → Outcome A) (a : A)
    → with_value x f ≡ ok a
    → (t : Text) × (x ≡ some t) × (f t ≡ ok a)
with_value-ok none f a h = cc h
with_value-ok (some t) f a h = (t, refl, h)

module _ (config : ConfigJson) (Body : Type 0) where
  routes_added-ok :
      (r : AddResult ProtocolHandler (List (CompiledRule Body))) (t : Table config Body)
      → routes_added config Body r ≡ ok t
      → r ≡ added t
  routes_added-ok (added t') t h = cc h
  routes_added-ok (refused e) t h = cc h

  -- The request route of a profile: where it leads from, and where to.
  pub record ServesRequest (profile : Profile config Body) (h : ProtocolHandler)
      (p : Definition config Body) (t : Table config Body) : Type 0 where
    pub path : Text
    pub base : Text
    pub target : Text
    pub path_set : p.local.request_path ≡ some path
    pub base_set : p.upstream.base_url ≡ some base
    pub target_set : p.upstream.request_path ≡ some target
    pub served : IsServed t (request_route config Body profile h path base target)

  pub data ServesUsage (profile : Profile config Body) (h : ProtocolHandler)
      (p : Definition config Body) (t : Table config Body) : Type 0 where
    no_usage : p.local.usage_path ≡ none → ServesUsage profile h p t
    serves_usage :
        (path base target : Text)
        → p.local.usage_path ≡ some path
        → p.upstream.base_url ≡ some base
        → p.upstream.usage_path ≡ some target
        → IsServed t (usage_route config Body profile h path base target)
        → ServesUsage profile h p t

  pub add_request-ServesRequest :
      (profile : Profile config Body) (h : ProtocolHandler) (p : Definition config Body)
      (t t' : Table config Body)
      → add_request config Body profile h p t ≡ ok t'
      → ServesRequest profile h p t'
        × Extends t t'
        × (t'.size ≡ t.size + one_if (is_some p.local.request_path))
  unfolding add_request
  add_request-ServesRequest profile h p t t' e =
      let (path, a, e1) = with_value-ok p.local.request_path _ t' e in
      let (base, b, e2) = with_value-ok p.upstream.base_url _ t' e1 in
      let (target, c, e3) = with_value-ok p.upstream.request_path _ t' e2 in
      let entry = request_route config Body profile h path base target in
      let s = add-Served t t' entry (routes_added-ok (add t entry) t' e3) in
      (
        record {
          path = path;
          base = base;
          target = target;
          path_set = a;
          base_set = b;
          target_set = c;
          served = s.served;
        },
        s.extends,
        rw a s.counted,
      )

  pub add_usage-ServesUsage :
      (profile : Profile config Body) (h : ProtocolHandler) (p : Definition config Body)
      (t t' : Table config Body)
      → add_usage config Body profile h p t ≡ ok t'
      → ServesUsage profile h p t'
        × Extends t t'
        × (t'.size ≡ t.size + one_if (is_some p.local.usage_path))
  unfolding add_usage
  add_usage-ServesUsage profile h p t t' e = elim (Option-cases p.local.usage_path) [
    | inl n ↦
        let same : ok t ≡ ok t' = rw n at e in
        let one : t ≡ t' = cc same in
        (
          no_usage n,
          subst (Extends t) one (Extends-refl t),
          rw n (subst (λ (x : Table config Body). x.size ≡ t.size + 0) one (omega arith)),
        )
    | inr (path, a) ↦
        let e1 : with_value p.upstream.base_url (λ base. with_value p.upstream.usage_path (λ target.
          routes_added config Body (add t (usage_route config Body profile h path base target))))
            ≡ ok t' =
          rw a at e in
        let (base, b, e2) = with_value-ok p.upstream.base_url _ t' e1 in
        let (target, c, e3) = with_value-ok p.upstream.usage_path _ t' e2 in
        let entry = usage_route config Body profile h path base target in
        let s = add-Served t t' entry (routes_added-ok (add t entry) t' e3) in
        (serves_usage path base target a b c s.served, s.extends, rw a s.counted)
  ]
