-- ===== src/Core/UpstreamUrl/Join.antt =====
-- What `join_url_path` of src/core/url.cpp makes of the path of an upstream and that of a route.
use mathlib.Core.List.{append_assoc, append-nil}
use cc_switch_trans.Common.{
  ◌≢◌, ◌≡◌, ◌∙◌, ap, sym, refl, inl, inr, not, ◌&&◌, [], ◌∷◌, ◌++◌, Text, empty?, ◌==◌,
  if◌then◌else◌, arith, Bool-cases,
}
use cc_switch_trans.Core.Url.{ends_with, pop_back, begins_with, join_url_path}
use cc_switch_trans.Core.Url.Canonical.{pop_back-append}

-- A base path without one slash at its end, a route without one at its start.
abbrev base_of : Text → Text
base_of base = if ends_with b'/' base then pop_back base else base

abbrev route_of : Text → Text
route_of [] = []
route_of (a ∷ route) = if a == b'/' then route else a ∷ route

abbrev query_part : Text → Text
query_part [] = []
query_part (a ∷ query) = b'?' ∷ a ∷ query

-- The path before the query.
abbrev joined : Text → Text → Text
joined path route =
    if ends_with b'/' path && begins_with b'/' route
    then pop_back path
    else if not (ends_with b'/' path) && not (begins_with b'/' route)
    then path ++ b'/' ∷ []
    else path

joined_lem :
    (path route : Text) → joined path route ++ route ≡ base_of path ++ (b'/' ∷ route_of route)
joined_lem path [] = elim (Bool-cases (ends_with b'/' path)) [
  | inl e ↦ ground (arith, pop_back-append b'/' path e, append-nil path)
  | inr e ↦ ground (arith, append-nil (path ++ b'/' ∷ []))
]
joined_lem path (a ∷ route) = elim (Bool-cases (ends_with b'/' path)) [
  | inl e ↦
      ground
        (arith, pop_back-append b'/' path e, append_assoc (pop_back path) (b'/' ∷ []) (a ∷ route))
  | inr e ↦ ground (arith, append_assoc path (b'/' ∷ []) (a ∷ route))
]

with_query :
    (full query : Text)
    → (if empty? query then full else full ++ b'?' ∷ query) ≡ full ++ query_part query
with_query full [] = sym (append-nil full)
with_query full (a ∷ query) = refl

-- Whatever slashes stand at the joint, the joined path has one there, and a query behind it only
-- where one is given. (An empty base path counts as "/".)
join_url_path_lem :
    (base route query : Text)
    → base ≢ []
    → join_url_path base route query ≡ base_of base ++ (b'/' ∷ (route_of route ++ query_part query))
unfolding join_url_path
join_url_path_lem [] route query n = absurd (n refl)
join_url_path_lem (a ∷ base) route query n =
    with_query (joined (a ∷ base) route ++ route) query
    ∙ ap (λ (k : Text). k ++ query_part query) (joined_lem (a ∷ base) route)
    ∙ append_assoc (base_of (a ∷ base)) (b'/' ∷ route_of route) (query_part query)
