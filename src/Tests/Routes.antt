-- ===== src/Tests/Routes.antt =====
-- A table with one route (src/routing/route_table.cpp).
use cc_switch_trans.Common.{
  ℕ, ◌≡◌, refl, ◌∷◌, [], true, some, none, codes, text_eq, find_key, put_key,
}
use cc_switch_trans.Core.Url.{
  canonicalize_http_path, canonical, path_loop, path_round, escape_round, decoded_round,
  finish_path, has_double_slash, is_dot_segment, split_on, is_hex, hex_value, upper_hex,
  is_unreserved, ends_with, pop_back,
}
use cc_switch_trans.Core.UpstreamUrl.{is_prefix}
use cc_switch_trans.Routing.{
  RouteEntry, RouteTable, request, empty_table, add, added, lookup, matched, place, add_checked,
  valid_method, is_reserved, sort, insert_sorted,
}
use cc_switch_trans.Routing.Lookup.{Admitted, add-Admitted}
use cc_switch_trans.Routing.Answers.{Answers, lookup-Answers}
use cc_switch_trans.Routing.Namespace.{IsRoute, add_all, lookup-IsRoute}

abbrev entry : RouteEntry ℕ ℕ
entry = record {
  profile =
      some (record {
        id = codes "p";
        handler = some 0;
        source_enabled = true;
        request_pipeline = none;
      });
  kind = request;
  method = codes "POST";
  local_path = codes "/v1/%7euser/";
  upstream = record { base_url = codes "https://a"; path = codes "/b" };
}

abbrev placed : RouteEntry ℕ ℕ
placed = record entry { local_path = codes "/v1/~user" }

abbrev table : RouteTable ℕ ℕ
table = record {
  routes_by_path =
      (
        codes "/v1/~user",
        record { by_method = (codes "POST", placed) ∷ []; allowed_methods = codes "POST" ∷ [] },
      )
      ∷ [];
  size = 1;
}

entry-added : add empty_table entry ≡ added table
unfolding add add_checked place valid_method is_reserved sort insert_sorted find_key put_key
    canonicalize_http_path path_loop path_round escape_round decoded_round finish_path
    has_double_slash is_dot_segment split_on is_hex hex_value upper_hex is_unreserved ends_with
    pop_back text_eq is_prefix
entry-added = refl

add-Admitted_example : Admitted empty_table table entry
add-Admitted_example = add-Admitted empty_table table entry entry-added

lookup-Answers_example :
    Answers
      (add_all empty_table (entry ∷ []))
      (codes "GET")
      (codes "/v1/~user")
      (lookup (add_all empty_table (entry ∷ [])) (codes "GET") (codes "/v1/~user"))
lookup-Answers_example = lookup-Answers (entry ∷ []) (codes "GET") (codes "/v1/~user")

entry-matched :
    lookup (add_all empty_table (entry ∷ [])) (codes "POST") (codes "/v1/%7Euser")
    ≡ matched placed (codes "/v1/~user")
unfolding add_all lookup add add_checked place valid_method is_reserved sort insert_sorted find_key
    put_key canonicalize_http_path path_loop path_round escape_round decoded_round finish_path
    has_double_slash is_dot_segment split_on is_hex hex_value upper_hex is_unreserved ends_with
    pop_back text_eq is_prefix
entry-matched = refl

lookup-IsRoute_example :
    IsRoute (codes "POST") (codes "/v1/~user") placed
    × (canonicalize_http_path (codes "/v1/%7Euser") ≡ canonical (codes "/v1/~user"))
lookup-IsRoute_example =
    lookup-IsRoute (entry ∷ []) (codes "POST") (codes "/v1/%7Euser") (codes "/v1/~user") placed
      entry-matched
