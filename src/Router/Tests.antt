-- ===== src/Router/Tests.antt =====
-- Two routes in the router of HTTP SERVER/HTTP Server/src/router.cpp.
use http_storm.Common.{
  insert, Dict, Bytes, [], ◌∷◌, ◌++◌, ℕ, codes, if◌then◌else◌, Option, none, some, All, ◌⊎◌, ◌≡◌,
  refl,
}
use http_storm.Http.{HttpRequest, HttpResponse, empty_request, empty_response}
use http_storm.Regex.{regex, regex_match, read_atoms}
use http_storm.Common.{is_prefix, find}
use http_storm.Router.{
  RouteHandler, RouteMatch, Router, empty_router, add_get, add_post, set_not_found_handler,
  set_method_not_allowed_handler, dispatch, compile_pattern, compile_from, add_route, match,
  match_from, bind_params,
}
use http_storm.Router.Patterns.{template, regex-compile_pattern}
use http_storm.Router.Shifts.{match-add_route}
use http_storm.Router.Selection.{Serves, Selected, knows_path, dispatch-first}

-- a handler by what it answers
abbrev answers : ℕ → RouteHandler HttpResponse
answers code request = record empty_response { status_code = code }

-- the router with the route, if its regex compiles
abbrev kept : Router HttpResponse → Option (Router HttpResponse) → Router HttpResponse
kept before none = before
kept before (some after) = after

abbrev one_route : Router HttpResponse
one_route =
    kept (empty_router HttpResponse)
      (add_get (codes "/users/:id") (answers 200) (empty_router HttpResponse))

abbrev two_routes : Router HttpResponse
two_routes = set_method_not_allowed_handler (answers 405) (
    set_not_found_handler (answers 404)
      (kept one_route (add_post (codes "/users") (answers 201) one_route)))

abbrev users_get : HttpRequest
users_get = record empty_request { path = codes "/users" }

dispatch-first_example :
    ((found : RouteMatch HttpResponse) × Selected users_get.method users_get.path two_routes.routes
        found
      × (dispatch (λ r. r) two_routes users_get ≡ found.handler users_get))
    ⊎ (All (λ r. ¬ Serves users_get.method users_get.path r) two_routes.routes
        × (dispatch (λ r. r) two_routes users_get ≡ (
            if knows_path users_get.method users_get.path two_routes.routes
            then answers 405 users_get
            else answers 404 users_get)))
unfolding set_not_found_handler set_method_not_allowed_handler
dispatch-first_example =
    dispatch-first two_routes (λ r. r) users_get (answers 404) (answers 405) refl refl

regex-compile_pattern_example :
    regex (compile_pattern (codes "/a.b/:id/*")).text ≡ some (template (codes "/a.b/:id/*"))
regex-compile_pattern_example =
    regex-compile_pattern (codes "/a.b/:id/*")
      (refl, (refl, (refl, (refl, (refl, (refl, (refl, (refl, (refl, (refl, tt))))))))))

-- what `GET /d/*/:id` finds for /d/a/b
abbrev wild_route : Router HttpResponse
wild_route =
    kept (empty_router HttpResponse)
      (add_get (codes "/d/*/:id") (answers 200) (empty_router HttpResponse))

abbrev id_bound : Dict Bytes
id_bound = (codes "id", codes "a") ∷ []

match-add_route_example :
    (taken : Bytes) × (last : Bytes) × (codes "/d/a/b" ≡ codes "/d/" ++ taken ++ b'/' ∷ last)
    × (id_bound ≡ (codes "id", taken) ∷ [])
unfolding add_route compile_pattern compile_from regex read_atoms is_prefix find match match_from
    regex_match bind_params insert
match-add_route_example =
    match-add_route (codes "/d/") (codes "id") (answers 200) (refl, (refl, (refl, tt)))
      (refl, (refl, tt)) wild_route refl (codes "/d/a/b")
      (record { handler = answers 200; params = id_bound }) refl
