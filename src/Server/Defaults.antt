-- ===== src/Server/Defaults.antt =====
-- Which handler answers a request at the router that register_default_routes sets up.
use mathlib.Core.Option
use mathlib.Core.Option.{some-injective}
use http_storm.Common.{
  Bool, true, false, Bytes, codes, List, [], ◌∷◌, ◌++◌, if◌then◌else◌, Option, none, some, map,
  equal, equal_iff, is_prefix, find, Bool-cases, inl, inr, ◌≡◌, refl, subst,
}
use http_storm.Http.{HttpMethod, get, post, HttpRequest, HttpResponse, same_method}
use http_storm.Regex.{Atom, lit, wildcard, regex, read_atoms, regex_match, repeat}
use http_storm.Regex.Literals.{is_under, literal-none, static-none, regex_match-static}
use http_storm.Router.{
  Route, RouteHandler, RouteMatch, Router, empty_router, compile_pattern, compile_from, add_route,
  set_not_found_handler, set_method_not_allowed_handler, match_from, match, bind_params,
}
use http_storm.Static.{FileSystem, StaticFileServer}
use http_storm.Config.{ServerConfig}
use http_storm.Server.Routes.{
  JsonLibrary, ServerStatus, root_handler, health_handler, status_handler, data_handler,
  static_handler, default_not_found, default_not_allowed, register_default_routes,
}

-- a handler for one method, and the one for the others
module _ {J : Type 0} (json : JsonLibrary J) (fs : FileSystem) (files : StaticFileServer)
    (config : ServerConfig) (status : ServerStatus) where
  abbrev pub only :
      HttpMethod
      → RouteHandler (Option HttpResponse)
      → HttpMethod
      → RouteHandler (Option HttpResponse)
  only allowed handler method =
      if same_method allowed method then handler else default_not_allowed json

  -- The table of the default routes.
  abbrev pub chosen : HttpMethod → Bytes → RouteHandler (Option HttpResponse)
  chosen method path =
      if equal (codes "/") path
      then only get (root_handler json) method
      else if equal (codes "/health") path
      then only get (health_handler json status) method
      else if equal (codes "/api/status") path
      then only get (status_handler json config status) method
      else if equal (codes "/api/data") path
      then only post (data_handler json status) method
      else if is_under (codes "/static/") path
      then only get (static_handler json fs files) method
      else default_not_found json

  abbrev pub route_of :
      HttpMethod
      → Bytes
      → List Atom
      → RouteHandler (Option HttpResponse)
      → Bool
      → Route (Option HttpResponse)
  route_of method pattern atoms handler parametric = record {
    method = method;
    pattern = pattern;
    regex_pattern = atoms;
    param_names = [];
    handler = handler;
    is_parametric = parametric;
  }

  abbrev pub literal_route :
      HttpMethod → Bytes → RouteHandler (Option HttpResponse) → Route (Option HttpResponse)
  literal_route method pattern handler = route_of method pattern (map lit pattern) handler false

  abbrev pub static_route : Route (Option HttpResponse)
  static_route =
      route_of get (codes "/static/*") (map lit (codes "/static/") ++ wildcard ∷ [])
        (static_handler json fs files) true

  abbrev pub default_router : Router (Option HttpResponse)
  default_router = record {
    routes =
        literal_route get (codes "/") (root_handler json)
        ∷ literal_route get (codes "/health") (health_handler json status)
        ∷ literal_route get (codes "/api/status") (status_handler json config status)
        ∷ literal_route post (codes "/api/data") (data_handler json status)
        ∷ static_route
        ∷ [];
    not_found_handler = some (default_not_found json);
    method_not_allowed_handler = some (default_not_allowed json);
  }

  pub register_default_routes-some :
      register_default_routes json fs files config status (empty_router (Option HttpResponse))
      ≡ some default_router
  unfolding register_default_routes add_route regex compile_pattern compile_from read_atoms
      is_prefix find set_not_found_handler set_method_not_allowed_handler Option.bind
  register_default_routes-some = refl

  abbrev pub answer : Option (RouteMatch (Option HttpResponse)) → RouteHandler (Option HttpResponse)
  answer found request = elim found [
    | some result ↦ result.handler request
    | none ↦ default_not_found json request
  ]

  -- what the router answers at a path of the table
  abbrev pub AnswersAt : Bytes → Type 0
  AnswersAt path =
      (method : HttpMethod) (request : HttpRequest)
      → answer (match default_router method path) request ≡ chosen method path request

  root-AnswersAt : AnswersAt (codes "/")
  unfolding match match_from regex_match equal bind_params repeat
  root-AnswersAt method request = elim (Bool-cases (same_method get method)) [
    | inl h ↦ rw h refl
    | inr h ↦ rw h refl
  ]

  health-AnswersAt : AnswersAt (codes "/health")
  unfolding match match_from regex_match equal bind_params repeat
  health-AnswersAt method request = elim (Bool-cases (same_method get method)) [
    | inl h ↦ rw h refl
    | inr h ↦ rw h refl
  ]

  status-AnswersAt : AnswersAt (codes "/api/status")
  unfolding match match_from regex_match equal bind_params repeat
  status-AnswersAt method request = elim (Bool-cases (same_method get method)) [
    | inl h ↦ rw h refl
    | inr h ↦ rw h refl
  ]

  data-AnswersAt : AnswersAt (codes "/api/data")
  unfolding match match_from regex_match equal bind_params repeat
  data-AnswersAt method request = elim (Bool-cases (same_method post method)) [
    | inl h ↦ rw h refl
    | inr h ↦ rw h refl
  ]

  -- Off the four paths, the router comes to the static files.
  other-AnswersAt :
      (path : Bytes)
      → equal (codes "/") path ≡ false
      → equal (codes "/health") path ≡ false
      → equal (codes "/api/status") path ≡ false
      → equal (codes "/api/data") path ≡ false
      → AnswersAt path
  unfolding match match_from bind_params
  other-AnswersAt path e1 e2 e3 e4 method request =
      let passed : match default_router method path
          ≡ match_from (static_route ∷ []) false default_router.method_not_allowed_handler method
              path =
        rw
          (
            match_from,
            literal-none (codes "/") path e1,
            match_from,
            literal-none (codes "/health") path e2,
            match_from,
            literal-none (codes "/api/status") path e3,
            match_from,
            literal-none (codes "/api/data") path e4,
          )
          refl in
      let found = regex_match-static (codes "/static/") path in
      elim (Bool-cases (is_under (codes "/static/") path)) [
        | inr e ↦
            rw (passed, match_from, static-none (codes "/static/") path e, e, e1, e2, e3, e4) refl
        | inl e ↦ elim (Bool-cases (same_method get method)) [
          | inl h ↦ rw (passed, match_from, found, e, h, e1, e2, e3, e4) refl
          | inr h ↦ rw (passed, match_from, found, e, h, e1, e2, e3, e4) refl
        ]
      ]

  pub all-AnswersAt : (path : Bytes) → AnswersAt path
  all-AnswersAt path = elim (Bool-cases (equal (codes "/") path)) [
    | inl e ↦ subst AnswersAt ((equal_iff _ path).0 e) root-AnswersAt
    | inr e1 ↦ elim (Bool-cases (equal (codes "/health") path)) [
      | inl e ↦ subst AnswersAt ((equal_iff _ path).0 e) health-AnswersAt
      | inr e2 ↦ elim (Bool-cases (equal (codes "/api/status") path)) [
        | inl e ↦ subst AnswersAt ((equal_iff _ path).0 e) status-AnswersAt
        | inr e3 ↦ elim (Bool-cases (equal (codes "/api/data") path)) [
          | inl e ↦ subst AnswersAt ((equal_iff _ path).0 e) data-AnswersAt
          | inr e4 ↦ other-AnswersAt path e1 e2 e3 e4
        ]
      ]
    ]
  ]
