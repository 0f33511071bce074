-- ===== src/Main/Echo.antt =====
-- Which handler answers a request at the router of the program: the default routes, and behind them the one
-- that main registers.
use mathlib.Core.Option
use mathlib.Core.Option.{some-injective}
use http_storm.Common.{
  Bool, true, false, Bytes, codes, equal, equal_iff, find, is_prefix, List, [], ◌∷◌, ◌++◌,
  if◌then◌else◌, Option, none, some, Bool-cases, Option-cases, inl, inr, ◌≡◌, refl, sym, ap, subst,
  ◌∙◌,
}
use http_storm.Http.{HttpMethod, get, HttpRequest, HttpResponse, same_method}
use http_storm.Regex.{regex, read_atoms, regex_match, repeat}
use http_storm.Regex.Literals.{literal-none}
use http_storm.Router.{
  Route, RouteHandler, Router, empty_router, compile_pattern, compile_from, add_route, match_from,
  match, dispatch, bind_params,
}
use http_storm.Static.{FileSystem, StaticFileServer}
use http_storm.Config.{ServerConfig}
use http_storm.Server.Routes.{JsonLibrary, ServerStatus, register_default_routes}
use http_storm.Server.Defaults.{
  chosen, only, literal_route, default_router, answer, register_default_routes-some, all-AnswersAt,
}
use http_storm.Main.{echo_handler, register_echo}

-- A last route that does not match changes nothing.
match_from-append :
    {R : Type 0} (routes : List (Route R)) (last : Route R) (matched : Bool)
    (not_allowed : Option (RouteHandler R)) (method : HttpMethod) (path : Bytes)
    → regex_match last.regex_pattern path ≡ none
    → match_from (routes ++ last ∷ []) matched not_allowed method path
      ≡ match_from routes matched not_allowed method path
unfolding match_from
match_from-append [] last matched not_allowed method path e = rw (e, match_from) refl
match_from-append (route ∷ routes) last matched not_allowed method path e =
    let rest = match_from-append routes last matched not_allowed method path e in
    let noted = match_from-append routes last true not_allowed method path e in
    elim (Option-cases (regex_match route.regex_pattern path)) [
      | inl f ↦ rw (f, match_from) rest
      | inr (cs, f) ↦ elim (Bool-cases (same_method route.method method)) [
        | inl g ↦ rw (f, match_from, g) refl
        | inr g ↦ rw (f, match_from, g) noted
      ]
    ]

module _ {J : Type 0} (json : JsonLibrary J) (fs : FileSystem) (files : StaticFileServer)
    (config : ServerConfig) (status : ServerStatus) where
  -- what the program registers
  abbrev pub registered : Option (Router (Option HttpResponse))
  registered =
      Option.bind
        (register_default_routes json fs files config status (empty_router (Option HttpResponse)))
        (register_echo json)

  abbrev pub answers : HttpMethod → Bytes → RouteHandler (Option HttpResponse)
  answers method path =
      if equal (codes "/api/echo") path
      then only json fs files config status get (echo_handler json) method
      else chosen json fs files config status method path

  abbrev echo_route : Route (Option HttpResponse)
  echo_route = literal_route json fs files config status get (codes "/api/echo") (echo_handler json)

  abbrev full_router : Router (Option HttpResponse)
  full_router =
      let router = default_router json fs files config status in
      record router { routes = router.routes ++ echo_route ∷ [] }

  register_echo-some :
      register_echo json (default_router json fs files config status) ≡ some full_router
  unfolding register_echo add_route regex compile_pattern compile_from read_atoms is_prefix find
  register_echo-some = refl

  registered-some : registered ≡ some full_router
  unfolding Option.bind
  registered-some =
      ap (λ r. Option.bind r (register_echo json))
        (register_default_routes-some json fs files config status)
      ∙ register_echo-some

  abbrev full_answer : HttpMethod → Bytes → HttpRequest → Option HttpResponse
  full_answer method path request =
      answer json fs files config status (match full_router method path) request

  echo-answers :
      (method : HttpMethod) (request : HttpRequest)
      → full_answer method (codes "/api/echo") request ≡ answers method (codes "/api/echo") request
  unfolding match match_from regex_match equal bind_params repeat
  echo-answers method request = elim (Bool-cases (same_method get method)) [
    | inl h ↦ rw h refl
    | inr h ↦ rw h refl
  ]

  other-answers :
      (method : HttpMethod) (path : Bytes) (request : HttpRequest)
      → equal (codes "/api/echo") path ≡ false
      → full_answer method path request ≡ answers method path request
  unfolding match
  other-answers method path request e =
      let router = default_router json fs files config status in
      let same =
        match_from-append router.routes echo_route false router.method_not_allowed_handler method
          path (literal-none (codes "/api/echo") path e) in
      ap (λ m. answer json fs files config status m request) same
      ∙ all-AnswersAt json fs files config status path method request
      ∙ sym (rw e refl)

  full-answers :
      (path : Bytes) (method : HttpMethod) (request : HttpRequest)
      → full_answer method path request ≡ answers method path request
  full-answers path method request = elim (Bool-cases (equal (codes "/api/echo") path)) [
    | inl e ↦
        subst (λ p. full_answer method p request ≡ answers method p request)
          ((equal_iff _ path).0 e) (echo-answers method request)
    | inr e ↦ other-answers method path request e
  ]

  -- The routes of register_default_routes and main are all accepted, and the router answers as their table says:
  -- by path alone which handler, GET for every path but /api/data, which takes POST, the 405 handler for every
  -- other method, HEAD included, and the 404 handler for every other path; what a handler throws is thrown on.
  pub registered-answers :
      (request : HttpRequest)
      → (router : Router (Option HttpResponse)) × (registered ≡ some router)
        × (dispatch some router request ≡ answers request.method request.path request)
  unfolding dispatch
  registered-answers request =
      (full_router, registered-some, full-answers request.path request.method request)
