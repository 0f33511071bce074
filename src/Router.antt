-- ===== src/Router.antt =====
-- Router of HTTP SERVER/HTTP Server/src/router.cpp. Handlers run in a monad of the caller's:
-- `R` is what a handler returns.
pub mod Patterns
pub mod Selection
pub mod Shifts
mod Tests
use http_storm.Common.{
  ℕ, zero, suc, Bool, true, false, not, ◌&&◌, ◌||◌, Bytes, codes, Dict, insert, List, [], ◌∷◌, ◌++◌,
  ◌==◌, if◌then◌else◌, Option, none, some, find,
}
use http_storm.Http.{
  HttpMethod, get, post, put, delete, patch, options, HttpRequest, HttpResponse, same_method,
  empty_response, set_json_body,
}
use http_storm.Regex.{Atom, Captures, regex, regex_match}

-- The source text of the regex, and the names of the parameters.
pub record Compiled : Type 0 where
  pub text : Bytes
  pub names : List Bytes

abbrev prepend : Bytes → Compiled → Compiled
prepend text c = record c { text = text ++ c.text }

abbrev prepend_name : Bytes → Compiled → Compiled
prepend_name name c = record c { names = name ∷ c.names }

abbrev ends_name : ℕ → Bool
ends_name c = c == b'/' || c == b'.'

-- What the loop appends for a character that begins no parameter.
abbrev translate : ℕ → Bytes
translate c =
    if c == b'*'
    then codes "(.*)"
    else if c == b'.'
    then codes "\\."
    else if c == b'?'
    then codes "\\?"
    else c ∷ []

-- The loop of `compile_pattern`; `some name` while the inner loop reads a parameter's name.
unfoldable pub compile_from : Option Bytes → Bytes → Compiled
compile_from none [] = record { text = codes "$"; names = [] }
compile_from (some name) [] = record { text = codes "$"; names = name ∷ [] }
compile_from none (c ∷ cs) =
    let parameter = prepend (codes "([^/]+)") (compile_from (some []) cs) in
    let other = prepend (translate c) (compile_from none cs) in
    if c == b':' then parameter else other
compile_from (some name) (c ∷ cs) =
    let longer = compile_from (some (name ++ c ∷ [])) cs in
    let closed = prepend_name name (prepend (translate c) (compile_from none cs)) in
    if ends_name c then closed else longer

unfoldable pub compile_pattern : Bytes → Compiled
compile_pattern pattern = prepend (codes "^") (compile_from none pattern)

module _ {ℓ} (R : Type ℓ) where
  abbrev pub RouteHandler : Type ℓ
  RouteHandler = HttpRequest → R

  pub record Route : Type ℓ where
    pub method : HttpMethod
    pub pattern : Bytes
    pub regex_pattern : List Atom
    pub param_names : List Bytes
    pub handler : RouteHandler
    pub is_parametric : Bool

  pub record RouteMatch : Type ℓ where
    pub handler : RouteHandler
    pub params : Dict Bytes

  -- A std::function that is empty is `none`.
  pub record Router : Type ℓ where
    pub routes : List Route
    pub not_found_handler : Option RouteHandler
    pub method_not_allowed_handler : Option RouteHandler

  abbrev pub empty_router : Router
  empty_router = record { routes = []; not_found_handler = none; method_not_allowed_handler = none }

abbrev has_names : List Bytes → Bool
has_names [] = false
has_names (n ∷ ns) = true

abbrev is_found : Option ℕ → Bool
is_found none = false
is_found (some i) = true

-- `params[names[i]] = match[i + 1]`, as long as there are names and groups
unfoldable pub bind_params : List Bytes → Captures → Dict Bytes → Dict Bytes
bind_params [] cs params = params
bind_params (n ∷ ns) [] params = params
bind_params (n ∷ ns) (c ∷ cs) params = bind_params ns cs (insert n c params)

abbrev pub not_found_response : HttpResponse
not_found_response =
    set_json_body (codes "{\"error\":\"Not Found\",\"code\":404}")
      (record empty_response { status_code = 404; status_message = codes "Not Found" })

module _ {ℓ} {R : Type ℓ} where
  -- `none` where the pattern is no regex of the modelled syntax.
  unfoldable pub add_route : HttpMethod → Bytes → RouteHandler R → Router R → Option (Router R)
  add_route method pattern handler router = elim (regex (compile_pattern pattern).text) [
    | none ↦ none
    | some atoms ↦ some (record router {
      routes =
          router.routes
          ++ (record {
            method = method;
            pattern = pattern;
            regex_pattern = atoms;
            param_names = (compile_pattern pattern).names;
            handler = handler;
            is_parametric =
                has_names (compile_pattern pattern).names || is_found (find b'*' pattern);
          })
            ∷ [];
    })
  ]

  -- Router::get, post, put, del, patch and options
  abbrev pub add_get : Bytes → RouteHandler R → Router R → Option (Router R)
  add_get = add_route get

  abbrev pub add_post : Bytes → RouteHandler R → Router R → Option (Router R)
  add_post = add_route post

  abbrev pub add_put : Bytes → RouteHandler R → Router R → Option (Router R)
  add_put = add_route put

  abbrev pub add_del : Bytes → RouteHandler R → Router R → Option (Router R)
  add_del = add_route delete

  abbrev pub add_patch : Bytes → RouteHandler R → Router R → Option (Router R)
  add_patch = add_route patch

  abbrev pub add_options : Bytes → RouteHandler R → Router R → Option (Router R)
  add_options = add_route options

  unfoldable pub set_not_found_handler : RouteHandler R → Router R → Router R
  set_not_found_handler h router = record router { not_found_handler = some h }

  unfoldable pub set_method_not_allowed_handler : RouteHandler R → Router R → Router R
  set_method_not_allowed_handler h router = record router { method_not_allowed_handler = some h }

  -- What is left when no route is chosen; the flag is `method_matched`.
  abbrev pub fall_through : Bool → Option (RouteHandler R) → Option (RouteMatch R)
  fall_through false h = none
  fall_through true none = none
  fall_through true (some h) = some (record { handler = h; params = [] })

  -- The loop of `match`.
  unfoldable pub match_from :
      List (Route R) → Bool → Option (RouteHandler R) → HttpMethod → Bytes → Option (RouteMatch R)
  match_from [] method_matched not_allowed method path = fall_through method_matched not_allowed
  match_from (route ∷ routes) method_matched not_allowed method path =
      let next = match_from routes method_matched not_allowed method path in
      let noted = match_from routes true not_allowed method path in
      elim (regex_match route.regex_pattern path) [
        | none ↦ next
        | some cs ↦
            if not (same_method route.method method)
            then noted
            else some
                (record { handler = route.handler; params = bind_params route.param_names cs [] })
      ]

  unfoldable pub match : Router R → HttpMethod → Bytes → Option (RouteMatch R)
  match router = match_from router.routes false router.method_not_allowed_handler

  -- `ret` returns a response of the router's own.
  unfoldable pub dispatch : (HttpResponse → R) → Router R → HttpRequest → R
  dispatch ret router request = elim (match router request.method request.path) [
    | some result ↦ result.handler request
    | none ↦ elim router.not_found_handler [ some h ↦ h request | none ↦ ret not_found_response ]
  ]
