-- ===== src/Router/Selection.antt =====
-- Which route Router::match and Router::dispatch choose.
use http_storm.Common.{
  Bool, true, false, ◌||◌, Bytes, List, [], ◌∷◌, ◌++◌, if◌then◌else◌, Option, none, some, All,
  Bool-cases, Option-cases, inl, inr, ◌⊎◌, ◌≡◌, refl, sym, subst, ap, ◌∙◌, arith,
}
use http_storm.Http.{HttpMethod, HttpRequest, HttpResponse, same_method, same_method_iff}
use http_storm.Regex.{Captures, regex_match}
use http_storm.Router.{
  Route, RouteHandler, RouteMatch, Router, bind_params, fall_through, match_from, match, dispatch,
}

module _ {ℓ} {R : Type ℓ} (method : HttpMethod) (path : Bytes) where
  -- The route matches the path, and is for the method.
  abbrev pub Serves : Route R → Type 0
  Serves r = (r.method ≡ method) × ((cs : Captures) × (regex_match r.regex_pattern path ≡ some cs))

  -- Some route matches the path, for whatever method.
  abbrev pub knows_path : List (Route R) → Bool
  knows_path [] = false
  knows_path (r ∷ rs) =
      let rest = knows_path rs in
      elim (regex_match r.regex_pattern path) [ some cs ↦ true | none ↦ rest ]

  -- The first route that serves, with what stands before it.
  pub record Selected (routes : List (Route R)) (found : RouteMatch R) : Type ℓ where
    pub before : List (Route R)
    pub route : Route R
    pub after : List (Route R)
    pub captures : Captures
    pub cut : routes ≡ before ++ route ∷ after
    pub none_before : All (λ r. ¬ Serves r) before
    pub right_method : route.method ≡ method
    pub right_path : regex_match route.regex_pattern path ≡ some captures
    pub right_handler : found.handler ≡ route.handler
    pub right_params : found.params ≡ bind_params route.param_names captures []

  later :
      (r : Route R) (rs : List (Route R)) (found : RouteMatch R)
      → ¬ Serves r
      → Selected rs found
      → Selected (r ∷ rs) found
  later r rs found no_r s = record {
    before = r ∷ s.before;
    route = s.route;
    after = s.after;
    captures = s.captures;
    cut = ap (◌∷◌ r) s.cut;
    none_before = (no_r, s.none_before);
    right_method = s.right_method;
    right_path = s.right_path;
    right_handler = s.right_handler;
    right_params = s.right_params;
  }

  -- What `match` may return over these routes, when `known` tells whether an earlier one matched the path.
  abbrev Outcome : List (Route R) → Bool → Option (RouteHandler R) → Option (RouteMatch R) → Type ℓ
  Outcome routes known not_allowed result =
      ((found : RouteMatch R) × (result ≡ some found) × Selected routes found)
      ⊎ (All (λ r. ¬ Serves r) routes
          × (result ≡ fall_through (known || knows_path routes) not_allowed))

  pass-over :
      (r : Route R) (rs : List (Route R)) (known known' : Bool) (h : Option (RouteHandler R))
      (result : Option (RouteMatch R))
      → ¬ Serves r
      → (known' || knows_path rs) ≡ (known || knows_path (r ∷ rs))
      → Outcome rs known' h result
      → Outcome (r ∷ rs) known h result
  pass-over r rs known known' h result no_r same (inl (found, e, s)) =
      inl (found, e, later r rs found no_r s)
  pass-over r rs known known' h result no_r same (inr (none_serves, e)) =
      inr ((no_r, none_serves), e ∙ ap (λ b. fall_through b h) same)

  at-head :
      (r : Route R) (rs : List (Route R)) (cs : Captures)
      → regex_match r.regex_pattern path ≡ some cs
      → same_method r.method method ≡ true
      → Selected (r ∷ rs) (record { handler = r.handler; params = bind_params r.param_names cs [] })
  at-head r rs cs e m = record {
    before = [];
    route = r;
    after = rs;
    captures = cs;
    cut = refl;
    none_before = tt;
    right_method = (same_method_iff r.method method).0 m;
    right_path = e;
    right_handler = refl;
    right_params = refl;
  }

  module _ (r : Route R) (rs : List (Route R)) (known : Bool) (h : Option (RouteHandler R)) where
    step-none :
        regex_match r.regex_pattern path ≡ none
        → match_from (r ∷ rs) known h method path ≡ match_from rs known h method path
    unfolding match_from
    step-none e = rw (e, match_from) refl

    step-other :
        (cs : Captures)
        → regex_match r.regex_pattern path ≡ some cs
        → same_method r.method method ≡ false
        → match_from (r ∷ rs) known h method path ≡ match_from rs true h method path
    unfolding match_from
    step-other cs e m = ground arith

    step-chosen :
        (cs : Captures)
        → regex_match r.regex_pattern path ≡ some cs
        → same_method r.method method ≡ true
        → match_from (r ∷ rs) known h method path
          ≡ some (record { handler = r.handler; params = bind_params r.param_names cs [] })
    unfolding match_from
    step-chosen cs e m = ground arith

    knows-none :
        regex_match r.regex_pattern path ≡ none
        → (known || knows_path rs) ≡ (known || knows_path (r ∷ rs))
    knows-none e = ground arith

    knows-other :
        (cs : Captures)
        → regex_match r.regex_pattern path ≡ some cs
        → (true || knows_path rs) ≡ (known || knows_path (r ∷ rs))
    knows-other cs e = ground arith

    not-Serves-none : regex_match r.regex_pattern path ≡ none → ¬ Serves r
    not-Serves-none e (m, (cs, f)) = cc

    not-Serves-other : same_method r.method method ≡ false → ¬ Serves r
    not-Serves-other e (m, _) = cc ((same_method_iff r.method method).1 m)

  match_from-Outcome :
      (routes : List (Route R)) (known : Bool) (not_allowed : Option (RouteHandler R))
      → Outcome routes known not_allowed (match_from routes known not_allowed method path)
  match_from-Outcome [] true h = inr (tt, unfold match_from in refl)
  match_from-Outcome [] false h = inr (tt, unfold match_from in refl)
  match_from-Outcome (r ∷ rs) known h = elim (Option-cases (regex_match r.regex_pattern path)) [
    | inl e ↦ subst (Outcome (r ∷ rs) known h) (sym (step-none r rs known h e)) (
        pass-over r rs known known h _ (not-Serves-none r rs known h e) (knows-none r rs known h e)
          (match_from-Outcome rs known h))
    | inr (cs, e) ↦ elim (Bool-cases (same_method r.method method)) [
      | inl same ↦
          subst (Outcome (r ∷ rs) known h) (sym (step-chosen r rs known h cs e same))
            (inl (_, refl, at-head r rs cs e same))
      | inr other ↦ subst (Outcome (r ∷ rs) known h) (sym (step-other r rs known h cs e other)) (
          pass-over r rs known true h _ (not-Serves-other r rs known h other)
            (knows-other r rs known h cs e) (match_from-Outcome rs true h))
    ]
  ]

module _ {ℓ} {R : Type ℓ} (router : Router R) where
  -- `match` returns the first route that matches the path and is for the method, with its handler and
  -- with its parameters bound to the groups of the match. If no route serves, it returns the handler for
  -- a method that is not allowed, if one is set and some route matches the path, and nothing otherwise.
  pub match-first :
      (method : HttpMethod) (path : Bytes)
      → ((found : RouteMatch R) × (match router method path ≡ some found)
          × Selected method path router.routes found)
        ⊎ (All (λ r. ¬ Serves method path r) router.routes
            × (match router method path
                ≡ fall_through
                    (knows_path method path router.routes)
                    router.method_not_allowed_handler))
  unfolding match
  match-first method path =
      match_from-Outcome method path router.routes false router.method_not_allowed_handler

  -- With both fallback handlers set, `dispatch` calls exactly one handler on the request: that of the
  -- first route that serves it; else the one for a method that is not allowed, where some route matches
  -- the path; else the one for a path that is not found.
  pub dispatch-first :
      (ret : HttpResponse → R) (request : HttpRequest) (not_found not_allowed : RouteHandler R)
      → router.not_found_handler ≡ some not_found
      → router.method_not_allowed_handler ≡ some not_allowed
      → ((found : RouteMatch R) × Selected request.method request.path router.routes found
          × (dispatch ret router request ≡ found.handler request))
        ⊎ (All (λ r. ¬ Serves request.method request.path r) router.routes
            × (dispatch ret router request ≡ (
                if knows_path request.method request.path router.routes
                then not_allowed request
                else not_found request)))
  unfolding dispatch
  dispatch-first ret request not_found not_allowed e f =
      elim (match-first request.method request.path) [
        | inl (found, m, s) ↦ inl (found, s, ground arith)
        | inr (none_serves, m) ↦ inr (none_serves, ground arith)
      ]
