-- ===== src/Server/Router.antt =====
-- The routes of the HTTP server (`main` of seata-server/src/main.rs). A path is given by what stands
-- between its slashes, after the first.
use seata.Base.{
  ℕ, zero, suc, ◌≡◌, refl, Bool, true, false, not, ◌&&◌, ◌||◌, Option, none, some, List, [], ◌∷◌,
  Text, bytes, text_eq, text_eq_iff, is_empty, all, arith, if◌then◌else◌,
}

-- `name`, `{name}` and `{*name}`
pub data Segment : Type 0 where
  literal : Text → Segment
  capture : Segment
  rest : Segment

pub data Method : Type 0 where
  get : Method
  post : Method

-- The handlers, by their names; `health` is the closure that answers "ok".
pub data Handled : Type 0 where
  health metrics http_start http_submit http_abort http_branch_add http_branch_try : Handled
  http_branch_succeed http_branch_fail http_get_tx http_list_tx : Handled
  jsonrpc_dispatch admin_proxy : Handled

pub record Route : Type 0 where
  pub pattern : List Segment
  pub method : Method
  pub handler : Handled

abbrev pub api : List Segment → List Segment
api p = literal (bytes "api") ∷ p

abbrev pub one : Text → List Segment
one name = literal name ∷ []

abbrev pub branch : Text → List Segment
branch name = api (literal (bytes "branch") ∷ one name)

abbrev row : List Segment → Method → Handled → Route
row p m h = record { pattern = p; method = m; handler = h }

abbrev pub routes : List Route
routes =
    row (one (bytes "health")) get health
    ∷ row (one (bytes "metrics")) get metrics
    ∷ row (api (one (bytes "start"))) post http_start
    ∷ row (api (one (bytes "submit"))) post http_submit
    ∷ row (api (one (bytes "abort"))) post http_abort
    ∷ row (branch (bytes "add")) post http_branch_add
    ∷ row (branch (bytes "try")) post http_branch_try
    ∷ row (branch (bytes "succeed")) post http_branch_succeed
    ∷ row (branch (bytes "fail")) post http_branch_fail
    ∷ row (api (literal (bytes "tx") ∷ capture ∷ [])) get http_get_tx
    ∷ row (api (one (bytes "tx"))) get http_list_tx
    ∷ row (one (bytes "jsonrpc")) post jsonrpc_dispatch
    ∷ row (literal (bytes "admin") ∷ rest ∷ []) get admin_proxy
    ∷ row (one []) get admin_proxy
    ∷ []

-- A capture takes one piece that is not empty, and `{*name}` all that is left, if that is not empty.
unfoldable pub matches : List Segment → List Text → Bool
matches [] [] = true
matches [] (s ∷ ss) = false
matches (literal t ∷ p) [] = false
matches (literal t ∷ p) (s ∷ ss) = text_eq s t && matches p ss
matches (capture ∷ p) [] = false
matches (capture ∷ p) (s ∷ ss) = not (is_empty s) && matches p ss
matches (rest ∷ p) [] = false
matches (rest ∷ p) (s ∷ []) = not (is_empty s)
matches (rest ∷ p) (s ∷ s' ∷ ss) = true

-- Whose the request is: a handler's, or the answers 405 and 404.
pub data Routed : Type 0 where
  handled_by : Handled → Routed
  method_not_allowed : Routed
  not_found : Routed

abbrev pub same_method : Method → Method → Bool
same_method get get = true
same_method post post = true
same_method get post = false
same_method post get = false

-- What a route answers to a request of its path.
abbrev pub answers : Route → Method → Routed
answers r method = if same_method r.method method then handled_by r.handler else method_not_allowed

-- The routes that a path matches.
unfoldable pub matching : List Route → List Text → List Route
matching [] path = []
matching (r ∷ rs) path =
    let others = matching rs path in if matches r.pattern path then r ∷ others else others

-- axum's router. What is relied on: a path that a single route matches is answered by that route.
pub record Axum : Type 0 where
  pub call : List Route → Method → List Text → Routed
  pub single :
      (rs : List Route) (r : Route) (method : Method) (path : List Text)
      → matching rs path ≡ r ∷ []
      → call rs method path ≡ answers r method

-- Two patterns that no path matches both of.
abbrev apart : List Segment → List Segment → Bool
apart [] [] = false
apart [] (s ∷ q) = true
apart (literal t ∷ p) [] = true
apart (literal t ∷ p) (literal u ∷ q) = not (text_eq t u) || apart p q
apart (literal t ∷ p) (capture ∷ q) = apart p q
apart (literal t ∷ p) (rest ∷ q) = false
apart (capture ∷ p) [] = true
apart (capture ∷ p) (literal u ∷ q) = apart p q
apart (capture ∷ p) (capture ∷ q) = apart p q
apart (capture ∷ p) (rest ∷ q) = false
apart (rest ∷ p) [] = true
apart (rest ∷ p) (s ∷ q) = false

apart-matches :
    (p q : List Segment) (path : List Text)
    → apart p q ≡ true
    → matches q path ≡ true
    → matches p path ≡ false
unfolding matches
apart-matches [] [] path a h = absurd (cc)
apart-matches [] (literal t ∷ q) [] a h = absurd (cc)
apart-matches [] (capture ∷ q) [] a h = absurd (cc)
apart-matches [] (rest ∷ q) [] a h = absurd (cc)
apart-matches [] (s ∷ q) (x ∷ path) a h = refl
apart-matches (literal t ∷ p) q [] a h = refl
apart-matches (literal t ∷ p) [] (x ∷ path) a h = absurd (cc)
apart-matches (literal t ∷ p) (literal u ∷ q) (x ∷ path) a h =
    ground (arith, text_eq_iff x t, text_eq_iff x u, text_eq_iff t u, apart-matches p q path)
apart-matches (literal t ∷ p) (capture ∷ q) (x ∷ path) a h = ground (arith, apart-matches p q path)
apart-matches (literal t ∷ p) (rest ∷ q) (x ∷ path) a h = absurd (cc)
apart-matches (capture ∷ p) q [] a h = refl
apart-matches (capture ∷ p) [] (x ∷ path) a h = absurd (cc)
apart-matches (capture ∷ p) (literal u ∷ q) (x ∷ path) a h = ground (arith, apart-matches p q path)
apart-matches (capture ∷ p) (capture ∷ q) (x ∷ path) a h = ground (arith, apart-matches p q path)
apart-matches (capture ∷ p) (rest ∷ q) (x ∷ path) a h = absurd (cc)
apart-matches (rest ∷ p) q [] a h = refl
apart-matches (rest ∷ p) [] (x ∷ path) a h = absurd (cc)
apart-matches (rest ∷ p) (s ∷ q) (x ∷ path) a h = absurd (cc)

abbrev pub route_at : ℕ → List Route → Option Route
route_at i [] = none
route_at zero (r ∷ rs) = some r
route_at (suc i) (r ∷ rs) = route_at i rs

abbrev all_apart : List Route → Bool
all_apart [] = true
all_apart (r ∷ rs) = all (λ q. apart r.pattern q.pattern) rs && all_apart rs

apart-route_at :
    (r : Route) (rs : List Route) (i : ℕ) (q : Route)
    → all (λ q. apart r.pattern q.pattern) rs ≡ true
    → route_at i rs ≡ some q
    → apart r.pattern q.pattern ≡ true
apart-route_at r [] i q a e = absurd (cc)
apart-route_at r (s ∷ rs) zero q a e = let same : s ≡ q = cc in rw (← same) (ground (arith, a))
apart-route_at r (s ∷ rs) (suc i) q a e = apart-route_at r rs i q (ground (arith, a)) e

-- Apart from all the others, a route that matches leaves none of them to match.
matching-apart :
    (r : Route) (rs : List Route) (path : List Text)
    → all (λ q. apart r.pattern q.pattern) rs ≡ true
    → matches r.pattern path ≡ true
    → matching rs path ≡ []
unfolding matching
matching-apart r [] path a h = refl
matching-apart r (q ∷ rs) path a h =
    let other : matches q.pattern path ≡ false =
      ground (arith, apart-matches r.pattern q.pattern path) in
    rw other (matching-apart r rs path (ground (arith, a)) h)

matching_lem :
    (rs : List Route) (i : ℕ) (q : Route) (path : List Text)
    → all_apart rs ≡ true
    → route_at i rs ≡ some q
    → matches q.pattern path ≡ true
    → matching rs path ≡ q ∷ []
unfolding matching
matching_lem [] i q path a e h = absurd (cc)
matching_lem (r ∷ rs) zero q path a e h =
    let same : r ≡ q = cc in
    let others = matching-apart r rs path (ground (arith, a)) (rw same h) in
    rw (same, h, ← same, others) refl
matching_lem (r ∷ rs) (suc i) q path a e h =
    let other =
      apart-matches r.pattern q.pattern path (apart-route_at r rs i q (ground (arith, a)) e) h in
    rw other (matching_lem rs i q path (ground (arith, a)) e h)

routes-apart : all_apart routes ≡ true
unfolding text_eq
routes-apart = refl

-- The routes do not get into each other's way, in whatever order they stand: over a router that
-- lets a path's only route answer it, a path that matches one of the routes of `main` goes to the
-- handler of that one, and to no other, if the method is its method, and is answered 405 if not.
routes_lem :
    (axum : Axum) (i : ℕ) (r : Route) (method : Method) (path : List Text)
    → route_at i routes ≡ some r
    → matches r.pattern path ≡ true
    → axum.call routes method path ≡ answers r method
routes_lem axum i r method path e h =
    axum.single routes r method path (matching_lem routes i r path routes-apart e h)
