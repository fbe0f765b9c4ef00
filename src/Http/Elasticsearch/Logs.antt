-- ===== src/Http/Elasticsearch/Logs.antt =====
-- Which requests to the Elasticsearch service are logged, and how a request for an index is answered.
use white_toyota_tacoma.Common.{
  arith, ◌≡◌, refl, sym, ap, ◌∙◌, subst, inl, inr, Bool, true, false, ◌||◌, not, Option, none, some,
  List, [], ◌∷◌, if◌then◌else◌, Bool-cases,
}
use white_toyota_tacoma.Common.Bytes.{Bytes, codes, same, same_iff, same_comm}
use white_toyota_tacoma.Common.Result.{ok}
use white_toyota_tacoma.Http.Path.{sanitize_path}
use white_toyota_tacoma.Http.Message.{Request, Response, write_json}
use white_toyota_tacoma.Http.Message.Logged.{captured, log_http_event-eq-ok}
use white_toyota_tacoma.Capture.{Event}
use white_toyota_tacoma.Http.Mux.{redirect, handle, has_prefix, match, route}
use white_toyota_tacoma.Http.Mux.Routes.{route-handle}
use white_toyota_tacoma.Http.Serve.{Served, redirected, handled, serve_routed}
use white_toyota_tacoma.Http.Elasticsearch.Routing.{redirected_to, routed, route-routed}
use white_toyota_tacoma.Http.Elasticsearch.Documents.{Env, root_doc, missing_doc}
use white_toyota_tacoma.Http.Elasticsearch.Service.{
  Handler, nodes, cluster_health, cluster_stats, cat, search_index, xpack, root, routes, proto,
  logged, catch_all, run, serve,
}

-- The paths on which a request leaves nothing in the log.
abbrev pub is_silent : Bytes → Bool
is_silent path =
    same (codes "/") path
    || (same (codes "/_nodes") path
        || (has_prefix path (codes "/_nodes/")
            || (same (codes "/_cluster/health") path
                || (same (codes "/_cluster/stats") path || same (codes "/_xpack") path))))

-- The handlers that log.
abbrev pub is_loud : Handler → Bytes → Bool
is_loud cat path = true
is_loud search_index path = true
is_loud root path = not (same path (codes "/"))
is_loud nodes path = false
is_loud cluster_health path = false
is_loud cluster_stats path = false
is_loud xpack path = false

abbrev is_loud_for : Option Handler → Bytes → Bool
is_loud_for none path = false
is_loud_for (some h) path = is_loud h path

at_pattern :
    (pattern' path : Bytes) (h : Handler)
    → is_loud_for (match routes pattern') pattern' ≡ not (is_silent pattern')
    → same pattern' path ≡ true
    → match routes path ≡ some h
    → is_loud h path ≡ not (is_silent path)
at_pattern pattern' path h base e m =
    ap (λ o. is_loud_for o path) (sym m)
    ∙ subst (λ p. is_loud_for (match routes p) p ≡ not (is_silent p)) ((same_iff pattern' path).0 e)
        base

-- At the pattern, or elsewhere.
unless_at :
    (pattern' path : Bytes) (h : Handler)
    → is_loud_for (match routes pattern') pattern' ≡ not (is_silent pattern')
    → match routes path ≡ some h
    → (same pattern' path ≡ false → is_loud h path ≡ not (is_silent path))
    → is_loud h path ≡ not (is_silent path)
unless_at pattern' path h base m elsewhere = elim (Bool-cases (same pattern' path)) [
  | inl e ↦ at_pattern pattern' path h base e m
  | inr e ↦ elsewhere e
]

chosen :
    {g h : Handler} (path : Bytes)
    → some g ≡ some h
    → is_loud g path ≡ not (is_silent path)
    → is_loud h path ≡ not (is_silent path)
chosen path e l = ap (λ o. is_loud_for o path) (sym e) ∙ l

-- Which of the patterns with a slash at their end is the longest that fits.
abbrev fitting : Bool → Bool → Bool → Option Handler
fitting true c d = some nodes
fitting false true d = some cat
fitting false false true = some root
fitting false false false = none

match_elsewhere :
    (path : Bytes)
    → same (codes "/_nodes") path ≡ false
    → same (codes "/_nodes/") path ≡ false
    → same (codes "/_cluster/health") path ≡ false
    → same (codes "/_cluster/stats") path ≡ false
    → same (codes "/_cat/") path ≡ false
    → same (codes "/_search") path ≡ false
    → same (codes "/_xpack") path ≡ false
    → same (codes "/") path ≡ false
    → match routes path
      ≡ fitting
          (has_prefix path (codes "/_nodes/"))
          (has_prefix path (codes "/_cat/"))
          (has_prefix path (codes "/"))
unfolding match
match_elsewhere path a b c d e f g k = rw (a, b, c, d, e, f, g, k) (ground arith)

loud_fitting :
    (path : Bytes) (h : Handler) (n q r : Bool)
    → has_prefix path (codes "/_nodes/") ≡ n
    → same (codes "/") path ≡ false
    → same (codes "/_nodes") path ≡ false
    → same (codes "/_cluster/health") path ≡ false
    → same (codes "/_cluster/stats") path ≡ false
    → same (codes "/_xpack") path ≡ false
    → fitting n q r ≡ some h
    → is_loud h path ≡ not (is_silent path)
loud_fitting path h true q r n k a c d g m = chosen path m (rw (k, a, n))
loud_fitting path h false true r n k a c d g m = chosen path m (rw (k, a, n, c, d, g))
loud_fitting path h false false true n k a c d g m =
    chosen path m (rw (same_comm path (codes "/")) (rw (k, a, n, c, d, g)))
loud_fitting path h false false false n k a c d g m = cc

loud_match :
    (path : Bytes) (h : Handler)
    → match routes path ≡ some h
    → is_loud h path ≡ not (is_silent path)
unfolding match same has_prefix
loud_match path h m = unless_at (codes "/_nodes") path h refl m λ a.
    unless_at (codes "/_nodes/") path h refl m λ b.
      unless_at (codes "/_cluster/health") path h refl m λ c.
        unless_at (codes "/_cluster/stats") path h refl m λ d.
          unless_at (codes "/_cat/") path h refl m λ t.
            unless_at (codes "/_search") path h refl m λ f.
              unless_at (codes "/_xpack") path h refl m λ g.
                unless_at (codes "/") path h refl m λ k.
                  loud_fitting path h _ _ _ refl k a c d g
                    (sym (match_elsewhere path a b c d t f g k) ∙ m)

flipped :
    {A : Type 0} (b : Bool) (xs : List A) → (if not b then xs else []) ≡ (if b then [] else xs)
flipped true xs = refl
flipped false xs = refl

logged-eq-ok :
    (env : Env) (r : Request) (w : Response)
    → env.store ≡ true
    → logged env r w ≡ ok (w, captured proto env.max_body_bytes r ∷ [])
unfolding logged
logged-eq-ok env r w s = rw s (rw (log_http_event-eq-ok proto env.max_body_bytes r))

abbrev missing_response : Bytes → Response
missing_response path = write_json 404 (missing_doc (sanitize_path path))

pub run-eq-ok :
    (env : Env) (h : Handler) (r : Request)
    → env.store ≡ true
    → (w : Response) × (run env h r
        ≡ ok (w, if is_loud h r.path then captured proto env.max_body_bytes r ∷ [] else []))
unfolding run catch_all
run-eq-ok env nodes r s = (_, refl)
run-eq-ok env cluster_health r s = (_, refl)
run-eq-ok env cluster_stats r s = (_, refl)
run-eq-ok env cat r s = (_, logged-eq-ok env r _ s)
run-eq-ok env search_index r s = (_, logged-eq-ok env r _ s)
run-eq-ok env xpack r s = (_, refl)
run-eq-ok env root r s = elim (Bool-cases (same r.path (codes "/"))) [
  | inl e ↦ (write_json 200 (root_doc env), rw e refl)
  | inr e ↦
      (missing_response r.path, rw (e, s) (rw (log_http_event-eq-ok proto env.max_body_bytes r)))
]

answered :
    (env : Env) (r : Request) (h : Handler)
    → env.store ≡ true
    → route routes r.method r.path ≡ handle h
    → (w : Response) × (serve env r
        ≡ handled
            (ok (w, if is_silent r.path then [] else captured proto env.max_body_bytes r ∷ [])))
unfolding serve serve_routed
answered env r h s e =
    let (w, q) = run-eq-ok env h r s in
    let l = loud_match r.path h (route-handle routes r.method r.path e) in
    (w, rw e (rw q (rw l (ap (λ es. handled (ok (w, es))) (flipped (is_silent r.path) _)))))

moved :
    (env : Env) (r : Request) (to : Bytes)
    → route routes r.method r.path ≡ redirect to
    → serve env r ≡ redirected to
unfolding serve serve_routed
moved env r to e = rw e refl

-- What the service does with a request: the redirection, or the answer and the event.
abbrev pub outcome : Option Bytes → Response → List Event → Served
outcome none w events = handled (ok (w, events))
outcome (some to) w events = redirected to

-- Every request to the Elasticsearch service, whose path begins with a slash, is redirected or
-- answered. It is redirected, and leaves nothing in the log, where its path is `/_cat` (to
-- `/_cat/`) or, but for a CONNECT, where its path is not clean (to the clean one). All others are
-- answered, and logged once, with their peer, their method and path, and their body up to the
-- limit, but for those whose path is `/`, `/_nodes` or below it, `/_cluster/health`,
-- `/_cluster/stats` or `/_xpack`: these leave nothing in the log, whatever their method and their
-- body.
pub es_serve_logs :
    (env : Env) (r : Request)
    → env.store ≡ true
    → has_prefix r.path (codes "/") ≡ true
    → (w : Response) × (serve env r
        ≡ outcome
            (redirected_to r.method r.path)
            w
            (if is_silent r.path then [] else captured proto env.max_body_bytes r ∷ []))
es_serve_logs env r s rooted =
    let (h, e) = route-routed r.method r.path rooted in by_route (redirected_to r.method r.path) h e
  where
    by_route :
        (to : Option Bytes) (h : Handler)
        → route routes r.method r.path ≡ routed to h
        → (w : Response) × (serve env r
            ≡ outcome to w
                (if is_silent r.path then [] else captured proto env.max_body_bytes r ∷ []))
    by_route none h e = answered env r h s e
    by_route (some to) h e = (write_json 200 (root_doc env), moved env r to e)
