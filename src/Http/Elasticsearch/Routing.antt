-- ===== src/Http/Elasticsearch/Routing.antt =====
-- What the mux of the Elasticsearch service does with a path: which paths it redirects, and that
-- every other path that begins with a slash has a handler.
use white_toyota_tacoma.Common.{
  ℕ, arith, ◌≡◌, refl, sym, ap, ◌∙◌, inl, inr, Bool, true, false, ◌&&◌, ◌||◌, not, Option, none,
  some, [], ◌∷◌, ◌++◌, if◌then◌else◌, Bool-cases, subst,
}
use white_toyota_tacoma.Common.Bytes.{Bytes, codes, same, same_iff, same_comm}
use white_toyota_tacoma.Http.Mux.{
  Route, redirect, handle, handled, clean_path, ends_with_slash, has_prefix, exact, is_some,
  longest, handler_of, or_longest, longer_of, match, needs_slash, route,
}
use white_toyota_tacoma.Http.Elasticsearch.Service.{Handler, routes, nodes, cat, root}

ends_with_slash-snoc : (path : Bytes) → ends_with_slash (path ++ b'/' ∷ []) ≡ true
unfolding ends_with_slash
ends_with_slash-snoc [] = refl
ends_with_slash-snoc (c ∷ []) = refl
ends_with_slash-snoc (c ∷ d ∷ s) = ends_with_slash-snoc (d ∷ s)

same-snoc : (c : ℕ) (s t : Bytes) → same (s ++ c ∷ []) (t ++ c ∷ []) ≡ same s t
unfolding same
same-snoc c [] [] = ground arith
same-snoc c [] (b ∷ []) = ground arith
same-snoc c [] (b ∷ d ∷ t) = ground arith
same-snoc c (a ∷ []) [] = ground arith
same-snoc c (a ∷ d ∷ s) [] = ground arith
same-snoc c (a ∷ s) (b ∷ t) = rw (same-snoc c s t)

same_without_slash :
    (s path : Bytes) → ends_with_slash s ≡ false → same s (path ++ b'/' ∷ []) ≡ false
same_without_slash s path e = elim (Bool-cases (same s (path ++ b'/' ∷ []))) [
  | inl q ↦
      let slash : ends_with_slash s ≡ true =
        ap ends_with_slash ((same_iff s (path ++ b'/' ∷ [])).0 q) ∙ ends_with_slash-snoc path in
      absurd cc
  | inr q ↦ q
]

-- Of the patterns with a slash at their end, only `/_cat/` has none beside it without the slash.
exact-with_slash :
    (path : Bytes)
    → exact routes (path ++ b'/' ∷ []) ≡ (
        if same (codes "/_nodes") path
        then some nodes
        else if same (codes "/_cat") path
        then some cat
        else if same [] path
        then some root
        else none)
unfolding exact ends_with_slash
exact-with_slash path =
    rw
      (
        same_without_slash (codes "/_nodes") path refl,
        same-snoc b'/' (codes "/_nodes") path,
        same_without_slash (codes "/_cluster/health") path refl,
        same_without_slash (codes "/_cluster/stats") path refl,
        same-snoc b'/' (codes "/_cat") path,
        same_without_slash (codes "/_search") path refl,
        same_without_slash (codes "/_xpack") path refl,
        same-snoc b'/' [] path,
      )
      refl

not_needed :
    (o : Option Handler) (at_nodes empty slash : Bool)
    → not (is_some (if at_nodes then some nodes else o) || empty)
        && (is_some (if at_nodes then some nodes else if empty then some root else none)
            && not slash)
      ≡ false
not_needed o true empty slash = refl
not_needed none false true slash = refl
not_needed none false false slash = refl
not_needed (some h) false empty slash = refl

needs_slash-cat : (path : Bytes) → needs_slash routes path ≡ same (codes "/_cat") path
unfolding needs_slash exact same ends_with_slash
needs_slash-cat path = elim (Bool-cases (same (codes "/_cat") path)) [
  | inl e ↦
      subst (λ p. needs_slash routes p ≡ same (codes "/_cat") p)
        ((same_iff (codes "/_cat") path).0 e) refl
  | inr e ↦ rw (exact-with_slash path) (
      rw (e, same_comm path [])
        (not_needed _ (same (codes "/_nodes") path) (same [] path) (ends_with_slash path)))
]

has_longest :
    (path : Bytes)
    → has_prefix path (codes "/") ≡ true
    → is_some (handler_of (longest routes path)) ≡ true
unfolding longest handler_of longer_of ends_with_slash
has_longest path h = rw h (ground arith)

has_match : (path : Bytes) → has_prefix path (codes "/") ≡ true → is_some (match routes path) ≡ true
unfolding match or_longest
has_match path h = rest (exact routes path) _ (has_longest path h)
  where
    rest : (o l : Option Handler) → is_some l ≡ true → is_some (or_longest o l) ≡ true
    rest none l e = e
    rest (some g) l e = refl

handled-handle : (o : Option Handler) → is_some o ≡ true → (h : Handler) × (handled o ≡ handle h)
unfolding handled
handled-handle none e = absurd cc
handled-handle (some h) e = (h, refl)

-- The path that the mux looks at: that of a CONNECT is not cleaned.
abbrev pub looked_at : Bytes → Bytes → Bytes
looked_at method path = if same method (codes "CONNECT") then path else clean_path path

-- Where the mux redirects a path to.
abbrev pub redirected_to : Bytes → Bytes → Option Bytes
redirected_to method path =
    let p = looked_at method path in
    if same (codes "/_cat") p then some (codes "/_cat/") else if same p path then none else some p

abbrev pub routed : Option Bytes → Handler → Route Handler
routed none h = handle h
routed (some to) h = redirect to

pub route-routed :
    (method path : Bytes)
    → has_prefix path (codes "/") ≡ true
    → (h : Handler) × (route routes method path ≡ routed (redirected_to method path) h)
unfolding route
route-routed method path e =
    let p = looked_at method path in
    let (h, q) = handled-handle (match routes path) (has_match path e) in
    (
      h,
      elim (Bool-cases (same (codes "/_cat") p)) [
        | inl c ↦ rw (needs_slash-cat p, c, sym ((same_iff (codes "/_cat") p).0 c)) refl
        | inr c ↦ elim (Bool-cases (same p path)) [
          | inl d ↦ rw (needs_slash-cat p, c, d, q) refl
          | inr d ↦ rw (needs_slash-cat p, c, d) refl
        ]
      ],
    )
