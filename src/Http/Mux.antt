-- ===== src/Http/Mux.antt =====
-- `http.ServeMux` as internal/proto/http/handler.go uses it, in Go 1.21: patterns that are paths,
-- of which those with a slash at their end stand for all paths below.
pub mod Routes
use white_toyota_tacoma.Common.{
  ℕ, suc, ◌+◌, Bool, true, false, ◌&&◌, ◌||◌, not, Option, none, some, List, [], ◌∷◌, ◌++◌, ltb,
  ◌==◌, if◌then◌else◌, length, take,
}
use white_toyota_tacoma.Common.Bytes.{Bytes, codes, same}

-- The segments of a path, without the slashes.
unfoldable pub split_slash : Bytes → Bytes → List Bytes
split_slash part [] = part ∷ []
split_slash part (c ∷ s) =
    let cut = part ∷ split_slash [] s in
    let longer = split_slash (part ++ c ∷ []) s in if c == b'/' then cut else longer

pop : List Bytes → List Bytes
pop [] = []
pop (part ∷ stack) = stack

-- `path.Clean` on the segments of a path that begins with a slash; the last one is on top.
resolve : List Bytes → List Bytes → List Bytes
unfolding pop
resolve stack [] = stack
resolve stack (part ∷ parts) =
    resolve
      (if same part [] || same part (codes ".")
        then stack
        else if same part (codes "..")
        then pop stack
        else part ∷ stack)
      parts

join_from : Bytes → List Bytes → Bytes
join_from below [] = below
join_from below (part ∷ stack) = join_from (b'/' ∷ (part ++ below)) stack

-- `path.Clean`
clean_rooted : Bytes → Bytes
unfolding resolve join_from split_slash
clean_rooted p =
    let q = join_from [] (resolve [] (split_slash [] p)) in if same q [] then codes "/" else q

unfoldable pub ends_with_slash : Bytes → Bool
ends_with_slash [] = false
ends_with_slash (c ∷ []) = c == b'/'
ends_with_slash (c ∷ d ∷ s) = ends_with_slash (d ∷ s)

rooted : Bytes → Bytes
rooted [] = codes "/"
rooted (c ∷ s) = if c == b'/' then c ∷ s else b'/' ∷ c ∷ s

-- `cleanPath`, which keeps a slash at the end.
unfoldable pub clean_path : Bytes → Bytes
unfolding clean_rooted rooted ends_with_slash
clean_path p =
    let np = clean_rooted (rooted p) in
    if ends_with_slash (rooted p) && not (same np (codes "/")) then np ++ b'/' ∷ [] else np

unfoldable pub has_prefix : Bytes → Bytes → Bool
has_prefix s [] = true
has_prefix [] (c ∷ prefix) = false
has_prefix (b ∷ s) (c ∷ prefix) = b == c && has_prefix s prefix

-- What the mux does with a path: a redirection, a handler, or 404.
pub data Route (H : Type 0) : Type 0 where
  redirect : Bytes → Route H
  handle : H → Route H
  not_found : Route H

module _ {H : Type 0} where
  -- `mux.m[p]`
  unfoldable pub exact : List (Bytes × H) → Bytes → Option H
  exact [] path = none
  exact ((pattern', h) ∷ routes) path = if same pattern' path then some h else exact routes path

  unfoldable pub longer_of : Bytes × H → Option (Bytes × H) → Bytes × H
  longer_of r none = r
  longer_of r (some best) = if ltb (length r.0) (length best.0) then best else r

  -- The longest pattern with a slash at its end that the path begins with.
  unfoldable pub longest : List (Bytes × H) → Bytes → Option (Bytes × H)
  unfolding longer_of has_prefix ends_with_slash
  longest [] path = none
  longest (r ∷ routes) path =
      let rest = longest routes path in
      if ends_with_slash r.0 && has_prefix path r.0 then some (longer_of r rest) else rest

  unfoldable pub handler_of : Option (Bytes × H) → Option H
  handler_of none = none
  handler_of (some r) = some r.1

  unfoldable pub or_longest : Option H → Option H → Option H
  or_longest none h = h
  or_longest (some g) h = some g

  -- `mux.match`
  unfoldable pub match : List (Bytes × H) → Bytes → Option H
  unfolding exact longest handler_of or_longest
  match routes path = or_longest (exact routes path) (handler_of (longest routes path))

  abbrev pub is_some : Option H → Bool
  is_some none = false
  is_some (some h) = true

  -- `mux.shouldRedirectRLocked`
  unfoldable pub needs_slash : List (Bytes × H) → Bytes → Bool
  unfolding exact ends_with_slash
  needs_slash routes path =
      not (is_some (exact routes path) || same path [])
      && (is_some (exact routes (path ++ b'/' ∷ [])) && not (ends_with_slash path))

  unfoldable pub handled : Option H → Route H
  handled none = not_found
  handled (some h) = handle h

  -- `mux.Handler`: the path of a CONNECT is not cleaned.
  unfoldable pub route : List (Bytes × H) → Bytes → Bytes → Route H
  unfolding needs_slash handled clean_path match
  route routes method path =
      let p = if same method (codes "CONNECT") then path else clean_path path in
      if needs_slash routes p
      then redirect (p ++ b'/' ∷ [])
      else if not (same p path)
      then redirect p
      else handled (match routes path)
