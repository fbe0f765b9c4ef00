-- ===== src/Http/Mux/Routes.antt =====
-- A request that reaches a handler reaches the one that matches its path.
use white_toyota_tacoma.Common.{
  ◌≡◌, Bool, true, false, not, Option, none, some, List, ◌∷◌, [], ◌++◌, if◌then◌else◌,
}
use white_toyota_tacoma.Common.Bytes.{Bytes, codes, same}
use white_toyota_tacoma.Http.Mux.{redirect, handle, clean_path, needs_slash, match, handled, route}

module _ {H : Type 0} where
  handled-handle : (o : Option H) {h : H} → handled o ≡ handle h → o ≡ some h
  unfolding handled
  handled-handle none e = cc
  handled-handle (some g) e = cc

  chosen :
      (b c : Bool) (p q : Bytes) (o : Option H) {h : H}
      → (if b then redirect p else if c then redirect q else handled o) ≡ handle h
      → o ≡ some h
  chosen true c p q o e = cc
  chosen false true p q o e = cc
  chosen false false p q o e = handled-handle o e

  pub route-handle :
      (routes : List (Bytes × H)) (method path : Bytes) {h : H}
      → route routes method path ≡ handle h
      → match routes path ≡ some h
  unfolding route
  route-handle routes method path e =
      let p = if same method (codes "CONNECT") then path else clean_path path in
      chosen (needs_slash routes p) (not (same p path)) (p ++ b'/' ∷ []) p (match routes path) e
