-- ===== src/Postgres/Startup/Params.antt =====
-- The parameters of a startup message, from the bytes to the map.
use native.Mathlib.Nat.{suc-add}
use white_toyota_tacoma.Common.{
  ℕ, zero, suc, ◌+◌, ◌≤◌, ◌<◌, ◌≡◌, ◌≢◌, refl, sym, ap, ◌∙◌, inl, inr, true, false, Option, none,
  some, List, [], ◌∷◌, ◌++◌, ltb, if◌then◌else◌, length, take, drop, arith, All, Bool-cases,
  length-append, take-length-append, drop-length-cons, length-drop,
}
use white_toyota_tacoma.Common.Bytes.{Bytes, Lacks, index_byte, index_byte-append, same, same_iff}
use white_toyota_tacoma.Postgres.Startup.{
  Params, lookup, insert, add_param, with_value, on_value, on_key, params_from,
  parse_startup_params,
}

-- A parameter as a client can send it: neither part has a NUL, and the key is not empty.
abbrev pub IsParam : Bytes × Bytes → Type 0
IsParam p = (p.0 ≢ []) × Lacks 0 p.0 × Lacks 0 p.1

abbrev pub param_list : List (Bytes × Bytes) → Bytes
param_list [] = 0 ∷ []
param_list ((k, v) ∷ ps) = k ++ 0 ∷ (v ++ 0 ∷ param_list ps)

-- The last value that the client gives a key, or `d`.
abbrev pub value_of : Bytes → List (Bytes × Bytes) → Bytes → Bytes
value_of key [] d = d
value_of key ((k, v) ∷ ps) d = value_of key ps (if same k key then v else d)

lookup-insert :
    (key k v : Bytes) (m : Params)
    → lookup key (insert k v m) ≡ (if same k key then v else lookup key m)
unfolding lookup insert
lookup-insert key k v [] = refl
lookup-insert key k v ((k', w) ∷ m) = elim (Bool-cases (same k' k)) [
  | inl e ↦
      let eq : k' ≡ k = (same_iff k' k).0 e in
      rw (e, eq) (elim (Bool-cases (same k key)) [ inl h ↦ rw h | inr h ↦ rw h ])
  | inr e ↦ rw e (elim (Bool-cases (same k' key)) [
    | inr h ↦ rw h (lookup-insert key k v m)
    | inl h ↦
        let differs : same k key ≡ false = elim (Bool-cases (same k key)) [
          | inl g ↦ absurd (clash k' k key e h g)
          | inr g ↦ g
        ] in
        rw (h, differs)
  ])
]
  where
    clash : (a b c : Bytes) → same a b ≡ false → same a c ≡ true → same b c ≡ true → ⊥
    clash a b c n p q =
        let e : a ≡ b = (same_iff a c).0 p ∙ sym ((same_iff b c).0 q) in
        let t = (same_iff a b).1 e in cc

add_all : List (Bytes × Bytes) → Params → Params
add_all [] m = m
add_all ((k, v) ∷ ps) m = add_all ps (insert k v m)

lookup-add_all :
    (key : Bytes) (ps : List (Bytes × Bytes)) (m : Params)
    → lookup key (add_all ps m) ≡ value_of key ps (lookup key m)
unfolding add_all
lookup-add_all key [] m = refl
lookup-add_all key ((k, v) ∷ ps) m =
    lookup-add_all key ps (insert k v m) ∙ ap (value_of key ps) (lookup-insert key k v m)

longer : (k t : Bytes) (b : ℕ) → k ≢ [] → ltb 1 (length (k ++ b ∷ t)) ≡ true
longer [] t b h = absurd (h refl)
longer (a ∷ k) t b h = ground (arith, length-append k (b ∷ t))

added : (k v : Bytes) (m : Params) → k ≢ [] → add_param k v m ≡ insert k v m
unfolding add_param
added [] v m h = absurd (h refl)
added (b ∷ k) v m h = refl

value-read :
    (rest : Bytes → Params → Params) (key v t : Bytes) (m : Params)
    → Lacks 0 v
    → on_value rest key (v ++ 0 ∷ t) m ≡ rest t (add_param key v m)
unfolding on_value with_value index_byte
value-read rest key [] t m h = refl
value-read rest key (b ∷ v) t m h =
    rw (index_byte-append 0 (b ∷ v) t h)
      (rw suc-add (rw (drop-length-cons v 0 t, take-length-append v (0 ∷ t))))

-- A list of parameters is read with as much fuel as it has bytes, or more.
params_from-param_list :
    (ps : List (Bytes × Bytes)) (fuel : ℕ) (m : Params)
    → All IsParam ps
    → length (param_list ps) ≤ fuel
    → params_from fuel (param_list ps) m ≡ add_all ps m
unfolding params_from add_all on_key
params_from-param_list [] zero m h f = refl
params_from-param_list [] (suc fuel) m h f = refl
params_from-param_list ((k, v) ∷ ps) zero m h f =
    absurd (omega (arith, length-append k (0 ∷ (v ++ 0 ∷ param_list ps))))
params_from-param_list ((k, v) ∷ ps) (suc fuel) m h f =
    rw
      (
        longer k (v ++ 0 ∷ param_list ps) 0 h.0.0,
        index_byte-append 0 k (v ++ 0 ∷ param_list ps) h.0.1,
      )
      (rw
        (
          drop-length-cons k 0 (v ++ 0 ∷ param_list ps),
          take-length-append k (0 ∷ (v ++ 0 ∷ param_list ps)),
        )
        (value-read (params_from fuel) k v (param_list ps) m h.0.2
          ∙ rw (added k v m h.0.0) (
              params_from-param_list ps fuel (insert k v m) h.1 (
                omega (
                  arith,
                  length-append k (0 ∷ (v ++ 0 ∷ param_list ps)),
                  length-append v (0 ∷ param_list ps),
                )))))

-- The map that `parseStartupParams` makes of a client's parameters holds for each key the last
-- value that the client gave it, and the empty string for a key that it did not give.
pub lookup-parse_startup_params :
    (key : Bytes) (ps : List (Bytes × Bytes))
    → All IsParam ps
    → lookup key (parse_startup_params (param_list ps)) ≡ value_of key ps []
unfolding parse_startup_params lookup
lookup-parse_startup_params key ps h =
    ap (lookup key) (params_from-param_list ps (length (param_list ps)) [] h (omega arith))
    ∙ lookup-add_all key ps []

module _ (f g : Bytes → Params → Params) where
  with_value-agree :
      (key text : Bytes) (m : Params) (o : Option ℕ) (n : ℕ)
      → length text ≤ n
      → ((t : Bytes) (m : Params) → length t < suc n → f t m ≡ g t m)
      → with_value f key text m o ≡ with_value g key text m o
  unfolding with_value
  with_value-agree key text m none n l h = refl
  with_value-agree key text m (some vi) n l h = h _ _ (omega (arith, length-drop (vi + 1) text))

  on_value-agree :
      (key text : Bytes) (m : Params) (n : ℕ)
      → length text ≤ n
      → ((t : Bytes) (m : Params) → length t < suc n → f t m ≡ g t m)
      → on_value f key text m ≡ on_value g key text m
  unfolding on_value
  on_value-agree key [] m n l h = refl
  on_value-agree key (b ∷ text) m n l h = with_value-agree key (b ∷ text) m _ n l h

  on_key-agree :
      (b : ℕ) (text : Bytes) (m : Params) (o : Option ℕ)
      → ((t : Bytes) (m : Params) → length t < suc (length text) → f t m ≡ g t m)
      → on_key f (b ∷ text) m o ≡ on_key g (b ∷ text) m o
  unfolding on_key
  on_key-agree b text m none h = refl
  on_key-agree b text m (some ki) h =
      on_value-agree (take ki (b ∷ text)) (drop (ki + 1) (b ∷ text)) m (length text)
        (omega (arith, length-drop (ki + 1) (b ∷ text))) h

params_from-agree :
    (fuel more : ℕ) (text : Bytes) (m : Params)
    → length text ≤ fuel
    → length text ≤ more
    → params_from fuel text m ≡ params_from more text m
unfolding params_from
params_from-agree zero zero text m h k = refl
params_from-agree zero (suc more) [] m h k = refl
params_from-agree zero (suc more) (b ∷ text) m h k = absurd (omega arith)
params_from-agree (suc fuel) zero [] m h k = refl
params_from-agree (suc fuel) zero (b ∷ text) m h k = absurd (omega arith)
params_from-agree (suc fuel) (suc more) [] m h k = refl
params_from-agree (suc fuel) (suc more) (b ∷ text) m h k =
    elim (Bool-cases (ltb 1 (length (b ∷ text)))) [
      | inr e ↦ rw e refl
      | inl e ↦ rw e (
          on_key-agree (params_from fuel) (params_from more) b text m _
            λ t m' l. params_from-agree fuel more t m' (omega arith) (omega arith))
    ]

-- The fuel of `parseStartupParams`' model is enough for any message: more of it, with any map to
-- begin with, changes nothing.
pub params_from_total :
    (text : Bytes) (m : Params) (fuel : ℕ)
    → length text ≤ fuel
    → params_from fuel text m ≡ params_from (length text) text m
params_from_total text m fuel h = params_from-agree fuel (length text) text m h (omega arith)
