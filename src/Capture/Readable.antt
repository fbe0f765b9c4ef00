-- ===== src/Capture/Readable.antt =====
-- What `Log` of internal/capture/store.go writes can be read back.
use white_toyota_tacoma.Common.{
  ℕ, zero, suc, ◌≡◌, ◌≢◌, ◌∙◌, refl, sym, ap, none, some, List, [], ◌∷◌, ◌++◌, take, drop,
  append_assoc, append-nil,
}
use white_toyota_tacoma.Common.Bytes.{Bytes, codes}
use white_toyota_tacoma.Common.Quote.{json_string}
use white_toyota_tacoma.Common.Quote.Reader.{read_string, read_string-json_string}
use white_toyota_tacoma.Capture.{
  Event, Store, sanitize_str, sanitize, omit_empty, concat, pieces, marshal, log,
}
use white_toyota_tacoma.Capture.Sanitize.{sanitize_str-encode}

-- The fields that an attacker chooses.
pub data Field : Type 0 where
  username password database auth_hash command payload : Field

abbrev pub text_of : Field → Event → Bytes
text_of username e = e.username
text_of password e = e.password
text_of database e = e.database
text_of auth_hash e = e.auth_hash
text_of command e = e.command
text_of payload e = e.payload

abbrev pub key_of : Field → Bytes
key_of username = codes "\"username\":"
key_of password = codes "\"password\":"
key_of database = codes "\"database\":"
key_of auth_hash = codes "\"auth_hash\":"
key_of command = codes "\"command\":"
key_of payload = codes "\"payload\":"

abbrev index_of : Field → ℕ
index_of username = 8
index_of password = 9
index_of database = 10
index_of auth_hash = 11
index_of command = 12
index_of payload = 13

drop-pieces :
    (f : Field) (e : Event)
    → drop (index_of f) (pieces e)
      ≡ omit_empty (key_of f) (text_of f e) ∷ drop (suc (index_of f)) (pieces e)
unfolding pieces
drop-pieces username e = refl
drop-pieces password e = refl
drop-pieces database e = refl
drop-pieces auth_hash e = refl
drop-pieces command e = refl
drop-pieces payload e = refl

concat-take-drop : (n : ℕ) (ss : List Bytes) → concat ss ≡ concat (take n ss) ++ concat (drop n ss)
unfolding concat
concat-take-drop zero ss = refl
concat-take-drop (suc n) [] = refl
concat-take-drop (suc n) (s ∷ ss) =
    ap (λ t. s ++ t) (concat-take-drop n ss)
    ∙ sym (append_assoc s (concat (take n ss)) (concat (drop n ss)))

omit_empty-ne-nil : (key s : Bytes) → s ≢ [] → omit_empty key s ≡ b',' ∷ (key ++ json_string s)
unfolding omit_empty
omit_empty-ne-nil key [] h = absurd (h refl)
omit_empty-ne-nil key (b ∷ s) h = refl

text_of-sanitize : (f : Field) (e : Event) → text_of f (sanitize e) ≡ sanitize_str (text_of f e)
unfolding sanitize
text_of-sanitize username e = refl
text_of-sanitize password e = refl
text_of-sanitize database e = refl
text_of-sanitize auth_hash e = refl
text_of-sanitize command e = refl
text_of-sanitize payload e = refl

text_of-timestamp :
    (f : Field) (e : Event) (now : Bytes) → text_of f (record e { timestamp = now }) ≡ text_of f e
text_of-timestamp username e now = refl
text_of-timestamp password e now = refl
text_of-timestamp database e now = refl
text_of-timestamp auth_hash e now = refl
text_of-timestamp command e now = refl
text_of-timestamp payload e now = refl

regroup :
    (a b c d e f : Bytes) → a ++ ((b ++ (c ++ (d ++ e))) ++ f) ≡ (a ++ b) ++ (c ++ (d ++ (e ++ f)))
regroup a b c d e f = simp append_assoc

regroup_tail : (a b c d e : Bytes) → (a ++ (b ++ (c ++ d))) ++ e ≡ a ++ (b ++ (c ++ (d ++ e)))
regroup_tail a b c d e = simp append_assoc

-- One field, in front of those behind it.
concat_field :
    (f : Field) (e : Event)
    → text_of f e ≢ []
    → concat (drop (index_of f) (pieces e))
      ≡ b','
        ∷ (key_of f ++ (json_string (text_of f e) ++ concat (drop (suc (index_of f)) (pieces e))))
unfolding concat
concat_field f e h =
    let behind = concat (drop (suc (index_of f)) (pieces e)) in
    ap concat (drop-pieces f e)
    ∙ ap (λ s. s ++ behind) (omit_empty-ne-nil (key_of f) (text_of f e) h)
    ∙ ap (◌∷◌ b',') (append_assoc (key_of f) (json_string (text_of f e)) behind)

marshal_field :
    (f : Field) (e : Event)
    → text_of f e ≢ []
    → (before behind : Bytes) × (marshal e
        ≡ before ++ (key_of f ++ (json_string (text_of f e) ++ behind)))
unfolding marshal
marshal_field f e h =
    let start = concat (take (index_of f) (pieces e)) in
    let behind = concat (drop (suc (index_of f)) (pieces e)) in
    (
      start ++ b',' ∷ [],
      behind,
      concat-take-drop (index_of f) (pieces e)
          ∙ ap (λ t. start ++ t) (concat_field f e h)
          ∙ sym
              (append_assoc start (b',' ∷ []) (key_of f ++ (json_string (text_of f e) ++ behind))),
    )

-- For one event.
log_reads_back :
    (now : Bytes) (s : Store) (e : Event) (f : Field)
    → sanitize_str (text_of f e) ≢ []
    → (before behind : Bytes) × ((log now none s e).file
        ≡ before ++ (key_of f ++ (json_string (sanitize_str (text_of f e)) ++ behind)))
      × (read_string (json_string (sanitize_str (text_of f e)) ++ behind)
          ≡ some (sanitize_str (text_of f e), behind))
unfolding log
log_reads_back now s e f h =
    let d : Event = sanitize (record e { timestamp = now }) in
    let v = sanitize_str (text_of f e) in
    let same_text =
      text_of-sanitize f (record e { timestamp = now })
      ∙ ap sanitize_str (text_of-timestamp f e now) in
    let (before, behind, q) = marshal_field f d (λ n. h (sym same_text ∙ n)) in
    let (rs, u, scalars) = sanitize_str-encode (text_of f e) in
    (
      s.file ++ before,
      behind ++ 10 ∷ [],
      ap (λ t. s.file ++ (t ++ 10 ∷ []))
            (q ∙ ap (λ t. before ++ (key_of f ++ (json_string t ++ behind))) same_text)
          ∙ regroup s.file before (key_of f) (json_string v) behind (10 ∷ []),
      rw u (read_string-json_string rs (behind ++ 10 ∷ []) scalars),
    )

-- The store after these events, each at its time, if the file takes every write.
abbrev pub log_all : List (Bytes × Event) → Store → Store
log_all [] s = s
log_all ((now, e) ∷ es) s = log_all es (log now none s e)

log_all-append :
    (es ds : List (Bytes × Event)) (s : Store) → log_all (es ++ ds) s ≡ log_all ds (log_all es s)
log_all-append [] ds s = refl
log_all-append ((now, e) ∷ es) ds s = log_all-append es ds (log now none s e)

-- What is in the file stays there.
log_all_behind :
    (es : List (Bytes × Event)) (s : Store)
    → (more : Bytes) × ((log_all es s).file ≡ s.file ++ more)
unfolding log
log_all_behind [] s = ([], sym (append-nil s.file))
log_all_behind ((now, e) ∷ es) s =
    let (more, q) = log_all_behind es (log now none s e) in
    let line = marshal (sanitize (record e { timestamp = now })) ++ 10 ∷ [] in
    (line ++ more, q ∙ append_assoc s.file line more)

-- Whatever is logged before an event and after it, a field of it that an attacker chooses, if
-- anything is left of it without its control characters, stands in the file behind its key, and one
-- who reads the file finds there what `sanitizeStr` left of the field, and where it ends: no quote,
-- backslash or other character of the field is taken for the end of its string. The file must take
-- every write.
pub log_all_reads_back :
    (es ds : List (Bytes × Event)) (s : Store) (now : Bytes) (e : Event) (f : Field)
    → sanitize_str (text_of f e) ≢ []
    → (before behind : Bytes) × ((log_all (es ++ (now, e) ∷ ds) s).file
        ≡ before ++ (key_of f ++ (json_string (sanitize_str (text_of f e)) ++ behind)))
      × (read_string (json_string (sanitize_str (text_of f e)) ++ behind)
          ≡ some (sanitize_str (text_of f e), behind))
log_all_reads_back es ds s now e f h =
    let v = sanitize_str (text_of f e) in
    let (before, behind, q, r) = log_reads_back now (log_all es s) e f h in
    let (more, p) = log_all_behind ds (log now none (log_all es s) e) in
    let (rs, u, scalars) = sanitize_str-encode (text_of f e) in
    (
      before,
      behind ++ more,
      ap (λ t. t.file) (log_all-append es ((now, e) ∷ ds) s)
          ∙ p
          ∙ ap (λ t. t ++ more) q
          ∙ regroup_tail before (key_of f) (json_string v) behind more,
      rw u (read_string-json_string rs (behind ++ more) scalars),
    )
