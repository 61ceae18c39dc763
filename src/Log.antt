-- ===== src/Log.antt =====
-- The ring of recent log lines and the writer that feeds it (server/src/logbuf.rs). Lengths are those of
-- UTF-8; `String::truncate` panics inside of a character, which is `none` here. The lock is not poisoned.
pub mod Ring
use nexa_drive.Prelude.{
  ℕ, zero, suc, ◌+◌, ◌-◌, ◌*◌, Bool, true, false, not, ◌||◌, Option, none, some, List, [], ◌∷◌,
  ◌++◌, ltb, leb, ◌==◌, if◌then◌else◌, min, max, take, drop, length, any,
}
use nexa_drive.Text.{
  Text, codes, text_eq, is_empty, is_whitespace, trim, trim_end, to_ascii_lowercase, starts_with,
  contains, split,
}
use nexa_drive.Paths.Mime.{utf8}

abbrev pub max_log_lines : ℕ
max_log_lines = 500

abbrev pub max_line_len : ℕ
max_line_len = 2000

unfoldable pub byte_len : Text → ℕ
byte_len [] = 0
byte_len (c ∷ t) = length (utf8 c) + byte_len t

-- The first `n` bytes, if they end where a character does.
unfoldable pub truncate : ℕ → Text → Option Text
truncate zero t = some []
truncate (suc n) [] = some []
truncate (suc n) (c ∷ t) =
    let rest = truncate (suc n - length (utf8 c)) t in
    if leb (length (utf8 c)) (suc n)
    then (elim rest [ none ↦ none | some s ↦ some (c ∷ s) ])
    else none

-- `split_inclusive(char::is_whitespace)`
unfoldable pub cons_word : ℕ → List Text → List Text
cons_word c [] = (c ∷ []) ∷ []
cons_word c (w ∷ ws) = (c ∷ w) ∷ ws

unfoldable pub words : Text → List Text
words [] = []
words (c ∷ t) = if is_whitespace c then (c ∷ []) ∷ words t else cons_word c (words t)

abbrev pub secret_keys : List Text
secret_keys =
    codes "token="
    ∷ codes "password="
    ∷ codes "passwd="
    ∷ codes "secret="
    ∷ codes "authorization="
    ∷ codes "csrf="
    ∷ codes "cookie="
    ∷ []

unfoldable pub is_secret_kv : Text → Bool
is_secret_kv lower = any (λ k. starts_with k lower || contains (codes " " ++ k) lower) secret_keys

unfoldable pub is_bearer : Text → Bool
is_bearer lower = text_eq lower (codes "bearer") || starts_with (codes "bearer ") lower

-- The white space behind the word is kept.
unfoldable pub masked : Text → Text
masked token =
    let lower = to_ascii_lowercase (trim_end token) in
    if is_bearer lower || is_secret_kv lower
    then codes "[redacted]" ++ drop (length (trim_end token)) token
    else token

unfoldable pub redact_words : Text → List Text → Option Text
redact_words current [] = some current
redact_words current (w ∷ ws) =
    let rest = redact_words (current ++ masked w) ws in
    if ltb max_line_len (byte_len (current ++ masked w))
    then truncate max_line_len (current ++ masked w)
    else rest

unfoldable pub redact : Text → Option Text
redact input = redact_words [] (words input)

unfoldable pub push_line : List Text → Text → List Text
push_line ring line =
    if is_empty (trim line)
    then ring
    else if leb max_log_lines (length ring)
    then drop 1 ring ++ (line ∷ [])
    else ring ++ (line ∷ [])

unfoldable pub push_redacted : List Text → Option Text → Option (List Text)
push_redacted ring none = none
push_redacted ring (some line) = some (push_line ring line)

unfoldable pub push : List Text → Text → Option (List Text)
push ring line = push_redacted ring (redact line)

unfoldable pub reverse_onto : List Text → List Text → List Text
reverse_onto [] acc = acc
reverse_onto (x ∷ xs) acc = reverse_onto xs (x ∷ acc)

-- Newest first; the limit is clamped to 1 … 500.
unfoldable pub recent : ℕ → List Text → List Text
recent limit ring = take (max 1 (min limit max_log_lines)) (reverse_onto ring [])

pub record LogWriter : Type 0 where
  pub ring : List Text
  pub pending : Text

unfoldable pub is_line_end : ℕ → Bool
is_line_end c = c == 10 || c == 13

unfoldable pub trim_line_cons : ℕ → Text → Text
trim_line_cons c t = if is_line_end c then (if is_empty t then [] else c ∷ t) else c ∷ t

-- `trim_end_matches(['\n', '\r'])`
unfoldable pub trim_line_end : Text → Text
trim_line_end [] = []
trim_line_end (c ∷ t) = trim_line_cons c (trim_line_end t)

unfoldable pub drain_next : Option (List Text) → (List Text → Option LogWriter) → Option LogWriter
drain_next none k = none
drain_next (some ring) k = k ring

-- The complete lines go to the ring; what stands behind the last line end stays.
unfoldable pub drain_lines : List Text → List Text → Option LogWriter
drain_lines ring [] = some (record { ring = ring; pending = [] })
drain_lines ring (last ∷ []) = some (record { ring = ring; pending = last })
drain_lines ring (line ∷ next ∷ lines) =
    drain_next (push ring (trim_line_end line)) (λ r. drain_lines r (next ∷ lines))

unfoldable pub drain_complete_lines : LogWriter → Option LogWriter
drain_complete_lines w = drain_lines w.ring (split 10 w.pending)

unfoldable pub emptied : Option (List Text) → Option LogWriter
emptied none = none
emptied (some ring) = some (record { ring = ring; pending = [] })

unfoldable pub cap_pending : Option LogWriter → Option LogWriter
cap_pending none = none
cap_pending (some w) =
    if ltb (max_line_len * 2) (byte_len w.pending) then emptied (push w.ring w.pending) else some w

-- `write`, on the text that `String::from_utf8_lossy` makes of the buffer.
unfoldable pub write : LogWriter → Text → Option LogWriter
write w text =
    cap_pending (drain_complete_lines (record { ring = w.ring; pending = w.pending ++ text }))

unfoldable pub flush_rest : Option LogWriter → Option LogWriter
flush_rest none = none
flush_rest (some w) = if is_empty w.pending then some w else emptied (push w.ring w.pending)

unfoldable pub flush : LogWriter → Option LogWriter
flush w = flush_rest (drain_complete_lines w)
