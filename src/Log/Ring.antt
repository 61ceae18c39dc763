-- ===== src/Log/Ring.antt =====
-- The size of the ring (server/src/logbuf.rs).
use nexa_drive.Prelude.{
  ◌*◌, ◌≤◌, Bool, true, false, Option, none, some, List, [], ◌∷◌, ◌++◌, arith, ltb, if◌then◌else◌,
  length, drop, length-append, length-drop,
}
use nexa_drive.Text.{Text, is_empty, split}
use nexa_drive.Log.{
  max_log_lines, max_line_len, push_line, push_redacted, push, redact, byte_len, trim_line_end,
  LogWriter, drain_next, drain_lines, drain_complete_lines, emptied, cap_pending, write, flush_rest,
  flush,
}

abbrev pub Fits : LogWriter → Type 0
Fits w = length w.ring ≤ max_log_lines

-- A panic leaves nothing to say.
abbrev pub Each : {A : Type 0} → (A → Type 0) → Option A → Type 0
Each P none = Unit {0}
Each P (some a) = P a

push_line-bound :
    (ring : List Text) (line : Text)
    → length ring ≤ max_log_lines
    → length (push_line ring line) ≤ max_log_lines
unfolding push_line
push_line-bound ring line h = ground (
  arith,
  length-append ring (line ∷ []),
  length-append (drop 1 ring) (line ∷ []),
  length-drop 1 ring,
)

push_redacted-bound :
    (ring : List Text) (line : Option Text)
    → length ring ≤ max_log_lines
    → Each (λ r. length r ≤ max_log_lines) (push_redacted ring line)
unfolding push_redacted
push_redacted-bound ring none h = tt
push_redacted-bound ring (some line) h = push_line-bound ring line h

push-bound :
    (ring : List Text) (line : Text)
    → length ring ≤ max_log_lines
    → Each (λ r. length r ≤ max_log_lines) (push ring line)
unfolding push
push-bound ring line h = push_redacted-bound ring (redact line) h

drain_next-Fits :
    (r : Option (List Text)) (k : List Text → Option LogWriter)
    → Each (λ x. length x ≤ max_log_lines) r
    → ((x : List Text) → length x ≤ max_log_lines → Each Fits (k x))
    → Each Fits (drain_next r k)
unfolding drain_next
drain_next-Fits none k h f = tt
drain_next-Fits (some x) k h f = f x h

drain_lines-Fits :
    (ring lines : List Text) → length ring ≤ max_log_lines → Each Fits (drain_lines ring lines)
unfolding drain_lines
drain_lines-Fits ring [] h = h
drain_lines-Fits ring (last ∷ []) h = h
drain_lines-Fits ring (line ∷ next ∷ lines) h =
    drain_next-Fits (push ring (trim_line_end line)) (λ r. drain_lines r (next ∷ lines))
      (push-bound ring (trim_line_end line) h) (λ x k. drain_lines-Fits x (next ∷ lines) k)

emptied-Fits :
    (r : Option (List Text)) → Each (λ x. length x ≤ max_log_lines) r → Each Fits (emptied r)
unfolding emptied
emptied-Fits none h = tt
emptied-Fits (some r) h = h

either-Fits :
    (b : Bool) (x y : Option LogWriter) → Each Fits x → Each Fits y → Each Fits (if b then x else y)
either-Fits true x y h k = h
either-Fits false x y h k = k

cap_pending-Fits : (w : Option LogWriter) → Each Fits w → Each Fits (cap_pending w)
unfolding cap_pending
cap_pending-Fits none h = tt
cap_pending-Fits (some w) h =
    either-Fits (ltb (max_line_len * 2) (byte_len w.pending)) (emptied (push w.ring w.pending))
      (some w) (emptied-Fits (push w.ring w.pending) (push-bound w.ring w.pending h)) h

flush_rest-Fits : (w : Option LogWriter) → Each Fits w → Each Fits (flush_rest w)
unfolding flush_rest
flush_rest-Fits none h = tt
flush_rest-Fits (some w) h =
    either-Fits (is_empty w.pending) (some w) (emptied (push w.ring w.pending)) h
      (emptied-Fits (push w.ring w.pending) (push-bound w.ring w.pending h))

-- Whatever is written to the log, of any length and in any number of lines, and where the writer is
-- flushed after it, the ring holds at most 500 lines, if it did before (and the writer did not panic).
pub write-Fits :
    (w : LogWriter) (text : Text)
    → length w.ring ≤ max_log_lines
    → Each Fits (write w text) × Each Fits (flush w)
unfolding write flush drain_complete_lines
write-Fits w text h = (
  cap_pending-Fits _ (drain_lines-Fits w.ring (split 10 (w.pending ++ text)) h),
  flush_rest-Fits _ (drain_lines-Fits w.ring (split 10 w.pending) h),
)
