-- ===== src/Task/Logs.antt =====
-- The logs of a task over its events (`mergeLogs` in pkg/repositories/transformers/task_execution.go).
use flyteadmin.Common.{
  ◌≡◌, refl, sym, ap, ◌∙◌, List, [], ◌∷◌, ◌++◌, Bool, true, false, not, ◌&&◌, ◌||◌, String, str_eq,
  eq_refl,
}
use flyteadmin.Task.{TaskLog}

-- Whether a log of the latest event has the URI, or the name, of an existing log. The empty name is
-- not put into the set of names.
abbrev pub has_uri : String → List TaskLog → Bool
has_uri u [] = false
has_uri u (l ∷ ls) = str_eq l.uri u || has_uri u ls

abbrev pub has_name : String → List TaskLog → Bool
has_name n [] = false
has_name n (l ∷ ls) = not (str_eq l.name "") && str_eq l.name n || has_name n ls

abbrev pub is_seen : List TaskLog → TaskLog → Bool
is_seen latest l = has_uri l.uri latest || has_name l.name latest

abbrev pub add_unless : (seen : Bool) → TaskLog → List TaskLog → List TaskLog
add_unless true l rest = rest
add_unless false l rest = l ∷ rest

-- The loop over the existing logs.
abbrev pub add_unseen : List TaskLog → List TaskLog → List TaskLog
add_unseen latest [] = []
add_unseen latest (l ∷ existing) = add_unless (is_seen latest l) l (add_unseen latest existing)

unfoldable pub merge_logs : (existing latest : List TaskLog) → List TaskLog
merge_logs existing [] = existing
merge_logs [] (l ∷ latest) = l ∷ latest
merge_logs (e ∷ existing) (l ∷ latest) = (l ∷ latest) ++ add_unseen (l ∷ latest) (e ∷ existing)

-- Without latest logs no log is seen.
add_unseen_none : (existing : List TaskLog) → add_unseen [] existing ≡ existing
add_unseen_none [] = refl
add_unseen_none (e ∷ existing) = ap (λ l. e ∷ l) (add_unseen_none existing)

append_nil : (xs : List TaskLog) → xs ++ [] ≡ xs
append_nil [] = refl
append_nil (x ∷ xs) = ap (λ l. x ∷ l) (append_nil xs)

merge_logs-append :
    (existing latest : List TaskLog)
    → merge_logs existing latest ≡ latest ++ add_unseen latest existing
unfolding merge_logs
merge_logs-append existing [] = sym (add_unseen_none existing)
merge_logs-append [] (l ∷ latest) = sym (append_nil (l ∷ latest))
merge_logs-append (e ∷ existing) (l ∷ latest) = refl

add_unless-append :
    (seen : Bool) (x : TaskLog) (xs ys : List TaskLog)
    → add_unless seen x (xs ++ ys) ≡ add_unless seen x xs ++ ys
add_unless-append true x xs ys = refl
add_unless-append false x xs ys = refl

add_unseen-append :
    (latest xs ys : List TaskLog)
    → add_unseen latest (xs ++ ys) ≡ add_unseen latest xs ++ add_unseen latest ys
add_unseen-append latest [] ys = refl
add_unseen-append latest (x ∷ xs) ys =
    ap (add_unless (is_seen latest x) x) (add_unseen-append latest xs ys)
    ∙ add_unless-append (is_seen latest x) x (add_unseen latest xs) (add_unseen latest ys)

-- What was added is not seen.
add_unseen-add_unless :
    (latest : List TaskLog) (x : TaskLog) (xs : List TaskLog) (seen : Bool)
    → is_seen latest x ≡ seen
    → add_unseen latest xs ≡ xs
    → add_unseen latest (add_unless seen x xs) ≡ add_unless seen x xs
add_unseen-add_unless latest x xs true e later = later
add_unseen-add_unless latest x xs false e later =
    ap (λ b. add_unless b x (add_unseen latest xs)) e ∙ ap (λ l. x ∷ l) later

add_unseen_again :
    (latest xs : List TaskLog) → add_unseen latest (add_unseen latest xs) ≡ add_unseen latest xs
add_unseen_again latest [] = refl
add_unseen_again latest (x ∷ xs) =
    add_unseen-add_unless latest x (add_unseen latest xs) (is_seen latest x) refl
      (add_unseen_again latest xs)

or_true : (a : Bool) → (a || true) ≡ true
or_true true = refl
or_true false = refl

-- A log has its own URI.
has_uri-own :
    (before : List TaskLog) (x : TaskLog) (after : List TaskLog)
    → has_uri x.uri (before ++ x ∷ after) ≡ true
has_uri-own [] x after = ap (λ b. b || has_uri x.uri after) (eq_refl x.uri)
has_uri-own (l ∷ before) x after =
    ap (λ b. str_eq l.uri x.uri || b) (has_uri-own before x after) ∙ or_true (str_eq l.uri x.uri)

append_step :
    (before : List TaskLog) (x : TaskLog) (own : List TaskLog)
    → (before ++ x ∷ []) ++ own ≡ before ++ x ∷ own
append_step [] x own = refl
append_step (b ∷ before) x own = ap (λ l. b ∷ l) (append_step before x own)

add_unseen_own : (before own : List TaskLog) → add_unseen (before ++ own) own ≡ []
add_unseen_own before [] = refl
add_unseen_own before (x ∷ own) =
    ap
      (λ b.
        add_unless (b || has_name x.name (before ++ x ∷ own)) x
          (add_unseen (before ++ x ∷ own) own))
      (has_uri-own before x own)
    ∙ ap (λ l. add_unseen l own) (sym (append_step before x own))
    ∙ add_unseen_own (before ++ x ∷ []) own

-- To merge the logs of an event a second time changes nothing.
pub merge_logs-again :
    (existing latest : List TaskLog)
    → merge_logs (merge_logs existing latest) latest ≡ merge_logs existing latest
merge_logs-again existing latest =
    merge_logs-append (merge_logs existing latest) latest
    ∙ ap (λ l. latest ++ add_unseen latest l) (merge_logs-append existing latest)
    ∙ ap (λ l. latest ++ l)
        (add_unseen-append latest latest (add_unseen latest existing)
          ∙ ap (λ l. l ++ add_unseen latest (add_unseen latest existing)) (add_unseen_own [] latest)
          ∙ add_unseen_again latest existing)
    ∙ sym (merge_logs-append existing latest)
