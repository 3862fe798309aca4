-- ===== src/Execution/Emails.antt =====
-- The emails of a terminal event.
use flyteadmin.Execution.Repo.{Repo}
use flyteadmin.Execution.Event.{
  unexpected_data_error, publish_notification_error, emit, recipients, State, notify_all, Config,
  matches_any, email_published, Effect,
}
use flyteadmin.Phase.{same_phase, same_phase_iff, WorkflowPhase}
use mathlib.Core.List.{append-nil, append_assoc}
use flyteadmin.Execution.{
  Wire, other_type, slack, pager_duty, email, Notification, NotificationType,
}
use flyteadmin.Common.{
  Option-cases, internal, new_flyte_admin_error, err, ◌⊎◌, false, some, if◌then◌else◌, ◌∙◌, ok, ◌≢◌,
  All, inr, inl, arith, sym, Bool-cases, true, Memᴰ, refl, ap, [], ◌++◌, ◌∷◌, String, List, ◌≡◌,
}

-- The emails in what a handler has done.
abbrev pub emails_in : List Effect → List (List String)
emails_in [] = []
emails_in (email_published rs ∷ es) = rs ∷ emails_in es
emails_in (_ ∷ es) = emails_in es

abbrev pub addressees : NotificationType → List String
addressees (email rs) = rs
addressees (pager_duty rs) = rs
addressees (slack rs) = rs
addressees other_type = []

-- One email for each notification, in order, that lists the phase.
pub data Due (p : WorkflowPhase) : List Notification → List (List String) → Type 0 where
  none_due : Due p [] []
  due :
      (n : Notification) {ns : List Notification} {es : List (List String)}
      → Memᴰ p n.phases
      → Due p ns es
      → Due p (n ∷ ns) (addressees n.type_of ∷ es)
  not_due :
      (n : Notification) {ns : List Notification} {es : List (List String)}
      → ¬ (Memᴰ p n.phases)
      → Due p ns es
      → Due p (n ∷ ns) es

emails_in-append : (xs ys : List Effect) → emails_in (xs ++ ys) ≡ emails_in xs ++ emails_in ys
emails_in-append [] ys = refl
emails_in-append (email_published rs ∷ xs) ys = ap (λ es. rs ∷ es) (emails_in-append xs ys)
emails_in-append (_ ∷ xs) ys = emails_in-append xs ys

matches_any-Mem :
    (p : WorkflowPhase) (ps : List WorkflowPhase) → matches_any p ps ≡ true → Memᴰ p ps
matches_any-Mem p [] h = cc
matches_any-Mem p (q ∷ ps) h = elim (Bool-cases (same_phase q p)) [
  | inl e ↦ Memᴰ.head (sym ((same_phase_iff q p).0 e))
  | inr e ↦ Memᴰ.tail (matches_any-Mem p ps (rw e at h))
]

Mem-matches_any :
    (p : WorkflowPhase) {ps : List WorkflowPhase} → Memᴰ p ps → matches_any p ps ≡ true
Mem-matches_any p {ps = []} m = elim m [ ]
Mem-matches_any p {ps = q ∷ ps} (Memᴰ.head e) = rw ((same_phase_iff q p).1 (sym e)) refl
Mem-matches_any p {ps = q ∷ ps} (Memᴰ.tail m) = ground (arith, Mem-matches_any p m)

recipients-addressees : (t : NotificationType) → t ≢ other_type → recipients t ≡ some (addressees t)
recipients-addressees (email rs) h = refl
recipients-addressees (pager_duty rs) h = refl
recipients-addressees (slack rs) h = refl
recipients-addressees other_type h = absurd (h refl)

-- The state after one email, whether or not it was delivered.
abbrev pub sent : Config → List String → State → State
sent cfg rs st =
    let out = emit (email_published rs) st in
    if cfg.delivers st.trace then out else emit publish_notification_error out

emails_in-sent :
    (cfg : Config) (rs : List String) (st : State)
    → emails_in (sent cfg rs st).trace ≡ emails_in st.trace ++ rs ∷ []
emails_in-sent cfg rs st = elim (Bool-cases (cfg.delivers st.trace)) [
  | inl e ↦ rw e (emails_in-append st.trace _)
  | inr e ↦ rw e (simp (emails_in-append, append_assoc, append-nil))
]

module _ (w : Wire) (r : Repo) (cfg : Config) where
  -- What happens to the first notification.
  pub notify_all_cases :
      (p : WorkflowPhase) (n : Notification) (ns : List Notification) (st : State)
      → (notify_all w r cfg p (n ∷ ns) st ≡ notify_all w r cfg p ns st)
        ⊎ ((rs : List String) × (notify_all w r cfg p (n ∷ ns) st
              ≡ notify_all w r cfg p ns (sent cfg rs st)))
        ⊎ (notify_all w r cfg p (n ∷ ns) st
            ≡ (emit unexpected_data_error st, err (new_flyte_admin_error internal)))
  unfolding notify_all
  notify_all_cases p n ns st = elim (Bool-cases (matches_any p n.phases)) [
    | inr e ↦ inl (ground arith)
    | inl e ↦ elim (Option-cases (recipients n.type_of)) [
      | inl o ↦ inr (inr (ground arith))
      | inr (rs, o) ↦ inr (inl (rs, ground arith))
    ]
  ]

  notify_all-skip :
      (p : WorkflowPhase) (n : Notification) (ns : List Notification) (st : State)
      → matches_any p n.phases ≡ false
      → notify_all w r cfg p (n ∷ ns) st ≡ notify_all w r cfg p ns st
  unfolding notify_all
  notify_all-skip p n ns st h = ground arith

  notify_all-send :
      (p : WorkflowPhase) (n : Notification) (ns : List Notification) (st : State)
      → matches_any p n.phases ≡ true
      → n.type_of ≢ other_type
      → notify_all w r cfg p (n ∷ ns) st
        ≡ notify_all w r cfg p ns (sent cfg (addressees n.type_of) st)
  unfolding notify_all
  notify_all-send p n ns st h known = ground (arith, recipients-addressees n.type_of known)

  -- Where every notification is of a known type, the emails that are due are sent, in order and
  -- whether or not the publisher accepts them, and the call succeeds.
  pub notify_all-Due :
      (p : WorkflowPhase) (ns : List Notification) (st : State)
      → All (λ n. n.type_of ≢ other_type) ns
      → ((notify_all w r cfg p ns st).1 ≡ ok tt)
        × (es : List (List String)) × Due p ns es
        × (emails_in (notify_all w r cfg p ns st).0.trace ≡ emails_in st.trace ++ es)
  notify_all-Due p [] st known = unfold notify_all in (refl, [], none_due, sym (append-nil _))
  notify_all-Due p (n ∷ ns) st (known, rest) = elim (Bool-cases (matches_any p n.phases)) [
    | inr e ↦
        let (fine, es, d, same) = notify_all-Due p ns st rest in
        rw (notify_all-skip p n ns st e)
          (fine, es, not_due n (λ m. cc (Mem-matches_any p m)) d, same)
    | inl e ↦
        let (fine, es, d, same) = notify_all-Due p ns (sent cfg (addressees n.type_of) st) rest in
        rw (notify_all-send p n ns st e known) (
          fine,
          addressees n.type_of ∷ es,
          due n (matches_any-Mem p n.phases e) d,
          same
              ∙ ap (λ xs. xs ++ es) (emails_in-sent cfg (addressees n.type_of) st)
              ∙ append_assoc (emails_in st.trace) (addressees n.type_of ∷ []) es,
        )
  ]
