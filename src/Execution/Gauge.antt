-- ===== src/Execution/Gauge.antt =====
-- The gauge of active executions: how often the handler lowers it.
use flyteadmin.Execution.Handler.{
  Accepted-stored, Accepted, handle_all, create_workflow_event_cases,
}
use flyteadmin.Execution.Emails.{notify_all_cases, sent}
use flyteadmin.Phase.{running, same_phase, is_execution_terminal}
use flyteadmin.Execution.Repo.{IsRepo, Repo, is_full_key}
use flyteadmin.Execution.Event.{
  create_workflow_event, scheduled_delay_observed, unexpected_data_error, event_written,
  carries_data, publish_notifications, measure_end, active_executions_dec, close_event,
  publish_event, notify_all, finish_event, emit, Config, EventRequest, State, Effect,
}
use flyteadmin.Execution.{
  IsWire, Notification, WorkflowPhase, WorkflowEvent, Execution, ExecutionKey, Wire,
}
use flyteadmin.Common.{
  All, ap, sym, some-equal, ◌∙◌, ◌==◌, inr, String, false, inl, true, Bool-cases, refl, ok,
  if◌then◌else◌, [], arith, err, suc, some, ◌∷◌, ◌+◌, ◌++◌, ℕ, Result, List, ◌≡◌,
}

-- How often a trace lowers the gauge.
abbrev pub decrements : List Effect → ℕ
decrements [] = 0
decrements (active_executions_dec ∷ es) = suc (decrements es)
decrements (_ ∷ es) = decrements es

-- One, while the execution is on record and not over.
abbrev pub live : Wire → Result Execution → ℕ
live w (err e) = 0
live w (ok x) = if is_execution_terminal (w.phase_value x.phase) then 0 else 1

-- Every request is for the execution `k`.
abbrev pub IsFor : ExecutionKey → EventRequest → Type 0
IsFor k q = (e : WorkflowEvent) → q.event ≡ some e → e.execution_id ≡ some k

decrements-append : (xs ys : List Effect) → decrements (xs ++ ys) ≡ decrements xs + decrements ys
decrements-append [] ys = omega arith
decrements-append (active_executions_dec ∷ xs) ys = omega (arith, decrements-append xs ys)
decrements-append (_ ∷ xs) ys = decrements-append xs ys

abbrev lowers : Effect → ℕ
lowers e = decrements (e ∷ [])

decrements-emit :
    (e : Effect) (st : State) → decrements (emit e st).trace ≡ decrements st.trace + lowers e
decrements-emit e st = decrements-append st.trace (e ∷ [])

decrements-sent :
    (cfg : Config) (rs : List String) (st : State)
    → decrements (sent cfg rs st).trace ≡ decrements st.trace
decrements-sent cfg rs st = elim (Bool-cases (cfg.delivers st.trace)) [
  | inl e ↦ rw e (simp decrements-append (omega arith))
  | inr e ↦ rw e (simp decrements-append (omega arith))
]

module _ (w : Wire) (r : Repo) (cfg : Config) where
  notify_all-decrements :
      (p : WorkflowPhase) (ns : List Notification) (st : State)
      → decrements (notify_all w r cfg p ns st).0.trace ≡ decrements st.trace
  notify_all-decrements p [] st = unfold notify_all in refl
  notify_all-decrements p (n ∷ ns) st = elim (notify_all_cases w r cfg p n ns st) [
    | inl e ↦ rw e (notify_all-decrements p ns st)
    | inr (inl (rs, e)) ↦
        rw e (notify_all-decrements p ns (sent cfg rs st) ∙ decrements-sent cfg rs st)
    | inr (inr e) ↦ rw e (decrements-emit unexpected_data_error st ∙ omega arith)
  ]

  running_not_over :
      (p : WorkflowPhase) → same_phase p running ≡ true → is_execution_terminal p ≡ false
  unfolding same_phase is_execution_terminal
  running_not_over p h = ground arith

  publish_event-decrements :
      (st : State) → decrements (publish_event w r cfg st).trace ≡ decrements st.trace
  publish_event-decrements st = elim (Bool-cases (cfg.delivers st.trace)) [
    | inl e ↦ rw e (simp decrements-append (omega arith))
    | inr e ↦ rw e (simp decrements-append (omega arith))
  ]

  publish_notifications-decrements :
      (p : WorkflowPhase) (x : Execution) (st : State)
      → decrements (publish_notifications w r cfg p x st).0.trace ≡ decrements st.trace
  unfolding publish_notifications
  publish_notifications-decrements p x st = grind (arith, notify_all-decrements, decrements-emit)

  close_event-decrements :
      (o : State × Result (Unit {0}))
      → decrements (close_event w r cfg o).0.trace ≡ decrements o.0.trace
  close_event-decrements (st, err e) = refl
  close_event-decrements (st, ok u) = publish_event-decrements st

  measure_end-decrements :
      (e : WorkflowEvent) (st : State)
      → decrements (measure_end w r cfg e st).trace ≡ decrements st.trace + 1
  measure_end-decrements e st = elim (Bool-cases (carries_data e.output)) [
    | inl h ↦ rw h (simp decrements-append (omega arith))
    | inr h ↦ rw h (simp decrements-append (omega arith))
  ]

  delayed-decrements :
      (x : Execution) (st : State)
      → decrements
          (if x.mode == cfg.scheduled
            then emit scheduled_delay_observed (emit event_written st)
            else emit event_written st).trace
        ≡ decrements st.trace
  delayed-decrements x st = elim (Bool-cases (x.mode == cfg.scheduled)) [
    | inl h ↦ rw h (simp decrements-append (omega arith))
    | inr h ↦ rw h (simp decrements-append (omega arith))
  ]

  finish_event-decrements :
      (e : WorkflowEvent) (x : Execution) (st : State)
      → decrements (finish_event w r cfg e x st).0.trace
        ≡ decrements st.trace + (if is_execution_terminal e.phase then 1 else 0)
  unfolding finish_event
  finish_event-decrements e x st = elim (Bool-cases (same_phase e.phase running)) [
    | inl h ↦
        rw (h, running_not_over e.phase h)
          (publish_event-decrements _ ∙ delayed-decrements x st ∙ omega arith)
    | inr h ↦ rw h (elim (Bool-cases (is_execution_terminal e.phase)) [
      | inl o ↦ rw o (
          close_event-decrements (
            publish_notifications w r cfg e.phase x (measure_end w r cfg e (emit event_written st)))
          ∙ publish_notifications-decrements e.phase x
              (measure_end w r cfg e (emit event_written st))
          ∙ measure_end-decrements e (emit event_written st)
          ∙ omega (arith, decrements-emit event_written st))
      | inr o ↦ rw o (
          publish_event-decrements (emit event_written st)
          ∙ decrements-emit event_written st
          ∙ omega arith)
    ])
  ]

  module _ (lawful : IsWire w) (sound : IsRepo r) where
    live_of :
        (q : EventRequest) (st st' : State) (a : Accepted w r cfg q st st')
        → is_full_key a.id ≡ true
        → (live w (r.get st.table a.id) ≡ 1)
          × (live w (r.get st'.table a.id) ≡ (if is_execution_terminal a.event.phase then 0 else 1))
    live_of q st st' a full =
        let (x, stored, phase, at) = Accepted-stored w r cfg lawful sound q st st' a full in
        (rw (a.found, a.allowed.not_over) refl, rw (stored, phase) refl)

    Accepted-decrements :
        (q : EventRequest) (st st' : State) (a : Accepted w r cfg q st st')
        → decrements st'.trace
          ≡ decrements st.trace + (if is_execution_terminal a.event.phase then 1 else 0)
    Accepted-decrements q st st' a =
        ap decrements a.effects
        ∙ finish_event-decrements a.event a.after (record st { table = st'.table })

    Accepted-live :
        (q : EventRequest) (st st' : State) (a : Accepted w r cfg q st st')
        → is_full_key a.id ≡ true
        → decrements st'.trace + live w (r.get st'.table a.id)
          ≡ decrements st.trace + live w (r.get st.table a.id)
    Accepted-live q st st' a full =
        let (before, after) = live_of q st st' a full in
        rw (before, after, Accepted-decrements q st st' a)
          (elim (Bool-cases (is_execution_terminal a.event.phase)) [
            | inl e ↦ rw e (omega arith)
            | inr e ↦ rw e (omega arith)
          ])

    step_live :
        (q : EventRequest) (st : State) (k : ExecutionKey)
        → is_full_key k ≡ true
        → IsFor k q
        → let st' = (create_workflow_event w r cfg q st).0 in
          decrements st'.trace + live w (r.get st'.table k)
          ≡ decrements st.trace + live w (r.get st.table k)
    step_live q st k full own = elim (create_workflow_event_cases w r cfg q st) [
      | inl (x, e) ↦ rw e refl
      | inr a ↦
          let same : a.id ≡ k = some-equal (sym a.named ∙ own a.event a.carried) in
          rw (← same) (Accepted-live q st _ a (ap is_full_key same ∙ full))
    ]

    -- Whatever events arrive for an execution, the gauge is lowered at most once for it, and
    -- exactly when the execution ends. No part of the execution's identifier is empty.
    pub handle_all-decrements :
        (qs : List EventRequest) (st : State) (k : ExecutionKey)
        → is_full_key k ≡ true
        → All (IsFor k) qs
        → let st' = handle_all w r cfg qs st in
          decrements st'.trace + live w (r.get st'.table k)
          ≡ decrements st.trace + live w (r.get st.table k)
    unfolding handle_all
    handle_all-decrements [] st k full own = refl
    handle_all-decrements (q ∷ qs) st k full (here, rest) =
        handle_all-decrements qs (create_workflow_event w r cfg q st).0 k full rest
        ∙ step_live q st k full here
