-- ===== src/Execution/Handler.antt =====
-- What one call of `create_workflow_event` does to the table, and what any sequence of calls does.
use flyteadmin.Execution.Stages.{update_execution_model_state-Recorded, Recorded}
use flyteadmin.Phase.{is_execution_terminal}
use flyteadmin.Execution.Update.{update_execution_model_state}
use flyteadmin.Execution.Transitions.{check_transition_iff, MayFollow}
use flyteadmin.Execution.Event.{
  publish_notifications, check_transition, record_event, validate_create_workflow_event_request,
  create_workflow_event, State, finish_event, EventRequest, notify_all, Config,
}
use flyteadmin.Execution.Repo.{overlay, IsRepo, Repo}
use flyteadmin.Execution.Repo.{same_key, is_full_key}
use flyteadmin.Execution.{
  IsWire, Notification, Execution, WorkflowEvent, WorkflowPhase, ExecutionKey, Wire,
}
use flyteadmin.Common.{
  Bool-cases, false, sym, ok-injective, inr, ap, inl, ◌∙◌, Result-cases, ◌⊎◌, err, >>=-eq-ok, refl,
  Error, [], ok, some, ◌∷◌, eq_iff, eq_refl, List, arith, true, ◌≡◌, All, if◌then◌else◌,
}

unfoldable pub handle_all : Wire → Repo → Config → List EventRequest → State → State
handle_all w r cfg [] st = st
handle_all w r cfg (q ∷ qs) st = handle_all w r cfg qs (create_workflow_event w r cfg q st).0

pub same_key-eq : (a b : ExecutionKey) → same_key a b ≡ true → a ≡ b
unfolding same_key
same_key-eq a b h =
    ground (arith, eq_iff a.project b.project, eq_iff a.domain b.domain, eq_iff a.name b.name)

pub same_key_self : (a : ExecutionKey) → same_key a a ≡ true
unfolding same_key
same_key_self a = simp eq_refl

-- The identifier of the event, if there is one, has no empty part.
abbrev pub IsNamed : EventRequest → Type 0
IsNamed q =
    (e : WorkflowEvent) (id : ExecutionKey)
    → q.event ≡ some e
    → e.execution_id ≡ some id
    → is_full_key id ≡ true

module _ (w : Wire) (r : Repo) (cfg : Config) where
  -- Neither the emails nor the counters touch the table.
  notify_all-table :
      (p : WorkflowPhase) (ns : List Notification) (st : State)
      → (notify_all w r cfg p ns st).0.table ≡ st.table
  unfolding notify_all
  notify_all-table p [] st = refl
  notify_all-table p (n ∷ ns) st = grind (arith, notify_all-table p ns)

  finish_event-table :
      (e : WorkflowEvent) (x : Execution) (st : State)
      → (finish_event w r cfg e x st).0.table ≡ st.table
  unfolding finish_event publish_notifications
  finish_event-table e x st = grind (arith, notify_all-table)

  -- An accepted event, with what the handler read and wrote for it.
  pub record Accepted (q : EventRequest) (st st' : State) : Type 0 where
    pub event : WorkflowEvent
    pub id : ExecutionKey
    pub before : Execution
    pub after : Execution
    pub carried : q.event ≡ some event
    pub named : event.execution_id ≡ some id
    pub found : r.get st.table id ≡ ok before
    pub allowed : MayFollow (w.phase_value before.phase) event.phase
    pub changed : update_execution_model_state w cfg.policy id event before ≡ ok after
    pub stored : r.update st.table after ≡ ok st'.table
    pub effects :
        st'.trace ≡ (finish_event w r cfg event after (record st { table = st'.table })).0.trace

  record_event-Accepted :
      (q : EventRequest) (st st' : State) (event : WorkflowEvent) (id : ExecutionKey)
      (y : Execution)
      → q.event ≡ some event
      → event.execution_id ≡ some id
      → record_event w r cfg st.table event id ≡ ok (st'.table, y)
      → st'.trace ≡ (finish_event w r cfg event y (record st { table = st'.table })).0.trace
      → Accepted q st st'
  unfolding record_event
  record_event-Accepted q st st' event id y carried named h effects =
      let (x, found, h1) = >>=-eq-ok (r.get st.table id) _ h in
      let (u, checked, h2) =
        >>=-eq-ok (check_transition w (w.phase_value x.phase) event.phase) _ h1 in
      let (y', changed, h3) =
        >>=-eq-ok (update_execution_model_state w cfg.policy id event x) _ h2 in
      let (t', stored, h4) = >>=-eq-ok (r.update st.table y') _ h3 in
      record {
        event = event;
        id = id;
        before = x;
        after = y;
        carried = carried;
        named = named;
        found = found;
        allowed = (check_transition_iff w (w.phase_value x.phase) event.phase).0 checked;
        changed = changed ∙ ap (λ (p : List Execution × Execution). ok p.1) (ok-injective h4);
        stored =
            ap (λ (p : List Execution × Execution). r.update st.table p.1) (sym (ok-injective h4))
            ∙ stored
            ∙ ap (λ (p : List Execution × Execution). ok p.0) (ok-injective h4);
        effects = effects;
      }

  validated :
      (q : EventRequest) {e : WorkflowEvent} {id : ExecutionKey}
      → validate_create_workflow_event_request w r cfg q ≡ ok (e, id)
      → (q.event ≡ some e) × (e.execution_id ≡ some id)
  unfolding validate_create_workflow_event_request
  validated q h = ground arith

  create_workflow_event-Accepted :
      (q : EventRequest) (st : State) (e : WorkflowEvent) (id : ExecutionKey) (t' : List Execution)
      (y : Execution)
      → validate_create_workflow_event_request w r cfg q ≡ ok (e, id)
      → record_event w r cfg st.table e id ≡ ok (t', y)
      → Accepted q st (create_workflow_event w r cfg q st).0
  unfolding create_workflow_event
  create_workflow_event-Accepted q st e id t' y v h =
      let whole : (create_workflow_event w r cfg q st).0
          ≡ (finish_event w r cfg e y (record st { table = t' })).0 =
        rw (v, create_workflow_event) (rw h refl) in
      let table =
        ap (λ (s : State). s.table) whole ∙ finish_event-table e y (record st { table = t' }) in
      let (carried, named) = validated q v in
      record_event-Accepted q st _ e id y carried named (h ∙ ap (λ t. ok (t, y)) (sym table)) (
        ap (λ (s : State). s.trace) whole
        ∙ ap (λ t. (finish_event w r cfg e y (record st { table = t })).0.trace) (sym table))

  -- A call either changes nothing and returns an error, or it stores an accepted event.
  pub create_workflow_event_cases :
      (q : EventRequest) (st : State)
      → ((x : Error) × (create_workflow_event w r cfg q st ≡ (st, err x)))
        ⊎ Accepted q st (create_workflow_event w r cfg q st).0
  unfolding create_workflow_event
  create_workflow_event_cases q st =
      elim (Result-cases (validate_create_workflow_event_request w r cfg q)) [
        | inl (x, e) ↦ inl (x, rw (e, create_workflow_event))
        | inr ((event, id), v) ↦ elim (Result-cases (record_event w r cfg st.table event id)) [
          | inl (x, e) ↦ inl (x, rw (v, create_workflow_event) (rw e))
          | inr ((t', y), e) ↦ inr (create_workflow_event-Accepted q st event id t' y v e)
        ]
      ]

  module _ (lawful : IsWire w) (sound : IsRepo r) where
    recorded :
        (q : EventRequest) (st st' : State) (a : Accepted q st st')
        → Recorded w a.event a.before a.after
    recorded q st st' a =
        update_execution_model_state-Recorded w cfg.policy a.id a.event a.before a.after lawful
          a.changed

    named_id :
        (q : EventRequest) (st st' : State) (a : Accepted q st st')
        → IsNamed q
        → is_full_key a.id ≡ true
    named_id q st st' a named = named a.event a.id a.carried a.named

    after-key :
        (q : EventRequest) (st st' : State) (a : Accepted q st st')
        → is_full_key a.id ≡ true
        → a.after.key ≡ a.id
    after-key q st st' a full =
        (recorded q st st' a).same_key ∙ sound.get-key st.table a.id a.before full a.found

    found_after :
        (q : EventRequest) (st st' : State) (a : Accepted q st st')
        → is_full_key a.id ≡ true
        → r.get st.table a.after.key ≡ ok a.before
    found_after q st st' a full = rw (after-key q st st' a full) a.found

    -- What the table has under a key after an accepted event.
    stored_get :
        (q : EventRequest) (st st' : State) (k : ExecutionKey) (a : Accepted q st st')
        → is_full_key a.id ≡ true
        → is_full_key k ≡ true
        → r.get st'.table k
          ≡ (if same_key a.after.key k then ok (overlay a.before a.after) else r.get st.table k)
    stored_get q st st' k a full full_k =
        sound.get-update st.table st'.table a.after a.before k
          (ap is_full_key (after-key q st st' a full) ∙ full) full_k a.stored
          (found_after q st st' a full)

    -- An accepted event leaves the rows of other executions alone.
    pub Accepted-other :
        (q : EventRequest) (st st' : State) (k : ExecutionKey) (a : Accepted q st st')
        → is_full_key a.id ≡ true
        → is_full_key k ≡ true
        → same_key a.id k ≡ false
        → r.get st'.table k ≡ r.get st.table k
    Accepted-other q st st' k a full full_k other =
        stored_get q st st' k a full full_k ∙ rw (after-key q st st' a full, other) refl

    over_stays :
        (q : EventRequest) (st : State) (k : ExecutionKey) (x : Execution)
        → IsNamed q
        → is_full_key k ≡ true
        → r.get st.table k ≡ ok x
        → is_execution_terminal (w.phase_value x.phase) ≡ true
        → r.get (create_workflow_event w r cfg q st).0.table k ≡ ok x
    over_stays q st k x named full found over = elim (create_workflow_event_cases q st) [
      | inl (e, same) ↦ rw same found
      | inr a ↦ elim (Bool-cases (same_key a.id k)) [
        | inl here ↦
            let same : a.before ≡ x =
              ok-injective (sym a.found ∙ ap (r.get st.table) (same_key-eq a.id k here) ∙ found) in
            absurd (ground (arith, a.allowed.not_over, same, over))
        | inr other ↦ Accepted-other q st _ k a (named_id q st _ a named) full other ∙ found
      ]
    ]

    -- Once a phase is terminal, no sequence of events changes the row of the execution. No part of an
    -- event's identifier or of the execution's own is empty.
    pub handle_all-terminal :
        (qs : List EventRequest) (st : State) (k : ExecutionKey) (x : Execution)
        → All IsNamed qs
        → is_full_key k ≡ true
        → r.get st.table k ≡ ok x
        → is_execution_terminal (w.phase_value x.phase) ≡ true
        → r.get (handle_all w r cfg qs st).table k ≡ ok x
    unfolding handle_all
    handle_all-terminal [] st k x named full found over = found
    handle_all-terminal (q ∷ qs) st k x (here, rest) full found over =
        handle_all-terminal qs _ k x rest full (over_stays q st k x here full found over) over

    -- An accepted event can be read back: the row of its execution has its phase.
    pub Accepted-stored :
        (q : EventRequest) (st st' : State) (a : Accepted q st st')
        → is_full_key a.id ≡ true
        → (x : Execution) × (r.get st'.table a.id ≡ ok x)
          × (w.phase_value x.phase ≡ a.event.phase)
          × (x.execution_updated_at ≡ w.timestamp a.event.occurred_at)
    Accepted-stored q st st' a full =
        let now = recorded q st st' a in
        (
          overlay a.before a.after,
          stored_get q st st' a.id a full full
              ∙ rw (after-key q st st' a full, same_key_self a.id) refl,
          ground (
            arith,
            now.row_phase,
            eq_iff a.after.phase "",
            lawful.name-ne-empty a.event.phase,
            lawful.value-name a.event.phase,
          ),
          ground (arith, now.row_updated, now.occurred),
        )

    -- A call that succeeds has stored its event: the row of the execution has the event's phase
    -- and time, the phase was allowed to follow the recorded one, and what is found under any other
    -- key has not changed. No part of the event's identifier or of the other keys is empty.
    pub create_workflow_event_ok :
        (q : EventRequest) (st : State)
        → IsNamed q
        → (create_workflow_event w r cfg q st).1 ≡ ok tt
        → let st' = (create_workflow_event w r cfg q st).0 in
          (e : WorkflowEvent) × (id : ExecutionKey) × (before after : Execution) × (q.event
            ≡ some e)
          × (e.execution_id ≡ some id)
          × (r.get st.table id ≡ ok before)
          × (r.get st'.table id ≡ ok after)
          × MayFollow (w.phase_value before.phase) e.phase
          × (w.phase_value after.phase ≡ e.phase)
          × (after.execution_updated_at ≡ w.timestamp e.occurred_at)
          × ((k : ExecutionKey)
              → is_full_key k ≡ true
              → same_key id k ≡ false
              → r.get st'.table k ≡ r.get st.table k)
    create_workflow_event_ok q st named h = elim (create_workflow_event_cases q st) [
      | inl (x, e) ↦ absurd (cc (rw e at h))
      | inr a ↦
          let full = named_id q st _ a named in
          let (after, found, phase, at) = Accepted-stored q st _ a full in
          (
            a.event,
            a.id,
            a.before,
            after,
            a.carried,
            a.named,
            a.found,
            found,
            a.allowed,
            phase,
            at,
            λ k full_k other. Accepted-other q st _ k a full full_k other,
          )
    ]
