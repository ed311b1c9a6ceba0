-- ===== src/Orchestration/Engine/Published.antt =====
-- What a run that returns COMPLETED has published, whatever its collaborators do.
use mathlib.Core.Path.{subst}
use finance_intelligence.Orchestration.Store.{AttemptStatus}
use finance_intelligence.Orchestration.Budget.{default_tracker}
use finance_intelligence.Orchestration.PolicyEngine.{evaluate_model_transmission}
use finance_intelligence.Orchestration.Engine.{
  ◌>>◌, Session, commit, FinalResultSnapshot, Outcome, pure, rollback, EngineException, is_lost,
  check_move, lift, set_status, write_attempt,
}
use finance_intelligence.Orchestration.EventEngine.{emit_event}
use finance_intelligence.Audit.{Fields}
use finance_intelligence.Prelude.{
  List, [], ok, ℕ, ◌++◌, ◌∷◌, ◌≡◌, Bool-cases, Result-cases, String, err, inl, inr, refl, some,
  true,
}
use finance_intelligence.Orchestration.Engine.Run.{
  reject, start_tools, emit_of_attempt, clarify, emit_for, add_decision, assert_owner, ask_user,
  make_plan, move, understand, policy_check, release, touch,
}
use finance_intelligence.Orchestration.StateMachine.{AnalysisJobStatus}
use finance_intelligence.Orchestration.Engine.Ends.{
  Ends, Ends-bind, returned, Ends-skip, Ends-lift, Ends-if, raised, AtEnd, Ends-AtEnd,
}
use finance_intelligence.Orchestration.Engine.Execute.{
  add_snapshot, complete, pass_gates, summary, conclude, completed_payload, execute_job, handle,
  proceed, run_phases, settle, decide, normalise_request, persist_failure, run_steps, fenced_update,
  mark_completed, narrate, lock_job, add_attempt,
}
use finance_intelligence.Orchestration.Engine.Plan.{
  Execution, GateResult, PlanStep, Collaborators, NormalizationOutcome,
}

module _ (c : Collaborators) (x : Execution) where
  -- The narrative and the dataset of the snapshot passed the gates.
  abbrev pub HasPassed : FinalResultSnapshot → Type 0
  HasPassed f =
      (gates : List GateResult) × (c.run_all_gates f.narrative (summary c x f.result_dataset_id)
        ≡ ok gates)

  -- The last snapshot that is committed is one of this job that passed.
  abbrev pub IsPublished : Session → Type 0
  IsPublished s =
      (older : List FinalResultSnapshot) × (f : FinalResultSnapshot) × (s.committed.snapshots
        ≡ older ++ f ∷ [])
      × (f.analysis_job_id ≡ x.job_id)
      × HasPassed f

  -- A phase that may end as it likes, but completes only with a snapshot.
  abbrev pub Publishes : Outcome AnalysisJobStatus → Type 0
  Publishes o =
      Ends (λ status s. status ≡ AnalysisJobStatus.completed → IsPublished s) (λ _ _. Unit {0}) o

  -- Events leave the snapshots alone.
  emit-snapshots :
      (P : List FinalResultSnapshot → Type 0) (event_type : String) (payload : Fields) (s : Session)
      → P s.current.snapshots
      → Ends
          (λ _ s'. P s'.current.snapshots)
          (λ _ _. Unit {0})
          (emit_of_attempt c x event_type payload s)
  unfolding emit_of_attempt emit_for
  emit-snapshots P event_type payload s h =
      elim (Result-cases
        (emit_event x.organization_id x.job_id (some x.attempt_id) event_type
          (c.platform.dumps payload) s.current.rows.events).1) [
            | inl (e, p) ↦ rw (p, emit_of_attempt, emit_for) (returned h)
            | inr (e, p) ↦ rw (p, emit_of_attempt, emit_for) (raised tt)
          ]

  abbrev IsLatest : List FinalResultSnapshot → Type 0
  IsLatest snapshots =
      (older : List FinalResultSnapshot) × (f : FinalResultSnapshot) × (snapshots ≡ older ++ f ∷ [])
      × (f.analysis_job_id ≡ x.job_id)
      × HasPassed f

  publish-Publishes :
      (narrative dataset : List ℕ) (s : Session)
      → ((gates : List GateResult) × (c.run_all_gates narrative (summary c x dataset) ≡ ok gates))
      → Publishes (
          (add_snapshot c x narrative dataset
              >> (emit_of_attempt c x "analysis.completed" (completed_payload c x)
                  >> (commit >> pure AnalysisJobStatus.completed)))
            s)
  unfolding add_snapshot commit
  publish-Publishes narrative dataset s passed =
      Ends-bind (emit-snapshots IsLatest _ _ _ (s.current.snapshots, _, refl, refl, passed))
        λ _ _ l. returned (λ e. l)

  complete-Publishes :
      (narrative dataset : List ℕ) (s : Session)
      → ((gates : List GateResult) × (c.run_all_gates narrative (summary c x dataset) ≡ ok gates))
      → Publishes (complete c x narrative dataset s)
  unfolding complete
  complete-Publishes narrative dataset s passed = Ends-skip (assert_owner c x s) _ λ _ s₁.
      Ends-skip (check_move AnalysisJobStatus.completed s₁) _ λ _ s₂.
        Ends-skip (fenced_update c x (λ j. true) (mark_completed c x) s₂) _ λ _ s₃.
          Ends-skip (set_status x.job_id AnalysisJobStatus.completed s₃) _ λ _ s₄.
            Ends-skip (release c x s₄) _ λ _ s₅. Ends-skip (touch c x x.now_completed s₅) _ λ _ s₆.
              Ends-skip (write_attempt x.attempt_id AttemptStatus.completed s₆) _
                λ _ s₇. publish-Publishes narrative dataset s₇ passed

  pass_gates-passed :
      (narrative dataset : List ℕ) (s : Session)
      → Ends
          (λ _ _.
            (gates : List GateResult) × (c.run_all_gates narrative (summary c x dataset)
              ≡ ok gates))
          (λ _ _. Unit {0})
          (pass_gates c x narrative dataset s)
  unfolding pass_gates
  pass_gates-passed narrative dataset s = Ends-skip (assert_owner c x s) _ λ _ s₁.
      Ends-skip (move c x AnalysisJobStatus.quality_gate s₁) _ λ _ s₂.
        Ends-bind
          (Ends-lift (c.run_all_gates narrative (summary c x dataset)) s₂ (λ a e. (a, e))
            (λ e q. tt))
          λ _ _ h. returned h

  conclude-Publishes : (step : PlanStep) (s : Session) → Publishes (conclude c x step s)
  unfolding conclude
  conclude-Publishes step s = Ends-skip (start_tools c x s) _ λ _ s₁.
      Ends-skip (run_steps c x default_tracker (step ∷ []) s₁) _ λ outputs s₂.
        Ends-skip (narrate c x step outputs s₂) _ λ result s₃.
          Ends-bind (pass_gates-passed result.0 result.1 s₃)
            λ _ s₄ h. complete-Publishes result.0 result.1 s₄ h

  -- A job is turned down, never completed.
  reject-Publishes : (s : Session) → Publishes (reject c x s)
  unfolding reject
  reject-Publishes s =
      Ends-skip (set_status x.job_id AnalysisJobStatus.rejected_by_policy s) _ λ _ s₁.
        Ends-skip (release c x s₁) _ λ _ s₂.
          Ends-skip (write_attempt x.attempt_id AttemptStatus.rejected_by_policy s₂) _ λ _ s₃.
            Ends-skip (touch c x x.now s₃) _ λ _ s₄.
              Ends-skip (emit_of_attempt c x "analysis.failed" _ s₄) _
                λ _ s₅. Ends-skip (commit s₅) _ λ _ s₆. returned {s = s₆} (λ e. cc)

  clarify-Publishes :
      (user attempt_number : ℕ) (o : NormalizationOutcome) (s : Session)
      → Publishes (clarify c x user attempt_number o s)
  unfolding clarify
  clarify-Publishes user attempt_number o s = Ends-skip (assert_owner c x s) _ λ _ s₁.
      Ends-skip (ask_user c x user attempt_number o s₁) _ λ _ s₂.
        Ends-skip (write_attempt x.attempt_id AttemptStatus.needs_clarification s₂) _ λ _ s₃.
          Ends-skip (release c x s₃) _
            λ _ s₄. Ends-skip (commit s₄) _ λ _ s₅. returned {s = s₅} (λ e. cc)

  proceed-Publishes : (o : NormalizationOutcome) (s : Session) → Publishes (proceed c x o s)
  unfolding proceed decide
  proceed-Publishes o s = Ends-skip (make_plan c x o s) _ λ step s₁.
      Ends-skip (policy_check c x s₁) _ λ _ s₂.
        Ends-if _ (assert_owner c x >> reject c x) (conclude c x step) s₂
          (λ _. Ends-skip (assert_owner c x s₂) _ λ _ s₃. reject-Publishes s₃)
          (λ _. conclude-Publishes step s₂)

  normalise_request-Publishes :
      (user attempt_number : ℕ) (s : Session)
      → Publishes (normalise_request c x user attempt_number s)
  unfolding normalise_request
  normalise_request-Publishes user attempt_number s =
      Ends-skip (lift (c.normalize_request s.current) s) _ λ o s₁.
        Ends-if _ (clarify c x user attempt_number o) (proceed c x o) s₁
          (λ _. clarify-Publishes user attempt_number o s₁) (λ _. proceed-Publishes o s₁)

  run_phases-Publishes :
      (user attempt_number : ℕ) (s : Session) → Publishes (run_phases c x user attempt_number s)
  unfolding run_phases
  run_phases-Publishes user attempt_number s =
      let decision = evaluate_model_transmission x.request_classification true in
      Ends-skip (understand c x s) _ λ _ s₁.
        Ends-if _ (assert_owner c x >> (add_decision c x decision >> reject c x))
          (normalise_request c x user attempt_number) s₁
          (λ _.
            Ends-skip (assert_owner c x s₁) _
              λ _ s₂. Ends-skip (add_decision c x decision s₂) _ λ _ s₃. reject-Publishes s₃)
          (λ _. normalise_request-Publishes user attempt_number s₁)

  settle-Publishes : (e : EngineException) (o : Outcome (Unit {0})) → Publishes (settle c x e o)
  unfolding settle rollback
  settle-Publishes e (s, ok u) = raised tt
  settle-Publishes e (s, err e') = elim (Bool-cases (is_lost e')) [
    | inl t ↦ rw (t, settle) (raised tt)
    | inr f ↦ rw (f, settle) (raised tt)
  ]

  handle-Publishes : {o : Outcome AnalysisJobStatus} → Publishes o → Publishes (handle c x o)
  unfolding handle rollback
  handle-Publishes (returned p) = returned p
  handle-Publishes (raised {e} {s} q) = elim (Bool-cases (is_lost e)) [
    | inl t ↦ rw (t, handle) (raised tt)
    | inr f ↦
        rw (f, handle)
          (settle-Publishes e (persist_failure c x e (record s { current = s.committed })))
  ]

  execute_job-Publishes : (s : Session) → Publishes (execute_job c x s)
  unfolding execute_job
  execute_job-Publishes s = Ends-skip (assert_owner c x s) _ λ _ s₁.
      Ends-skip (lock_job c x s₁) _ λ job s₂.
        Ends-skip (add_attempt c x s₂) _
          λ n s₃. handle-Publishes (run_phases-Publishes job.user_id n s₃)

  -- Whatever the tools, the provider and other workers do: when `execute_job` returns COMPLETED, the
  -- last snapshot that is committed is one of this job, and its narrative and its dataset are a pair
  -- that the quality gates let through.
  pub completed-IsPublished :
      (s s' : Session) → execute_job c x s ≡ (s', ok AnalysisJobStatus.completed) → IsPublished s'
  completed-IsPublished s s' e =
      subst
        (AtEnd (λ status t. status ≡ AnalysisJobStatus.completed → IsPublished t) (λ _ _. Unit {0}))
        e (Ends-AtEnd _ _ (execute_job-Publishes s)) refl
