-- ===== src/Kernel/Tasks/Ending.antt =====
-- What leases are worth after renew, complete and cancel, and whose lease cancel accepts.
use ultimate_harness.Base.{
  ℕ, ◌+◌, ◌≤◌, String, ◌≡◌, refl, ap, sym, ◌∙◌, Bool, not, max, Option, none, some, arith,
}
use ultimate_harness.Base.Result.{Tx, ok, err, >>=-ok, >>=-same-left, >>=-same-right, require-same}
use ultimate_harness.Kernel.Tasks.State.{TaskState, is_terminal, is_allowed}
use ultimate_harness.Kernel.Tasks.Store.{
  TaskRecord, Attempt, AttemptState, TaskError, invalid_transition, finish_attempt, write_attempts,
  read_task, Db, Fresh, update_task, stale_lease,
}
use ultimate_harness.Kernel.Tasks.Lease.{AttemptLease, verify_lease, renew, complete}
use ultimate_harness.Kernel.Tasks.Cancel.{cancel, stop_attempt}
use ultimate_harness.Kernel.Tasks.Effects.{finished, called_off}
use ultimate_harness.Kernel.Tasks.LeaseEffects.{
  renewed, complete_effect, renew_effect, cancel_effect,
}
use ultimate_harness.Kernel.Tasks.Frames.{task_id-find, read_task-ok}
use ultimate_harness.Kernel.Tasks.Puts.{
  Put-self, task_at, attempt_at, update_task-Put, update_attempt-Put,
}
use ultimate_harness.Kernel.Tasks.Fencing.{refused, accepted}
use ultimate_harness.Kernel.Tasks.LeaseEffects.{verify_lease-Verified}

-- After a completion, every lease on the task is refused, at any time: the lease that completed it
-- among them.
pub complete-outdates :
    (lease : AttemptLease) (success : Bool) (outcome : String) (error : Option String)
    (retryable : Bool) (retry_at : Option ℕ) (now : ℕ) (fresh : Fresh) (db db' : Db)
    (r : TaskRecord) (old : AttemptLease) (later : ℕ)
    → complete lease success outcome error retryable retry_at now fresh db ≡ ok (r, db')
    → old.task_id ≡ lease.task_id
    → verify_lease old later db' ≡ err stale_lease
complete-outdates lease success outcome error retryable retry_at now fresh db db' r old later h
      same =
    let (t, a, v, tasks, attempts, last) =
      complete_effect lease success outcome error retryable retry_at now fresh db db' r h in
    let write = finished success outcome error retryable retry_at now t in
    let at = Put-self lease.task_id (write t) (task_at db) (task_at db') (
      update_task-Put db db' lease.task_id t write v.found_task (λ x. refl)
        (tasks
          ∙ ap (λ i. update_task i t.revision write db.tasks)
              (task_id-find lease.task_id db.tasks t v.found_task))) in
    refused old later db' (write t) (rw same at) (ground arith)

-- After a cancellation, every lease on the task is refused, at any time.
pub cancel-outdates :
    (id : String) (lease : Option AttemptLease) (now : ℕ) (fresh : Fresh) (db db' : Db)
    (r : TaskRecord) (old : AttemptLease) (later : ℕ)
    → cancel id lease now fresh db ≡ ok (r, db')
    → old.task_id ≡ id
    → verify_lease old later db' ≡ err stale_lease
cancel-outdates id lease now fresh db db' r old later h same =
    let (w, allowed, st) = cancel_effect id lease now fresh db db' r h in
    let at =
      Put-self id (called_off now w.task w.task) (task_at db) (task_at db')
        (update_task-Put db db' id w.task (called_off now w.task) w.found (λ x. refl) w.tasks) in
    refused old later db' (called_off now w.task w.task) (rw same at) refl

renewed_lease :
    (lease : AttemptLease) (seconds now : ℕ) (fresh : Fresh) (db db' : Db) (r : AttemptLease)
    → renew lease seconds now fresh db ≡ ok (r, db')
    → (now + max 1 seconds ≤ r.lease_until)
      × ((later : ℕ) (t : TaskRecord) (a : Attempt)
          → verify_lease lease later db ≡ ok ((t, a), db)
          → later ≤ r.lease_until)
      × ((later : ℕ)
          → later ≤ r.lease_until
          → (t : TaskRecord) × (a : Attempt) × (verify_lease r later db' ≡ ok ((t, a), db')))
renewed_lease lease seconds now fresh db db' r h =
    let (t, a, v, tasks, attempts, granted) = renew_effect lease seconds now fresh db db' r h in
    let until = max a.lease_until (now + max 1 seconds) in
    let ends : r.lease_until ≡ until = ap (λ (l : AttemptLease). l.lease_until) granted in
    let b = renewed until now a in
    let at = Put-self lease.attempt_id b (attempt_at db) (attempt_at db') (
      update_attempt-Put db db' lease.attempt_id a (renewed until now) v.found_attempt (λ x. refl)
        attempts) in
    (
      omega (arith, ends),
      λ later t' a' ok₁.
          let w = (verify_lease-Verified lease later db db t' a' ok₁).0 in
          let e : a' ≡ a = cc (w.found_attempt, v.found_attempt) in
          omega (arith, ends, w.in_time, ap (λ (x : Attempt). x.lease_until) e),
      λ later soon. (
        t,
        b,
        accepted r later db' t b (record {
          found_task = rw (granted, tasks) v.found_task;
          found_attempt = rw granted at;
          running = v.running;
          active = rw granted v.active;
          fence = rw granted v.fence;
          live = v.live;
          owner = rw granted v.owner;
          attempt_fence = rw granted v.attempt_fence;
          in_time = omega (arith, ends, soon);
        }),
      ),
    )

-- A renewed lease lasts at least the seconds that were asked for, lasts as long as the lease that
-- was renewed, and is verified until its end.
pub renew-extends :
    (lease : AttemptLease) (seconds now : ℕ) (fresh : Fresh) (db db' : Db) (r : AttemptLease)
    (later : ℕ) (t : TaskRecord) (a : Attempt)
    → renew lease seconds now fresh db ≡ ok (r, db')
    → verify_lease lease later db ≡ ok ((t, a), db)
    → (now + max 1 seconds ≤ r.lease_until)
      × ((u : TaskRecord) × (b : Attempt) × (verify_lease r r.lease_until db' ≡ ok ((u, b), db')))
      × ((u : TaskRecord) × (b : Attempt) × (verify_lease r later db' ≡ ok ((u, b), db')))
renew-extends lease seconds now fresh db db' r later t a h v =
    let (long, kept, usable) = renewed_lease lease seconds now fresh db db' r h in
    (long, usable r.lease_until (omega arith), usable later (kept later t a v))

stop_same :
    (o : Option String) (l l' : AttemptLease) (now : ℕ) (x y : TaskRecord × Attempt) (db : Db)
    → verify_lease l now db ≡ ok (x, db)
    → verify_lease l' now db ≡ ok (y, db)
    → stop_attempt o (some l) now db ≡ stop_attempt o (some l') now db
unfolding stop_attempt
stop_same none l l' now x y db v w = refl
stop_same (some aid) l l' now x y db v w =
    >>=-ok (verify_lease l now) (λ _. stop) db db v
    ∙ sym (>>=-ok (verify_lease l' now) (λ _. stop) db db w)
  where
    stop : Tx TaskError Db (Unit {0})
    stop = write_attempts (
        finish_attempt aid (λ a. record a {
          state = AttemptState.cancelled;
          finished_at = some now;
          error_code = some "task_cancelled";
        }))

-- Two leases that are authoritative at the time, whatever their tasks, cancel a task alike: the
-- cancellation does not ask that its lease is one on the task that it cancels.
pub cancel_same_lease :
    (id : String) (l l' : AttemptLease) (now : ℕ) (fresh : Fresh) (x y : TaskRecord × Attempt)
    (db : Db)
    → verify_lease l now db ≡ ok (x, db)
    → verify_lease l' now db ≡ ok (y, db)
    → cancel id (some l) now fresh db ≡ cancel id (some l') now fresh db
unfolding cancel
cancel_same_lease id l l' now fresh x y db v w = >>=-same-right (read_task id) _ _ db (λ t db₁ h.
    let at = (read_task-ok id db db₁ t h).1 in
    rw at (
      require-same (not (is_terminal t.state)) invalid_transition _ _ db (
        require-same (is_allowed t.state TaskState.cancelled) invalid_transition _ _ db (
          >>=-same-left (stop_attempt t.active_attempt_id (some l) now)
            (stop_attempt t.active_attempt_id (some l') now) _ db
            (stop_same t.active_attempt_id l l' now x y db v w)))))
