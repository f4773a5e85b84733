-- ===== src/Kernel/Tasks/Invariant.antt =====
-- The invariant of the task tables: who runs, under which fence.
use ultimate_harness.Base.{
  ◌≤◌, String, ◌≡◌, ◌≢◌, refl, sym, ◌∙◌, inl, inr, true, false, ◌=s◌, Bool-cases, is_some, none,
  some, arith, eq_iff,
}
use ultimate_harness.Kernel.Tasks.State.{is_running, is_terminal}
use ultimate_harness.Kernel.Tasks.Store.{TaskRecord, Attempt, is_live, Db, find_task, find_attempt}
use ultimate_harness.Kernel.Tasks.Puts.{Put, Put-self, Put-other, Put-cases, task_at, attempt_at}

-- A task with an active attempt is running; each attempt has its own fence and they stay within the
-- budget; the end of a task is dated exactly in a terminal state.
pub record TaskOk (t : TaskRecord) : Type 0 where
  pub active_runs : (aid : String) → t.active_attempt_id ≡ some aid → is_running t.state ≡ true
  pub budget : t.attempts_started ≤ t.max_attempts
  pub fence : t.current_fence ≡ t.attempts_started
  pub dated : is_some t.terminal_at ≡ is_terminal t.state

-- What an attempt owes to its task: no fence is above the task's, and an attempt that runs is the
-- active attempt of the task, under the task's own fence.
pub record Owned (aid : String) (a : Attempt) (t : TaskRecord) : Type 0 where
  pub bounded : a.fence_token ≤ t.current_fence
  pub authority :
      is_live a.state ≡ true → (t.active_attempt_id ≡ some aid) × (a.fence_token ≡ t.current_fence)

-- The running attempt of a task.
pub record Holds (id : String) (t : TaskRecord) (a : Attempt) : Type 0 where
  pub live : is_live a.state ≡ true
  pub of_task : a.task_id ≡ id
  pub fence : a.fence_token ≡ t.current_fence

pub record Inv (db : Db) : Type 0 where
  pub each : (id : String) (t : TaskRecord) → find_task id db.tasks ≡ some t → TaskOk t
  pub owned :
      (aid : String) (a : Attempt)
      → find_attempt aid db.attempts ≡ some a
      → (t : TaskRecord) × (find_task a.task_id db.tasks ≡ some t) × Owned aid a t
  pub held :
      (id : String) (t : TaskRecord) (aid : String)
      → find_task id db.tasks ≡ some t
      → t.active_attempt_id ≡ some aid
      → (a : Attempt) × (find_attempt aid db.attempts ≡ some a) × Holds id t a

-- A write to a task without an active attempt, before and after it.
pub Inv-retask :
    (db db' : Db) (id : String) (u : TaskRecord)
    → Inv db
    → Put id u (task_at db) (task_at db')
    → db'.attempts ≡ db.attempts
    → ((t : TaskRecord)
        → find_task id db.tasks ≡ some t
        → (t.active_attempt_id ≡ none) × (t.current_fence ≡ u.current_fence))
    → u.active_attempt_id ≡ none
    → TaskOk u
    → Inv db'
Inv-retask db db' id u v put same idle none_now good = record {
  each = λ j t f. elim (Put-cases id j u t (task_at db) (task_at db') put f) [
    | inl (e, w) ↦ rw w good
    | inr (n, g) ↦ v.each j t g
  ];
  owned = λ aid a f.
      let (t, ft, o) = v.owned aid a (rw same at f) in
      elim (Bool-cases (id =s a.task_id)) [
        | inl e ↦
            let (i, k) = idle t (rw ((eq_iff id a.task_id).0 e) ft) in
            (
              u,
              put a.task_id ∙ rw e refl,
              record {
                bounded = omega (arith, o.bounded);
                authority = λ l. absurd (cc (i, (o.authority l).0));
              },
            )
        | inr n ↦ (t, Put-other id a.task_id u (task_at db) (task_at db') put n ∙ ft, o)
      ];
  held = λ j t aid f active. elim (Put-cases id j u t (task_at db) (task_at db') put f) [
    | inl (e, w) ↦ absurd (cc (w, none_now, active))
    | inr (n, g) ↦ let (a, fa, h) = v.held j t aid g active in (a, rw same fa, h)
  ];
}

-- An attempt and its task that are written together.
pub record Paired (id aid : String) (u : TaskRecord) (b : Attempt) : Type 0 where
  pub good : TaskOk u
  pub of_task : b.task_id ≡ id
  pub bounded : b.fence_token ≤ u.current_fence
  pub authority :
      is_live b.state ≡ true → (u.active_attempt_id ≡ some aid) × (b.fence_token ≡ u.current_fence)
  pub only : (x : String) → u.active_attempt_id ≡ some x → (x ≡ aid) × (is_live b.state ≡ true)

str-ne : (s t : String) → (s =s t) ≡ false → s ≢ t
str-ne s t n e = cc (n, (eq_iff s t).1 e)

pub Inv-rewrite :
    (db db' : Db) (id aid : String) (u : TaskRecord) (b : Attempt)
    → Inv db
    → Put id u (task_at db) (task_at db')
    → Put aid b (attempt_at db) (attempt_at db')
    → Paired id aid u b
    → ((t : TaskRecord)
        → find_task id db.tasks ≡ some t
        → ((x : String) → t.active_attempt_id ≡ some x → x ≡ aid)
          × (t.current_fence ≤ u.current_fence))
    → ((a : Attempt) → find_attempt aid db.attempts ≡ some a → a.task_id ≡ id)
    → Inv db'
Inv-rewrite db db' id aid u b v put_task put_attempt pair old mine = record {
  each = λ j t f. elim (Put-cases id j u t (task_at db) (task_at db') put_task f) [
    | inl (e, w) ↦ rw w pair.good
    | inr (n, g) ↦ v.each j t g
  ];
  owned = λ j a f. elim (Put-cases aid j b a (attempt_at db) (attempt_at db') put_attempt f) [
    | inl (e, w) ↦ (
      u,
      rw (w, pair.of_task) (Put-self id u (task_at db) (task_at db') put_task),
      rw (w, ← e) (record { bounded = pair.bounded; authority = pair.authority }),
    )
    | inr (n, g) ↦
        let (t, ft, o) = v.owned j a g in
        elim (Bool-cases (id =s a.task_id)) [
          | inl e ↦
              let (unique, grows) = old t (rw ((eq_iff id a.task_id).0 e) ft) in
              (
                u,
                put_task a.task_id ∙ rw e refl,
                record {
                  bounded = omega (arith, o.bounded, grows);
                  authority = λ l. absurd (str-ne aid j n (sym (unique j (o.authority l).0)));
                },
              )
          | inr m ↦ (t, Put-other id a.task_id u (task_at db) (task_at db') put_task m ∙ ft, o)
        ]
  ];
  held = λ j t x f active. elim (Put-cases id j u t (task_at db) (task_at db') put_task f) [
    | inl (e, w) ↦
        let (same, l) = pair.only x (rw w at active) in
        (
          b,
          rw same (Put-self aid b (attempt_at db) (attempt_at db') put_attempt),
          rw (w, ← e) (record { live = l; of_task = pair.of_task; fence = (pair.authority l).1 }),
        )
    | inr (n, g) ↦
        let (a, fa, h) = v.held j t x g active in
        elim (Bool-cases (aid =s x)) [
          | inl e ↦ absurd (str-ne id j n (sym (mine a (rw ((eq_iff aid x).0 e) fa)) ∙ h.of_task))
          | inr m ↦ (a, Put-other aid x b (attempt_at db) (attempt_at db') put_attempt m ∙ fa, h)
        ]
  ];
}
