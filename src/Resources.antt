-- ===== src/Resources.antt =====
-- harness2/kernel/resources.py, ResourceGovernor.evaluate. A percentage is a natural number.
use ultimate_harness.Base.{
  ℕ, ◌<◌, String, ◌≡◌, ◌≢◌, refl, ◌⊎◌, inl, inr, ◌||◌, Bool, true, false, not, ◌&&◌, ltb, Option,
  none, some, List, [], ◌∷◌, ◌++◌, if◌then◌else◌, arith, ◌↔◌,
}

pub data ResourceAction : Type 0 where
  allow throttle checkpoint_and_pause refuse : ResourceAction

pub record ResourceLimits : Type 0 where
  pub min_disk_free_bytes : ℕ
  pub min_battery_percent : ℕ
  pub max_queue_length : ℕ
  pub max_process_count : ℕ

-- ResourceObservation: what evaluate reads of it.
pub record ResourceObservation : Type 0 where
  pub disk_free_bytes : ℕ
  pub battery_percent : Option ℕ
  pub charging : Option Bool
  pub process_count : Option ℕ
  pub queue_length : Option ℕ

pub record ResourceDecision : Type 0 where
  pub action : ResourceAction
  pub reasons : List String
  pub checkpoint_required : Bool

-- The variables `action` and `reasons` of evaluate.
abbrev pub Verdict : Type 0
Verdict = ResourceAction × List String

abbrev pub is_below : ℕ → Option ℕ → Bool
is_below limit none = false
is_below limit (some n) = ltb n limit

abbrev pub is_above : ℕ → Option ℕ → Bool
is_above limit none = false
is_above limit (some n) = ltb limit n

-- `value.charging is False`
abbrev pub is_unplugged : Option Bool → Bool
is_unplugged (some false) = true
is_unplugged _ = false

-- A violation that stops the task, or keeps it from starting.
abbrev pub stop_for : (task_running : Bool) → String → Bool → Verdict → Verdict
stop_for task_running reason false v = v
stop_for task_running reason true (action, reasons) =
    (if task_running then checkpoint_and_pause else refuse, reasons ++ reason ∷ [])

-- `ResourceAction.THROTTLE if action == ResourceAction.ALLOW else action`
abbrev pub throttled : ResourceAction → ResourceAction
throttled allow = throttle
throttled action = action

abbrev pub throttle_for : String → Bool → Verdict → Verdict
throttle_for reason false v = v
throttle_for reason true (action, reasons) = (throttled action, reasons ++ reason ∷ [])

abbrev pub is_checkpoint : ResourceAction → Bool
is_checkpoint checkpoint_and_pause = true
is_checkpoint _ = false

abbrev pub decision : Verdict → ResourceDecision
decision (action, reasons) = record {
  action = action;
  reasons = reasons;
  checkpoint_required = is_checkpoint action;
}

abbrev pub low_disk : ResourceLimits → ResourceObservation → Bool
low_disk limits value = ltb value.disk_free_bytes limits.min_disk_free_bytes

abbrev pub low_battery : ResourceLimits → ResourceObservation → (critical : Bool) → Bool
low_battery limits value critical =
    is_below limits.min_battery_percent value.battery_percent
    && is_unplugged value.charging
    && not critical

-- ResourceGovernor.evaluate
unfoldable pub evaluate :
    ResourceLimits → ResourceObservation → (task_running critical : Bool) → ResourceDecision
evaluate limits value task_running critical = decision (
    throttle_for "process_limit_exceeded" (is_above limits.max_process_count value.process_count) (
      throttle_for "queue_limit_exceeded" (is_above limits.max_queue_length value.queue_length) (
        stop_for task_running "battery_low_not_charging" (low_battery limits value critical)
          (stop_for task_running "disk_free_below_threshold" (low_disk limits value) (allow, [])))))

-- The free disk is below its threshold.
abbrev pub HasLowDisk : ResourceLimits → ResourceObservation → Type 0
HasLowDisk limits value = value.disk_free_bytes < limits.min_disk_free_bytes

-- A battery is observed below its threshold and not charging, and the task is not critical.
abbrev pub HasLowBattery : ResourceLimits → ResourceObservation → (critical : Bool) → Type 0
HasLowBattery limits value critical =
    ((percent : ℕ) × (value.battery_percent ≡ some percent)
      × (percent < limits.min_battery_percent))
    × (value.charging ≡ some false)
    × (critical ≡ false)

-- A number is observed above its limit.
abbrev pub Exceeds : Option ℕ → ℕ → Type 0
Exceeds observed limit = (n : ℕ) × (observed ≡ some n) × (limit < n)

-- A task may not go on.
abbrev pub MustStop : ResourceLimits → ResourceObservation → (critical : Bool) → Type 0
MustStop limits value critical = HasLowDisk limits value ⊎ HasLowBattery limits value critical

-- The queue is too long, or there are too many processes.
abbrev pub IsCrowded : ResourceLimits → ResourceObservation → Type 0
IsCrowded limits value =
    Exceeds value.queue_length limits.max_queue_length
    ⊎ Exceeds value.process_count limits.max_process_count

disk_lem :
    (limits : ResourceLimits) (value : ResourceObservation)
    → (low_disk limits value ≡ true) ↔ HasLowDisk limits value
disk_lem limits value = (λ h. ground arith, λ h. ground arith)

exceeds_lem :
    (observed : Option ℕ) (limit : ℕ) → (is_above limit observed ≡ true) ↔ Exceeds observed limit
exceeds_lem none limit = (λ h. cc, λ (n, e, l). cc)
exceeds_lem (some n) limit =
    (λ h. (n, refl, ground arith), λ (m, e, l). let same : n ≡ m = cc in ground (arith, same))

below_lem :
    (observed : Option ℕ) (limit : ℕ)
    → (is_below limit observed ≡ true) ↔ ((n : ℕ) × (observed ≡ some n) × (n < limit))
below_lem none limit = (λ h. cc, λ (n, e, l). cc)
below_lem (some n) limit =
    (λ h. (n, refl, ground arith), λ (m, e, l). let same : n ≡ m = cc in ground (arith, same))

unplugged_lem : (charging : Option Bool) → (is_unplugged charging ≡ true) ↔ (charging ≡ some false)
unplugged_lem none = (λ h. cc, λ h. cc)
unplugged_lem (some true) = (λ h. cc, λ h. cc)
unplugged_lem (some false) = (λ h. refl, λ h. refl)

both_lem :
    (a b c : Bool) {A B : Type 0}
    → ((a ≡ true) ↔ A)
    → ((b ≡ true) ↔ B)
    → ((a && b && not c) ≡ true) ↔ (A × B × (c ≡ false))
both_lem true true false f g = (λ h. (f.0 refl, g.0 refl, refl), λ h. refl)
both_lem true true true f g = (λ h. cc, λ h. cc (h.2))
both_lem true false c f g = (λ h. cc, λ h. cc (g.1 h.1))
both_lem false b c f g = (λ h. cc, λ h. cc (f.1 h.0))

either_lem :
    (a b : Bool) {A B : Type 0} → ((a ≡ true) ↔ A) → ((b ≡ true) ↔ B) → ((a || b) ≡ true) ↔ (A ⊎ B)
either_lem true b f g = (λ h. inl (f.0 refl), λ h. refl)
either_lem false true f g = (λ h. inr (g.0 refl), λ h. refl)
either_lem false false f g = (λ h. cc, λ h. elim h [ inl x ↦ f.1 x | inr y ↦ g.1 y ])

stop_lem :
    (limits : ResourceLimits) (value : ResourceObservation) (critical : Bool)
    → ((low_disk limits value || low_battery limits value critical) ≡ true)
      ↔ MustStop limits value critical
stop_lem limits value critical =
    either_lem (low_disk limits value) (low_battery limits value critical) (disk_lem limits value) (
      both_lem (is_below limits.min_battery_percent value.battery_percent)
        (is_unplugged value.charging) critical
        (below_lem value.battery_percent limits.min_battery_percent) (unplugged_lem value.charging))

-- What the action is for.
abbrev Acts : ResourceAction → (stop crowded running : Bool) → Type 0
Acts action stop crowded running =
    ((action ≡ refuse) ↔ ((stop ≡ true) × (running ≡ false)))
    × ((action ≡ checkpoint_and_pause) ↔ ((stop ≡ true) × (running ≡ true)))
    × ((action ≡ throttle) ↔ ((stop ≢ true) × (crowded ≡ true)))
    × ((action ≡ allow) ↔ ((stop ≢ true) × (crowded ≢ true)))

evaluate-Acts :
    (disk battery queue processes running : Bool)
    → let d = decision (
        throttle_for "process_limit_exceeded" processes (
          throttle_for "queue_limit_exceeded" queue (
            stop_for running "battery_low_not_charging" battery
              (stop_for running "disk_free_below_threshold" disk (allow, []))))) in
      Acts d.action (disk || battery) (queue || processes) running
      × ((d.checkpoint_required ≡ true) ↔ (d.action ≡ checkpoint_and_pause))
      × ((d.action ≡ allow) ↔ (d.reasons ≡ []))
evaluate-Acts disk battery queue processes running = ground arith

-- The decision of the governor. A task that may not go on, for a disk below its threshold or an
-- uncritical one on a low battery that does not charge, is refused exactly when it does not run and
-- paused with a checkpoint exactly when it does, whatever the queue and the processes; any other is
-- throttled exactly when the queue or the processes exceed their limit, and allowed exactly when
-- neither does. A checkpoint is required exactly for a pause, and there are no reasons exactly when
-- the task is allowed.
pub evaluate_lem :
    (limits : ResourceLimits) (value : ResourceObservation) (task_running critical : Bool)
    → let d = evaluate limits value task_running critical in
      let Stops = MustStop limits value critical in
      let Crowds = IsCrowded limits value in
      ((d.action ≡ refuse) ↔ (Stops × (task_running ≡ false)))
      × ((d.action ≡ checkpoint_and_pause) ↔ (Stops × (task_running ≡ true)))
      × ((d.action ≡ throttle) ↔ ((¬ Stops) × Crowds))
      × ((d.action ≡ allow) ↔ ((¬ Stops) × (¬ Crowds)))
      × ((d.checkpoint_required ≡ true) ↔ (d.action ≡ checkpoint_and_pause))
      × ((d.action ≡ allow) ↔ (d.reasons ≡ []))
unfolding evaluate
evaluate_lem limits value task_running critical =
    let queue = is_above limits.max_queue_length value.queue_length in
    let processes = is_above limits.max_process_count value.process_count in
    let s = stop_lem limits value critical in
    let c =
      either_lem queue processes (exceeds_lem value.queue_length limits.max_queue_length)
        (exceeds_lem value.process_count limits.max_process_count) in
    let ((r, p, t, a), required, reasons) =
      evaluate-Acts (low_disk limits value) (low_battery limits value critical) queue processes
        task_running in
    (
      (λ h. (s.0 (r.0 h).0, (r.0 h).1), λ h. r.1 (s.1 h.0, h.1)),
      (λ h. (s.0 (p.0 h).0, (p.0 h).1), λ h. p.1 (s.1 h.0, h.1)),
      (λ h. (λ x. (t.0 h).0 (s.1 x), c.0 (t.0 h).1), λ h. t.1 (λ x. h.0 (s.0 x), c.1 h.1)),
      (
        λ h. (λ x. (a.0 h).0 (s.1 x), λ x. (a.0 h).1 (c.1 x)),
        λ h. a.1 (λ x. h.0 (s.0 x), λ x. h.1 (c.0 x)),
      ),
      required,
      reasons,
    )
