-- ===== src/Scheduler/Invariant.antt =====
-- Whatever the kernel does with its tasks, the processor has one owner: at most the current task
-- is in the state TASK_RUNNING.
use native.Mathlib.Decide.{ℕ_discrete}
use mathlib.Core.Path.{subst}
use ne_xs_operate_system.Base.{
  ℕ, ◌<◌, ◌≡◌, ◌≢◌, inl, inr, sym, ap, ◌∙◌, false, ◌&&◌, some, arith, leb, Bool-cases, length, set,
  length-set, get_or-set_self, get_or-set_ne,
}
use ne_xs_operate_system.Scheduler.{
  TaskState, running, Task, Scheduler, zeroed, task_at, stack_magic, is_running, is_sleeping, wake,
  resume, stack_overflow, charge, spend, switch_from, scheduler_switch,
}
use ne_xs_operate_system.Scheduler.Dispatch.{CanSwitch, ticked, woken, Dispatched}
use ne_xs_operate_system.Scheduler.Choice.{scheduler_switch_lem}

pub record IsSafe (s : Scheduler) : Type 0 where
  pub owner : ℕ
  pub is_owner : s.current_task ≡ some owner
  pub in_list : owner < length s.tasks
  pub unlocked : s.sched_lock ≡ false
  pub one_running : (i : ℕ) → i < length s.tasks → (task_at s.tasks i).state ≡ running → i ≡ owner

-- If a current task is set, the lock is free, and the task has a stack whose canary was overwritten,
-- `scheduler_switch` panics.
canary_broken :
    (s : Scheduler) (c rsp now : ℕ)
    → s.current_task ≡ some c
    → s.sched_lock ≡ false
    → (task_at s.tasks c).stack_base ≢ 0
    → s.memory (task_at s.tasks c).stack_base ≢ stack_magic
    → (s' : Scheduler) × (scheduler_switch s rsp now ≡ stack_overflow s')
unfolding scheduler_switch switch_from
canary_broken s c rsp now is free base magic =
    (record s { tasks = set s.tasks c (charge (task_at s.tasks c) rsp) }, ground (arith, is, free))

wake-running : (now : ℕ) (t : Task) → (wake now t).state ≡ running → t.state ≡ running
unfolding wake
wake-running now t e = elim (Bool-cases (is_sleeping t.state && leb t.sleep_expiry now)) [
  | inl k ↦ absurd (cc (ap is_running (rw k at e)))
  | inr k ↦ rw k at e
]

running_before :
    (s : Scheduler) (c rsp now i : ℕ)
    → c < length s.tasks
    → (woken s c rsp now i).state ≡ running
    → (task_at s.tasks i).state ≡ running
running_before s c rsp now i h e =
    let x = spend (charge (task_at s.tasks c) rsp) in
    let before = wake-running now (task_at (ticked s c rsp) i) e in
    elim (ℕ_discrete i c) [
      | yes same ↦
          let at_c = ap (λ (t : Task). t.state) (get_or-set_self s.tasks c x zeroed h) in
          rw same (sym at_c ∙ rw same at before)
      | no other ↦
          let at_i = get_or-set_ne s.tasks c i x zeroed (λ q. other (sym q)) in
          sym (ap (λ (t : Task). t.state) at_i) ∙ before
    ]

not_running : {x : TaskState} → x ≡ running → is_running x ≢ false
not_running e f = cc (ap is_running e)

Dispatched-IsSafe :
    (s s' : Scheduler) (rsp now chosen out : ℕ) (v : IsSafe s)
    → Dispatched s v.owner rsp now chosen out s'
    → IsSafe s'
Dispatched-IsSafe s s' rsp now chosen out v d = record {
  owner = chosen;
  is_owner = d.is_current;
  in_list = rw d.sized d.in_list;
  unlocked = d.unlocked;
  one_running = λ i h e. elim (ℕ_discrete i chosen) [
    | yes same ↦ same
    | no other ↦ elim (ℕ_discrete i v.owner) [
      | yes own ↦
          let (_, _, _, stopped) = d.switched (λ q. other (own ∙ sym q)) in
          absurd (not_running (rw own at e) stopped)
      | no third ↦
          let h' : i < length s.tasks = rw d.sized at h in
          let up = ap (λ (t : Task). t.state) (sym (d.others i h' third other)) ∙ e in
          absurd (third (v.one_running i h' (running_before s v.owner rsp now i v.in_list up)))
    ]
  ];
}

-- A state from which `scheduler_switch` comes back has the canary of its current task in place.
switched-CanSwitch :
    (s s' : Scheduler) (rsp now out : ℕ) (v : IsSafe s)
    → scheduler_switch s rsp now ≡ resume out s'
    → CanSwitch s v.owner
switched-CanSwitch s s' rsp now out v e = record {
  current = v.is_owner;
  in_list = v.in_list;
  unlocked = v.unlocked;
  canary = elim (ℕ_discrete base 0) [
    | yes none_yet ↦ inl none_yet
    | no some_stack ↦ elim (ℕ_discrete (s.memory base) stack_magic) [
      | yes intact ↦ inr intact
      | no broken ↦
          let (_, panics) =
            canary_broken s v.owner rsp now v.is_owner v.unlocked some_stack broken in
          absurd (cc (panics, e))
    ]
  ];
}
  where
    base : ℕ
    base = (task_at s.tasks v.owner).stack_base

pub scheduler_switch-IsSafe :
    (s s' : Scheduler) (rsp now out : ℕ)
    → IsSafe s
    → scheduler_switch s rsp now ≡ resume out s'
    → IsSafe s'
scheduler_switch-IsSafe s s' rsp now out v e =
    let (chosen, out', s'', e', d) =
      scheduler_switch_lem s v.owner rsp now (switched-CanSwitch s s' rsp now out v e) in
    let same : s'' ≡ s' = cc (e, e') in
    subst IsSafe same (Dispatched-IsSafe s s'' rsp now chosen out' v d)

-- A task that does not become running changes.
pub set-IsSafe :
    (s : Scheduler) (t : ℕ) (x : Task)
    → (x.state ≡ running → (task_at s.tasks t).state ≡ running)
    → IsSafe s
    → IsSafe (record s { tasks = set s.tasks t x })
set-IsSafe s t x back v = record {
  owner = v.owner;
  is_owner = v.is_owner;
  in_list = rw length-set v.in_list;
  unlocked = v.unlocked;
  one_running = λ i h e.
      let h' : i < length s.tasks = rw length-set at h in
      elim (ℕ_discrete i t) [
        | yes same ↦
            let at_t = get_or-set_self s.tasks t x zeroed (rw same at h') in
            let up = sym (ap (λ (y : Task). y.state) at_t) ∙ rw same at e in
            v.one_running i h' (rw same (back up))
        | no other ↦
            let at_i = get_or-set_ne s.tasks t i x zeroed (λ q. other (sym q)) in
            v.one_running i h' (ap (λ (y : Task). y.state) (sym at_i) ∙ e)
      ];
}
