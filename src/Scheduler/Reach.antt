-- ===== src/Scheduler/Reach.antt =====
-- What the kernel does with its tasks, as steps, and the states that they lead to.
use native.Mathlib.Decide.{ℕ_discrete}
use mathlib.Core.Path.{subst}
use ne_xs_operate_system.Base.{
  ℕ, ◌+◌, ◌%◌, ◌^◌, ◌<◌, ◌≡◌, inl, inr, refl, sym, ap, ◌∙◌, Bool, true, false, Option, none, some,
  [], arith, Option-cases, set,
}
use ne_xs_operate_system.Allocator.{Allocator}
use ne_xs_operate_system.Scheduler.{
  running, sleeping, terminated, Task, Scheduler, zeroed, task_at, get_quantum, is_running, resume,
  scheduler_switch, task_set_priority, task_set_uid, sleep_until, mark_terminated,
}
use ne_xs_operate_system.Scheduler.Create.{
  Started, started, no_memory, task_size, list_add, scheduler_init, task_create_full,
}
use ne_xs_operate_system.Scheduler.Frame.{task_create_full_lem}
use ne_xs_operate_system.Scheduler.Invariant.{IsSafe, scheduler_switch-IsSafe, set-IsSafe}

-- One step; `compute` is the work of the tasks, which may write any word of `memory`, so that it
-- writes no control block and no static variable of the scheduler.
pub data Step (A : Allocator) (s : Scheduler) : Scheduler → Type 0 where
  tick :
      (rsp now out : ℕ) (s' : Scheduler) → scheduler_switch s rsp now ≡ resume out s' → Step A s s'
  create :
      (mem : A.Memory) (entry priority uid now : ℕ)
      → Step A s (task_create_full A s mem entry priority uid now).1
  set_priority : (t : Option ℕ) (p : ℕ) → Step A s (task_set_priority s t p)
  set_uid : (t : Option ℕ) (uid : ℕ) → Step A s (task_set_uid s t uid)
  sleep : (ms now : ℕ) → Step A s (sleep_until s ms now)
  exit : Step A s (mark_terminated s)
  compute : (m : ℕ → ℕ) → Step A s (record s { memory = m })

-- The static variables before `scheduler_init`.
abbrev pub unstarted : (ℕ → ℕ) → Scheduler
unstarted m = record {
  tasks = [];
  current_task = none;
  next_pid = 0;
  sched_lock = false;
  memory = m;
}

pub data Reach (A : Allocator) : Scheduler → Type 0 where
  init :
      (m : ℕ → ℕ) (mem mem' : A.Memory) (now : ℕ) (s : Scheduler)
      → scheduler_init A (unstarted m) mem now ≡ started s mem'
      → Reach A s
  next : (s s' : Scheduler) → Reach A s → Step A s s' → Reach A s'

-- The kernel's own task, the only one.
abbrev booted : (ℕ → ℕ) → ℕ → Scheduler
booted m now = record (unstarted m) {
  tasks = list_add [] (record zeroed {
    pid = 0;
    state = running;
    priority = 255;
    quantum = get_quantum 255;
    base_quantum = get_quantum 255;
    flags = 0x01;
    perm_mask = 0xffff_ffff;
    start_time = now;
  });
  next_pid = 1;
  current_task = some 0;
}

booted-IsSafe : (m : ℕ → ℕ) (now : ℕ) → IsSafe (booted m now)
unfolding list_add
booted-IsSafe m now = record {
  owner = 0;
  is_owner = refl;
  in_list = omega arith;
  unlocked = refl;
  one_running = λ i h _. omega (arith, h);
}

abbrev started_as : {M : Type 0} → Scheduler → Started M → Scheduler
started_as s (started s' mem) = s'
started_as s (no_memory mem) = s

abbrev is_started : {M : Type 0} → Started M → Bool
is_started (started s mem) = true
is_started (no_memory mem) = false

init-IsSafe :
    (A : Allocator) (m : ℕ → ℕ) (mem mem' : A.Memory) (now : ℕ) (s : Scheduler)
    → scheduler_init A (unstarted m) mem now ≡ started s mem'
    → IsSafe s
unfolding scheduler_init
init-IsSafe A m mem mem' now s e = elim (Option-cases (A.alloc mem task_size).0) [
  | inl no_block ↦ absurd (cc (ap is_started (rw (no_block, scheduler_init) at e)))
  | inr (b, block) ↦
      subst IsSafe (ap (started_as s) (rw (block, scheduler_init) at e)) (booted-IsSafe m now)
]

create-IsSafe :
    (A : Allocator) (s : Scheduler) (mem : A.Memory) (entry priority uid now : ℕ)
    → IsSafe s
    → IsSafe (task_create_full A s mem entry priority uid now).1
create-IsSafe A s mem entry priority uid now v =
    let s' = (task_create_full A s mem entry priority uid now).1 in
    elim (task_create_full_lem A s mem entry priority uid now) [
      | inl (_, same, _) ↦ rw same v
      | inr (t, stack, _, _, _, new) ↦ record {
        owner = v.owner;
        is_owner = new.current ∙ v.is_owner;
        in_list = omega (arith, new.grown, new.place, v.in_list);
        unlocked = new.lock ∙ v.unlocked;
        one_running = λ i h e. elim (ℕ_discrete i t) [
          | yes same ↦ absurd (cc (ap is_running (sym new.is_ready ∙ rw same at e)))
          | no other ↦
              let below : i < t = omega (arith, h, new.grown, other) in
              v.one_running i (omega (arith, below, new.place))
                (ap (λ (x : Task). x.state) (sym (new.older i below)) ∙ e)
        ];
      }
    ]

Step-IsSafe : (A : Allocator) (s s' : Scheduler) → Step A s s' → IsSafe s → IsSafe s'
unfolding task_set_priority task_set_uid sleep_until mark_terminated
Step-IsSafe A s _ (tick rsp now out s' e) v = scheduler_switch-IsSafe s s' rsp now out v e
Step-IsSafe A s _ (create mem entry priority uid now) v =
    create-IsSafe A s mem entry priority uid now v
Step-IsSafe A s _ (set_priority none p) v = v
Step-IsSafe A s _ (set_priority (some t) p) v = set-IsSafe s t _ (λ e. e) v
Step-IsSafe A s _ (set_uid none uid) v = v
Step-IsSafe A s _ (set_uid (some t) uid) v = set-IsSafe s t _ (λ e. e) v
Step-IsSafe A s _ (sleep ms now) v =
    let x = record (task_at s.tasks v.owner) {
      state = sleeping;
      sleep_expiry = (now + ms) % 2 ^ 64;
    } in
    let e : record s { tasks = set s.tasks v.owner x } ≡ sleep_until s ms now =
      simp (v.is_owner, sleep_until) refl in
    subst IsSafe e (set-IsSafe s v.owner x (λ e. absurd (cc (ap is_running e))) v)
Step-IsSafe A s _ exit v =
    let x = record (task_at s.tasks v.owner) { state = terminated } in
    let e : record s { tasks = set s.tasks v.owner x } ≡ mark_terminated s =
      simp (v.is_owner, mark_terminated) refl in
    subst IsSafe e (set-IsSafe s v.owner x (λ e. absurd (cc (ap is_running e))) v)
Step-IsSafe A s _ (compute m) v = record {
  owner = v.owner;
  is_owner = v.is_owner;
  in_list = v.in_list;
  unlocked = v.unlocked;
  one_running = v.one_running;
}

-- In every state that the kernel reaches from `scheduler_init` by ticks, new tasks, changes of
-- priority and of user, sleeps and exits, a current task is set, it is one of the list, the lock is
-- free, and no task but it is in the state TASK_RUNNING. Between these steps the tasks write any
-- words, but none of a control block or of a static variable of the scheduler.
pub Reach-IsSafe : (A : Allocator) (s : Scheduler) → Reach A s → IsSafe s
Reach-IsSafe A _ (init m mem mem' now s e) = init-IsSafe A m mem mem' now s e
Reach-IsSafe A _ (next s s' r step) = Step-IsSafe A s s' step (Reach-IsSafe A _ r)
