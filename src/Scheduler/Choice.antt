-- ===== src/Scheduler/Choice.antt =====
-- Which task `scheduler_switch` gives the processor to.
use native.Mathlib.Nat.{mod-lt, mod-add-mod, add-mod_right, mod-eq_of_lt}
use native.Mathlib.Decide.{dec_lt}
use mathlib.Core.Path.{subst}
use ne_xs_operate_system.Base.{
  ℕ, suc, ◌+◌, ◌-◌, ◌%◌, ◌≤◌, ◌<◌, ◌≡◌, ◌≢◌, ◌⊎◌, inl, inr, refl, sym, ap, ◌∙◌, Bool, true, false,
  not, ◌&&◌, Option, none, some, List, arith, ltb, ◌==◌, ==_iff, if◌then◌else◌, Bool-cases,
  Option-cases, length, set, length-set, get_or-set_self, get_or-set_ne,
}
use ne_xs_operate_system.Base.Ring.{slots_apart, slot_onto}
use ne_xs_operate_system.Scheduler.{
  running, ready, Task, Scheduler, zeroed, task_at, stack_magic, is_running, wake, Search,
  search_loop, Switched, resume, charge, spend, no_better, or_current, settle, switch_from,
  scheduler_switch,
}
use ne_xs_operate_system.Scheduler.Scan.{IsFirstBest, IsResult, Searched, search_loop-Searched}
use ne_xs_operate_system.Scheduler.Dispatch.{
  CanSwitch, ticked, woken, after_current, can_run, Dispatched,
}

module _ (s : Scheduler) (c rsp now : ℕ) (v : CanSwitch s c) where
  abbrev n : ℕ
  n = length s.tasks

  abbrev tk : ℕ → Task
  tk = woken s c rsp now

  abbrev charged_state : Scheduler
  charged_state = record s { tasks = ticked s c rsp }

  -- What the search has to tell, over all tasks instead of over offsets.
  module _ (found : Search) (w : Searched now (after_current s c) (ticked s c rsp) found) where
    sized : length found.seen ≡ n
    sized = w.sized ∙ length-set s.tasks c (spend (charge (task_at s.tasks c) rsp))

    seen_at : (i : ℕ) → i < n → task_at found.seen i ≡ tk i
    seen_at i h = w.woken i (rw length-set h)

    result : IsResult n (after_current s c) tk n found.best
    result =
        subst (λ m. IsResult m (after_current s c) tk m found.best)
          (length-set s.tasks c (spend (charge (task_at s.tasks c) rsp))) w.result

  start_in : after_current s c < n
  start_in = mod-lt (c + 1) {m = n} (omega (arith, v.in_list))

  saved : (tk c).rsp ≡ rsp
  saved =
      rsp-wake (task_at (ticked s c rsp) c)
      ∙ ap (λ (t : Task). t.rsp)
          (get_or-set_self s.tasks c (spend (charge (task_at s.tasks c) rsp)) zeroed v.in_list)
    where
      rsp-wake : (t : Task) → (wake now t).rsp ≡ t.rsp
      rsp-wake t = unfold wake in ground arith

  -- Task `i` at its offset from the start of the search.
  at_offset {ℓ} :
      (P : ℕ → Type ℓ) → ((j : ℕ) → j < n → P ((after_current s c + j) % n)) → (i : ℕ) → i < n → P i
  at_offset P all i h = subst P (slot_onto n (after_current s c) i start_in h) (
      all ((i + n - after_current s c) % n)
        (mod-lt (i + n - after_current s c) {m = n} (omega (arith, v.in_list))))

  nothing_runs :
      IsResult n (after_current s c) tk n none → (i : ℕ) → i < n → can_run s c rsp now i ≡ false
  nothing_runs r = at_offset (λ i. can_run s c rsp now i ≡ false) r

  best_of_all :
      {b : ℕ}
      → IsFirstBest n (after_current s c) tk n b
      → (i : ℕ) → i < n
      → can_run s c rsp now i ≡ true
      → (tk b).priority ≤ (tk i).priority
  best_of_all {b} r =
      at_offset (λ i. can_run s c rsp now i ≡ true → (tk b).priority ≤ (tk i).priority) r.best

  best_in : {b : ℕ} → IsFirstBest n (after_current s c) tk n b → b < n
  best_in r = rw r.is_at (mod-lt (after_current s c + r.offset) {m = n} (omega (arith, v.in_list)))

  -- The current task is the last that the search comes to.
  current_last : (r : IsFirstBest n (after_current s c) tk n c) → suc r.offset ≡ n
  current_last r = elim (dec_lt (suc r.offset) n) [
    | yes p ↦ absurd (
        slots_apart n (after_current s c + r.offset) (after_current s c + (n - 1)) (omega arith)
          (omega arith) (sym r.is_at ∙ sym round_trip))
    | no p ↦ omega (arith, r.within)
  ]
    where
      round_trip : (after_current s c + (n - 1)) % n ≡ c
      round_trip =
          mod-add-mod (c + 1) n (n - 1)
          ∙ ap (λ (x : ℕ). x % n) (omega (arith, v.in_list))
          ∙ add-mod_right c n
          ∙ mod-eq_of_lt v.in_list

  best_is_current :
      IsFirstBest n (after_current s c) tk n c
      → (i : ℕ) → i < n
      → i ≢ c
      → can_run s c rsp now i ≡ true
      → (tk c).priority < (tk i).priority
  best_is_current r =
      at_offset (λ i. i ≢ c → can_run s c rsp now i ≡ true → (tk c).priority < (tk i).priority)
        (λ j h ne up. elim (dec_lt j r.offset) [
          | yes p ↦ r.first j p up
          | no p ↦
              let e : j ≡ r.offset = omega (arith, current_last r) in
              absurd (ne (ap (λ k. (after_current s c + k) % n) e ∙ sym r.is_at))
        ])

  abbrev kept_state : Search → Scheduler
  kept_state found = record charged_state { tasks = found.seen }

  abbrev paused : Search → List Task
  paused found =
      let cur = task_at found.seen c in
      if is_running cur.state then set found.seen c (record cur { state = ready }) else found.seen

  abbrev resumed_task : Search → ℕ → Task
  resumed_task found b =
      let next = task_at (paused found) b in
      record next { state = running; quantum = next.base_quantum }

  abbrev switched_state : Search → ℕ → Scheduler
  switched_state found b = record charged_state {
    tasks = set (paused found) b (resumed_task found b);
    current_task = some b;
  }

  -- The three ways out of the last part.
  data Settled (found : Search) : Switched → Type 0 where
    goes_on :
        is_running (tk c).state ≡ true
        → 0 < (tk c).quantum
        → ((b : ℕ) → found.best ≡ some b → (tk c).priority ≤ (task_at found.seen b).priority)
        → Settled found (resume rsp (kept_state found))
    is_best :
        (found.best ≡ none) ⊎ (found.best ≡ some c) → Settled found (resume rsp (kept_state found))
    switches :
        (b : ℕ)
        → found.best ≡ some b
        → b ≢ c
        → Settled found (resume (resumed_task found b).rsp (switched_state found b))

  abbrev keeps : Search → Bool
  keeps found =
      let cur = task_at found.seen c in
      (is_running cur.state && ltb 0 cur.quantum) && no_better found.seen c found.best

  settle-keeps :
      (found : Search)
      → keeps found ≡ true
      → settle charged_state c rsp found ≡ resume rsp (kept_state found)
  unfolding settle
  settle-keeps found k = rw k

  settle-is_best :
      (found : Search)
      → keeps found ≡ false
      → (or_current c found.best == c) ≡ true
      → settle charged_state c rsp found ≡ resume (task_at found.seen c).rsp (kept_state found)
  unfolding settle
  settle-is_best found k b = rw (k, b)

  settle-switches :
      (found : Search)
      → keeps found ≡ false
      → (or_current c found.best == c) ≡ false
      → settle charged_state c rsp found
        ≡ resume
            (resumed_task found (or_current c found.best)).rsp
            (switched_state found (or_current c found.best))
  unfolding settle
  settle-switches found k b = rw (k, b)

  own_or_idle : (o : Option ℕ) → (or_current c o == c) ≡ true → (o ≡ none) ⊎ (o ≡ some c)
  own_or_idle none b = inl refl
  own_or_idle (some x) b = inr (ap some ((==_iff x c).0 b))

  some_of_other : (o : Option ℕ) → (or_current c o == c) ≡ false → o ≡ some (or_current c o)
  some_of_other none b = absurd (ground arith)
  some_of_other (some x) b = refl

  settle-Settled :
      (found : Search)
      → task_at found.seen c ≡ tk c
      → Settled found (settle charged_state c rsp found)
  settle-Settled found e = elim (Bool-cases (keeps found)) [
    | inl k ↦ rw (settle-keeps found k) (goes_on (ground arith) (ground arith) λ b is. ground arith)
    | inr k ↦ elim (Bool-cases (or_current c found.best == c)) [
      | inl b ↦ rw (settle-is_best found k b, e, saved) (is_best (own_or_idle found.best b))
      | inr b ↦
          rw (settle-switches found k b)
            (switches (or_current c found.best) (some_of_other found.best b) (ground arith))
    ]
  ]

  module _ (found : Search) (w : Searched now (after_current s c) (ticked s c rsp) found) where
    first_best : (b : ℕ) → found.best ≡ some b → IsFirstBest n (after_current s c) tk n b
    first_best b e = subst (λ o. IsResult n (after_current s c) tk n o) e (result found w)

    idle_all : found.best ≡ none → (i : ℕ) → i < n → can_run s c rsp now i ≡ false
    idle_all e =
        nothing_runs (subst (λ o. IsResult n (after_current s c) tk n o) e (result found w))

    kept-Dispatched :
        ((i : ℕ)
          → i < n
          → can_run s c rsp now i ≡ true
          → (can_run s c rsp now c ≡ true) × ((tk c).priority ≤ (tk i).priority))
        → (0 < (tk c).quantum)
          ⊎ ((i : ℕ)
              → i < n
              → i ≢ c
              → can_run s c rsp now i ≡ true
              → (tk c).priority < (tk i).priority)
        → Dispatched s c rsp now c rsp (kept_state found)
    kept-Dispatched u k = record {
      is_current = v.current;
      in_list = v.in_list;
      sized = sized found w;
      unlocked = v.unlocked;
      resumed = sym saved ∙ ap (λ (t : Task). t.rsp) (sym (seen_at found w c v.in_list));
      urgent = u;
      switched = λ ne. absurd (ne refl);
      kept = λ _. k;
      others = λ i h ne _. seen_at found w i h;
    }

    goes_on-Dispatched :
        is_running (tk c).state ≡ true
        → 0 < (tk c).quantum
        → ((b : ℕ) → found.best ≡ some b → (tk c).priority ≤ (task_at found.seen b).priority)
        → Dispatched s c rsp now c rsp (kept_state found)
    goes_on-Dispatched up q le =
        kept-Dispatched
          (λ i h r. elim (Option-cases found.best) [
            | inl e ↦ cc (idle_all e i h)
            | inr (b, e) ↦ (
              ground arith,
              omega (
                arith,
                le b e,
                ap (λ (t : Task). t.priority) (seen_at found w b (best_in (first_best b e))),
                best_of_all (first_best b e) i h r,
              ),
            )
          ])
          (inl q)

    is_best-Dispatched :
        (found.best ≡ none) ⊎ (found.best ≡ some c)
        → Dispatched s c rsp now c rsp (kept_state found)
    is_best-Dispatched (inl e) =
        kept-Dispatched (λ i h r. cc (idle_all e i h)) (inr λ i h ne r. cc (idle_all e i h))
    is_best-Dispatched (inr e) =
        kept-Dispatched (λ i h r. ((first_best c e).runnable, best_of_all (first_best c e) i h r))
          (inr (best_is_current (first_best c e)))

    abbrev readied : Task
    readied = let cur = task_at found.seen c in record cur { state = ready }

    paused_at : (i : ℕ) → i < n → i ≢ c → task_at (paused found) i ≡ tk i
    paused_at i h ne = elim (Bool-cases (is_running (task_at found.seen c).state)) [
      | inl up ↦
          rw up
            (get_or-set_ne found.seen c i readied zeroed (λ e. ne (sym e)) ∙ seen_at found w i h)
      | inr down ↦ rw down (seen_at found w i h)
    ]

    paused_current : is_running (task_at (paused found) c).state ≡ false
    paused_current = elim (Bool-cases (is_running (task_at found.seen c).state)) [
      | inl up ↦ rw up (
          ap (λ (t : Task). is_running t.state)
            (get_or-set_self found.seen c readied zeroed (rw (sized found w) v.in_list)))
      | inr down ↦ rw down down
    ]

    length-paused : length (paused found) ≡ n
    length-paused = elim (Bool-cases (is_running (task_at found.seen c).state)) [
      | inl up ↦ rw up (length-set found.seen c readied ∙ sized found w)
      | inr down ↦ rw down (sized found w)
    ]

    switches-Dispatched :
        (b : ℕ)
        → found.best ≡ some b
        → b ≢ c
        → Dispatched s c rsp now b (resumed_task found b).rsp (switched_state found b)
    switches-Dispatched b e ne =
        let r = first_best b e in
        let b_in : b < length (paused found) = rw length-paused (best_in r) in
        let at_b = get_or-set_self (paused found) b (resumed_task found b) zeroed b_in in
        record {
          is_current = refl;
          in_list = best_in r;
          sized = length-set (paused found) b (resumed_task found b) ∙ length-paused;
          unlocked = v.unlocked;
          resumed = ap (λ (t : Task). t.rsp) (sym at_b);
          urgent = λ i h up. (r.runnable, best_of_all r i h up);
          switched = λ _. (
            r,
            ap (λ (t : Task). t.state) at_b,
            ap (λ (t : Task). t.quantum) at_b
                ∙ ap (λ (t : Task). t.base_quantum) (paused_at b (best_in r) ne),
            rw (get_or-set_ne (paused found) b c (resumed_task found b) zeroed ne) paused_current,
          );
          kept = λ same. absurd (ne same);
          others = λ i h nc nb.
              get_or-set_ne (paused found) b i (resumed_task found b) zeroed (λ e. nb (sym e))
              ∙ paused_at i h nc;
        }

    Settled-Dispatched :
        (r : Switched)
        → Settled found r
        → (chosen out : ℕ) × (s' : Scheduler) × (r ≡ resume out s')
          × Dispatched s c rsp now chosen out s'
    Settled-Dispatched r (goes_on up q le) =
        (c, rsp, kept_state found, refl, goes_on-Dispatched up q le)
    Settled-Dispatched r (is_best o) = (c, rsp, kept_state found, refl, is_best-Dispatched o)
    Settled-Dispatched r (switches b e ne) =
        (b, (resumed_task found b).rsp, switched_state found b, refl, switches-Dispatched b e ne)

  enters : scheduler_switch s rsp now ≡ switch_from s c rsp now
  unfolding scheduler_switch
  enters = ground (arith, v.current, v.unlocked)

  canary_intact :
      (not ((task_at s.tasks c).stack_base == 0)
        && not (s.memory (task_at s.tasks c).stack_base == stack_magic))
      ≡ false
  canary_intact = ground (arith, v.canary)

  switch_from-settle :
      (found : Search)
      → search_loop n n now
          (after_current s c)
          (record { seen = ticked s c rsp; best = none })
          (after_current s c)
        ≡ some found
      → switch_from s c rsp now ≡ settle charged_state c rsp found
  unfolding switch_from
  switch_from-settle found e = rw (canary_intact, e)

  search_ends :
      (found : Search) × (search_loop n n now
          (after_current s c)
          (record { seen = ticked s c rsp; best = none })
          (after_current s c)
        ≡ some found)
      × Searched now (after_current s c) (ticked s c rsp) found
  search_ends =
      let same = length-set s.tasks c (spend (charge (task_at s.tasks c) rsp)) in
      let (found, e, w) =
        search_loop-Searched now (after_current s c) (ticked s c rsp) (rw same start_in) in
      (found, rw same at e, w)

-- With a current task whose canary is intact, `scheduler_switch` ends and gives the processor to a
-- task as `Dispatched` says: to the most urgent of those that can run, among equals to the first
-- in ring order after the current one, which itself goes on only with a quantum left or if all
-- others are less urgent; the lock is released and no other task changes but by waking up.
pub scheduler_switch_lem :
    (s : Scheduler) (c rsp now : ℕ)
    → CanSwitch s c
    → (chosen out : ℕ) × (s' : Scheduler) × (scheduler_switch s rsp now ≡ resume out s')
      × Dispatched s c rsp now chosen out s'
scheduler_switch_lem s c rsp now v =
    let (found, e, w) = search_ends s c rsp now v in
    let settled = settle-Settled s c rsp now v found (seen_at s c rsp now v found w c v.in_list) in
    let (chosen, out, s', is, d) = Settled-Dispatched s c rsp now v found w _ settled in
    (chosen, out, s', enters s c rsp now v ∙ switch_from-settle s c rsp now v found e ∙ is, d)
