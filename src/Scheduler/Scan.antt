-- ===== src/Scheduler/Scan.antt =====
-- The search loop of `scheduler_switch`: it visits every task once, from the one after the current
-- task round to the current task, and its result.
use native.Mathlib.Nat.{mod-lt, mod-add-mod, mod-eq_of_lt, add-zero, add-mod_right}
use native.Mathlib.Decide.{ℕ_discrete}
use mathlib.Core.Path.{subst}
use ne_xs_operate_system.Base.{
  ℕ, zero, suc, ◌+◌, ◌-◌, ◌%◌, ◌≤◌, ◌<◌, ◌≡◌, ◌≢◌, ◌⊎◌, inl, inr, refl, sym, ap, ◌∙◌, Bool, true,
  false, Option, none, some, List, arith, below-suc, length, length-set, get_or-set_self,
  get_or-set_ne,
}
use ne_xs_operate_system.Base.Ring.{slots_apart, slot_onto}
use ne_xs_operate_system.Scheduler.{
  Task, is_runnable, task_at, zeroed, wake, better, Search, visit, search_loop,
}

-- `k` rounds from task `t` on.
pub rounds : ℕ → ℕ → Search → ℕ → ℕ → Search
rounds now n s t zero = s
rounds now n s t (suc k) = rounds now n (visit now s t) ((t + 1) % n) k

-- With `left` tasks still to visit, the loop ends after `left` rounds.
search_loop-rounds :
    (fuel n now start : ℕ) (s : Search) (t left : ℕ)
    → 0 < left
    → left ≤ fuel
    → left ≤ n
    → t < n
    → (t + left) % n ≡ start
    → search_loop fuel n now start s t ≡ some (rounds now n s t left)
unfolding search_loop rounds
search_loop-rounds fuel n now start s t zero pos enough fits i e = absurd (omega arith)
search_loop-rounds zero n now start s t (suc left) pos enough fits i e = absurd (omega arith)
search_loop-rounds (suc fuel) n now start s t (suc zero) pos enough fits i e = ground arith
search_loop-rounds (suc fuel) n now start s t (suc (suc left)) pos enough fits i e =
    let t' = (t + 1) % n in
    let apart : t' ≢ start =
      λ c. slots_apart n (t + 1) (t + suc (suc left)) (omega arith) (omega arith) (c ∙ sym e) in
    ground (
      arith,
      apart,
      search_loop-rounds fuel n now start (visit now s t) t' (suc left) (omega arith) (omega arith)
          (omega arith) (mod-lt (t + 1) {m = n} (omega arith))
          (mod-add-mod (t + 1) n (suc left) ∙ ap (λ (x : ℕ). x % n) (omega arith) ∙ e),
    )

-- The last of the rounds can be split off.
rounds-suc :
    (now n : ℕ) (s : Search) (t k : ℕ)
    → t < n
    → rounds now n s t (suc k) ≡ visit now (rounds now n s t k) ((t + k) % n)
unfolding rounds
rounds-suc now n s t zero i =
    let e : t ≡ (t + 0) % n = rw (add-zero, mod-eq_of_lt i) refl in ap (visit now s) e
rounds-suc now n s t (suc k) i =
    let t' = (t + 1) % n in
    let e : (t' + k) % n ≡ (t + suc k) % n =
      mod-add-mod (t + 1) n k ∙ ap (λ (x : ℕ). x % n) (omega arith) in
    rounds-suc now n (visit now s t) t' k (mod-lt (t + 1) {m = n} (omega arith))
    ∙ ap (visit now (rounds now n (visit now s t) t' k)) e

wake-wake : (now : ℕ) (x : Task) → wake now (wake now x) ≡ wake now x
unfolding wake
wake-wake now x = ground arith

length-visit : (now : ℕ) (s : Search) (t : ℕ) → length (visit now s t).seen ≡ length s.seen
unfolding visit
length-visit now s t = length-set s.seen t (wake now (task_at s.seen t))

task_at-visit_self :
    (now : ℕ) (s : Search) (t : ℕ)
    → t < length s.seen
    → task_at (visit now s t).seen t ≡ wake now (task_at s.seen t)
unfolding visit
task_at-visit_self now s t h = get_or-set_self s.seen t (wake now (task_at s.seen t)) zeroed h

task_at-visit_ne :
    (now : ℕ) (s : Search) (t i : ℕ) → t ≢ i → task_at (visit now s t).seen i ≡ task_at s.seen i
unfolding visit
task_at-visit_ne now s t i h = get_or-set_ne s.seen t i (wake now (task_at s.seen t)) zeroed h

best-visit :
    (now : ℕ) (s : Search) (t : ℕ) → (visit now s t).best ≡ better (visit now s t).seen s.best t
unfolding visit
best-visit now s t = refl

-- `tk i` is task `i` once it was woken. What holds after `k` rounds from `t` on.
module _ (n t : ℕ) (tk : ℕ → Task) where
  abbrev place : ℕ → ℕ
  place j = (t + j) % n

  abbrev pub runs : ℕ → Bool
  runs i = is_runnable (tk i).state

  -- `b` is the first, in ring order from `t`, of the best runnable ones among `k` tasks.
  pub record IsFirstBest (k b : ℕ) : Type 0 where
    pub offset : ℕ
    pub within : offset < k
    pub is_at : b ≡ place offset
    pub runnable : runs b ≡ true
    pub best : (j : ℕ) → j < k → runs (place j) ≡ true → (tk b).priority ≤ (tk (place j)).priority
    pub first :
        (j : ℕ) → j < offset → runs (place j) ≡ true → (tk b).priority < (tk (place j)).priority

  abbrev pub IsResult : ℕ → Option ℕ → Type 0
  IsResult k none = (j : ℕ) → j < k → runs (place j) ≡ false
  IsResult k (some b) = IsFirstBest k b

  place-lt : t < n → (j : ℕ) → place j < n
  place-lt h j = mod-lt (t + j) {m = n} (omega arith)

  place_ne : (i k : ℕ) → i < k → k < n → place i ≢ place k
  place_ne i k h fits = slots_apart n (t + i) (t + k) (omega arith) (omega arith)

  -- One more task is seen: it is taken exactly if it is the first, or strictly better.
  better-none :
      (ts : List Task) (p : ℕ)
      → task_at ts p ≡ tk p
      → ((better ts none p ≡ some p) × (runs p ≡ true))
        ⊎ ((better ts none p ≡ none) × (runs p ≡ false))
  unfolding better
  better-none ts p e = ground arith

  better-some :
      (ts : List Task) (b p : ℕ)
      → task_at ts p ≡ tk p
      → task_at ts b ≡ tk b
      → ((better ts (some b) p ≡ some p) × (runs p ≡ true) × ((tk p).priority < (tk b).priority))
        ⊎ ((better ts (some b) p ≡ some b)
            × ((runs p ≡ false) ⊎ ((tk b).priority ≤ (tk p).priority)))
  unfolding better
  better-some ts b p e w = ground arith

  IsResult-suc :
      (k : ℕ) (ts : List Task) (o : Option ℕ)
      → task_at ts (place k) ≡ tk (place k)
      → ((j : ℕ) → j < k → task_at ts (place j) ≡ tk (place j))
      → IsResult k o
      → IsResult (suc k) (better ts o (place k))
  IsResult-suc k ts none e w r = elim (better-none ts (place k) e) [
    | inl (is, up) ↦ rw is (record {
      offset = k;
      within = omega arith;
      is_at = refl;
      runnable = up;
      best =
          below-suc (λ j. runs (place j) ≡ true → (tk (place k)).priority ≤ (tk (place j)).priority)
            k (λ j h q. cc (r j h)) (λ _. omega arith);
      first = λ j h q. cc (r j h);
    })
    | inr (is, down) ↦ rw is (below-suc (λ j. runs (place j) ≡ false) k r down)
  ]
  IsResult-suc k ts (some b) e w r = elim (better-some ts b (place k) e (r_at w r)) [
    | inl (is, up, less) ↦ rw is (record {
      offset = k;
      within = omega arith;
      is_at = refl;
      runnable = up;
      best =
          below-suc (λ j. runs (place j) ≡ true → (tk (place k)).priority ≤ (tk (place j)).priority)
            k (λ j h q. omega (arith, r.best j h q)) (λ _. omega arith);
      first = λ j h q. omega (arith, r.best j h q);
    })
    | inr (is, no_less) ↦ rw is (record {
      offset = r.offset;
      within = omega (arith, r.within);
      is_at = r.is_at;
      runnable = r.runnable;
      best =
          below-suc (λ j. runs (place j) ≡ true → (tk b).priority ≤ (tk (place j)).priority) k
            r.best (λ up. ground arith);
      first = r.first;
    })
  ]
    where
      r_at :
          ((j : ℕ) → j < k → task_at ts (place j) ≡ tk (place j))
          → IsFirstBest k b
          → task_at ts b ≡ tk b
      r_at w r = rw r.is_at (w r.offset r.within)

  module _ (now : ℕ) where
    record Visited (k : ℕ) (s : Search) : Type 0 where
      sized : length s.seen ≡ n
      same : (i : ℕ) → wake now (task_at s.seen i) ≡ tk i
      woken : (j : ℕ) → j < k → task_at s.seen (place j) ≡ tk (place j)
      result : IsResult k s.best

    Visited-suc :
        (k : ℕ) (s : Search) → t < n → k < n → Visited k s → Visited (suc k) (visit now s (place k))
    Visited-suc k s h fits v = record {
      sized = length-visit now s p ∙ v.sized;
      same = same_after;
      woken =
          below-suc (λ j. task_at (visit now s p).seen (place j) ≡ tk (place j)) k older now_seen;
      result =
          rw (best-visit now s p)
            (IsResult-suc k (visit now s p).seen s.best now_seen older v.result);
    }
      where
        p : ℕ
        p = place k

        now_seen : task_at (visit now s p).seen p ≡ tk p
        now_seen = task_at-visit_self now s p (rw v.sized (place-lt h k)) ∙ v.same p

        older : (j : ℕ) → j < k → task_at (visit now s p).seen (place j) ≡ tk (place j)
        older j q =
            task_at-visit_ne now s p (place j) (λ e. place_ne j k q fits (sym e)) ∙ v.woken j q

        twice : wake now (tk p) ≡ tk p
        twice = rw (← v.same p) (wake-wake now (task_at s.seen p))

        same_after : (i : ℕ) → wake now (task_at (visit now s p).seen i) ≡ tk i
        same_after i = elim (ℕ_discrete p i) [
          | yes e ↦
              subst (λ i. wake now (task_at (visit now s p).seen i) ≡ tk i) e
                (ap (wake now) now_seen ∙ twice)
          | no ne ↦ ap (wake now) (task_at-visit_ne now s p i ne) ∙ v.same i
        ]

    rounds-Visited :
        (k : ℕ) (s : Search) → t < n → k ≤ n → Visited 0 s → Visited k (rounds now n s t k)
    rounds-Visited zero s h fits v = unfold rounds in v
    rounds-Visited (suc k) s h fits v =
        rw (rounds-suc now n s t k h) (
          Visited-suc k (rounds now n s t k) h (omega arith) (rounds-Visited k s h (omega arith) v))

-- What the search leaves: every task woken, and the best of all, the first in ring order from
-- `start` on.
pub record Searched (now start : ℕ) (ts : List Task) (found : Search) : Type 0 where
  pub sized : length found.seen ≡ length ts
  pub woken : (i : ℕ) → i < length ts → task_at found.seen i ≡ wake now (task_at ts i)
  pub result : IsResult (length ts) start (λ i. wake now (task_at ts i)) (length ts) found.best

pub search_loop-Searched :
    (now start : ℕ) (ts : List Task)
    → start < length ts
    → (found : Search) × (search_loop
          (length ts)
          (length ts)
          now
          start
          (record { seen = ts; best = none })
          start
        ≡ some found)
      × Searched now start ts found
search_loop-Searched now start ts h =
    let n = length ts in
    let s : Search = record { seen = ts; best = none } in
    let tk : ℕ → Task = λ i. wake now (task_at ts i) in
    let begun : Visited n start tk now 0 s = record {
      sized = refl;
      same = λ i. refl;
      woken = λ j q. absurd (omega arith);
      result = λ j q. absurd (omega arith);
    } in
    let v = rounds-Visited n start tk now n s h (omega arith) begun in
    (
      rounds now n s start n,
      search_loop-rounds n n now start s start n (omega arith) (omega arith) (omega arith) h
          (add-mod_right start n ∙ mod-eq_of_lt h),
      record {
        sized = v.sized;
        woken = λ i q.
            subst (λ p. task_at (rounds now n s start n).seen p ≡ tk p) (slot_onto n start i h q)
              (v.woken ((i + n - start) % n) (mod-lt (i + n - start) {m = n} (omega arith)));
        result = v.result;
      },
    )
