-- ===== src/Scheduler/Pushes.antt =====
-- What the pushes of the first frame and the entry into the ring of tasks leave, for
-- kernel/scheduler.c.
use ne_xs_operate_system.Base.{
  ℕ, zero, suc, ◌+◌, ◌-◌, ◌*◌, ◌≤◌, ◌<◌, ◌≡◌, ◌⊎◌, refl, ap, ◌∙◌, List, [], ◌∷◌, arith, length,
  get_or, length-append, replicate, ◌++◌,
}
use ne_xs_operate_system.Scheduler.{Task, task_at}
use ne_xs_operate_system.Scheduler.Create.{store, push_words, list_add}

-- The words pushed lie below the old stack pointer, the last lowest, and nothing else is written.
pub record Pushed (vs : List ℕ) (sp : ℕ) (m : ℕ → ℕ) (r : ℕ × (ℕ → ℕ)) : Type 0 where
  pub pointer : r.0 + 8 * length vs ≡ sp
  pub words : (i : ℕ) → i < length vs → r.1 (sp - 8 * (i + 1)) ≡ get_or vs i 0
  pub outside : (a : ℕ) → (a < r.0) ⊎ (sp ≤ a) → r.1 a ≡ m a

pub push_words-Pushed :
    (vs : List ℕ) (sp : ℕ) (m : ℕ → ℕ) → 8 * length vs ≤ sp → Pushed vs sp m (push_words vs sp m)
unfolding push_words
push_words-Pushed [] sp m h = record {
  pointer = omega arith;
  words = λ i q. absurd (omega arith);
  outside = λ a o. refl;
}
push_words-Pushed (v ∷ vs) sp m h =
    let rest = push_words-Pushed vs (sp - 8) (store m (sp - 8) v) (omega arith) in
    record {
      pointer = omega (arith, rest.pointer);
      words = words_of rest;
      outside = λ a o. ground (arith, rest.outside a, rest.pointer);
    }
  where
    words_of :
        Pushed vs (sp - 8) (store m (sp - 8) v) (push_words (v ∷ vs) sp m)
        → (i : ℕ) → i < length (v ∷ vs)
        → (push_words (v ∷ vs) sp m).1 (sp - 8 * (i + 1)) ≡ get_or (v ∷ vs) i 0
    words_of rest zero q =
        let e : sp - 8 * 1 ≡ sp - 8 = omega arith in
        ground (arith, rest.outside (sp - 8), rest.pointer, e)
    words_of rest (suc i) q =
        let e : sp - 8 * (suc i + 1) ≡ sp - 8 - 8 * (i + 1) = omega arith in
        ap (push_words vs (sp - 8) (store m (sp - 8) v)).1 e ∙ rest.words i (omega arith)

pub task_at-list_add_last : (ts : List Task) (t : Task) → task_at (list_add ts t) (length ts) ≡ t
unfolding list_add
task_at-list_add_last [] t = refl
task_at-list_add_last (x ∷ ts) t = task_at-list_add_last ts t

pub task_at-list_add :
    (ts : List Task) (t : Task) (i : ℕ) → i < length ts → task_at (list_add ts t) i ≡ task_at ts i
unfolding list_add
task_at-list_add [] t i h = absurd (omega arith)
task_at-list_add (x ∷ ts) t zero h = refl
task_at-list_add (x ∷ ts) t (suc i) h = task_at-list_add ts t i (omega arith)

pub length-list_add : (ts : List Task) (t : Task) → length (list_add ts t) ≡ length ts + 1
unfolding list_add
length-list_add ts t = length-append ts (t ∷ [])

pub get_or-zeros : (n k : ℕ) (l : List ℕ) → k < n → get_or (replicate n 0 ++ l) k 0 ≡ 0
get_or-zeros zero k l h = absurd (omega arith)
get_or-zeros (suc n) zero l h = refl
get_or-zeros (suc n) (suc k) l h = get_or-zeros n k l (omega arith)
