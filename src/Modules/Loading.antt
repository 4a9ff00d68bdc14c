-- ===== src/Modules/Loading.antt =====
-- What `module_load` of kernel/module.c leaves of the registry.
use native.Mathlib.Decide.{ℕ_discrete}
use ne_xs_operate_system.Base.{
  ℕ, zero, suc, ◌<◌, ◌≡◌, ◌≢◌, ◌⊎◌, inl, inr, refl, sym, ap, ◌∙◌, true, false, List, [], ◌∷◌, arith,
  ◌==◌, Bool-cases, Option-cases, length, length-set, get_or-set_self, get_or-set_ne,
}
use ne_xs_operate_system.Modules.{
  find_place, ModState, loading, loaded, error, Module, module_find, is_loaded, is_unloaded,
  no_module, module_at, put_state, deps_loaded, module_load,
}

-- The same modules, of which those that were loaded still are.
pub record Grows (list list' : List Module) : Type 0 where
  pub sized : length list' ≡ length list
  pub names : (name : List ℕ) → module_find list' name ≡ module_find list name
  pub kept :
      (j : ℕ)
      → is_loaded (module_at list j).state ≡ true
      → is_loaded (module_at list' j).state ≡ true

pub Grows-trans : {a b c : List Module} → Grows a b → Grows b c → Grows a c
Grows-trans p q = record {
  sized = q.sized ∙ p.sized;
  names = λ name. q.names name ∙ p.names name;
  kept = λ j h. q.kept j (p.kept j h);
}

-- A module with another state has the same name.
find-put_state :
    (list : List Module) (i : ℕ) (state : ModState) (name : List ℕ)
    → module_find (put_state list i state) name ≡ module_find list name
unfolding find_place put_state
find-put_state [] i state name = refl
find-put_state (m ∷ ms) zero state name = refl
find-put_state (m ∷ ms) (suc i) state name = rw (find-put_state ms i state name) refl

put_state_self :
    (list : List Module) (i : ℕ) (state : ModState)
    → i < length list
    → (module_at (put_state list i state) i).state ≡ state
unfolding put_state
put_state_self list i state h =
    let m = module_at list i in
    ap (λ (x : Module). x.state) (get_or-set_self list i (record m { state = state }) no_module h)

put_state_ne :
    (list : List Module) (i j : ℕ) (state : ModState)
    → i ≢ j
    → module_at (put_state list i state) j ≡ module_at list j
unfolding put_state
put_state_ne list i j state h =
    let m = module_at list i in get_or-set_ne list i j (record m { state = state }) no_module h

put_state-Grows :
    (list : List Module) (i : ℕ) (state : ModState)
    → is_loaded (module_at list i).state ≡ false
    → Grows list (put_state list i state)
unfolding put_state
put_state-Grows list i state h =
    let m = module_at list i in
    record {
      sized = length-set list i (record m { state = state });
      names = find-put_state list i state;
      kept = λ j up. elim (ℕ_discrete i j) [
        | yes same ↦ absurd (cc (h, rw (sym same) at up))
        | no other ↦ rw (put_state_ne list i j state other) up
      ];
    }

pub deps_loaded-Grows :
    (list list' : List Module) (ds : List (List ℕ))
    → Grows list list'
    → deps_loaded list ds ≡ true
    → deps_loaded list' ds ≡ true
unfolding deps_loaded
deps_loaded-Grows list list' [] g h = refl
deps_loaded-Grows list list' (d ∷ ds) g h = elim (Option-cases (module_find list d)) [
  | inl none_such ↦ absurd (ground (arith, rw none_such at h))
  | inr (j, place) ↦
      let h' = rw place at h in
      let place' = g.names d ∙ place in
      let up : is_loaded (module_at list j).state ≡ true = ground (arith, h') in
      let below : deps_loaded list ds ≡ true = ground (arith, h') in
      rw (place', g.kept j up) (deps_loaded-Grows list list' ds g below)
]

-- What a module's loading comes to: it is loaded, all that it depends on being loaded, or its
-- state is MOD_STATE_ERROR; nothing else changes.
pub record IsLoad (list : List Module) (i : ℕ) (list' : List Module) : Type 0 where
  pub grows : Grows list list'
  pub settled : is_unloaded (module_at list' i).state ≡ false
  pub checked :
      is_loaded (module_at list' i).state ≡ true
      → deps_loaded list' (module_at list' i).depends ≡ true
  pub others : (j : ℕ) → i ≢ j → module_at list' j ≡ module_at list j
  pub priority : (module_at list' i).priority ≡ (module_at list i).priority

put_state_frame :
    (list : List Module) (i : ℕ) (state : ModState)
    → let m = module_at (put_state list i state) i in
      (m.depends ≡ (module_at list i).depends) × (m.priority ≡ (module_at list i).priority)
unfolding put_state
put_state_frame [] i state = (refl, refl)
put_state_frame (m ∷ ms) zero state = (refl, refl)
put_state_frame (m ∷ ms) (suc i) state = put_state_frame ms i state

-- A module goes by MOD_STATE_LOADING to its last state.
left_as :
    (list : List Module) (i : ℕ) (state : ModState)
    → i < length list
    → is_loaded (module_at list i).state ≡ false
    → is_unloaded state ≡ false
    → (is_loaded state ≡ true
        → deps_loaded (put_state list i loading) (module_at list i).depends ≡ true)
    → IsLoad list i (put_state (put_state list i loading) i state)
left_as list i state q h still present =
    let before = put_state list i loading in
    let first = put_state-Grows list i loading h in
    let at_before = put_state_self list i loading q in
    let second = put_state-Grows before i state (rw at_before refl) in
    let at_after = put_state_self before i state (rw first.sized q) in
    record {
      grows = Grows-trans first second;
      settled = rw at_after still;
      checked = λ up.
          rw ((put_state_frame before i state).0, (put_state_frame list i loading).0)
            (deps_loaded-Grows before _ _ second (present (rw at_after at up)));
      others = λ j ne. put_state_ne before i j state ne ∙ put_state_ne list i j loading ne;
      priority = (put_state_frame before i state).1 ∙ (put_state_frame list i loading).1;
    }

module _ (W : Type 0) (call : ℕ → W → ℕ × W) where
  -- The two states that a module can be left in.
  load_cases :
      (list : List Module) (w : W) (i : ℕ)
      → is_loaded (module_at list i).state ≡ false
      → let before = put_state list i loading in
        let after = (module_load W call list w i).1 in
        ((deps_loaded before (module_at list i).depends ≡ true)
          × (after ≡ put_state before i loaded))
        ⊎ (after ≡ put_state before i error)
  unfolding module_load
  load_cases list w i h =
      let m = module_at list i in
      elim (Bool-cases (deps_loaded (put_state list i loading) m.depends)) [
        | inr missing ↦ rw (h, missing) (inr refl)
        | inl present ↦ elim (Option-cases m.init) [
          | inl quiet ↦ rw (h, present, quiet) (inl (refl, refl))
          | inr (f, starts) ↦ elim (Bool-cases ((call f w).0 == 0)) [
            | inl good ↦ rw (h, present, starts, good) (inl (refl, refl))
            | inr bad ↦ rw (h, present, starts, bad) (inr refl)
          ]
        ]
      ]

  pub module_load-IsLoad :
      (list : List Module) (w : W) (i : ℕ)
      → i < length list
      → is_loaded (module_at list i).state ≡ false
      → IsLoad list i (module_load W call list w i).1
  module_load-IsLoad list w i q h = elim (load_cases list w i h) [
    | inl (present, is) ↦ rw is (left_as list i loaded q h refl λ _. present)
    | inr is ↦ rw is (left_as list i error q h refl λ up. absurd (ground (arith, up)))
  ]
