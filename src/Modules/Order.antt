-- ===== src/Modules/Order.antt =====
-- The order of `modules_init` of kernel/module.c: a module is loaded only after the modules that it
-- depends on.
use native.Mathlib.Decide.{ℕ_discrete}
use mathlib.Core.Path.{subst}
use ne_xs_operate_system.Base.{
  ℕ, zero, suc, ◌+◌, ◌≤◌, ◌<◌, ◌≡◌, inl, inr, refl, ap, ◌∙◌, true, false, ◌&&◌, List, arith, ◌==◌,
  Bool-cases, length,
}
use ne_xs_operate_system.Modules.{
  ModState, unloaded, loading, loaded, error, Module, is_loaded, is_unloaded, module_at,
  deps_loaded, module_load, load_tier, load_tiers, modules_init,
}
use ne_xs_operate_system.Modules.Loading.{
  Grows, Grows-trans, IsLoad, deps_loaded-Grows, module_load-IsLoad,
}

-- Every loaded module finds what it depends on loaded.
pub record IsOrdered (list : List Module) : Type 0 where
  pub deps :
      (k : ℕ)
      → is_loaded (module_at list k).state ≡ true
      → deps_loaded list (module_at list k).depends ≡ true

-- Some modules were tried; none is untried again, and none has another priority.
record Tried (list list' : List Module) : Type 0 where
  grows : Grows list list'
  still :
      (j : ℕ)
      → is_unloaded (module_at list j).state ≡ false
      → is_unloaded (module_at list' j).state ≡ false
  priorities : (j : ℕ) → (module_at list' j).priority ≡ (module_at list j).priority

Tried-refl : (list : List Module) → Tried list list
Tried-refl list = record {
  grows = record { sized = refl; names = λ name. refl; kept = λ j h. h };
  still = λ j h. h;
  priorities = λ j. refl;
}

Tried-trans : {a b c : List Module} → Tried a b → Tried b c → Tried a c
Tried-trans p q = record {
  grows = Grows-trans p.grows q.grows;
  still = λ j h. q.still j (p.still j h);
  priorities = λ j. q.priorities j ∙ p.priorities j;
}

IsLoad-Tried : (list list' : List Module) (i : ℕ) → IsLoad list i list' → Tried list list'
IsLoad-Tried list list' i l = record {
  grows = l.grows;
  still = λ j h. elim (ℕ_discrete i j) [
    | yes same ↦ subst (λ k. is_unloaded (module_at list' k).state ≡ false) same l.settled
    | no other ↦ rw (l.others j other) h
  ];
  priorities = λ j. elim (ℕ_discrete i j) [
    | yes same ↦
        subst (λ k. (module_at list' k).priority ≡ (module_at list k).priority) same l.priority
    | no other ↦ ap (λ (m : Module). m.priority) (l.others j other)
  ];
}

IsLoad-IsOrdered :
    (list list' : List Module) (i : ℕ) → IsLoad list i list' → IsOrdered list → IsOrdered list'
IsLoad-IsOrdered list list' i l o = record {
  deps = λ k up. elim (ℕ_discrete i k) [
    | yes same ↦
        subst
          (λ j.
            is_loaded (module_at list' j).state ≡ true
            → deps_loaded list' (module_at list' j).depends ≡ true)
          same l.checked up
    | no other ↦
        let same = l.others k other in
        rw same (deps_loaded-Grows list list' _ l.grows (o.deps k (rw same at up)))
  ];
}

-- What the pass of one priority over `n` modules from place `i` on leaves.
record IsTier (prio n i : ℕ) (list list' : List Module) : Type 0 where
  ordered : IsOrdered list'
  tried : Tried list list'
  all_tried :
      (j : ℕ)
      → i ≤ j
      → j < i + n
      → (module_at list j).priority ≡ prio
      → is_unloaded (module_at list' j).state ≡ false

IsTier-suc :
    (prio n i : ℕ) (list mid list' : List Module)
    → Tried list mid
    → ((module_at list i).priority ≡ prio → is_unloaded (module_at mid i).state ≡ false)
    → IsTier prio n (i + 1) mid list'
    → IsTier prio (suc n) i list list'
IsTier-suc prio n i list mid list' p now rest = record {
  ordered = rest.ordered;
  tried = Tried-trans p rest.tried;
  all_tried = λ j l r e. elim (ℕ_discrete i j) [
    | yes same ↦
        subst (λ k. is_unloaded (module_at list' k).state ≡ false) same
          (rest.tried.still i (now (ap (λ k. (module_at list k).priority) same ∙ e)))
    | no other ↦ rest.all_tried j (omega arith) (omega arith) (p.priorities j ∙ e)
  ];
}

module _ (W : Type 0) (call : ℕ → W → ℕ × W) where
  load_tier-IsTier :
      (prio n i : ℕ) (list : List Module) (w : W)
      → i + n ≤ length list
      → IsOrdered list
      → IsTier prio n i list (load_tier W call prio n i list w).0
  unfolding load_tier
  load_tier-IsTier prio zero i list w h o = record {
    ordered = o;
    tried = Tried-refl list;
    all_tried = λ j p q e. absurd (omega arith);
  }
  load_tier-IsTier prio (suc n) i list w h o =
      let m = module_at list i in
      let after = module_load W call list w i in
      elim (Bool-cases (m.priority == prio && is_unloaded m.state)) [
        | inr skip ↦ rw skip (
            IsTier-suc prio n i list list _ (Tried-refl list) (λ e. ground (arith, skip, e))
              (load_tier-IsTier prio n (i + 1) list w (omega (arith, h)) o))
        | inl due ↦
            let l =
              module_load-IsLoad W call list w i (omega (arith, h))
                (fresh m.state (ground (arith, due))) in
            let p = IsLoad-Tried list after.1 i l in
            rw due (
              IsTier-suc prio n i list after.1 _ p (λ e. l.settled)
                (load_tier-IsTier prio n (i + 1) after.1 after.2 (omega (arith, h, p.grows.sized))
                  (IsLoad-IsOrdered list after.1 i l o)))
      ]
    where
      fresh : (state : ModState) → is_unloaded state ≡ true → is_loaded state ≡ false
      fresh unloaded e = refl
      fresh loading e = refl
      fresh loaded e = absurd (ground (arith, e))
      fresh error e = refl

  -- The passes of `n` priorities from `prio` on.
  load_tiers-IsOrdered :
      (n prio : ℕ) (list : List Module) (w : W)
      → IsOrdered list
      → let list' = (load_tiers W call n prio list w).0 in
        IsOrdered list'
        × Tried list list'
        × ((j : ℕ)
            → j < length list
            → prio ≤ (module_at list j).priority
            → (module_at list j).priority < prio + n
            → is_unloaded (module_at list' j).state ≡ false)
  unfolding load_tiers
  load_tiers-IsOrdered zero prio list w o = (o, Tried-refl list, λ j h p q. absurd (omega arith))
  load_tiers-IsOrdered (suc n) prio list w o =
      let after = load_tier W call prio (length list) 0 list w in
      let tier = load_tier-IsTier prio (length list) 0 list w (omega arith) o in
      let (o', p, all) = load_tiers-IsOrdered n (prio + 1) after.0 after.1 tier.ordered in
      (
        o',
        Tried-trans tier.tried p,
        λ j h l r. elim (ℕ_discrete (module_at list j).priority prio) [
          | yes now ↦ p.still j (tier.all_tried j (omega arith) (omega (arith, h)) now)
          | no later ↦
              let same = tier.tried.priorities j in
              all j (omega (arith, h, tier.tried.grows.sized)) (omega (arith, same, l, later))
                (omega (arith, same, r))
        ],
      )

-- If every module loaded before finds what it depends on loaded, then after `modules_init` every
-- loaded module does, and no module of the six priorities is left in the state
-- MOD_STATE_UNLOADED; provided that the functions `init` of the modules leave the registry alone.
pub modules_init_lem :
    (W : Type 0) (call : ℕ → W → ℕ × W) (list : List Module) (w : W)
    → IsOrdered list
    → let list' = (modules_init W call list w).0 in
      IsOrdered list'
      × ((j : ℕ)
          → j < length list
          → (module_at list j).priority ≤ 5
          → is_unloaded (module_at list' j).state ≡ false)
unfolding modules_init
modules_init_lem W call list w o =
    let (o', _, all) = load_tiers-IsOrdered W call 6 0 list w o in
    (o', λ j h p. all j h (omega arith) (omega arith))
