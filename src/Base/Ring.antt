-- ===== src/Base/Ring.antt =====
-- A circular array read as the list of its occupied slots, for the ring buffers of the keyboard
-- and of the message queues.
use Prim.Native.Nat.{ℕ, zero, suc, ◌+◌, ◌-◌, ◌%◌, ◌≤◌, ◌<◌}
use mathlib.Core.Path.{◌≡◌, refl, sym, ap, ap₂, ◌∙◌}
use mathlib.Core.Logic.{◌≢◌}
use mathlib.Core.List.{List, [], ◌∷◌, ◌++◌}
use native.Mathlib.Omega.{arith}
use native.Mathlib.Nat.{mod-lt, mod-add-mod, add-mod-mod, add-mod_right, mod-eq_of_lt, add-zero}
use ne_xs_operate_system.Base.Lists.{length, get_or, set, get_or-set_self, get_or-set_ne}

-- Two numbers less than `cap` apart lie in different slots.
pub slots_apart : (cap a b : ℕ) → a < b → b < a + cap → a % cap ≢ b % cap
slots_apart cap a b h k e = grind arith

next_slot : (cap h g : ℕ) → h % cap ≡ g % cap → (h + 1) % cap ≡ (g + 1) % cap
next_slot cap h g e =
    sym (mod-add-mod h cap 1) ∙ ap (λ (t : ℕ). (t + 1) % cap) e ∙ mod-add-mod g cap 1

module _ {ℓ} {A : Type ℓ} (d : A) (cap : ℕ) where
  -- The `n` slots from the one of `h` on, going round at `cap`.
  pub window : List A → ℕ → ℕ → List A
  window buf h zero = []
  window buf h (suc n) = get_or buf (h % cap) d ∷ window buf (h + 1) n

  pub length-window : (buf : List A) (h n : ℕ) → length (window buf h n) ≡ n
  unfolding window
  length-window buf h zero = refl
  length-window buf h (suc n) = ap suc (length-window buf (h + 1) n)

  -- Only the slot of the start counts.
  pub window-mod : (buf : List A) (h g n : ℕ) → h % cap ≡ g % cap → window buf h n ≡ window buf g n
  unfolding window
  window-mod buf h g zero e = refl
  window-mod buf h g (suc n) e =
      ap₂ (λ s rest. get_or buf s d ∷ rest) e
        (window-mod buf (h + 1) (g + 1) n (next_slot cap h g e))

  -- A write to a slot outside the window.
  window-set_ne :
      (buf : List A) (h n i : ℕ) (x : A)
      → ((k : ℕ) → h ≤ k → k < h + n → k % cap ≢ i)
      → window (set buf i x) h n ≡ window buf h n
  unfolding window
  window-set_ne buf h zero i x out = refl
  window-set_ne buf h (suc n) i x out =
      ap₂ ◌∷◌ (get_or-set_ne buf i (h % cap) x d λ e. out h (omega arith) (omega arith) (sym e))
        (window-set_ne buf (h + 1) n i x (λ k p q. out k (omega arith) (omega arith)))

  window-append :
      (buf : List A) (h n : ℕ)
      → window buf h (suc n) ≡ window buf h n ++ (get_or buf ((h + n) % cap) d ∷ [])
  unfolding window
  window-append buf h zero = rw add-zero refl
  window-append buf h (suc n) =
      let e : h + 1 + n ≡ h + suc n = omega arith in
      ap (λ w. get_or buf (h % cap) d ∷ w) (rw e at (window-append buf (h + 1) n))

  pub window-zero : (buf : List A) (h : ℕ) → window buf h 0 ≡ []
  unfolding window
  window-zero buf h = refl

  pub window-suc :
      (buf : List A) (h n : ℕ)
      → window buf h (suc n) ≡ get_or buf (h % cap) d ∷ window buf (h + 1) n
  unfolding window
  window-suc buf h n = refl

  -- A write to the slot behind the window adds an item at its end.
  pub window-set :
      (buf : List A) (h n i : ℕ) (x : A)
      → (h + n) % cap ≡ i
      → n < cap
      → cap ≤ length buf
      → window (set buf i x) h (suc n) ≡ window buf h n ++ (x ∷ [])
  window-set buf h n i x e room fits =
      let inside : i < length buf = omega (arith, mod-lt (h + n) {m = cap} (omega arith)) in
      window-append (set buf i x) h n
      ∙ ap₂ (λ w y. w ++ (y ∷ []))
          (window-set_ne buf h n i x
            λ k p q c. slots_apart cap k (h + n) q (omega arith) (c ∙ sym e))
          (ap (λ s. get_or (set buf i x) s d) e ∙ get_or-set_self buf i x d inside)

-- Every slot is reached from every other, going forward.
pub slot_onto :
    (cap start i : ℕ) → start < cap → i < cap → (start + (i + cap - start) % cap) % cap ≡ i
slot_onto cap start i h k =
    let e : start + (i + cap - start) ≡ i + cap = omega arith in
    add-mod-mod start (i + cap - start) cap
    ∙ ap (λ (x : ℕ). x % cap) e
    ∙ add-mod_right i cap
    ∙ mod-eq_of_lt k
