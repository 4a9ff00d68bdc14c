-- ===== src/Modules/Tests.antt =====
-- Runs of kernel/module.c, and its theorems at concrete registries.
use ne_xs_operate_system.Base.{
  ℕ, zero, suc, ◌≤◌, ◌<◌, ◌≡◌, refl, true, false, none, some, List, [], ◌∷◌, arith,
}
use ne_xs_operate_system.Strings.{IsString, ends, byte, same_string, strcmp}
use ne_xs_operate_system.Modules.{
  find_place, unloaded, loaded, error, Module, is_loaded, is_unloaded, module_at, put_state,
  deps_loaded, module_load, load_tier, load_tiers, modules_init,
}
use ne_xs_operate_system.Modules.Order.{IsOrdered, modules_init_lem}

abbrev pit : List ℕ
pit = b'p' ∷ b'i' ∷ b't' ∷ []

abbrev kbd : List ℕ
kbd = b'k' ∷ b'b' ∷ b'd' ∷ []

abbrev net : List ℕ
net = b'n' ∷ b'e' ∷ b't' ∷ []

pit-IsString : IsString pit
pit-IsString = byte (ground arith) (byte (ground arith) (byte (ground arith) ends))

kbd-IsString : IsString kbd
kbd-IsString = byte (ground arith) (byte (ground arith) (byte (ground arith) ends))

net-IsString : IsString net
net-IsString = byte (ground arith) (byte (ground arith) (byte (ground arith) ends))

abbrev kbd_module : Module
kbd_module = record {
  name = kbd;
  priority = 2;
  state = unloaded;
  init = some 0x2000;
  exit = none;
  depends = pit ∷ [];
}

abbrev pit_module : Module
pit_module = record {
  name = pit;
  priority = 0;
  state = unloaded;
  init = some 0x1000;
  exit = some 0x1100;
  depends = [];
}

-- The keyboard before the timer that it needs, and a module whose dependency does not exist.
abbrev modules : List Module
modules = kbd_module ∷ record kbd_module { name = net; depends = net ∷ [] } ∷ pit_module ∷ []

-- The functions that were called, the last first, all with success.
abbrev log : ℕ → List ℕ → ℕ × List ℕ
log f calls = (0, f ∷ calls)

modules_init_run : modules_init (List ℕ) log modules [] ≡ (
  record kbd_module { state = loaded }
      ∷ record kbd_module { name = net; depends = net ∷ []; state = error }
      ∷ record pit_module { state = loaded }
      ∷ [],
  0x2000 ∷ 0x1000 ∷ [],
)
unfolding modules_init load_tiers load_tier module_load deps_loaded find_place put_state same_string
    strcmp
modules_init_run = refl

nothing_loaded : IsOrdered modules
nothing_loaded = record { deps = not_yet }
  where
    not_yet :
        (k : ℕ)
        → is_loaded (module_at modules k).state ≡ true
        → deps_loaded modules (module_at modules k).depends ≡ true
    not_yet zero up = absurd (ground (arith, up))
    not_yet (suc zero) up = absurd (ground (arith, up))
    not_yet (suc (suc zero)) up = absurd (ground (arith, up))
    not_yet (suc (suc (suc k))) up = absurd (ground (arith, up))

modules_init_lem_example :
    let list' = (modules_init (List ℕ) log modules []).0 in
    IsOrdered list'
    × ((j : ℕ)
        → j < 3
        → (module_at modules j).priority ≤ 5
        → is_unloaded (module_at list' j).state ≡ false)
modules_init_lem_example = modules_init_lem (List ℕ) log modules [] nothing_loaded
