-- ===== src/Modules.antt =====
-- kernel/module.c: the registry of kernel modules and of devices, by name, and the order in which
-- modules are loaded. A linked list is the list of its items, the last registered first; a
-- pointer to an item is its place.
pub mod Names
pub mod Loading
pub mod Order
pub mod Tests
use ne_xs_operate_system.Base.{
  ℕ, zero, suc, ◌+◌, ◌-◌, ◌^◌, ◌<◌, ◌≡◌, Bool, true, false, not, ◌&&◌, Option, none, some, List, [],
  ◌∷◌, ◌==◌, if◌then◌else◌, length, get_or, set,
}
use ne_xs_operate_system.Strings.{same_string}

module _ {ℓ} {A : Type ℓ} (name_of : A → List ℕ) where
  -- The loop of `module_find` and of `device_find`.
  unfoldable pub find_place : List A → List ℕ → Option ℕ
  find_place [] name = none
  find_place (x ∷ xs) name =
      let rest : Option ℕ = elim (find_place xs name) [ none ↦ none | some i ↦ some (suc i) ] in
      if same_string (name_of x) name then some 0 else rest

  -- The loop of `module_unregister` and of `device_unregister`: the item and the list without it.
  unfoldable pub take_named : List A → List ℕ → Option (A × List A)
  take_named [] name = none
  take_named (x ∷ xs) name =
      let rest : Option (A × List A) = elim (take_named xs name) [
        | none ↦ none
        | some (y, ys) ↦ some (y, x ∷ ys)
      ] in
      if same_string (name_of x) name then some (x, xs) else rest

-- The answers 0 and -1.
pub data Status : Type 0 where
  ok failed : Status

pub data ModState : Type 0 where
  unloaded loading loaded error : ModState

-- The fields of `struct module_info` that the file uses; `init` and `exit` are addresses.
pub record Module : Type 0 where
  pub name : List ℕ
  pub priority : ℕ
  pub state : ModState
  pub init : Option ℕ
  pub exit : Option ℕ
  pub depends : List (List ℕ)

abbrev pub is_empty : List ℕ → Bool
is_empty [] = true
is_empty (x ∷ xs) = false

abbrev pub is_found : Option ℕ → Bool
is_found none = false
is_found (some i) = true

abbrev pub module_name : Module → List ℕ
module_name m = m.name

abbrev pub module_find : List Module → List ℕ → Option ℕ
module_find list name = find_place module_name list name

unfoldable pub module_register : List Module → Module → Status × List Module
module_register list mod_info =
    if is_empty mod_info.name
    then (failed, list)
    else if is_found (module_find list mod_info.name)
    then (failed, list)
    else (ok, record mod_info { state = unloaded } ∷ list)

abbrev pub is_loaded : ModState → Bool
is_loaded loaded = true
is_loaded _ = false

abbrev pub is_unloaded : ModState → Bool
is_unloaded unloaded = true
is_unloaded _ = false

abbrev pub no_module : Module
no_module = record {
  name = [];
  priority = 0;
  state = unloaded;
  init = none;
  exit = none;
  depends = [];
}

abbrev pub module_at : List Module → ℕ → Module
module_at list i = get_or list i no_module

unfoldable pub put_state : List Module → ℕ → ModState → List Module
put_state list i state = let m = module_at list i in set list i (record m { state = state })

abbrev pub dep_loaded : List Module → Option ℕ → Bool
dep_loaded list none = false
dep_loaded list (some j) = is_loaded (module_at list j).state

-- The loop over `mod->depends`.
unfoldable pub deps_loaded : List Module → List (List ℕ) → Bool
deps_loaded list [] = true
deps_loaded list (d ∷ ds) = dep_loaded list (module_find list d) && deps_loaded list ds

-- What the functions of the modules do: `call f w` is the answer of the function at address `f`
-- and what it leaves of the rest of the machine.
module _ (W : Type 0) (call : ℕ → W → ℕ × W) where
  unfoldable pub module_load : List Module → W → ℕ → ℕ × List Module × W
  module_load list w i =
      let m = module_at list i in
      let list' = put_state list i loading in
      if is_loaded m.state
      then (0, list, w)
      else if not (deps_loaded list' m.depends)
      then (2 ^ 32 - 1, put_state list' i error, w)
      else elim m.init [
        | none ↦ (0, put_state list' i loaded, w)
        | some f ↦
            let (answer, w') = call f w in
            if answer == 0
            then (0, put_state list' i loaded, w')
            else (answer, put_state list' i error, w')
      ]

  unfoldable pub module_unregister : List Module → W → List ℕ → Status × List Module × W
  module_unregister list w name = elim (take_named module_name list name) [
    | none ↦ (failed, list, w)
    | some (m, rest) ↦ elim m.exit [ none ↦ (ok, rest, w) | some f ↦ (ok, rest, (call f w).1) ]
  ]

  -- The inner loop of `modules_init`, over the `n` modules from place `i` on.
  unfoldable pub load_tier : ℕ → ℕ → ℕ → List Module → W → List Module × W
  load_tier prio zero i list w = (list, w)
  load_tier prio (suc n) i list w =
      let m = module_at list i in
      let (_, list', w') = module_load list w i in
      let skip = load_tier prio n (i + 1) list w in
      let go_on = load_tier prio n (i + 1) list' w' in
      if m.priority == prio && is_unloaded m.state then go_on else skip

  -- The outer loop, over `n` priorities from `prio` on.
  unfoldable pub load_tiers : ℕ → ℕ → List Module → W → List Module × W
  load_tiers zero prio list w = (list, w)
  load_tiers (suc n) prio list w =
      let (list', w') = load_tier prio (length list) 0 list w in load_tiers n (prio + 1) list' w'

  unfoldable pub modules_init : List Module → W → List Module × W
  modules_init list w = load_tiers 6 0 list w

-- The name and the type of `struct device`; the file does not read the rest.
pub record Device : Type 0 where
  pub name : List ℕ
  pub kind : ℕ

abbrev pub device_name : Device → List ℕ
device_name d = d.name

abbrev pub device_find : List Device → List ℕ → Option ℕ
device_find list name = find_place device_name list name

unfoldable pub device_register : List Device → Device → Status × List Device
device_register list dev =
    if is_empty dev.name
    then (failed, list)
    else if is_found (device_find list dev.name)
    then (failed, list)
    else (ok, dev ∷ list)

unfoldable pub device_unregister : List Device → List ℕ → Status × List Device
device_unregister list name = elim (take_named device_name list name) [
  | none ↦ (failed, list)
  | some (d, rest) ↦ (ok, rest)
]
