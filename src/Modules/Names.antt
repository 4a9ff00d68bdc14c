-- ===== src/Modules/Names.antt =====
-- The registries of kernel/module.c hold no name twice: what registering and taking away change.
use ne_xs_operate_system.Base.{
  ℕ, ◌≡◌, ◌≢◌, ◌⊎◌, inl, inr, refl, ap, true, false, Option, none, some, List, [], ◌∷◌, arith,
  Bool-cases, Option-cases,
}
use ne_xs_operate_system.Strings.{same_string, IsString, same_string_iff}
use ne_xs_operate_system.Modules.{
  find_place, take_named, ok, failed, Module, module_name, module_find, module_register, unloaded,
  is_empty, is_found, module_unregister, Device, device_name, device_find, device_register,
  device_unregister,
}

module _ {ℓ} {A : Type ℓ} (name_of : A → List ℕ) where
  -- The names are strings, and no two are the same.
  pub data IsRegistry : List A → Type ℓ where
    empty : IsRegistry []
    item :
        {x : A} {xs : List A}
        → IsString (name_of x)
        → find_place name_of xs (name_of x) ≡ none
        → IsRegistry xs
        → IsRegistry (x ∷ xs)

  find_place-skip :
      (x : A) (xs : List A) (name : List ℕ)
      → same_string (name_of x) name ≡ false
      → find_place name_of xs name ≡ none
      → find_place name_of (x ∷ xs) name ≡ none
  unfolding find_place
  find_place-skip x xs name other e = rw (other, e) refl

  find_place-none :
      (x : A) (xs : List A) (name : List ℕ)
      → find_place name_of (x ∷ xs) name ≡ none
      → (same_string (name_of x) name ≡ false) × (find_place name_of xs name ≡ none)
  unfolding find_place
  find_place-none x xs name e = elim (Bool-cases (same_string (name_of x) name)) [
    | inl same ↦ absurd (some_ne (rw same at e))
    | inr other ↦ elim (Option-cases (find_place name_of xs name)) [
      | inl free ↦ (other, free)
      | inr (i, place) ↦ absurd (some_ne (rw (other, place) at e))
    ]
  ]
    where
      some_ne : {i : ℕ} → some i ≢ none
      some_ne h = absurd (cc (ap is_found h))

  -- The item taken has the name; without it no item has it, and the rest is as before.
  record IsTaken (xs : List A) (name : List ℕ) (x : A) (rest : List A) : Type ℓ where
    named : name_of x ≡ name
    gone : find_place name_of rest name ≡ none
    registry : IsRegistry rest
    others :
        (other : List ℕ) → find_place name_of xs other ≡ none → find_place name_of rest other ≡ none

  take_named-IsTaken :
      (xs : List A) (name : List ℕ)
      → IsRegistry xs
      → IsString name
      → ((take_named name_of xs name ≡ none) × (find_place name_of xs name ≡ none))
        ⊎ ((x : A) × (rest : List A) × (take_named name_of xs name ≡ some (x, rest))
            × IsTaken xs name x rest)
  unfolding take_named find_place
  take_named-IsTaken [] name r s = inl (refl, refl)
  take_named-IsTaken (x ∷ xs) name (item s' free r) s =
      elim (Bool-cases (same_string (name_of x) name)) [
        | inl same ↦
            let e = (same_string_iff (name_of x) name s' s).0 same in
            rw same (
              inr (
                x,
                xs,
                refl,
                record {
                  named = e;
                  gone = rw e at free;
                  registry = r;
                  others = λ other h. (find_place-none x xs other h).1;
                },
              ))
        | inr other ↦ elim (take_named-IsTaken xs name r s) [
          | inl (none_such, free') ↦ rw (other, none_such, free') (inl (refl, refl))
          | inr (y, rest, is, t) ↦
              rw (other, is)
                (inr (
                  y,
                  x ∷ rest,
                  refl,
                  record {
                    named = t.named;
                    gone = find_place-skip x rest name other t.gone;
                    registry = item s' (t.others (name_of x) free) t.registry;
                    others = λ n h.
                        let (o, h') = find_place-none x xs n h in
                        find_place-skip x rest n o (t.others n h');
                  },
                ))
        ]
      ]

  -- A new name may be put in front.
  IsRegistry-add :
      (x : A) (xs : List A)
      → IsString (name_of x)
      → IsRegistry xs
      → find_place name_of xs (name_of x) ≡ none
      → IsRegistry (x ∷ xs) × (find_place name_of (x ∷ xs) (name_of x) ≡ some 0)
  unfolding find_place
  IsRegistry-add x xs s r free =
      (item s free r, rw ((same_string_iff (name_of x) (name_of x) s s).1 refl) refl)

  take_named-first :
      (x : A) (xs : List A)
      → IsString (name_of x)
      → take_named name_of (x ∷ xs) (name_of x) ≡ some (x, xs)
  unfolding take_named
  take_named-first x xs s = rw ((same_string_iff (name_of x) (name_of x) s s).1 refl) refl

is_empty-true : (xs : List ℕ) → is_empty xs ≡ true → xs ≡ []
is_empty-true [] e = refl
is_empty-true (x ∷ xs) e = absurd (ground (arith, e))

found_ne : {o : Option ℕ} {i : ℕ} → o ≡ some i → o ≢ none
found_ne e f = absurd (ground (arith, ap is_found e, ap is_found f))

-- In a registry, and for a string as name, `module_register` fails, with nothing changed, exactly for an empty name and for one that is
-- taken; else the module is first in the list, found under its name, and no name is there twice.
module_register_lem :
    (list : List Module) (m : Module)
    → IsRegistry module_name list
    → IsString m.name
    → let (status, list') = module_register list m in
      ((status ≡ failed) × (list' ≡ list) × ((m.name ≡ []) ⊎ (module_find list m.name ≢ none)))
      ⊎ ((status ≡ ok)
          × (m.name ≢ [])
          × (module_find list m.name ≡ none)
          × IsRegistry module_name list'
          × (module_find list' m.name ≡ some 0))
unfolding module_register
module_register_lem list m r s = elim (Bool-cases (is_empty m.name)) [
  | inl none_given ↦ rw none_given (inl (refl, refl, inl (is_empty-true m.name none_given)))
  | inr given ↦ elim (Option-cases (module_find list m.name)) [
    | inr (i, taken) ↦ rw (given, taken) (inl (refl, refl, inr (found_ne refl)))
    | inl free ↦
        let (r', first) =
          IsRegistry-add module_name (record m { state = unloaded }) list s r free in
        rw (given, free)
          (inr (refl, λ e. absurd (ground (arith, given, ap is_empty e)), refl, r', first))
  ]
]

-- In a registry, and for a string as name, `module_unregister` fails, with nothing changed, exactly for a name that is not there; else the
-- name is not there any more, and no name is there twice.
pub module_unregister_lem :
    (W : Type 0) (call : ℕ → W → ℕ × W) (list : List Module) (w : W) (name : List ℕ)
    → IsRegistry module_name list
    → IsString name
    → let (status, list', _) = module_unregister W call list w name in
      ((status ≡ failed) × (list' ≡ list) × (module_find list name ≡ none))
      ⊎ ((status ≡ ok) × IsRegistry module_name list' × (module_find list' name ≡ none))
unfolding module_unregister
module_unregister_lem W call list w name r s = elim (take_named-IsTaken module_name list name r s) [
  | inl (none_such, free) ↦ rw (module_unregister, none_such, free) (inl (refl, refl, refl))
  | inr (m, rest, is, t) ↦ elim (Option-cases m.exit) [
    | inl quiet ↦ rw (module_unregister, is, quiet) (inr (refl, t.registry, t.gone))
    | inr (f, leaves) ↦ rw (module_unregister, is, leaves) (inr (refl, t.registry, t.gone))
  ]
]

-- A device with a name that is new is registered, no name is there twice, and taking it away again
-- leaves the list as it was.
device_unregister-device_register :
    (list : List Device) (d : Device)
    → IsRegistry device_name list
    → IsString d.name
    → d.name ≢ []
    → device_find list d.name ≡ none
    → let (status, list') = device_register list d in
      (status ≡ ok) × IsRegistry device_name list' × (device_unregister list' d.name ≡ (ok, list))
unfolding device_register device_unregister
device_unregister-device_register list d r s given free = elim (Bool-cases (is_empty d.name)) [
  | inl none_given ↦ absurd (given (is_empty-true d.name none_given))
  | inr some_name ↦
      rw (some_name, free)
        (
          refl,
          (IsRegistry-add device_name d list s r free).0,
          rw (device_unregister, take_named-first device_name d list s) refl,
        )
]
