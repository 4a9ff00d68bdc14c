-- ===== src/Buddy/Regions.antt =====
-- Where `buddy_init_e820` of kernel/buddy.c places the heap and the secure region.
use native.Mathlib.Nat.{mod-eq_of_lt}
use mathlib.Core.Path.{subst}
use ne_xs_operate_system.Base.{
  ℕ, zero, suc, ◌+◌, ◌-◌, ◌*◌, ◌%◌, ◌^◌, ◌≤◌, ◌<◌, ◌≡◌, ◌⊎◌, inl, inr, refl, sym, ap, ◌∙◌, true,
  false, none, some, List, [], ◌∷◌, arith, ltb, ◌==◌, if◌then◌else◌, Bool-cases, length, get_or,
  max,
}
use ne_xs_operate_system.Buddy.{
  E820Entry, e820_type_usable, Region, clip, above_kernel, usable_part, larger, best_region,
  SecureRegion, secure_region_size, place_heap,
}

abbrev kernel_end : ℕ
kernel_end = 0x200000

-- The region lies in the entry, above the kernel and up to the entry's end.
pub record IsPart (e : E820Entry) (r : Region) : Type 0 where
  pub usable : e.kind ≡ e820_type_usable
  pub above : kernel_end ≤ r.start
  pub after : e.base ≤ r.start
  pub ends : r.start + r.size ≡ e.base + e.len

abbrev pub no_entry : E820Entry
no_entry = record { base = 0; len = 0; kind = 0 }

-- How many bytes a usable entry has above the kernel.
abbrev pub room_above : E820Entry → ℕ
room_above e = if e.kind == e820_type_usable then (e.base + e.len) - max e.base kernel_end else 0

clip_lem :
    (floor : ℕ) (r : Region)
    → r.start + r.size < 2 ^ 64
    → ((clip floor r ≡ none) × (r.start < floor) × (r.start + r.size ≤ floor))
      ⊎ ((x : Region) × (clip floor r ≡ some x)
          × (x.start ≡ max r.start floor)
          × (x.start + x.size ≡ r.start + r.size))
unfolding clip
clip_lem floor r h = elim (Bool-cases (ltb r.start floor)) [
  | inl low ↦ elim (Bool-cases (ltb floor (r.start + r.size))) [
    | inl over ↦
        rw (low, mod-eq_of_lt h, over)
          (inr (
            record { start = floor; size = r.start + r.size - floor },
            refl,
            ground arith,
            ground arith,
          ))
    | inr under ↦ rw (low, mod-eq_of_lt h, under) (inl (refl, ground arith, ground arith))
  ]
  | inr high ↦ rw high (inr (r, refl, ground arith, refl))
]

-- What is left of a region of the memory map above the kernel.
above_kernel_lem :
    (r : Region)
    → r.start + r.size < 2 ^ 64
    → ((above_kernel r ≡ none) × (r.start + r.size ≤ kernel_end))
      ⊎ ((x : Region) × (above_kernel r ≡ some x)
          × (x.start ≡ max r.start kernel_end)
          × (x.start + x.size ≡ r.start + r.size))
unfolding above_kernel
above_kernel_lem r h = elim (clip_lem 0x100000 r h) [
  | inl (gone, _, low) ↦ rw (above_kernel, gone) (inl (refl, omega (arith, low)))
  | inr (high, is, from, to) ↦ elim (clip_lem kernel_end high (omega (arith, to))) [
    | inl (gone, _, low) ↦ rw (above_kernel, is, gone) (inl (refl, omega (arith, low, to)))
    | inr (x, is', from', to') ↦
        rw (above_kernel, is, is') (inr (x, refl, omega (arith, from, from'), to' ∙ to))
  ]
]

-- What an entry offers is the part of it above the kernel, all of its room there.
usable_part_lem :
    (e : E820Entry)
    → e.base + e.len < 2 ^ 64
    → ((usable_part e ≡ none) × (room_above e ≡ 0))
      ⊎ ((r : Region) × (usable_part e ≡ some r) × IsPart e r × (room_above e ≡ r.size))
unfolding usable_part
usable_part_lem e h = elim (Bool-cases (e.kind == e820_type_usable)) [
  | inl open_to ↦ elim (above_kernel_lem (record { start = e.base; size = e.len }) h) [
    | inl (gone, low) ↦ rw (open_to, gone) (inl (refl, omega (arith, low)))
    | inr (x, is, from, to) ↦
        rw (open_to, is)
          (inr (
            x,
            refl,
            record {
              usable = ground arith;
              above = omega (arith, from);
              after = omega (arith, from);
              ends = to;
            },
            omega (arith, from, to),
          ))
  ]
  | inr closed ↦ rw closed (inl (refl, refl))
]

-- A result of the loop: as large as every usable part, and one of them unless it is empty.
pub record IsLargest (es : List E820Entry) (best : Region) (found : Region) : Type 0 where
  pub one_of : (found ≡ best) ⊎ ((i : ℕ) × (i < length es) × IsPart (get_or es i no_entry) found)
  pub at_least : best.size ≤ found.size
  pub covers : (i : ℕ) → i < length es → room_above (get_or es i no_entry) ≤ found.size

larger_lem :
    (e : E820Entry) (best : Region)
    → e.base + e.len < 2 ^ 64
    → let found = larger best (usable_part e) in
      ((found ≡ best) ⊎ IsPart e found) × (best.size ≤ found.size) × (room_above e ≤ found.size)
unfolding larger
larger_lem e best h = elim (usable_part_lem e h) [
  | inl (gone, empty) ↦ rw gone (inl refl, omega arith, omega (arith, empty))
  | inr (r, is, part, room) ↦ elim (Bool-cases (ltb best.size r.size)) [
    | inl more ↦ rw (is, more) (inr part, ground arith, omega (arith, room))
    | inr less ↦ rw (is, less) (inl refl, omega arith, ground (arith, room))
  ]
]

best_region-IsLargest :
    (es : List E820Entry) (best : Region)
    → ((i : ℕ) → i < length es → (get_or es i no_entry).base + (get_or es i no_entry).len < 2 ^ 64)
    → IsLargest es best (best_region es best)
unfolding best_region
best_region-IsLargest [] best h = record {
  one_of = inl refl;
  at_least = omega arith;
  covers = λ i q. absurd (omega arith);
}
best_region-IsLargest (e ∷ es) best h =
    let (source, more, room) = larger_lem e best (h 0 (omega arith)) in
    let rest =
      best_region-IsLargest es (larger best (usable_part e)) (λ i q. h (suc i) (omega arith)) in
    let found = best_region (e ∷ es) best in
    record {
      one_of = elim rest.one_of [
        | inl same ↦ elim source [
          | inl kept ↦ inl (same ∙ kept)
          | inr part ↦ inr (0, omega arith, subst (IsPart e) (sym same) part)
        ]
        | inr (i, q, part) ↦ inr (suc i, omega (arith, q), part)
      ];
      at_least = omega (arith, more, rest.at_least);
      covers = covers_of rest.at_least rest.covers room;
    }
  where
    covers_of :
        (larger best (usable_part e)).size ≤ (best_region (e ∷ es) best).size
        → ((i : ℕ)
            → i < length es
            → room_above (get_or es i no_entry) ≤ (best_region (e ∷ es) best).size)
        → room_above e ≤ (larger best (usable_part e)).size
        → (i : ℕ) → i < length (e ∷ es)
        → room_above (get_or (e ∷ es) i no_entry) ≤ (best_region (e ∷ es) best).size
    covers_of up rest room zero q = omega (arith, up, room)
    covers_of up rest room (suc i) q = rest i (omega (arith, q))

-- The heap and the secure region that `buddy_init_e820` lays out in the region `found`.
pub record IsPlacedIn (found heap : Region) (secure : SecureRegion) : Type 0 where
  pub heap_start : heap.start ≡ found.start
  pub behind : secure.secure_start ≡ heap.start + heap.size
  pub ends : secure.secure_start + secure.secure_size ≡ found.start + found.size
  pub sized : (secure.secure_size ≡ secure_region_size) × (secure_region_size < heap.size)
  pub unused : secure.secure_used ≡ 0

wrap_lem :
    (x : ℕ)
    → secure_region_size ≤ x
    → x < 2 ^ 64
    → (x + (2 ^ 64 - secure_region_size)) % 2 ^ 64 ≡ x - secure_region_size
wrap_lem x h k = grind arith

-- A region of at least 512 KB is not the empty one that the loop starts with.
chosen :
    (es : List E820Entry) {found : Region}
    → (found ≡ record { start = 0; size = 0 })
      ⊎ ((i : ℕ) × (i < length es) × IsPart (get_or es i no_entry) found)
    → ltb found.size 0x80000 ≡ false
    → (i : ℕ) × (i < length es) × IsPart (get_or es i no_entry) found
chosen es (inl same) enough = absurd (ground (arith, ap (λ (r : Region). r.size) same))
chosen es (inr part) enough = part

-- `buddy_init_e820` on a memory map whose entries end below 2^64: the heap and behind it the secure
-- region fill the part above the kernel of a usable entry with at least 512 KB there, and no usable
-- entry has more; or, if every entry has less than 512 KB there, they fill the megabyte behind the
-- kernel.
pub place_heap_lem :
    (es : List E820Entry) (secure : SecureRegion)
    → ((i : ℕ) → i < length es → (get_or es i no_entry).base + (get_or es i no_entry).len < 2 ^ 64)
    → let (heap, secure') = place_heap es secure in
      ((found : Region) × IsPlacedIn found heap secure'
        × (0x80000 ≤ found.size)
        × ((i : ℕ) × (i < length es) × IsPart (get_or es i no_entry) found)
        × ((i : ℕ) → i < length es → room_above (get_or es i no_entry) ≤ found.size))
      ⊎ (IsPlacedIn (record { start = 0x200000; size = 0x100000 }) heap secure'
          × ((i : ℕ) → i < length es → room_above (get_or es i no_entry) < 0x80000))
unfolding place_heap
place_heap_lem es secure h =
    let found = best_region es (record { start = 0; size = 0 }) in
    let big = best_region-IsLargest es (record { start = 0; size = 0 }) h in
    elim (Bool-cases (ltb found.size 0x80000)) [
      | inl small ↦ rw small (
          inr (
            record {
              heap_start = refl;
              behind = refl;
              ends = refl;
              sized = (refl, omega arith);
              unused = refl;
            },
            λ i q. ground (arith, big.covers i q),
          ))
      | inr enough ↦
          let (i, q, part) = chosen es big.one_of enough in
          let two : ltb (secure_region_size * 2) found.size ≡ true = ground arith in
          let wraps : (found.start + found.size + (2 ^ 64 - secure_region_size)) % 2 ^ 64
              ≡ found.start + found.size - secure_region_size =
            wrap_lem (found.start + found.size) (ground arith) (omega (arith, part.ends, h i q)) in
          rw (enough, two)
            (inl (
              found,
              record {
                heap_start = refl;
                behind = wraps ∙ ground arith;
                ends = rw wraps (ground arith);
                sized = (refl, ground arith);
                unused = refl;
              },
              ground arith,
              (i, q, part),
              big.covers,
            ))
    ]
