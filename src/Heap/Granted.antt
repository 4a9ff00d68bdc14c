-- ===== src/Heap/Granted.antt =====
-- What clients of kernel/buddy.c hold after `buddy_alloc`.
use mathlib.Core.Path.{subst}
use ne_xs_operate_system.Base.{
  ℕ, ◌+◌, ◌≤◌, ◌≡◌, ◌≢◌, inl, inr, refl, sym, ap, ◌∙◌, Bool, true, false, Option, none, some, List,
  ◌∷◌, arith,
}
use ne_xs_operate_system.Buddy.{header_size, level_to_size, size_to_level}
use ne_xs_operate_system.Buddy.Sizes.{size_to_level_lem}
use ne_xs_operate_system.Heap.{Heap, buddy_alloc}
use ne_xs_operate_system.Heap.Invariant.{page_at}
use ne_xs_operate_system.Heap.Descend.{is_live}
use ne_xs_operate_system.Heap.Alloc.{IsAllocated, buddy_alloc_lem}
use ne_xs_operate_system.Heap.Requests.{first, later, Held, IsIn, IsBacked, IsSound}

-- What was held stays backed when another block is handed out.
pub IsBacked-alloc :
    (start needed p : ℕ) (h h' : Heap) (cut cut' : ℕ → ℕ) (x : Held)
    → IsAllocated h h' 11 cut cut' needed p
    → IsBacked start h cut x
    → IsBacked start h' cut' x
IsBacked-alloc start needed p h h' cut cut' x a b = record {
  level = b.level;
  page = b.page;
  at_page = b.at_page;
  live = a.live b.level b.page ∙ (let e = b.live in ground (arith, e));
  enough = b.enough;
}

pub IsBacked-new :
    (start n p : ℕ) (h h' : Heap) (cut cut' : ℕ → ℕ)
    → n + header_size ≤ level_to_size 11
    → IsAllocated h h' 11 cut cut' (size_to_level n) p
    → IsBacked start h' cut' (record { place = page_at start p + header_size; bytes = n })
IsBacked-new start n p h h' cut cut' b a = record {
  level = size_to_level n;
  page = p;
  at_page = refl;
  live = a.live (size_to_level n) p ∙ ground arith;
  enough = elim (size_to_level_lem n (omega arith)).enough [
    | inl fits ↦ fits
    | inr last ↦ subst (λ k. n + header_size ≤ level_to_size k) (sym last) b
  ];
}

pub IsBacked-cons :
    (start : ℕ) (h : Heap) (cut : ℕ → ℕ) (y : Held) (ys : List Held) (x : Held)
    → IsBacked start h cut y
    → ((z : Held) → IsIn z ys → IsBacked start h cut z)
    → IsIn x (y ∷ ys)
    → IsBacked start h cut x
IsBacked-cons start h cut y ys x b all first = b
IsBacked-cons start h cut y ys x b all (later q) = all x q

-- A pointer that was held is not handed out again.
pub IsBacked-other :
    (start needed p : ℕ) (h h' : Heap) (cut cut' : ℕ → ℕ) (x : Held)
    → IsAllocated h h' 11 cut cut' needed p
    → IsBacked start h cut x
    → x.place ≢ page_at start p + header_size
IsBacked-other start needed p h h' cut cut' x a b d =
    let at' = b.at_page in
    let same : b.page ≡ p = omega arith in
    let was = ap (is_live h 11 cut b.level) (sym same) ∙ b.live in
    let not_live = a.not_live b.level in ground (arith, was, not_live)

pub IsSound-allocated :
    (start n p : ℕ) (h h' : Heap) (live : List Held) (cut' : ℕ → ℕ) (s : IsSound start h live)
    → n + header_size ≤ level_to_size 11
    → IsAllocated h h' 11 s.cut cut' (size_to_level n) p
    → IsSound start h' (record { place = page_at start p + header_size; bytes = n } ∷ live)
IsSound-allocated start n p h h' live cut' s b a = record {
  cut = cut';
  keeps = a.keeps;
  same_place = a.same_place ∙ s.same_place;
  backed = λ x q.
      IsBacked-cons start h' cut' _ live x (IsBacked-new start n p h h' s.cut cut' b a)
        (λ z r. IsBacked-alloc start (size_to_level n) p h h' s.cut cut' z a (s.backed z r)) q;
  distinct = (
    λ y q. IsBacked-other start (size_to_level n) p h h' s.cut cut' y a (s.backed y q),
    s.distinct,
  );
}

abbrev pub place_of : Option (Option ℕ × Heap) → ℕ
place_of none = 0
place_of (some (none, h)) = 0
place_of (some (some ptr, h)) = ptr

abbrev pub heap_of : Heap → Option (Option ℕ × Heap) → Heap
heap_of d none = d
heap_of d (some (r, h)) = h

abbrev pub is_given : Option (Option ℕ × Heap) → Bool
is_given none = false
is_given (some (none, h)) = false
is_given (some (some ptr, h)) = true

pub IsSound-alloc :
    (start n ptr : ℕ) (h h' : Heap) (live : List Held)
    → n ≢ 0
    → n + header_size ≤ level_to_size 11
    → buddy_alloc n h ≡ some (some ptr, h')
    → IsSound start h live
    → IsSound start h' (record { place = ptr; bytes = n } ∷ live)
IsSound-alloc start n ptr h h₁ live ne b e s =
    elim (buddy_alloc_lem n h 11 s.cut s.keeps ne (omega arith)) [
      | inl (none', q) ↦
          let given : false ≡ true = ap is_given (sym none' ∙ e) in absurd (ground (arith, given))
      | inr (p, h₁, cut', e', a) ↦
          let same = sym e' ∙ e in
          let place : page_at start p + header_size ≡ ptr =
            ap (λ x. page_at x p + header_size) (sym s.same_place) ∙ ap place_of same in
          subst (λ x. IsSound start x (record { place = ptr; bytes = n } ∷ live))
            (ap (heap_of h) same)
            (subst (λ x. IsSound start h₁ (record { place = x; bytes = n } ∷ live)) place
              (IsSound-allocated start n p h h₁ live cut' s b a))
    ]

pub IsSound-full :
    (start n : ℕ) (h h' : Heap) (live : List Held)
    → n ≢ 0
    → n + header_size ≤ level_to_size 11
    → buddy_alloc n h ≡ some (none, h')
    → IsSound start h live
    → IsSound start h' live
IsSound-full start n h h' live ne b e s =
    elim (buddy_alloc_lem n h 11 s.cut s.keeps ne (omega arith)) [
      | inl (none', q) ↦ subst (λ x. IsSound start x live) (ap (heap_of h) (sym none' ∙ e)) s
      | inr (p, h₁, cut', e', a) ↦
          let given : true ≡ false = ap is_given (sym e' ∙ e) in absurd (ground (arith, given))
    ]
