-- ===== src/Heap/Service.antt =====
-- kernel/buddy.c as the allocator of its clients: a heap that they reach, with what they hold.
use ne_xs_operate_system.Base.{
  ℕ, ◌+◌, ◌^◌, ◌≤◌, ◌≡◌, ◌≢◌, ◌⊎◌, inl, inr, refl, sym, ap, ◌∙◌, Bool, true, false, not, ◌&&◌, ◌||◌,
  Option, none, some, List, [], ◌∷◌, arith, leb, ◌==◌, Bool-cases, ==_iff,
}
use ne_xs_operate_system.Allocator.{Allocator, Laws}
use ne_xs_operate_system.Buddy.{header_size, level_to_size}
use ne_xs_operate_system.Heap.{Header, Heap, buddy_init, buddy_alloc, buddy_free}
use ne_xs_operate_system.Heap.Requests.{
  Held, IsIn, first, later, released, Reach, init, alloc, full, free,
}
use ne_xs_operate_system.Heap.Run.{Reach-apart}

-- Whether a pointer is held.
abbrev pub holds : ℕ → List Held → Bool
holds a [] = false
holds a (x ∷ xs) = a == x.place || holds a xs

-- The requests that the theorems on the heap are about.
abbrev pub can_ask : ℕ → Bool
can_ask n = not (n == 0) && leb (n + header_size) (level_to_size 11)

holds-released : (a b : ℕ) (xs : List Held) → holds b (released a xs) ≡ (holds b xs && not (b == a))
unfolding released
holds-released a b [] = refl
holds-released a b (x ∷ xs) = elim (Bool-cases (x.place == a)) [
  | inl same ↦ let rest = holds-released a b xs in rw (released, same) (rest ∙ ground (arith, same))
  | inr other ↦
      let rest = holds-released a b xs in
      rw (released, other) (ap (λ t. b == x.place || t) rest ∙ ground (arith, other))
]

holds-IsIn : (x : Held) (xs : List Held) → IsIn x xs → holds x.place xs ≡ true
holds-IsIn x _ (first {xs}) = rw ((==_iff x.place x.place).1 refl) refl
holds-IsIn x _ (later {y} {xs} q) = let rest = holds-IsIn x xs q in ground (arith, rest)

-- A pointer that is held, with its request, or the fact that it is not.
pub data Lookup (a : ℕ) (xs : List Held) : Type 0 where
  there : (x : Held) → IsIn x xs → x.place ≡ a → Lookup a xs
  nowhere : holds a xs ≡ false → Lookup a xs

abbrev pub lookup : (a : ℕ) (xs : List Held) → Lookup a xs
lookup a [] = nowhere refl
lookup a (x ∷ xs) = elim (Bool-cases (a == x.place)) [
  | inl same ↦ there x first (sym ((==_iff a x.place).0 same))
  | inr other ↦ elim (lookup a xs) [
    | there y q e ↦ there y (later q) e
    | nowhere e ↦ nowhere (ground (arith, other, e))
  ]
]

pub can_ask-bounds : (n : ℕ) → can_ask n ≡ true → (n ≢ 0) × (n + header_size ≤ level_to_size 11)
can_ask-bounds n e = (ground (arith, e), ground (arith, e))

module _ (memory : ℕ → Header) (start size : ℕ) where
  pub record Served : Type 0 where
    pub heap : Heap
    pub live : List Held
    pub reached : Reach memory start size heap live

  abbrev pub initial : Served
  initial = record { heap = buddy_init memory start size; live = []; reached = init }

  -- What `buddy_alloc` comes to.
  abbrev pub serve :
      (m : Served) (n : ℕ)
      → n ≢ 0
      → n + header_size ≤ level_to_size 11
      → (c : Option (Option ℕ × Heap)) → buddy_alloc n m.heap ≡ c
      → Option ℕ × Served
  serve m n ne k none e = (none, m)
  serve m n ne k (some (none, h)) e =
      (none, record { heap = h; live = m.live; reached = full n m.reached ne k e })
  serve m n ne k (some (some ptr, h)) e = (
    some ptr,
    record {
      heap = h;
      live = record { place = ptr; bytes = n } ∷ m.live;
      reached = alloc n ptr m.reached ne k e;
    },
  )

  abbrev pub ask :
      (m : Served) (n : ℕ) → (can_ask n ≡ true) ⊎ (can_ask n ≡ false) → Option ℕ × Served
  ask m n (inl can) =
      serve m n (can_ask-bounds n can).0 (can_ask-bounds n can).1 (buddy_alloc n m.heap) refl
  ask m n (inr cannot) = (none, m)

  abbrev pub give_back : (m : Served) (a : ℕ) → Lookup a m.live → Served
  give_back m a (there x q e) = record {
    heap = buddy_free x.place m.heap;
    live = released x.place m.live;
    reached = free x m.reached q;
  }
  give_back m a (nowhere e) = m

  -- `buddy_alloc` and `buddy_free` for clients that ask for what there can be and release only what
  -- they hold; other calls are not passed on.
  abbrev pub served : Allocator
  served = record {
    Memory = Served;
    alloc = λ m n. ask m n (Bool-cases (can_ask n));
    free = λ m a. give_back m a (lookup a m.live);
  }

abbrev place_or_0 : Option ℕ → ℕ
place_or_0 c = elim c [ none ↦ 0 | some a ↦ a ]

module _ (memory : ℕ → Header) (start size : ℕ) (big : level_to_size 11 ≤ size)
    (inside : start + size ≤ 2 ^ 64) where
  -- What a client holds, as a test.
  abbrev is_held : Served memory start size → ℕ → Bool
  is_held m a = holds a m.live

  -- The answer of a request with a block: it was not held before, and now it is as well.
  record Grants (m : Served memory start size) (a : ℕ) (m' : Served memory start size)
      : Type 0 where
    new : holds a m.live ≡ false
    more : (b : ℕ) → holds b m'.live ≡ (b == a || holds b m.live)

  not_held : (a : ℕ) (xs : List Held) → ((y : Held) → IsIn y xs → y.place ≢ a) → holds a xs ≡ false
  not_held a xs apart = elim (lookup a xs) [ there x q e ↦ absurd (apart x q e) | nowhere e ↦ e ]

  Grants-serve :
      (m m' : Served memory start size) (n a : ℕ) (ne : n ≢ 0)
      (k : n + header_size ≤ level_to_size 11)
      → (c : Option (Option ℕ × Heap)) → (e : buddy_alloc n m.heap ≡ c)
      → serve memory start size m n ne k c e ≡ (some a, m')
      → Grants m a m'
  Grants-serve m m' n a ne k none e f = absurd (ground (arith, ap (λ c. c.0) f))
  Grants-serve m m' n a ne k (some (none, h)) e f = absurd (ground (arith, ap (λ c. c.0) f))
  Grants-serve m m' n a ne k (some (some ptr, h)) e f =
      let place : ptr ≡ a = ap (λ c. place_or_0 c.0) f in
      let reached = alloc n ptr m.reached ne k e in
      let apart = (Reach-apart memory start size h _ big inside reached).0.0 in
      record {
        new = not_held a m.live (λ y q g. apart y q (g ∙ sym place));
        more = λ b. ap (λ c. holds b c.1.live) (sym f) ∙ ap (λ p. b == p || holds b m.live) place;
      }

  Grants-ask :
      (m m' : Served memory start size) (n a : ℕ) (c : (can_ask n ≡ true) ⊎ (can_ask n ≡ false))
      → ask memory start size m n c ≡ (some a, m')
      → Grants m a m'
  Grants-ask m m' n a (inl can) f =
      Grants-serve m m' n a (can_ask-bounds n can).0 (can_ask-bounds n can).1 (buddy_alloc n m.heap)
        refl f
  Grants-ask m m' n a (inr cannot) f = absurd (ground (arith, ap (λ c. c.0) f))

  serve-none :
      (m m' : Served memory start size) (n b : ℕ) (ne : n ≢ 0)
      (k : n + header_size ≤ level_to_size 11)
      → (c : Option (Option ℕ × Heap)) → (e : buddy_alloc n m.heap ≡ c)
      → serve memory start size m n ne k c e ≡ (none, m')
      → holds b m'.live ≡ holds b m.live
  serve-none m m' n b ne k none e f = ap (λ c. holds b c.1.live) (sym f)
  serve-none m m' n b ne k (some (none, h)) e f = ap (λ c. holds b c.1.live) (sym f)
  serve-none m m' n b ne k (some (some ptr, h)) e f = absurd (ground (arith, ap (λ c. c.0) f))

  ask-none :
      (m m' : Served memory start size) (n b : ℕ) (c : (can_ask n ≡ true) ⊎ (can_ask n ≡ false))
      → ask memory start size m n c ≡ (none, m')
      → holds b m'.live ≡ holds b m.live
  ask-none m m' n b (inl can) f =
      serve-none m m' n b (can_ask-bounds n can).0 (can_ask-bounds n can).1 (buddy_alloc n m.heap)
        refl f
  ask-none m m' n b (inr cannot) f = ap (λ c. holds b c.1.live) (sym f)

  holds-give_back :
      (m : Served memory start size) (a b : ℕ) (c : Lookup a m.live)
      → holds b (give_back memory start size m a c).live ≡ (holds b m.live && not (b == a))
  holds-give_back m a b (there x q e) =
      holds-released x.place b m.live ∙ ap (λ p. holds b m.live && not (b == p)) e
  holds-give_back m a b (nowhere e) = elim (Bool-cases (b == a)) [
    | inl same ↦
        let gone : holds b m.live ≡ false = ap (λ p. holds p m.live) ((==_iff b a).0 same) ∙ e in
        ground (arith, gone, same)
    | inr other ↦ ground (arith, other)
  ]

  holds_null : (m : Served memory start size) → holds 0 m.live ≡ false
  holds_null m =
      let (distinct, within, apart) =
        Reach-apart memory start size m.heap m.live big inside m.reached in
      not_held 0 m.live (λ y q e. let (low, high) = within y q in omega (arith, low, e))

  -- The heap of kernel/buddy.c behaves as its clients rely on.
  pub served_laws : Laws (served memory start size)
  served_laws = record {
    is_held = is_held;
    null_never = holds_null;
    fresh = λ m m' n a e. (Grants-ask m m' n a (Bool-cases (can_ask n)) e).new;
    gains = λ m m' n a b e. (Grants-ask m m' n a (Bool-cases (can_ask n)) e).more b;
    keeps = λ m m' n b e. ask-none m m' n b (Bool-cases (can_ask n)) e;
    loses = λ m a b. holds-give_back m a b (lookup a m.live);
  }
