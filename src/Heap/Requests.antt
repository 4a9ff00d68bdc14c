-- ===== src/Heap/Requests.antt =====
-- Requests to kernel/buddy.c: what clients hold, and what is true of it.
use ne_xs_operate_system.Base.{
  ℕ, ◌+◌, ◌^◌, ◌≤◌, ◌≡◌, ◌≢◌, true, none, some, List, [], ◌∷◌, ◌==◌, if◌then◌else◌,
}
use ne_xs_operate_system.Buddy.{header_size, level_to_size}
use ne_xs_operate_system.Heap.{Header, Heap, buddy_init, buddy_alloc, buddy_free}
use ne_xs_operate_system.Heap.Invariant.{page_at, IsCut}
use ne_xs_operate_system.Heap.Descend.{is_live}

-- A pointer handed out, and how many bytes were asked for.
pub record Held : Type 0 where
  pub place : ℕ
  pub bytes : ℕ

pub data IsIn (x : Held) : List Held → Type 0 where
  first : {xs : List Held} → IsIn x (x ∷ xs)
  later : {y : Held} {xs : List Held} → IsIn x xs → IsIn x (y ∷ xs)

-- The pointers that are held after one is released.
unfoldable pub released : ℕ → List Held → List Held
released ptr [] = []
released ptr (x ∷ xs) = let rest = released ptr xs in if x.place == ptr then rest else x ∷ rest

-- The heaps that clients reach, with what they hold. A request is for at most the bytes of the
-- last level, less a header, and a release is of a pointer that is held.
pub data Reach (memory : ℕ → Header) (start size : ℕ) : Heap → List Held → Type 0 where
  init : Reach memory start size (buddy_init memory start size) []
  alloc :
      {h h' : Heap} {live : List Held} (n ptr : ℕ)
      → Reach memory start size h live
      → n ≢ 0
      → n + header_size ≤ level_to_size 11
      → buddy_alloc n h ≡ some (some ptr, h')
      → Reach memory start size h' (record { place = ptr; bytes = n } ∷ live)
  full :
      {h h' : Heap} {live : List Held} (n : ℕ)
      → Reach memory start size h live
      → n ≢ 0
      → n + header_size ≤ level_to_size 11
      → buddy_alloc n h ≡ some (none, h')
      → Reach memory start size h' live
  free :
      {h : Heap} {live : List Held} (x : Held)
      → Reach memory start size h live
      → IsIn x live
      → Reach memory start size (buddy_free x.place h) (released x.place live)

-- The block behind a pointer that is held.
pub record IsBacked (start : ℕ) (h : Heap) (cut : ℕ → ℕ) (x : Held) : Type 0 where
  pub level : ℕ
  pub page : ℕ
  pub at_page : x.place ≡ page_at start page + header_size
  pub live : is_live h 11 cut level page ≡ true
  pub enough : x.bytes + header_size ≤ level_to_size level

-- No two pointers that are held are the same.
abbrev pub AreDistinct : List Held → Type 0
AreDistinct [] = ◌≡◌ {A = List Held} [] []
AreDistinct (x ∷ xs) = ((y : Held) → IsIn y xs → y.place ≢ x.place) × AreDistinct xs

pub record IsSound (start : ℕ) (h : Heap) (live : List Held) : Type 0 where
  pub cut : ℕ → ℕ
  pub keeps : IsCut h 11 cut (2 ^ 11)
  pub same_place : h.heap_start ≡ start
  pub backed : (x : Held) → IsIn x live → IsBacked start h cut x
  pub distinct : AreDistinct live
