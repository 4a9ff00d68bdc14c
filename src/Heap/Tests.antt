-- ===== src/Heap/Tests.antt =====
-- Runs of `buddy_alloc` and `buddy_free`, and their theorems on a heap of two pages.
use ne_xs_operate_system.Base.{
  ℕ, ◌<◌, ◌≢◌, ◌⊎◌, ◌+◌, ◌^◌, ◌≤◌, ◌≡◌, inl, inr, refl, true, false, not, ◌&&◌, Option, none, some,
  List, [], ◌∷◌, arith, ◌==◌,
}
use ne_xs_operate_system.Buddy.{header_size, size_to_level, grow_to, initial_level, grow_within}
use ne_xs_operate_system.Heap.{
  Header, Heap, buddy_init, buddy_alloc, find_level, split_to, split_block, take_block, buddy_free,
  coalesce, get_buddy, unlink,
}
use ne_xs_operate_system.Heap.Invariant.{
  page_at, free_at, is_block, is_listed, IsCut, buddy_init-IsCut,
}
use ne_xs_operate_system.Heap.Recut.{recut, after_split}
use ne_xs_operate_system.Heap.Split.{split_block-IsCut}
use ne_xs_operate_system.Heap.Descend.{is_live}
use ne_xs_operate_system.Heap.Take.{after_take, take_block-IsCut}
use ne_xs_operate_system.Heap.Alloc.{IsAllocated, buddy_alloc_lem}
use ne_xs_operate_system.Heap.Requests.{Held, IsIn, Reach, init, alloc, AreDistinct}
use ne_xs_operate_system.Heap.Run.{Reach-apart}
use ne_xs_operate_system.Heap.Coalesce.{IsQuiet}
use ne_xs_operate_system.Heap.Free.{buddy_free_lem}

abbrev zeros : ℕ → Header
zeros a = record { level = 0; is_free = false; magic = 0 }

-- Two pages, one block.
abbrev two_pages : Heap
two_pages = buddy_init zeros 0x200000 0x2000

abbrev one_block : ℕ → ℕ
one_block p = 1

-- The block split, and its first half handed out.
abbrev split_pages : Heap
split_pages = after_split two_pages [] 0 0

abbrev two_blocks : ℕ → ℕ
two_blocks = recut one_block 1 0 0

abbrev half_used : Heap
half_used = after_take split_pages 0 0 (0x201000 ∷ [])

two_pages-IsCut : IsCut two_pages 1 one_block 2
unfolding initial_level grow_within
two_pages-IsCut = buddy_init-IsCut zeros 0x200000 0x2000 (ground arith) (ground arith)

half_used-IsCut : IsCut half_used 1 two_blocks 2
unfolding buddy_init initial_level grow_within split_block free_at
half_used-IsCut =
    take_block-IsCut split_pages 1 two_blocks 0 0 (0x201000 ∷ [])
      (split_block-IsCut two_pages 1 one_block 2 0 0 [] two_pages-IsCut
        (record {
          in_heap = ground arith;
          whole = refl;
          starts = refl;
          free = refl;
          other = ground arith;
        })
        (ground arith) refl)
      (record {
        in_heap = ground arith;
        whole = refl;
        starts = refl;
        free = refl;
        other = ground arith;
      })
      refl

half_used-IsQuiet : IsQuiet half_used 1
unfolding IsQuiet buddy_init initial_level grow_within split_block
half_used-IsQuiet = inr (ground arith, inl refl)

half_used-live : is_live half_used 1 two_blocks 0 0 ≡ true
unfolding is_live is_block free_at buddy_init initial_level grow_within split_block
half_used-live = refl

-- The request splits the block, and its release merges the halves again.
abbrev after_both : Option (Option ℕ × Heap) → List ℕ × List ℕ
after_both none = ([], [])
after_both (some (place, h)) = let h' = buddy_free 0x200018 h in (h.free_lists 0, h'.free_lists 1)

alloc_free_run : after_both (buddy_alloc 100 two_pages) ≡ (0x201000 ∷ [], 0x200000 ∷ [])
unfolding buddy_alloc size_to_level grow_to find_level split_to split_block take_block buddy_free
    coalesce get_buddy unlink buddy_init initial_level grow_within
alloc_free_run = refl

buddy_alloc_lem_example :
    ((buddy_alloc 100 half_used ≡ some (none, half_used))
      × ((k p : ℕ) → size_to_level 100 ≤ k → is_listed half_used 1 two_blocks (2 ^ 1) k p ≡ false))
    ⊎ ((p : ℕ) × (h' : Heap) × (cut' : ℕ → ℕ) × (buddy_alloc 100 half_used
          ≡ some (some (page_at half_used.heap_start p + header_size), h'))
        × IsAllocated half_used h' 1 two_blocks cut' (size_to_level 100) p)
buddy_alloc_lem_example =
    buddy_alloc_lem 100 half_used 1 two_blocks half_used-IsCut (ground arith) (ground arith)

buddy_free_lem_example :
    let h' = buddy_free (page_at half_used.heap_start 0 + header_size) half_used in
    (cut' : ℕ → ℕ) × IsCut h' 1 cut' (2 ^ 1)
    × (h'.heap_start ≡ half_used.heap_start)
    × ((j q : ℕ) → is_live h' 1 cut' j q ≡ (is_live half_used 1 two_blocks j q && not (q == 0)))
buddy_free_lem_example =
    buddy_free_lem half_used 1 two_blocks 0 0 half_used-IsCut half_used-IsQuiet half_used-live

-- A heap of 8 MB, and its state after one request.
abbrev large : Heap
large = buddy_init zeros 0x200000 0x800000

abbrev state_of : Option (Option ℕ × Heap) → Heap
state_of none = large
state_of (some (place, h)) = h

abbrev requested : Heap
requested = state_of (buddy_alloc 100 large)

abbrev one_held : List Held
one_held = record { place = 0x200018; bytes = 100 } ∷ []

requested-Reach : Reach zeros 0x200000 0x800000 requested one_held
unfolding buddy_alloc size_to_level grow_to find_level split_to split_block take_block buddy_init
    initial_level grow_within
requested-Reach = alloc 100 0x200018 init (ground arith) (ground arith) refl

Reach-apart_example :
    AreDistinct one_held
    × ((x : Held)
        → IsIn x one_held
        → (0x200000 < x.place) × (x.place + x.bytes ≤ 0x200000 + 0x800000))
    × ((x y : Held)
        → IsIn x one_held
        → IsIn y one_held
        → x.place ≢ y.place
        → (x.place + x.bytes ≤ y.place) ⊎ (y.place + y.bytes ≤ x.place))
Reach-apart_example =
    Reach-apart zeros 0x200000 0x800000 requested one_held (ground arith) (ground arith)
      requested-Reach
