-- ===== src/Heap/Pair.antt =====
-- `get_buddy` of kernel/buddy.c is the other half of the next larger block.
use native.Mathlib.Nat.{mod-eq_of_lt, div-div-eq-div-mul}
use ne_xs_operate_system.Base.{
  ℕ, ◌+◌, ◌-◌, ◌*◌, ◌/◌, ◌%◌, ◌^◌, ◌<◌, ◌≡◌, inl, inr, sym, ap, ◌∙◌, bit_xor, arith, ◌==◌,
  Bool-cases,
}
use ne_xs_operate_system.Base.Flip.{bit_xor_flip}
use ne_xs_operate_system.Buddy.{level_to_size}
use ne_xs_operate_system.Heap.{Heap, get_buddy}
use ne_xs_operate_system.Heap.Pages.{pow_add, buddy_page}
use ne_xs_operate_system.Heap.Invariant.{page_at}

flip_page : (l p : ℕ) → p % 2 ^ l ≡ 0 → bit_xor (4096 * p) (level_to_size l) ≡ 4096 * buddy_page l p
unfolding buddy_page
flip_page l p a =
    let size : level_to_size l ≡ 2 ^ (12 + l) = sym (pow_add 12 l) in
    let index : 4096 * p / 2 ^ (12 + l) ≡ p / 2 ^ l =
      ap (λ x. 4096 * p / x) (pow_add 12 l)
      ∙ sym (div-div-eq-div-mul (4096 * p) 4096 (2 ^ l))
      ∙ ap (λ x. x / 2 ^ l) (omega arith) in
    let (up, down) = bit_xor_flip (12 + l) (4096 * p) in
    elim (Bool-cases (p / 2 ^ l % 2 == 0)) [
      | inl even ↦ rw even (
          ap (bit_xor (4096 * p)) size
          ∙ up (ap (λ x. x % 2) index ∙ ground (arith, even))
          ∙ omega arith)
      | inr odd ↦ rw odd (
          ap (bit_xor (4096 * p)) size
          ∙ down (ap (λ x. x % 2) index ∙ ground (arith, odd))
          ∙ omega arith)
    ]

pub get_buddy_lem :
    (h : Heap) (l p : ℕ)
    → p % 2 ^ l ≡ 0
    → page_at h.heap_start p < 2 ^ 64
    → page_at h.heap_start (buddy_page l p) < 2 ^ 64
    → get_buddy h (page_at h.heap_start p) l ≡ page_at h.heap_start (buddy_page l p)
unfolding get_buddy
get_buddy_lem h l p a b b' =
    let offset : (page_at h.heap_start p + (2 ^ 64 - h.heap_start)) % 2 ^ 64 ≡ 4096 * p =
      omega arith in
    rw (offset, flip_page l p a) (mod-eq_of_lt b')
