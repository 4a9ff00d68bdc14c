-- ===== src/Heap/Run.antt =====
-- Requests to kernel/buddy.c by clients that release only what they hold: blocks never overlap.
use mathlib.Core.Path.{subst}
use native.Mathlib.Nat.{add-mul-div_right, div-eq_of_lt, div-add-mod', pow-le-pow_right}
use ne_xs_operate_system.Base.{
  ℕ, ◌+◌, ◌-◌, ◌*◌, ◌/◌, ◌%◌, ◌^◌, ◌≤◌, ◌<◌, ◌≡◌, ◌≢◌, ◌⊎◌, inl, inr, refl, sym, ap, ◌∙◌, List, [],
  arith, ltb, Bool-cases,
}
use ne_xs_operate_system.Buddy.{header_size, level_to_size, initial_level}
use ne_xs_operate_system.Buddy.Sizes.{initial_level_lem}
use ne_xs_operate_system.Heap.{Header, Heap, buddy_init}
use ne_xs_operate_system.Heap.Pages.{pow_pos, whole_bound}
use ne_xs_operate_system.Heap.Invariant.{page_at, IsCut, buddy_init-IsCut}
use ne_xs_operate_system.Heap.Overlap.{live_apart, live_cut, live_starts}
use ne_xs_operate_system.Heap.Requests.{
  init, alloc, full, free, Held, IsIn, Reach, IsBacked, AreDistinct, AreDistinct, IsSound,
}
use ne_xs_operate_system.Heap.Granted.{IsSound-alloc, IsSound-full}
use ne_xs_operate_system.Heap.Returned.{IsSound-free}

last_level : (size : ℕ) → level_to_size 11 ≤ size → initial_level size ≡ 11
last_level size h =
    let f = initial_level_lem size (omega arith) in
    let range = f.in_range in
    elim f.largest [
      | inl last ↦ last
      | inr small ↦ elim (Bool-cases (ltb (initial_level size) 11)) [
        | inr high ↦ ground arith
        | inl low ↦
            let up : 2 ^ (initial_level size + 1) ≤ 2 ^ 11 =
              pow-le-pow_right (omega arith) {j = 11} (ground (arith, low)) in
            absurd (omega arith)
      ]
    ]

init_place :
    (memory : ℕ → Header) (start size : ℕ) → (buddy_init memory start size).heap_start ≡ start
unfolding buddy_init
init_place memory start size = refl

IsSound-init :
    (memory : ℕ → Header) (start size : ℕ)
    → level_to_size 11 ≤ size
    → start + size ≤ 2 ^ 64
    → IsSound start (buddy_init memory start size) []
IsSound-init memory start size h b =
    let h₀ = buddy_init memory start size in
    let c = buddy_init-IsCut memory start size (omega arith) b in
    let last = last_level size h in
    record {
      cut = λ p. 11;
      keeps = subst (λ n. IsCut h₀ n (λ p. n) (2 ^ n)) last c;
      same_place = init_place memory start size;
      backed = λ x q. elim q [ ];
      distinct = refl;
    }

Reach-IsSound :
    (memory : ℕ → Header) (start size : ℕ) (h : Heap) (live : List Held)
    → level_to_size 11 ≤ size
    → start + size ≤ 2 ^ 64
    → Reach memory start size h live
    → IsSound start h live
Reach-IsSound memory start size h live b c init = IsSound-init memory start size b c
Reach-IsSound memory start size _ _ b c (alloc {h} {h' = h₁} {live} n ptr r ne k e) =
    IsSound-alloc start n ptr h h₁ live ne k e (Reach-IsSound memory start size h live b c r)
Reach-IsSound memory start size _ _ b c (full {h} {h' = h₁} {live} n r ne k e) =
    IsSound-full start n h h₁ live ne k e (Reach-IsSound memory start size h live b c r)
Reach-IsSound memory start size _ _ b c (free {h} {live} x r q) =
    IsSound-free start h live x q (Reach-IsSound memory start size h live b c r)

-- A page within an aligned block has the block's index.
block_index : (l p q : ℕ) → p % 2 ^ l ≡ 0 → p ≤ q → q < p + 2 ^ l → q / 2 ^ l ≡ p / 2 ^ l
block_index l p q a h b =
    let s = 2 ^ l in
    let here : p ≡ p / s * s = omega (arith, div-add-mod' p s) in
    let form : q ≡ q - p + p / s * s = omega arith in
    ap (λ x. x / s) form
    ∙ add-mul-div_right (q - p) (p / s) (pow_pos l)
    ∙ ap (λ x. x + p / s) (div-eq_of_lt (omega arith))
    ∙ omega arith

IsBacked-apart :
    (start : ℕ) (h : Heap) (cut : ℕ → ℕ) (x y : Held)
    → IsCut h 11 cut (2 ^ 11)
    → (b : IsBacked start h cut x) → (d : IsBacked start h cut y) → b.page < d.page
    → x.place + x.bytes ≤ y.place
IsBacked-apart start h cut x y c b d less =
    let (starts, bound) = live_starts h 11 cut b.level b.page b.live in
    let at_x = b.at_page in
    let at_y = d.at_page in
    let fits = b.enough in
    elim (Bool-cases (ltb d.page (b.page + 2 ^ b.level))) [
      | inr behind ↦ let far : b.page + 2 ^ b.level ≤ d.page = ground (arith, behind) in omega arith
      | inl shared ↦
          let index =
            block_index b.level b.page d.page starts (omega arith) (ground (arith, shared)) in
          let same =
            (live_apart h 11 cut b.level d.level b.page d.page c b.live d.live).0 d.page index
              refl in
          absurd (let e = same.1 in omega arith)
    ]

IsBacked-within :
    (start size : ℕ) (h : Heap) (cut : ℕ → ℕ) (x : Held)
    → level_to_size 11 ≤ size
    → IsCut h 11 cut (2 ^ 11)
    → IsBacked start h cut x
    → (start < x.place) × (x.place + x.bytes ≤ start + size)
IsBacked-within start size h cut x big c b =
    let (starts, bound) = live_starts h 11 cut b.level b.page b.live in
    let level = live_cut h 11 cut b.level b.page b.page c b.live refl in
    let low = c.level_bound b.page in
    let inside = whole_bound b.level 11 b.page (omega arith) starts bound in
    let at_x = b.at_page in let fits = b.enough in (omega arith, omega arith)

-- A heap of at least the last level's 8 MB that lies in memory, and clients that make requests of
-- at most 8 MB less a header and release only what they hold, in any order: the pointers held are
-- all different, the bytes asked for lie in the heap, and those of different pointers do not
-- overlap.
pub Reach-apart :
    (memory : ℕ → Header) (start size : ℕ) (h : Heap) (live : List Held)
    → level_to_size 11 ≤ size
    → start + size ≤ 2 ^ 64
    → Reach memory start size h live
    → AreDistinct live
      × ((x : Held) → IsIn x live → (start < x.place) × (x.place + x.bytes ≤ start + size))
      × ((x y : Held)
          → IsIn x live
          → IsIn y live
          → x.place ≢ y.place
          → (x.place + x.bytes ≤ y.place) ⊎ (y.place + y.bytes ≤ x.place))
Reach-apart memory start size h live big b r =
    let s = Reach-IsSound memory start size h live big b r in
    (
      s.distinct,
      λ x q. IsBacked-within start size h s.cut x big s.keeps (s.backed x q),
      λ x y q t ne.
          let b₁ = s.backed x q in
          let b₂ = s.backed y t in
          let at_x = b₁.at_page in
          let at_y = b₂.at_page in
          elim (Bool-cases (ltb b₁.page b₂.page)) [
            | inl less ↦ inl (IsBacked-apart start h s.cut x y s.keeps b₁ b₂ (ground (arith, less)))
            | inr more ↦
                let other : b₁.page ≢ b₂.page =
                  λ e. ne (at_x ∙ ap (λ p. page_at start p + header_size) e ∙ sym at_y) in
                inr (IsBacked-apart start h s.cut y x s.keeps b₂ b₁ (ground (arith, more, other)))
          ],
    )
