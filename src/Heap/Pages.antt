-- ===== src/Heap/Pages.antt =====
-- Aligned blocks of pages: the halves of a block.
use native.Mathlib.Nat.{
  zero-div, div-div-eq-div-mul, div-eq_of_lt, add-mul-div_right, div-add-mod', pow-suc,
  mul-mod_left, add-mod_right, mul-div_cancel, pow-le-pow_right, pow-zero, div-lt_iff_lt-mul,
}
use ne_xs_operate_system.Base.{
  true, ◌==◌, if◌then◌else◌, Bool-cases, ℕ, zero, suc, ◌+◌, ◌-◌, ◌*◌, ◌/◌, ◌%◌, ◌^◌, ◌≤◌, ◌<◌, ◌≡◌,
  ◌⊎◌, inl, inr, refl, sym, ap, ◌∙◌, arith,
}

pub pow_pos : (l : ℕ) → 0 < 2 ^ l
pow_pos l =
    let one = pow-zero 2 in
    let h : 2 ^ 0 ≤ 2 ^ l = pow-le-pow_right (omega arith) {i = 0} (omega arith) in omega arith

div-half : (l q : ℕ) → q / 2 ^ suc l ≡ q / 2 ^ l / 2
div-half l q = rw (pow-suc, div-div-eq-div-mul) refl

-- Pages of one half lie in one block.
pub same_block : (l q r : ℕ) → q / 2 ^ l ≡ r / 2 ^ l → q / 2 ^ suc l ≡ r / 2 ^ suc l
same_block l q r e = div-half l q ∙ ap (λ i. i / 2) e ∙ sym (div-half l r)

aligned : (s q : ℕ) → q % s ≡ 0 → q ≡ q / s * s
aligned s q e = omega (arith, div-add-mod' q s)

twice : (j s : ℕ) → (j + j) * s ≡ j * (s * 2)
twice j s = omega arith

twice_suc : (j s : ℕ) → (j + j + 1) * s ≡ j * (s * 2) + s
twice_suc j s = omega arith

-- The aligned pages of the halves are two.
pub halves :
    (l p q : ℕ)
    → p % 2 ^ suc l ≡ 0
    → q / 2 ^ suc l ≡ p / 2 ^ suc l
    → q % 2 ^ l ≡ 0
    → (q ≡ p) ⊎ (q ≡ p + 2 ^ l)
halves l p q a e b =
    let s = 2 ^ l in
    let i = q / s in
    let j = p / 2 ^ suc l in
    let double : 2 ^ suc l ≡ s * 2 = pow-suc 2 l in
    let whole : p ≡ j * (s * 2) = aligned (2 ^ suc l) p a ∙ ap (λ x. j * x) double in
    let half : i / 2 ≡ j = sym (div-half l q) ∙ e in
    let here : q ≡ i * s = aligned s q b in
    elim (parity i j half) [
      | inl even ↦ inl (here ∙ ap (λ x. x * s) even ∙ twice j s ∙ sym whole)
      | inr odd ↦ inr (here ∙ ap (λ x. x * s) odd ∙ twice_suc j s ∙ ap (λ x. x + s) (sym whole))
    ]
  where
    parity : (i j : ℕ) → i / 2 ≡ j → (i ≡ j + j) ⊎ (i ≡ j + j + 1)
    parity i j h = omega arith

-- A whole block starts both where its first half starts and half its size before its second.
pub first_half : (l p : ℕ) → p % 2 ^ suc l ≡ 0 → p % 2 ^ l ≡ 0
first_half l p a =
    let s = 2 ^ l in
    let j = p / 2 ^ suc l in
    let whole : p ≡ (j + j) * s =
      aligned (2 ^ suc l) p a ∙ ap (λ x. j * x) (pow-suc 2 l) ∙ sym (twice j s) in
    ap (λ x. x % s) whole ∙ mul-mod_left (j + j) s

pub second_half : (l p : ℕ) → p % 2 ^ suc l ≡ 0 → (p + 2 ^ l) % 2 ^ l ≡ 0
second_half l p a = add-mod_right p (2 ^ l) ∙ first_half l p a

pub second_inside : (l p : ℕ) → p % 2 ^ suc l ≡ 0 → (p + 2 ^ l) / 2 ^ suc l ≡ p / 2 ^ suc l
second_inside l p a =
    let s = 2 ^ l in
    let j = p / 2 ^ suc l in
    let whole : p ≡ (j + j) * s =
      aligned (2 ^ suc l) p a ∙ ap (λ x. j * x) (pow-suc 2 l) ∙ sym (twice j s) in
    let next : p + s ≡ (j + j + 1) * s = omega arith in
    let positive = pow_pos l in
    div-half l (p + s)
    ∙ ap (λ x. x / s / 2) next
    ∙ ap (λ x. x / 2) (mul-div_cancel (j + j + 1) positive)
    ∙ omega arith

-- Two whole blocks that share a page start at the same page.
pub same_start : (n p q : ℕ) → p % n ≡ 0 → q % n ≡ 0 → q / n ≡ p / n → q ≡ p
same_start n p q a b e = aligned n q b ∙ ap (λ x. x * n) e ∙ sym (aligned n p a)

pub pow_add : (a b : ℕ) → 2 ^ (a + b) ≡ 2 ^ a * 2 ^ b
pow_add zero b = rw pow-zero (let e : 0 + b ≡ b = omega arith in rw e (omega arith))
pow_add (suc a) b =
    let e : suc a + b ≡ suc (a + b) = omega arith in
    let ih = pow_add a b in
    let left = pow-suc 2 (a + b) in
    let right = pow-suc 2 a in
    ap (λ n. 2 ^ n) e
    ∙ left
    ∙ ap (λ x. x * 2) ih
    ∙ swap (2 ^ a) (2 ^ b)
    ∙ ap (λ x. x * 2 ^ b) (sym right)
  where
    swap : (x y : ℕ) → x * y * 2 ≡ x * 2 * y
    swap x y = omega arith

-- A block that has a page of the whole lies in it.
pub inside_bound : (k m p q : ℕ) → k ≤ m → p < 2 ^ m → q / 2 ^ k ≡ p / 2 ^ k → q < 2 ^ m
inside_bound k m p q h b e =
    let positive = pow_pos k in
    let split : 2 ^ m ≡ 2 ^ (m - k) * 2 ^ k = ap (λ n. 2 ^ n) (omega arith) ∙ pow_add (m - k) k in
    let index : p / 2 ^ k < 2 ^ (m - k) = (div-lt_iff_lt-mul positive).1 (omega arith) in
    let bound : q < 2 ^ (m - k) * 2 ^ k = (div-lt_iff_lt-mul positive).0 (omega arith) in
    omega arith

-- An aligned block that starts in an aligned whole ends in it.
pub whole_bound : (k m p : ℕ) → k ≤ m → p % 2 ^ k ≡ 0 → p < 2 ^ m → p + 2 ^ k ≤ 2 ^ m
whole_bound k m p h a b =
    let positive = pow_pos k in
    let s = 2 ^ k in
    let last = p + (s - 1) in
    let here : p ≡ p / s * s = aligned s p a in
    let form : last ≡ s - 1 + p / s * s = omega arith in
    let same : last / s ≡ p / s =
      ap (λ x. x / s) form
      ∙ add-mul-div_right (s - 1) (p / s) positive
      ∙ ap (λ x. x + p / s) (div-eq_of_lt (omega arith))
      ∙ omega arith in
    let bound = inside_bound k m p last h b same in omega arith

even_index : (l w : ℕ) → w % 2 ^ suc l ≡ 0 → w / 2 ^ l % 2 ≡ 0
even_index l w a =
    let s = 2 ^ l in
    let j = w / 2 ^ suc l in
    let whole : w ≡ (j + j) * s =
      aligned (2 ^ suc l) w a ∙ ap (λ x. j * x) (pow-suc 2 l) ∙ sym (twice j s) in
    let index : w / s ≡ j + j = ap (λ x. x / s) whole ∙ mul-div_cancel (j + j) (pow_pos l) in
    omega arith

-- A page of a block is in one of its halves.
pub page_halves :
    (l w q : ℕ)
    → w % 2 ^ suc l ≡ 0
    → q / 2 ^ suc l ≡ w / 2 ^ suc l
    → (q / 2 ^ l ≡ w / 2 ^ l) ⊎ (q / 2 ^ l ≡ (w + 2 ^ l) / 2 ^ l)
page_halves l w q a e =
    let even = even_index l w a in
    let same : q / 2 ^ l / 2 ≡ w / 2 ^ l / 2 = sym (div-half l q) ∙ e ∙ div-half l w in
    let one : (w + 1 * 2 ^ l) / 2 ^ l ≡ w / 2 ^ l + 1 = add-mul-div_right w 1 (pow_pos l) in
    let next : (w + 2 ^ l) / 2 ^ l ≡ w / 2 ^ l + 1 =
      ap (λ x. (w + x) / 2 ^ l) (omega arith) ∙ one in
    omega arith

-- The other half of the next larger block.
unfoldable pub buddy_page : ℕ → ℕ → ℕ
buddy_page l p = if p / 2 ^ l % 2 == 0 then p + 2 ^ l else p - 2 ^ l

-- Of a block and its buddy one is the first half of a whole, and the other the second.
pub record IsPair (l p b w : ℕ) : Type 0 where
  pub first : w % 2 ^ suc l ≡ 0
  pub either : ((p ≡ w) × (b ≡ w + 2 ^ l)) ⊎ ((p ≡ w + 2 ^ l) × (b ≡ w))

pub buddy_page-IsPair : (l p : ℕ) → p % 2 ^ l ≡ 0 → (w : ℕ) × IsPair l p (buddy_page l p) w
unfolding buddy_page
buddy_page-IsPair l p a =
    let s = 2 ^ l in
    let i = p / s in
    let here : p ≡ i * s = aligned s p a in
    let positive = pow_pos l in
    let double : 2 ^ suc l ≡ s * 2 = pow-suc 2 l in
    elim (Bool-cases (i % 2 == 0)) [
      | inl even ↦
          let two : i ≡ i / 2 + i / 2 = ground (arith, even) in
          let whole : p ≡ i / 2 * 2 ^ suc l =
            here ∙ ap (λ x. x * s) two ∙ twice (i / 2) s ∙ ap (λ x. i / 2 * x) (sym double) in
          (
            p,
            record {
              first = ap (λ x. x % 2 ^ suc l) whole ∙ mul-mod_left (i / 2) (2 ^ suc l);
              either = inl (refl, rw even refl);
            },
          )
      | inr odd ↦
          let two : i ≡ i / 2 + i / 2 + 1 = ground (arith, odd) in
          let whole : p ≡ i / 2 * 2 ^ suc l + s =
            here
            ∙ ap (λ x. x * s) two
            ∙ twice_suc (i / 2) s
            ∙ ap (λ x. i / 2 * x + s) (sym double) in
          let start : p - s ≡ i / 2 * 2 ^ suc l = omega arith in
          (
            p - s,
            record {
              first = ap (λ x. x % 2 ^ suc l) start ∙ mul-mod_left (i / 2) (2 ^ suc l);
              either = inr (omega arith, rw odd refl);
            },
          )
    ]

pub same_larger : (k m p q : ℕ) → k ≤ m → p / 2 ^ k ≡ q / 2 ^ k → p / 2 ^ m ≡ q / 2 ^ m
same_larger k zero p q h e =
    let z : k ≡ 0 = omega arith in ap (λ n. p / 2 ^ n) (sym z) ∙ e ∙ ap (λ n. q / 2 ^ n) z
same_larger k (suc m) p q h e = elim (Bool-cases (k == suc m)) [
  | inl here ↦
      let z : k ≡ suc m = ground (arith, here) in
      ap (λ n. p / 2 ^ n) (sym z) ∙ e ∙ ap (λ n. q / 2 ^ n) z
  | inr other ↦ same_block m p q (same_larger k m p q (ground (arith, other)) e)
]

pub start_smaller : (k m p : ℕ) → k ≤ m → p % 2 ^ m ≡ 0 → p % 2 ^ k ≡ 0
start_smaller k zero p h a = let z : k ≡ 0 = omega arith in ap (λ n. p % 2 ^ n) z ∙ a
start_smaller k (suc m) p h a = elim (Bool-cases (k == suc m)) [
  | inl here ↦ let z : k ≡ suc m = ground (arith, here) in ap (λ n. p % 2 ^ n) z ∙ a
  | inr other ↦ start_smaller k m p (ground (arith, other)) (first_half m p a)
]

-- The buddy of the first page is behind its block.
pub buddy_page_first : (l : ℕ) → buddy_page l 0 ≡ 2 ^ l
unfolding buddy_page
buddy_page_first l =
    let z : 0 / 2 ^ l ≡ 0 = zero-div (2 ^ l) in
    let even : (0 / 2 ^ l % 2 == 0) ≡ true = ground arith in rw even (omega arith)
