-- ===== src/Numbers/Reverse.antt =====
-- The loop of `itoa` and `uitoa` that reverses the bytes written.
use native.Mathlib.Decide.{ℕ_discrete, dec_lt}
use ne_xs_operate_system.Base.{
  ℕ, zero, suc, ◌+◌, ◌-◌, ◌≤◌, ◌<◌, ◌≡◌, ◌≢◌, ◌⊎◌, inl, inr, refl, sym, ap, ◌∙◌, true, false, ◌&&◌,
  some, arith, ltb, leb, ltb→lt, if◌then◌else◌, Bool-cases,
}
use ne_xs_operate_system.Memory.{Mem}
use ne_xs_operate_system.Numbers.{swap_bytes, reverse_loop}

-- The bytes from `lo` to `hi` the other way round.
unfoldable pub reversed : Mem → ℕ → ℕ → Mem
reversed m lo hi a = if leb lo a && leb a hi then m (lo + hi - a) else m a

pub reversed_in :
    (m : Mem) (lo hi a b : ℕ) → lo ≤ a → a ≤ hi → lo + hi ≡ a + b → reversed m lo hi a ≡ m b
unfolding reversed
reversed_in m lo hi a b h k e =
    let inside : (leb lo a && leb a hi) ≡ true = ground arith in rw inside (ap m (omega arith))

pub reversed_out : (m : Mem) (lo hi a : ℕ) → (a < lo) ⊎ (hi < a) → reversed m lo hi a ≡ m a
unfolding reversed
reversed_out m lo hi a h =
    let outside : (leb lo a && leb a hi) ≡ false = ground arith in rw outside refl

swap_lo : (m : Mem) (lo hi : ℕ) → swap_bytes m lo hi lo ≡ m hi
unfolding swap_bytes
swap_lo m lo hi = ground arith

swap_hi : (m : Mem) (lo hi : ℕ) → lo < hi → swap_bytes m lo hi hi ≡ m lo
unfolding swap_bytes
swap_hi m lo hi h = ground arith

swap_else : (m : Mem) (lo hi a : ℕ) → a ≢ lo → a ≢ hi → swap_bytes m lo hi a ≡ m a
unfolding swap_bytes
swap_else m lo hi a h k = ground arith

-- The swap of the ends, and the reversal of what lies between them.
reversed_swap :
    (m : Mem) (lo hi a : ℕ)
    → lo < hi
    → reversed (swap_bytes m lo hi) (lo + 1) (hi - 1) a ≡ reversed m lo hi a
reversed_swap m lo hi a h = elim (dec_lt a lo) [
  | yes below ↦
      reversed_out (swap_bytes m lo hi) (lo + 1) (hi - 1) a (omega arith)
      ∙ swap_else m lo hi a (omega arith) (omega arith)
      ∙ sym (reversed_out m lo hi a (omega arith))
  | no not_below ↦ elim (dec_lt hi a) [
    | yes above ↦
        reversed_out (swap_bytes m lo hi) (lo + 1) (hi - 1) a (omega arith)
        ∙ swap_else m lo hi a (omega arith) (omega arith)
        ∙ sym (reversed_out m lo hi a (omega arith))
    | no not_above ↦ elim (ℕ_discrete a lo) [
      | yes first ↦
          reversed_out (swap_bytes m lo hi) (lo + 1) (hi - 1) a (omega arith)
          ∙ ap (swap_bytes m lo hi) first
          ∙ swap_lo m lo hi
          ∙ sym (reversed_in m lo hi a hi (omega arith) (omega arith) (omega arith))
      | no not_first ↦ elim (ℕ_discrete a hi) [
        | yes last ↦
            reversed_out (swap_bytes m lo hi) (lo + 1) (hi - 1) a (omega arith)
            ∙ ap (swap_bytes m lo hi) last
            ∙ swap_hi m lo hi h
            ∙ sym (reversed_in m lo hi a lo (omega arith) (omega arith) (omega arith))
        | no inner ↦
            let b = lo + hi - a in
            reversed_in (swap_bytes m lo hi) (lo + 1) (hi - 1) a b (omega arith) (omega arith)
              (omega arith)
            ∙ swap_else m lo hi b (omega arith) (omega arith)
            ∙ sym (reversed_in m lo hi a b (omega arith) (omega arith) (omega arith))
      ]
    ]
  ]
]

reversed_same : (m : Mem) (lo hi a : ℕ) → hi ≤ lo → m a ≡ reversed m lo hi a
reversed_same m lo hi a h = elim (dec_lt a lo) [
  | yes below ↦ sym (reversed_out m lo hi a (inl below))
  | no not_below ↦ elim (dec_lt hi a) [
    | yes above ↦ sym (reversed_out m lo hi a (inr above))
    | no here ↦ sym (reversed_in m lo hi a a (omega arith) (omega arith) (omega arith))
  ]
]

pub reverse_loop_lem :
    (fuel lo hi : ℕ) (m : Mem)
    → hi - lo < fuel
    → (m' : Mem) × (reverse_loop fuel lo hi m ≡ some m') × ((a : ℕ) → m' a ≡ reversed m lo hi a)
unfolding reverse_loop
reverse_loop_lem zero lo hi m h = absurd (omega arith)
reverse_loop_lem (suc fuel) lo hi m h = elim (Bool-cases (ltb lo hi)) [
  | inr met ↦ rw met (m, refl, λ a. reversed_same m lo hi a (ground arith))
  | inl apart ↦
      let less : lo < hi = ltb→lt lo hi apart in
      let (m', e, c) = reverse_loop_lem fuel (lo + 1) (hi - 1) (swap_bytes m lo hi) (omega arith) in
      rw apart (m', e, λ a. c a ∙ reversed_swap m lo hi a less)
]
