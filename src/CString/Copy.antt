-- ===== src/CString/Copy.antt =====
-- `strlen`, `strcpy` and `strcat` of kernel/libc.c: what they leave in memory, with fuel for the
-- strings and their zeros.
use mathlib.Core.Path.{subst}
use ne_xs_operate_system.Base.{
  ℕ, zero, suc, ◌+◌, ◌-◌, ◌≤◌, ◌<◌, ◌≡◌, ◌⊎◌, inl, ap, ◌∙◌, false, some, List, [], ◌∷◌, ◌++◌, arith,
  ◌==◌, length,
}
use ne_xs_operate_system.Memory.{Mem, store_byte}
use ne_xs_operate_system.Memory.Copy.{copied, store_byte-copied, byte-copied}
use ne_xs_operate_system.CString.{strlen_from, strlen, strcpy, string_end, strcat, IsStringAt}

-- The same bytes somewhere else, or in another memory.
pub IsStringAt-ext :
    (m m' : Mem) (p p' : ℕ) (xs : List ℕ)
    → ((i : ℕ) → i < length xs + 1 → m' (p' + i) ≡ m (p + i))
    → IsStringAt m p xs
    → IsStringAt m' p' xs
IsStringAt-ext m m' p p' [] e s = ap m' (omega arith) ∙ e 0 (omega arith) ∙ ap m (omega arith) ∙ s
IsStringAt-ext m m' p p' (x ∷ xs) e (here, ne, rest) = (
  ap m' (omega arith) ∙ e 0 (omega arith) ∙ ap m (omega arith) ∙ here,
  ne,
  IsStringAt-ext m m' (p + 1) (p' + 1) xs
      (λ i h. ap m' (omega arith) ∙ e (suc i) (omega arith) ∙ ap m (omega arith)) rest,
)

IsStringAt-append :
    (m m' : Mem) (p : ℕ) (xs ys : List ℕ)
    → ((i : ℕ) → i < length xs → m' (p + i) ≡ m (p + i))
    → IsStringAt m p xs
    → IsStringAt m' (p + length xs) ys
    → IsStringAt m' p (xs ++ ys)
IsStringAt-append m m' p [] ys e s t = subst (λ q. IsStringAt m' q ys) (omega arith) t
IsStringAt-append m m' p (x ∷ xs) ys e (here, ne, rest) t = (
  ap m' (omega arith) ∙ e 0 (omega arith) ∙ ap m (omega arith) ∙ here,
  ne,
  IsStringAt-append m m' (p + 1) xs ys
      (λ i h. ap m' (omega arith) ∙ e (suc i) (omega arith) ∙ ap m (omega arith)) rest
      (subst (λ q. IsStringAt m' q ys) (omega arith) t),
)

strlen_from_lem :
    (fuel str len : ℕ) (m : Mem) (xs : List ℕ)
    → length xs < fuel
    → IsStringAt m (str + len) xs
    → strlen_from fuel m str len ≡ some (len + length xs)
unfolding strlen_from
strlen_from_lem zero str len m xs h s = absurd (omega arith)
strlen_from_lem (suc fuel) str len m [] h s = ground arith
strlen_from_lem (suc fuel) str len m (x ∷ xs) h (here, ne, rest) =
    let next : str + len + 1 ≡ str + (len + 1) = omega arith in
    let rest' = subst (λ q. IsStringAt m q xs) next rest in
    let more : (m (str + len) == 0) ≡ false = ground arith in
    rw more (strlen_from_lem fuel str (len + 1) m xs (omega arith) rest' ∙ ap some (omega arith))

string_end_lem :
    (fuel p : ℕ) (m : Mem) (xs : List ℕ)
    → length xs < fuel
    → IsStringAt m p xs
    → string_end fuel m p ≡ some (p + length xs)
unfolding string_end
string_end_lem zero p m xs h s = absurd (omega arith)
string_end_lem (suc fuel) p m [] h s = ground arith
string_end_lem (suc fuel) p m (x ∷ xs) h (here, ne, rest) =
    let more : (m p == 0) ≡ false = ground arith in
    rw more (string_end_lem fuel (p + 1) m xs (omega arith) rest ∙ ap some (omega arith))

pub strcpy_lem :
    (fuel d s : ℕ) (m : Mem) (xs : List ℕ)
    → length xs < fuel
    → IsStringAt m s xs
    → (d ≤ s) ⊎ (s + length xs + 1 ≤ d)
    → (m' : Mem) × (strcpy fuel m d s ≡ some m') × ((a : ℕ) → m' a ≡ copied m d s (length xs + 1) a)
unfolding strcpy
strcpy_lem zero d s m xs h t o = absurd (omega arith)
strcpy_lem (suc fuel) d s m [] h t o = (
  store_byte m d (m s),
  ground arith,
  λ a. store_byte-copied m d s a ∙ ap (λ n. copied m d s n a) (omega arith),
)
strcpy_lem (suc fuel) d s m (x ∷ xs) h (here, ne, rest) o =
    let m' = store_byte m d (m s) in
    let more : (m s == 0) ≡ false = ground arith in
    let rest' = IsStringAt-ext m m' (s + 1) (s + 1) xs (λ i q. ground arith) rest in
    let (m'', e, c) = strcpy_lem fuel (d + 1) (s + 1) m' xs (omega arith) rest' (omega arith) in
    rw more (
      m'',
      e,
      λ a.
          c a
          ∙ byte-copied m d s (length xs + 1) a (omega arith)
          ∙ ap (λ n. copied m d s n a) (omega arith),
    )

copied_at : (m : Mem) (d s n i : ℕ) → i < n → copied m d s n (d + i) ≡ m (s + i)
unfolding copied
copied_at m d s n i h =
    let e : m (s + (d + i - d)) ≡ m (s + i) = ap m (omega arith) in ground (arith, e)

copied_else : (m : Mem) (d s n a : ℕ) → (a < d) ⊎ (d + n ≤ a) → copied m d s n a ≡ m a
unfolding copied
copied_else m d s n a h = ground arith

-- `strlen` of a string is its length, for any fuel above it.
pub strlen_lem :
    (fuel str : ℕ) (m : Mem) (xs : List ℕ)
    → length xs < fuel
    → IsStringAt m str xs
    → strlen fuel m str ≡ some (length xs)
unfolding strlen
strlen_lem fuel str m xs h s =
    let e : str ≡ str + 0 = omega arith in
    strlen_from_lem fuel str 0 m xs h (subst (λ q. IsStringAt m q xs) e s) ∙ ap some (omega arith)

-- `strcat` of two strings, the second away from the first and from where it goes, with fuel for
-- each with its zero: it ends, the two stand one after the other at the destination, and no byte
-- changes but those from the end of the first on.
strcat_lem :
    (fuel d s : ℕ) (m : Mem) (xs ys : List ℕ)
    → length xs < fuel
    → length ys < fuel
    → IsStringAt m d xs
    → IsStringAt m s ys
    → (d + length xs ≤ s) ⊎ (s + length ys + 1 ≤ d + length xs)
    → (m' : Mem) × (strcat fuel m d s ≡ some m')
      × IsStringAt m' d (xs ++ ys)
      × ((a : ℕ) → (a < d + length xs) ⊎ (d + length xs + length ys + 1 ≤ a) → m' a ≡ m a)
unfolding strcat
strcat_lem fuel d s m xs ys h k t u o =
    let end = d + length xs in
    let (m', e, c) = strcpy_lem fuel end s m ys k u o in
    rw (strcat, string_end_lem fuel d m xs h t)
      (
        m',
        e,
        IsStringAt-append m m' d xs ys
            (λ i q. c (d + i) ∙ copied_else m end s (length ys + 1) (d + i) (inl (omega arith))) t
            (IsStringAt-ext m m' s end ys
              (λ i q. c (end + i) ∙ copied_at m end s (length ys + 1) i q) u),
        λ a q. c a ∙ copied_else m end s (length ys + 1) a (omega arith),
      )
