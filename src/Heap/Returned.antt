-- ===== src/Heap/Returned.antt =====
-- What clients of kernel/buddy.c hold after `buddy_free`.
use mathlib.Core.Path.{subst}
use ne_xs_operate_system.Base.{
  ℕ, ◌+◌, ◌^◌, ◌≡◌, ◌≢◌, inl, inr, refl, sym, ap, ◌∙◌, not, ◌&&◌, List, [], ◌∷◌, arith, ◌==◌,
  Bool-cases,
}
use ne_xs_operate_system.Buddy.{header_size}
use ne_xs_operate_system.Heap.{Heap, buddy_free}
use ne_xs_operate_system.Heap.Invariant.{page_at, IsCut}
use ne_xs_operate_system.Heap.Descend.{is_live}
use ne_xs_operate_system.Heap.Coalesce.{IsQuiet}
use ne_xs_operate_system.Heap.Free.{buddy_free_lem}
use ne_xs_operate_system.Heap.Requests.{
  first, later, Held, IsIn, released, IsBacked, AreDistinct, AreDistinct, IsSound,
}

pub IsBacked-free :
    (start p : ℕ) (h h' : Heap) (cut cut' : ℕ → ℕ) (x : Held)
    → ((j q : ℕ) → is_live h' 11 cut' j q ≡ (is_live h 11 cut j q && not (q == p)))
    → x.place ≢ page_at start p + header_size
    → IsBacked start h cut x
    → IsBacked start h' cut' x
IsBacked-free start p h h' cut cut' x f ne b = record {
  level = b.level;
  page = b.page;
  at_page = b.at_page;
  live =
      f b.level b.page
      ∙ (let e = b.live in
          let at' = b.at_page in
          let other : b.page ≢ p = λ d. ne (at' ∙ ap (λ q. page_at start q + header_size) d) in
          ground (arith, e, other));
  enough = b.enough;
}

pub IsQuiet-last : (h : Heap) → IsQuiet h 11
unfolding IsQuiet
IsQuiet-last h = inl refl

pub kept-IsIn :
    (ptr : ℕ) (y : Held) (ys : List Held) (x : Held)
    → y.place ≢ ptr
    → (IsIn x (released ptr ys) → (x.place ≢ ptr) × IsIn x ys)
    → IsIn x (y ∷ released ptr ys)
    → (x.place ≢ ptr) × IsIn x (y ∷ ys)
kept-IsIn ptr y ys x ne ih first = (ne, first)
kept-IsIn ptr y ys x ne ih (later r) = ((ih r).0, later (ih r).1)

pub released-IsIn :
    (ptr : ℕ) (live : List Held) (x : Held)
    → IsIn x (released ptr live)
    → (x.place ≢ ptr) × IsIn x live
unfolding released
released-IsIn ptr [] x q = elim q [ ]
released-IsIn ptr (y ∷ ys) x q = elim (Bool-cases (y.place == ptr)) [
  | inl gone ↦
      let q' : IsIn x (released ptr ys) = rw gone at q in
      let (ne, r) = released-IsIn ptr ys x q' in (ne, later r)
  | inr stays ↦
      let q' : IsIn x (y ∷ released ptr ys) = rw stays at q in
      kept-IsIn ptr y ys x (ground (arith, stays)) (released-IsIn ptr ys x) q'
]

pub released_distinct :
    (ptr : ℕ) (live : List Held) → AreDistinct live → AreDistinct (released ptr live)
unfolding released
released_distinct ptr [] d = d
released_distinct ptr (x ∷ xs) (ne, d) = elim (Bool-cases (x.place == ptr)) [
  | inl gone ↦ rw gone (released_distinct ptr xs d)
  | inr stays ↦ rw stays ((λ y q. ne y (released-IsIn ptr xs y q).1), released_distinct ptr xs d)
]

pub IsSound-free :
    (start : ℕ) (h : Heap) (live : List Held) (x : Held)
    → IsIn x live
    → IsSound start h live
    → IsSound start (buddy_free x.place h) (released x.place live)
IsSound-free start h live x q s =
    let b = s.backed x q in
    let quiet : IsQuiet h 11 = IsQuiet-last h in
    let place : x.place ≡ page_at h.heap_start b.page + header_size =
      b.at_page ∙ ap (λ a. page_at a b.page + header_size) (sym s.same_place) in
    let (cut', c, same, f) = buddy_free_lem h 11 s.cut b.level b.page s.keeps quiet b.live in
    let back = sym place in
    record {
      cut = cut';
      keeps = subst (λ ptr. IsCut (buddy_free ptr h) 11 cut' (2 ^ 11)) back c;
      same_place =
          subst (λ ptr. (buddy_free ptr h).heap_start ≡ h.heap_start) back same ∙ s.same_place;
      backed = λ y r.
          let (ne, r') = released-IsIn x.place live y r in
          IsBacked-free start b.page h (buddy_free x.place h) s.cut cut' y
            (subst
              (λ ptr.
                (j q : ℕ)
                → is_live (buddy_free ptr h) 11 cut' j q
                  ≡ (is_live h 11 s.cut j q && not (q == b.page)))
              back f)
            (λ d. ne (d ∙ sym b.at_page)) (s.backed y r');
      distinct = released_distinct x.place live s.distinct;
    }
