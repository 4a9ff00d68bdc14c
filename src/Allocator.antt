-- ===== src/Allocator.antt =====
-- What a client of kernel/buddy.c sees of it: the calls `buddy_alloc` and `buddy_free`, and which
-- addresses are handed out.
pub mod Counter
use ne_xs_operate_system.Base.{ℕ, ◌≡◌, Bool, false, not, ◌&&◌, ◌||◌, Option, none, some, ◌==◌}

pub record Allocator : Type 1 where
  pub Memory : Type 0
  -- `none` is NULL; an address is never 0.
  pub alloc : Memory → ℕ → Option ℕ × Memory
  pub free : Memory → ℕ → Memory

-- What the calls do to the set of the addresses that are handed out and not released.
pub record Laws (A : Allocator) : Type 0 where
  pub is_held : A.Memory → ℕ → Bool
  pub null_never : (m : A.Memory) → is_held m 0 ≡ false
  pub fresh : (m m' : A.Memory) (n a : ℕ) → A.alloc m n ≡ (some a, m') → is_held m a ≡ false
  pub gains :
      (m m' : A.Memory) (n a b : ℕ)
      → A.alloc m n ≡ (some a, m')
      → is_held m' b ≡ (b == a || is_held m b)
  pub keeps : (m m' : A.Memory) (n b : ℕ) → A.alloc m n ≡ (none, m') → is_held m' b ≡ is_held m b
  pub loses : (m : A.Memory) (a b : ℕ) → is_held (A.free m a) b ≡ (is_held m b && not (b == a))
