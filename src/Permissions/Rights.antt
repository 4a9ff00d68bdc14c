-- ===== src/Permissions/Rights.antt =====
-- What `perm_grant` and `perm_revoke` do to the answers of `perm_check`.
use ne_xs_operate_system.Base.{
  ℕ, ◌+◌, ◌%◌, ◌^◌, ◌<◌, ◌≡◌, ◌≢◌, ◌↔◌, ◌⊎◌, refl, sym, bit_and, bit_or, true, false, arith, length,
}
use ne_xs_operate_system.Base.Bits.{
  complement, bit_and-le_left, bit_and-or_self, bit_and-or_distrib, le-bit_or_left,
  bit_or-and_absorb, bit_and-clear_ne, disjoint_of_clear,
}
use ne_xs_operate_system.Permissions.{
  PermState, TaskPerms, entry, max_tasks, perm_perm_grant, perm_kernel_mode, granted, denied,
  perm_check, change, perm_grant, perm_revoke,
}
use ne_xs_operate_system.Permissions.Invariant.{IsSound, entry-put_self, entry-put_ne}

-- `perm_check` reads one entry.
pub perm_check_ext :
    (s s' : PermState) (i perm : ℕ)
    → entry s' i ≡ entry s i
    → perm_check s' i perm ≡ perm_check s i perm
unfolding perm_check
perm_check_ext s s' i perm e = rw e

abbrev changed : PermState → ℕ → ℕ → TaskPerms
changed s i caps =
    let e = entry s i in record e { capabilities = caps; granted_time = (s.timestamp + 1) % 2 ^ 64 }

entry-change_self :
    (s : PermState) (i caps : ℕ) → i < length s.table → entry (change s i caps) i ≡ changed s i caps
entry-change_self s i caps h =
    entry-put_self (record s { timestamp = (s.timestamp + 1) % 2 ^ 64 }) i (changed s i caps) h

entry-change_ne : (s : PermState) (i j caps : ℕ) → i ≢ j → entry (change s i caps) j ≡ entry s j
entry-change_ne s i j caps h =
    entry-put_ne (record s { timestamp = (s.timestamp + 1) % 2 ^ 64 }) i j (changed s i caps) h

-- Exactly when `perm_grant` answers 0: the granter passes the check for PERM_PERM_GRANT, and the
-- target is an active task of the table. On -1 nothing changes.
pub perm_grant-granted_iff :
    (s : PermState) (granter target perms : ℕ)
    → (((perm_grant s granter target perms).0 ≡ granted) ↔ (
        (perm_check s granter perm_perm_grant ≡ true)
        × (target < max_tasks)
        × ((entry s target).active ≡ true)))
      × ((perm_grant s granter target perms ≡ (denied, s))
          ⊎ ((perm_grant s granter target perms).0 ≡ granted))
unfolding perm_grant perm_check
perm_grant-granted_iff s granter target perms = ground arith

-- More capabilities pass every test that fewer pass.
and_mono :
    (c p q : ℕ)
    → c < 2 ^ 16
    → p < 2 ^ 16
    → q < 2 ^ 16
    → bit_and c q ≡ q
    → bit_and (bit_or c p) q ≡ q
and_mono c p q hc hp hq e =
    rw (bit_and-or_distrib 16 c p q hc hp hq, e) (bit_or-and_absorb 16 q p hq hp)

and_mono_ne_zero :
    (c p q : ℕ)
    → c < 2 ^ 16
    → p < 2 ^ 16
    → q < 2 ^ 16
    → bit_and c q ≢ 0
    → bit_and (bit_or c p) q ≢ 0
and_mono_ne_zero c p q hc hp hq n = rw (bit_and-or_distrib 16 c p q hc hp hq) (
    omega
      (arith, le-bit_or_left 16 (bit_and c q) (bit_and p q) (and-lt c q hc hq) (and-lt p q hp hq)))
  where
    and-lt : (a b : ℕ) → a < 2 ^ 16 → b < 2 ^ 16 → bit_and a b < 2 ^ 16
    and-lt a b ha hb = omega (arith, bit_and-le_left 16 a b ha hb)

abbrev with_grant : PermState → ℕ → ℕ → PermState
with_grant s target perms = change s target (bit_or (entry s target).capabilities perms)

grant_lands :
    (s : PermState) (granter target perms : ℕ)
    → (perm_grant s granter target perms).0 ≡ granted
    → ((perm_grant s granter target perms).1 ≡ with_grant s target perms)
      × (target < max_tasks)
      × ((entry s target).active ≡ true)
unfolding perm_grant
grant_lands s granter target perms e = ground arith

with_grant_self :
    (s : PermState) (target perms q : ℕ)
    → IsSound s
    → perms < 2 ^ 16
    → q < 2 ^ 16
    → target < max_tasks
    → (entry s target).active ≡ true
    → (perm_check (with_grant s target perms) target perms ≡ true)
      × (perm_check s target q ≡ true → perm_check (with_grant s target perms) target q ≡ true)
unfolding perm_check
with_grant_self s target perms q v h hq t a =
    let c = (entry s target).capabilities in
    rw (entry-change_self s target (bit_or c perms) (omega (arith, v.sized))) (
      ground (
        arith,
        v.words target,
        bit_and-or_self 16 c perms,
        and_mono c perms q,
        and_mono_ne_zero c perms perm_kernel_mode,
      ))

-- A grant of 16-bit rights in a sound table that answers 0: the target now passes the check for `perms`, a check that it passed
-- before it still passes, and the answers for every other task are the same.
perm_grant_effect :
    (s : PermState) (granter target perms q other : ℕ)
    → IsSound s
    → perms < 2 ^ 16
    → q < 2 ^ 16
    → other ≢ target
    → (perm_grant s granter target perms).0 ≡ granted
    → let s' = (perm_grant s granter target perms).1 in
      (perm_check s' target perms ≡ true)
      × ((perm_check s target q ≡ false) ⊎ (perm_check s' target q ≡ true))
      × (perm_check s' other q ≡ perm_check s other q)
perm_grant_effect s granter target perms q other v h hq n e =
    let (lands, t, a) = grant_lands s granter target perms e in
    let caps = bit_or (entry s target).capabilities perms in
    let (new, old) = with_grant_self s target perms q v h hq t a in
    rw lands (
      new,
      ground arith,
      perm_check_ext s _ other q (entry-change_ne s target other caps λ e. n (sym e)),
    )

abbrev with_revoke : PermState → ℕ → ℕ → PermState
with_revoke s target perms =
    change s target (bit_and (entry s target).capabilities (complement 16 perms))

revoke_lands :
    (s : PermState) (revoker target perms : ℕ)
    → (perm_revoke s revoker target perms).0 ≡ granted
    → ((perm_revoke s revoker target perms).1 ≡ with_revoke s target perms)
      × (target < max_tasks)
      × ((entry s target).active ≡ true)
unfolding perm_revoke
revoke_lands s revoker target perms e = ground arith

module _ (s : PermState) (target perms q : ℕ) (v : IsSound s) (h : perms < 2 ^ 16) (hq : q < 2 ^ 16)
    (t : target < max_tasks) where
  revoked_fails :
      bit_and q perms ≢ 0
      → bit_and (entry (with_revoke s target perms) target).capabilities perm_kernel_mode ≡ 0
      → perm_check (with_revoke s target perms) target q ≡ false
  unfolding perm_check
  revoked_fails n k = ground (
    arith,
    v.words target,
    entry-change_self s target (bit_and (entry s target).capabilities (complement 16 perms)),
    disjoint_of_clear 16 (entry s target).capabilities perms q,
  )

  kept_answers :
      bit_and perms q ≡ 0
      → bit_and perms perm_kernel_mode ≡ 0
      → perm_check (with_revoke s target perms) target q ≡ perm_check s target q
  unfolding perm_check
  kept_answers n k =
      let c = (entry s target).capabilities in
      rw (entry-change_self s target (bit_and c (complement 16 perms)) (omega (arith, v.sized))) (
        rw
          (
            bit_and-clear_ne 16 c perms q (v.words target) h hq n,
            bit_and-clear_ne 16 c perms perm_kernel_mode (v.words target) h (omega arith) k,
          )
          refl)

-- A revocation of 16-bit rights in a sound table that answers 0: unless the target is left with PERM_KERNEL_MODE, it fails every
-- check that asks for a revoked capability.
pub perm_revoke_effect :
    (s : PermState) (revoker target perms q : ℕ)
    → IsSound s
    → perms < 2 ^ 16
    → q < 2 ^ 16
    → (perm_revoke s revoker target perms).0 ≡ granted
    → bit_and q perms ≢ 0
    → bit_and (entry (perm_revoke s revoker target perms).1 target).capabilities perm_kernel_mode
      ≡ 0
    → perm_check (perm_revoke s revoker target perms).1 target q ≡ false
perm_revoke_effect s revoker target perms q v h hq e n k =
    let (lands, t, a) = revoke_lands s revoker target perms e in
    rw lands (revoked_fails s target perms q v h hq t n (rw lands at k))

-- A revocation of 16-bit rights in a sound table that answers 0 and does not revoke PERM_KERNEL_MODE: a check that asks for none of
-- `perms` answers as before, and so does every check of another task. Task 0 is never the target.
pub perm_revoke_frame :
    (s : PermState) (revoker target perms q r other : ℕ)
    → IsSound s
    → perms < 2 ^ 16
    → q < 2 ^ 16
    → (perm_revoke s revoker target perms).0 ≡ granted
    → bit_and perms q ≡ 0
    → bit_and perms perm_kernel_mode ≡ 0
    → other ≢ target
    → let s' = (perm_revoke s revoker target perms).1 in
      (perm_check s' target q ≡ perm_check s target q)
      × (perm_check s' other r ≡ perm_check s other r)
      × (target ≢ 0)
perm_revoke_frame s revoker target perms q r other v h hq e n k ne =
    let (lands, t, a) = revoke_lands s revoker target perms e in
    let caps = bit_and (entry s target).capabilities (complement 16 perms) in
    (
      rw lands (kept_answers s target perms q v h hq t n k),
      rw lands (perm_check_ext s _ other r (entry-change_ne s target other caps λ e. ne (sym e))),
      unfold perm_revoke in ground arith,
    )
