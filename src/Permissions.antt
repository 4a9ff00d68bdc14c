-- ===== src/Permissions.antt =====
-- kernel/permissions.c and kernel/permissions.h: the table of capabilities, one entry for each
-- task. The static variables are the record `PermState`, which each function takes and returns.
pub mod Invariant
pub mod Rights
pub mod Creation
pub mod Names
pub mod Tests
use ne_xs_operate_system.Base.{
  ℕ, zero, suc, ◌+◌, ◌%◌, ◌^◌, ◌≤◌, ◌<◌, ◌≡◌, bit_and, bit_or, Bool, true, false, not, ◌||◌, List,
  [], ◌∷◌, leb, ◌==◌, if◌then◌else◌, get_or, set,
}
use ne_xs_operate_system.Base.Bits.{complement}

abbrev pub max_tasks : ℕ
max_tasks = 64

-- The capability bits that the functions themselves test.
abbrev pub perm_none : ℕ
perm_none = 0x0000

abbrev pub perm_task_create : ℕ
perm_task_create = 0x0100

abbrev pub perm_perm_grant : ℕ
perm_perm_grant = 0x0400

abbrev pub perm_perm_revoke : ℕ
perm_perm_revoke = 0x0800

abbrev pub perm_kernel_mode : ℕ
perm_kernel_mode = 0x1000

-- `PERM_PERM_GRANT | PERM_PERM_REVOKE | PERM_KERNEL_MODE`
abbrev pub administrative : ℕ
administrative = bit_or perm_perm_grant (bit_or perm_perm_revoke perm_kernel_mode)

-- `struct task_perms`
pub record TaskPerms : Type 0 where
  pub task_id : ℕ
  pub capabilities : ℕ
  pub parent_id : ℕ
  pub granted_time : ℕ
  pub active : Bool

-- `task_perms_table` and `perm_timestamp`
pub record PermState : Type 0 where
  pub table : List TaskPerms
  pub timestamp : ℕ

-- What a read past the table would give; every function tests its index first.
abbrev pub blank : TaskPerms
blank = record { task_id = 0; capabilities = 0; parent_id = 0; granted_time = 0; active = false }

abbrev pub entry : PermState → ℕ → TaskPerms
entry s i = get_or s.table i blank

abbrev pub put : PermState → ℕ → TaskPerms → PermState
put s i e = record s { table = set s.table i e }

-- The return values 0 and -1.
pub data Status : Type 0 where
  granted denied : Status

-- A call returns a status and the new state, or ends in `PANIC`, which does not return.
pub data Outcome : Type 0 where
  returned : Status → PermState → Outcome
  panic : Outcome

-- The entries `i`, `i + 1`, … that the loop of `perm_init` writes in `n` rounds.
abbrev pub cleared : ℕ → ℕ → List TaskPerms
cleared zero i = []
cleared (suc n) i = (record blank { task_id = i }) ∷ cleared n (i + 1)

pub perm_init : PermState
perm_init = record {
  table = set (cleared max_tasks 0) 0 (record blank { capabilities = 0xffff; active = true });
  timestamp = 0;
}

pub perm_check : PermState → ℕ → ℕ → Bool
perm_check s task_id perm =
    if leb max_tasks task_id
    then false
    else if not (entry s task_id).active
    then false
    else if not (bit_and (entry s task_id).capabilities perm_kernel_mode == 0)
    then true
    else bit_and (entry s task_id).capabilities perm == perm

pub perm_inherit : PermState → ℕ → ℕ → PermState
perm_inherit s child_id parent_id =
    if leb max_tasks child_id || leb max_tasks parent_id
    then s
    else if not (entry s parent_id).active
    then s
    else let inheritable =
        bit_and (entry s parent_id).capabilities (complement 16 administrative) in
      let child = entry s child_id in
      put s child_id (record child { capabilities = bit_or child.capabilities inheritable })

-- The entry that `perm_create_task` writes, before the child inherits.
abbrev pub register : PermState → ℕ → ℕ → ℕ → PermState
register s task_id parent_id initial_perms =
    let now = (s.timestamp + 1) % 2 ^ 64 in
    put (record s { timestamp = now }) task_id
      (record {
        task_id = task_id;
        capabilities = initial_perms;
        parent_id = parent_id;
        granted_time = now;
        active = true;
      })

pub perm_create_task : PermState → ℕ → ℕ → ℕ → Outcome
perm_create_task s task_id parent_id initial_perms =
    if leb max_tasks task_id || leb max_tasks parent_id
    then panic
    else if not (perm_check s parent_id perm_task_create)
    then returned denied s
    else if (entry s task_id).active
    then returned denied s
    else returned granted
        (perm_inherit (register s task_id parent_id initial_perms) task_id parent_id)

pub perm_destroy_task : PermState → ℕ → PermState
perm_destroy_task s task_id =
    if leb max_tasks task_id || task_id == 0
    then s
    else let task = entry s task_id in
      put s task_id (record task { active = false; capabilities = perm_none })

-- The entry with new capabilities and the time `++perm_timestamp`.
abbrev pub change : PermState → ℕ → ℕ → PermState
change s target_id caps =
    let now = (s.timestamp + 1) % 2 ^ 64 in
    let target = entry s target_id in
    put (record s { timestamp = now }) target_id
      (record target { capabilities = caps; granted_time = now })

pub perm_grant : PermState → ℕ → ℕ → ℕ → Status × PermState
perm_grant s granter_id target_id perms =
    if leb max_tasks granter_id || leb max_tasks target_id
    then (denied, s)
    else if not (perm_check s granter_id perm_perm_grant)
    then (denied, s)
    else if not (entry s target_id).active
    then (denied, s)
    else (granted, change s target_id (bit_or (entry s target_id).capabilities perms))

pub perm_revoke : PermState → ℕ → ℕ → ℕ → Status × PermState
perm_revoke s revoker_id target_id perms =
    if leb max_tasks revoker_id || leb max_tasks target_id
    then (denied, s)
    else if not (perm_check s revoker_id perm_perm_revoke)
    then (denied, s)
    else if target_id == 0
    then (denied, s)
    else if not (entry s target_id).active
    then (denied, s)
    else (
      granted,
      change s target_id (bit_and (entry s target_id).capabilities (complement 16 perms)),
    )

pub perm_get : PermState → ℕ → ℕ
perm_get s task_id =
    if leb max_tasks task_id
    then perm_none
    else if not (entry s task_id).active
    then perm_none
    else (entry s task_id).capabilities

-- The calls that change the table, and their effect one after the other.
pub data Call : Type 0 where
  create : ℕ → ℕ → ℕ → Call
  destroy : ℕ → Call
  grant : ℕ → ℕ → ℕ → Call
  revoke : ℕ → ℕ → ℕ → Call

abbrev pub step : PermState → Call → Outcome
step s (create task_id parent_id perms) = perm_create_task s task_id parent_id perms
step s (destroy task_id) = returned granted (perm_destroy_task s task_id)
step s (grant granter_id target_id perms) =
    let (status, s') = perm_grant s granter_id target_id perms in returned status s'
step s (revoke revoker_id target_id perms) =
    let (status, s') = perm_revoke s revoker_id target_id perms in returned status s'

-- The state after the calls, or `s` of the last return before a panic.
abbrev pub run : PermState → List Call → PermState
run s [] = s
run s (c ∷ cs) = elim (step s c) [ returned _ s' ↦ run s' cs | panic ↦ s ]
