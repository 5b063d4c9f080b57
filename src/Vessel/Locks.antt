-- ===== src/Vessel/Locks.antt =====
-- vessel/httpapi/locks.go: the soft locks on the sections of reports. The mutex makes each method one
-- step; the clock is an argument, in nanoseconds, and so is the time to live.
pub mod Exclusive
use ovl.Base.{
  ℕ, ◌+◌, ◌*◌, String, Bool, true, false, not, ◌&&◌, ◌||◌, Option, none, some, List, [], ◌∷◌, ltb,
  str_eq, if◌then◌else◌,
}

abbrev pub lock_ttl : ℕ
lock_ttl = 5 * 60 * 1000000000

pub record SectionLock : Type 0 where
  pub report_id : String
  pub section : String
  pub user_id : String
  pub username : String
  pub role : String
  pub acquired_at : ℕ
  pub renewed_at : ℕ

-- `expired`
abbrev pub expired : SectionLock → ℕ → ℕ → Bool
expired l now ttl = ltb (l.renewed_at + ttl) now

-- `lockKey`
pub record LockKey : Type 0 where
  pub report_id : String
  pub section : String

abbrev pub key_eq : LockKey → LockKey → Bool
key_eq a b = str_eq a.report_id b.report_id && str_eq a.section b.section

-- `locks`, with at most one entry for a key.
abbrev pub Locks : Type 0
Locks = List (LockKey × SectionLock)

unfoldable pub find : LockKey → Locks → Option SectionLock
find k [] = none
find k ((j, l) ∷ ls) = if key_eq j k then some l else find k ls

unfoldable pub set : LockKey → SectionLock → Locks → Locks
set k l [] = (k, l) ∷ []
set k l ((j, m) ∷ ls) = if key_eq j k then (j, l) ∷ ls else (j, m) ∷ set k l ls

unfoldable pub drop : LockKey → Locks → Locks
drop k [] = []
drop k ((j, m) ∷ ls) = let rest = drop k ls in if key_eq j k then rest else (j, m) ∷ rest

abbrev refuses : Option SectionLock → String → ℕ → ℕ → Bool
refuses none user now ttl = false
refuses (some l) user now ttl = not (str_eq l.user_id user) && not (expired l now ttl)

abbrev first_acquired : Option SectionLock → String → ℕ → ℕ
first_acquired none user now = now
first_acquired (some l) user now = if str_eq l.user_id user then l.acquired_at else now

-- The lock that a successful `acquire` writes.
unfoldable pub lock_for : Option SectionLock → LockKey → String → String → String → ℕ → SectionLock
lock_for existing k user username role now = record {
  report_id = k.report_id;
  section = k.section;
  user_id = user;
  username = username;
  role = role;
  acquired_at = first_acquired existing user now;
  renewed_at = now;
}

-- `acquire`: the locks after it, the lock of the section then, and whether it is the caller's.
unfoldable pub acquire :
    Locks → ℕ → ℕ → LockKey → String → String → String → Locks × Option SectionLock × Bool
unfolding lock_for
acquire ls ttl now k user username role =
    if refuses (find k ls) user now ttl
    then (ls, find k ls, false)
    else let l = lock_for (find k ls) k user username role now in (set k l ls, some l, true)

abbrev held_by : Option SectionLock → String → Bool
held_by none user = false
held_by (some l) user = str_eq l.user_id user

-- `release`
unfoldable pub release : Locks → LockKey → String → Locks × Option SectionLock
release ls k user = if held_by (find k ls) user then (drop k ls, find k ls) else (ls, none)

-- `forceRelease`
unfoldable pub force_release : Locks → LockKey → Locks × Option SectionLock
force_release ls k = (drop k ls, find k ls)

abbrev unless_expired : Option SectionLock → ℕ → ℕ → Option SectionLock
unless_expired none now ttl = none
unless_expired (some l) now ttl = if expired l now ttl then none else some l

-- `holder`
unfoldable pub holder : Locks → ℕ → ℕ → LockKey → Option SectionLock
holder ls ttl now k = unless_expired (find k ls) now ttl

-- `sweep`: the locks after it, and those that it removed.
unfoldable pub sweep : Locks → ℕ → ℕ → Locks × List SectionLock
sweep [] ttl now = ([], [])
sweep ((k, l) ∷ ls) ttl now =
    let rest = sweep ls ttl now in
    if expired l now ttl then (rest.0, l ∷ rest.1) else ((k, l) ∷ rest.0, rest.1)

-- A call of a method that changes the locks.
pub data Call : Type 0 where
  acquire_call : ℕ → LockKey → String → String → String → Call
  release_call : LockKey → String → Call
  force_call : LockKey → Call
  sweep_call : ℕ → Call

unfoldable pub call : ℕ → Call → Locks → Locks
call ttl (acquire_call now k user username role) ls = (acquire ls ttl now k user username role).0
call ttl (release_call k user) ls = (release ls k user).0
call ttl (force_call k) ls = (force_release ls k).0
call ttl (sweep_call now) ls = (sweep ls ttl now).0

unfoldable pub calls : ℕ → List Call → Locks → Locks
calls ttl [] ls = ls
calls ttl (c ∷ cs) ls = calls ttl cs (call ttl c ls)
