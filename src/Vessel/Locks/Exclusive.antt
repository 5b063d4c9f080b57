-- ===== src/Vessel/Locks/Exclusive.antt =====
-- Who holds a lock before it expires.
use ovl.Base.{
  ℕ, ◌+◌, ◌≤◌, String, Bool, true, false, not, ◌&&◌, ◌||◌, none, some, List, [], ◌∷◌, all, str_eq,
  eq_iff, eq_refl, if◌then◌else◌, ◌≡◌, refl, arith, Bool-cases, inl, inr,
}
use ovl.Vessel.Locks.{
  SectionLock, expired, LockKey, key_eq, Locks, find, set, drop, acquire, lock_for, release,
  force_release, holder, sweep, Call, acquire_call, release_call, force_call, sweep_call, call,
  calls,
}

key_eq_sound : (a b : LockKey) → key_eq a b ≡ true → a ≡ b
key_eq_sound a b h = ground (arith, eq_iff a.report_id b.report_id, eq_iff a.section b.section)

find-set :
    (k j : LockKey) (l : SectionLock) (ls : Locks)
    → find j (set k l ls) ≡ (if key_eq k j then some l else find j ls)
unfolding find set
find-set k j l [] = refl
find-set k j l ((i, m) ∷ ls) = elim (Bool-cases (key_eq i k)) [
  | inl e ↦ ground (arith, key_eq_sound i k e)
  | inr e ↦ elim (Bool-cases (key_eq k j)) [
    | inl f ↦ ground (arith, key_eq_sound k j f, find-set k j l ls)
    | inr f ↦ ground (arith, find-set k j l ls)
  ]
]

find-drop :
    (k j : LockKey) (ls : Locks) → find j (drop k ls) ≡ (if key_eq k j then none else find j ls)
unfolding find drop
find-drop k j [] = ground arith
find-drop k j ((i, m) ∷ ls) = elim (Bool-cases (key_eq i k)) [
  | inl e ↦ ground (arith, key_eq_sound i k e, find-drop k j ls)
  | inr e ↦ elim (Bool-cases (key_eq k j)) [
    | inl f ↦ ground (arith, key_eq_sound k j f, find-drop k j ls)
    | inr f ↦ ground (arith, find-drop k j ls)
  ]
]

-- A sweep leaves an unexpired lock in its place.
find-sweep :
    (k : LockKey) (l : SectionLock) (ls : Locks) (ttl now : ℕ)
    → find k ls ≡ some l
    → expired l now ttl ≡ false
    → find k (sweep ls ttl now).0 ≡ some l
unfolding find sweep
find-sweep k l [] ttl now h e = cc
find-sweep k l ((j, m) ∷ ls) ttl now h e = elim (Bool-cases (key_eq j k)) [
  | inl f ↦ ground arith
  | inr f ↦ ground (arith, find-sweep k l ls ttl now (rw f at h) e)
]

-- The calls that leave a lock alone: those of other users or on other sections, at times when it has
-- not expired; neither its holder's nor a forced release.
abbrev pub leaves_alone : SectionLock → LockKey → ℕ → Call → Bool
leaves_alone l k ttl (acquire_call now j user username role) =
    not (key_eq j k) || (not (str_eq l.user_id user) && not (expired l now ttl))
leaves_alone l k ttl (release_call j user) = not (key_eq j k) || not (str_eq l.user_id user)
leaves_alone l k ttl (force_call j) = not (key_eq j k)
leaves_alone l k ttl (sweep_call now) = not (expired l now ttl)

find-call :
    (ttl : ℕ) (c : Call) (k : LockKey) (l : SectionLock) (ls : Locks)
    → find k ls ≡ some l
    → leaves_alone l k ttl c ≡ true
    → find k (call ttl c ls) ≡ some l
unfolding call acquire release force_release
find-call ttl (acquire_call now j user username role) k l ls h a = elim (Bool-cases (key_eq j k)) [
  | inl e ↦ ground (arith, key_eq_sound j k e)
  | inr e ↦ ground (arith, find-set j k (lock_for (find j ls) j user username role now) ls)
]
find-call ttl (release_call j user) k l ls h a = elim (Bool-cases (key_eq j k)) [
  | inl e ↦ ground (arith, key_eq_sound j k e)
  | inr e ↦ ground (arith, find-drop j k ls)
]
find-call ttl (force_call j) k l ls h a = ground (arith, find-drop j k ls)
find-call ttl (sweep_call now) k l ls h a = find-sweep k l ls ttl now h (ground arith)

find-calls :
    (ttl : ℕ) (cs : List Call) (k : LockKey) (l : SectionLock) (ls : Locks)
    → find k ls ≡ some l
    → all (leaves_alone l k ttl) cs ≡ true
    → find k (calls ttl cs ls) ≡ some l
unfolding calls
find-calls ttl [] k l ls h a = h
find-calls ttl (c ∷ cs) k l ls h a =
    find-calls ttl cs k l (call ttl c ls) (find-call ttl c k l ls h (ground arith)) (ground arith)

key_eq_refl : (k : LockKey) → key_eq k k ≡ true
key_eq_refl k = ground (arith, eq_refl k.report_id, eq_refl k.section)

acquire_found :
    (ls : Locks) (ttl now : ℕ) (k : LockKey) (user username role : String) (l : SectionLock)
    → (acquire ls ttl now k user username role).1 ≡ some l
    → (acquire ls ttl now k user username role).2 ≡ true
    → (find k (acquire ls ttl now k user username role).0 ≡ some l)
      × (l.renewed_at ≡ now)
      × (l.user_id ≡ user)
unfolding acquire lock_for
acquire_found ls ttl now k user username role l got won =
    ground (arith, key_eq_refl k, find-set k k (lock_for (find k ls) k user username role now) ls)

unexpired :
    (l : SectionLock) (now later ttl : ℕ)
    → l.renewed_at ≡ now
    → later ≤ now + ttl
    → expired l later ttl ≡ false
unexpired l now later ttl e t = ground arith

-- Once a user has acquired a section, that user holds it, with the lock that `acquire` returned, until
-- the lock expires: whatever other users acquire or release in the meantime, and whatever is swept,
-- as long as nobody forces the release.
pub acquired_until_expiry :
    (ls : Locks) (ttl now : ℕ) (k : LockKey) (user username role : String) (l : SectionLock)
    (cs : List Call) (later : ℕ)
    → (acquire ls ttl now k user username role).1 ≡ some l
    → (acquire ls ttl now k user username role).2 ≡ true
    → all (leaves_alone l k ttl) cs ≡ true
    → later ≤ now + ttl
    → (holder (calls ttl cs (acquire ls ttl now k user username role).0) ttl later k ≡ some l)
      × (l.user_id ≡ user)
unfolding holder
acquired_until_expiry ls ttl now k user username role l cs later got won a t =
    let f = acquire_found ls ttl now k user username role l got won in
    (
      rw
          (
            find-calls ttl cs k l (acquire ls ttl now k user username role).0 f.0 a,
            unexpired l now later ttl f.1 t,
          )
          refl,
      f.2,
    )
