-- ===== src/Session/Lock.antt =====
-- internal/session/manager.go, lockChannel: one lock for each channel in use, made by the first who
-- asks and forgotten by the last who leaves. The code runs in three sections under `m.mu`, or the
-- lock's own mutex, and the goroutines in it are a list.
pub mod Counting
pub mod Sections
pub mod Exclusive
use whatsmeow_gateway.Base.{
  ℕ, ◌+◌, ◌-◌, String, Bool, true, false, List, [], ◌∷◌, ◌++◌, Option, none, some, ◌==◌, ◌≡◌,
  if◌then◌else◌, nat_Eq, string_Eq, lookup, insert, delete,
}

pub record ChannelLock : Type 0 where
  pub is_locked : Bool
  pub holders : ℕ

-- Where a goroutine is: before `lock.mu.Lock()` returned, between it and the unlock, and after
-- `lock.mu.Unlock()`.
pub data Phase : Type 0 where
  waiting inside leaving : Phase

pub record Goroutine : Type 0 where
  pub channel : String
  pub lock : ℕ
  pub phase : Phase

pub record Locks : Type 0 where
  pub locks : List (String × ℕ)
  pub lock_of : ℕ → ChannelLock
  pub made : ℕ
  pub goroutines : List Goroutine

abbrev pub no_locks : Locks
no_locks = record {
  locks = [];
  lock_of = λ l. record { is_locked = false; holders = 0 };
  made = 0;
  goroutines = [];
}

abbrev pub set_lock : (ℕ → ChannelLock) → ℕ → ChannelLock → ℕ → ChannelLock
set_lock f l lock j = if l == j then lock else f j

abbrev pub at_phase : Goroutine → Phase → Goroutine
at_phase g phase = record g { phase = phase }

abbrev pub enter_with : Locks → Option ℕ → String → Locks
enter_with s (some l) k = record s {
  lock_of = set_lock s.lock_of l (record (s.lock_of l) { holders = (s.lock_of l).holders + 1 });
  goroutines = record { channel = k; lock = l; phase = waiting } ∷ s.goroutines;
}
enter_with s none k = record {
  locks = insert k s.made s.locks;
  lock_of = set_lock s.lock_of s.made (record { is_locked = false; holders = 1 });
  made = s.made + 1;
  goroutines = record { channel = k; lock = s.made; phase = waiting } ∷ s.goroutines;
}

-- `lockChannel` up to its wait.
unfoldable pub enter : Locks → String → Locks
enter s k = enter_with s (lookup k s.locks) k

-- A goroutine among the others, and its lock taken.
unfoldable pub acquire : Locks → List Goroutine → Goroutine → List Goroutine → Locks
acquire s before g rest = record s {
  lock_of = set_lock s.lock_of g.lock (record (s.lock_of g.lock) { is_locked = true });
  goroutines = before ++ (at_phase g inside ∷ rest);
}

-- The function that `lockChannel` returns: the unlock,
unfoldable pub release : Locks → List Goroutine → Goroutine → List Goroutine → Locks
release s before g rest = record s {
  lock_of = set_lock s.lock_of g.lock (record (s.lock_of g.lock) { is_locked = false });
  goroutines = before ++ (at_phase g leaving ∷ rest);
}

-- and the section after it. (A count that is 0 already would become negative.)
unfoldable pub leave : Locks → List Goroutine → Goroutine → List Goroutine → Locks
leave s before g rest =
    let holders = (s.lock_of g.lock).holders - 1 in
    record s {
      locks = if holders == 0 then delete g.channel s.locks else s.locks;
      lock_of = set_lock s.lock_of g.lock (record (s.lock_of g.lock) { holders = holders });
      goroutines = before ++ rest;
    }

pub data Step (s : Locks) (after : Locks) : Type 0 where
  enters : (k : String) → after ≡ enter s k → Step s after
  acquires :
      (before : List Goroutine) (g : Goroutine) (rest : List Goroutine)
      → s.goroutines ≡ before ++ (g ∷ rest)
      → g.phase ≡ waiting
      → (s.lock_of g.lock).is_locked ≡ false
      → after ≡ acquire s before g rest
      → Step s after
  releases :
      (before : List Goroutine) (g : Goroutine) (rest : List Goroutine)
      → s.goroutines ≡ before ++ (g ∷ rest)
      → g.phase ≡ inside
      → after ≡ release s before g rest
      → Step s after
  leaves :
      (before : List Goroutine) (g : Goroutine) (rest : List Goroutine)
      → s.goroutines ≡ before ++ (g ∷ rest)
      → g.phase ≡ leaving
      → after ≡ leave s before g rest
      → Step s after

pub data Reach (s : Locks) : Locks → Type 0 where
  here : Reach s s
  next : {t u : Locks} → Reach s t → Step t u → Reach s u
