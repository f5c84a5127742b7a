-- ===== src/Xsync/Sema.antt =====
-- xsync/sema.go: the counting semaphores that the Go runtime gives. The functions there are stand-ins
-- with an empty body, so that the semaphore is a parameter here, with what their comments say of it.
use srcrd.Prelude.{ℕ, suc, zero, ◌≡◌, refl, Option, none, some, arith}

-- `Semacquire` on a semaphore with this count: blocked, or the count afterwards; and `Semrelease`.
pub record Semaphore : Type 0 where
  pub acquire : ℕ → Option ℕ
  pub release : ℕ → ℕ

-- "waits until *s > 0 and then atomically decrements it"; "atomically increments *s".
pub record IsDocumented (sema : Semaphore) : Type 0 where
  pub acquire_some : (s t : ℕ) → sema.acquire s ≡ some t → s ≡ suc t
  pub acquire_suc : (t : ℕ) → sema.acquire (suc t) ≡ some t
  pub release_suc : (s : ℕ) → sema.release s ≡ suc s

abbrev pub count_down : ℕ → Option ℕ
count_down zero = none
count_down (suc s) = some s

-- A semaphore that does as documented.
abbrev pub counting : Semaphore
counting = record { acquire = count_down; release = suc }

count_down-some : (s t : ℕ) → count_down s ≡ some t → s ≡ suc t
count_down-some zero t e = cc
count_down-some (suc s) t e = ground arith

pub counting-IsDocumented : IsDocumented counting
counting-IsDocumented = record {
  acquire_some = count_down-some;
  acquire_suc = λ t. refl;
  release_suc = λ s. refl;
}

-- The bodies of xsync/sema.go as they stand: no wait, no wake-up.
abbrev pub stand_in : Semaphore
stand_in = record { acquire = some; release = λ s. s }
