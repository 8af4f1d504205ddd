-- ===== src/Lock.antt =====
-- inspect/lock/lock.go: the single-instance lock. The kernel's flock(2) is an argument: a record of
-- its operations, with what its manual says of them as laws.
pub mod System
use we_term.Prelude.{Bool, Option, String, [], eqb, false, none, not, some, true, ℕ, ◌&&◌, ◌∷◌, ◌≡◌}
use we_term.Prelude.Attempt.{Attempt, done, fail, is_done}
use we_term.Prelude.Text.{concat}

-- what flock(2) answers but success
pub data FlockError : Type 0 where
  would_block : FlockError
  flock_failed : String → FlockError

-- the error of Acquire
pub data LockError : Type 0 where
  busy : LockError
  failed : String → LockError

-- The kernel's table of locks on the lock file; an open file is a number.
pub record Kernel (K : Type 0) : Type 0 where
  pub holds : K → ℕ → Bool
  -- LOCK_EX | LOCK_NB
  pub try_lock : K → ℕ → Attempt FlockError K
  -- LOCK_UN and close
  pub unlock : K → ℕ → K

module _ {K : Type 0} ⦃kernel : Kernel K⦄ where
  -- the third step of Acquire
  unfoldable pub lock_opened : ℕ → Attempt FlockError K → Attempt LockError (ℕ × K)
  lock_opened fd (done k) = done (fd, k)
  lock_opened fd (fail would_block) = fail busy
  lock_opened fd (fail (flock_failed e)) = fail (failed (concat ("flock: " ∷ e ∷ [])))

  -- Acquire, by the answers of the file system: the open file that holds the lock, and the table
  unfoldable pub acquire : Option String → Attempt String ℕ → K → Attempt LockError (ℕ × K)
  acquire (some e) opened k = fail (failed (concat ("ensure lock dir: " ∷ e ∷ [])))
  acquire none (fail e) k = fail (failed (concat ("open lock file: " ∷ e ∷ [])))
  acquire none (done fd) k = lock_opened fd (kernel.try_lock k fd)

  -- the function that Acquire returns
  unfoldable pub release : ℕ → K → K
  release fd k = kernel.unlock k fd

-- What the manual of flock(2) says: where an exclusive lock is granted no other open file holds the
-- lock, and the open file holds it from then on; an unlock gives up that lock and no other. A call
-- may also fail for any reason.
pub record KernelLaws {K : Type 0} (kernel : Kernel K) : Type 0 where
  pub granted :
      (k k' : K) (fd : ℕ)
      → kernel.try_lock k fd ≡ done k'
      → (another : ℕ)
      → (kernel.holds k' another ≡ eqb fd another)
        × ((kernel.holds k another && not (eqb fd another)) ≡ false)
  pub unlocked :
      (k : K) (fd another : ℕ)
      → kernel.holds (kernel.unlock k fd) another ≡ (not (eqb fd another) && kernel.holds k another)
