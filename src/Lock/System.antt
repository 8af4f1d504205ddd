-- ===== src/Lock/System.antt =====
-- inspect/lock/lock.go: instances that acquire and release the lock, interleaved in any order. The
-- kernel knows which open file holds the lock; an instance knows only what Acquire returned.
use we_term.Lock.{
  FlockError, Kernel, KernelLaws, LockError, acquire, flock_failed, lock_opened, release,
  would_block,
}
use we_term.Prelude.{
  Bool, Option, String, ap, arith, eqb, false, none, not, some, sym, true, ℕ, ◌&&◌, ◌||◌, ◌∙◌, ◌≡◌,
}
use we_term.Prelude.Attempt.{Attempt, done, fail}

-- The kernel's table, and the instances to which Acquire returned no error and that have not given
-- the lock up since, each by its open file.
pub record System (K : Type 0) : Type 0 where
  pub table : K
  pub running : ℕ → Bool

module _ {K : Type 0} (kernel : Kernel K) where
  -- Acquire returned no error to an instance with an open file
  abbrev pub joins : System K → ℕ → K → System K
  joins s fd k = record { table = k; running = λ n. eqb fd n || s.running n }

  -- an instance calls the release function
  abbrev pub leaves : System K → ℕ → System K
  leaves s fd = record {
    table = release ⦃kernel = kernel⦄ fd s.table;
    running = λ n. not (eqb fd n) && s.running n;
  }

  -- One step of the system: an instance calls Acquire and goes on with the lock or is turned away,
  -- or it gives the lock up.
  pub data Step (s : System K) : System K → Type 0 where
    acquires :
        (dir_error : Option String) (opened : Attempt String ℕ) (fd : ℕ) (k : K)
        → acquire ⦃kernel = kernel⦄ dir_error opened s.table ≡ done (fd, k)
        → Step s (joins s fd k)
    turned_away :
        (dir_error : Option String) (opened : Attempt String ℕ) (e : LockError)
        → acquire ⦃kernel = kernel⦄ dir_error opened s.table ≡ fail e
        → Step s s
    gives_up : (fd : ℕ) → Step s (leaves s fd)

  pub data Reach (first : System K) : System K → Type 0 where
    here : Reach first first
    later : {s t : System K} → Reach first s → Step s t → Reach first t

  -- at most one instance runs, and it holds the lock
  pub record IsExclusive (s : System K) : Type 0 where
    held : (n : ℕ) → s.running n ≡ true → kernel.holds s.table n ≡ true
    alone : (a b : ℕ) → s.running a ≡ true → s.running b ≡ true → a ≡ b

  -- the open file and the table of a success
  abbrev pub fd_of : ℕ → Attempt LockError (ℕ × K) → ℕ
  fd_of n (fail e) = n
  fd_of n (done (fd, k)) = fd

  abbrev pub table_of : K → Attempt LockError (ℕ × K) → K
  table_of k (fail e) = k
  table_of k (done (fd, k')) = k'

  pub lock_opened-done :
      (fd fd' : ℕ) (k' : K) (answer : Attempt FlockError K)
      → lock_opened ⦃kernel = kernel⦄ fd answer ≡ done (fd', k')
      → (fd ≡ fd') × (answer ≡ done k')
  unfolding lock_opened
  lock_opened-done fd fd' k' (done k) h = (ap (fd_of fd) h, ap (λ r. done (table_of k r)) h)
  lock_opened-done fd fd' k' (fail would_block) h = absurd (cc h)
  lock_opened-done fd fd' k' (fail (flock_failed e)) h = absurd (cc h)

  -- Where Acquire returns no error, the kernel granted the lock to the open file.
  acquire-done :
      (dir_error : Option String) (opened : Attempt String ℕ) (k k' : K) (fd : ℕ)
      → acquire ⦃kernel = kernel⦄ dir_error opened k ≡ done (fd, k')
      → kernel.try_lock k fd ≡ done k'
  unfolding acquire
  acquire-done (some e) opened k k' fd h = absurd (cc h)
  acquire-done none (fail e) k k' fd h = absurd (cc h)
  acquire-done none (done n) k k' fd h =
      let (same, granted) = lock_opened-done n fd k' (kernel.try_lock k n) h in
      sym (ap (kernel.try_lock k) same) ∙ granted

  joins-IsExclusive :
      KernelLaws kernel
      → (s : System K) (fd : ℕ) (k : K) → kernel.try_lock s.table fd ≡ done k
      → IsExclusive s
      → IsExclusive (joins s fd k)
  joins-IsExclusive laws s fd k g ex =
      let only : (n : ℕ) → (eqb fd n || s.running n) ≡ true → eqb fd n ≡ true =
        λ n h. ground (arith, h, ex.held n, (laws.granted s.table k fd g n).1) in
      record {
        held = λ n h. (laws.granted s.table k fd g n).0 ∙ only n h;
        alone = λ a b ha hb. ground (arith, only a ha, only b hb);
      }

  leaves-IsExclusive :
      KernelLaws kernel → (s : System K) (fd : ℕ) → IsExclusive s → IsExclusive (leaves s fd)
  unfolding release
  leaves-IsExclusive laws s fd ex = record {
    held = λ n h. ground (arith, h, ex.held n, laws.unlocked s.table fd n);
    alone = λ a b ha hb. ex.alone a b (ground (arith, ha)) (ground (arith, hb));
  }

  Step-IsExclusive : KernelLaws kernel → {s t : System K} → Step s t → IsExclusive s → IsExclusive t
  Step-IsExclusive laws {s} (acquires dir_error opened fd k h) ex =
      joins-IsExclusive laws s fd k (acquire-done dir_error opened s.table k fd h) ex
  Step-IsExclusive laws (turned_away dir_error opened e h) ex = ex
  Step-IsExclusive laws {s} (gives_up fd) ex = leaves-IsExclusive laws s fd ex

  Reach-IsExclusive :
      KernelLaws kernel → {first s : System K} → IsExclusive first → Reach first s → IsExclusive s
  Reach-IsExclusive laws free here = free
  Reach-IsExclusive laws free (later r step) =
      Step-IsExclusive laws step (Reach-IsExclusive laws free r)

  -- In whatever order instances call Acquire, are turned away and give the lock up: if none runs at
  -- first, then never two at a time run after a call of Acquire that returned no error.
  pub runs_alone :
      KernelLaws kernel
      → {first s : System K} → ((n : ℕ) → first.running n ≡ false)
      → Reach first s
      → (a b : ℕ) → s.running a ≡ true
      → s.running b ≡ true
      → a ≡ b
  runs_alone laws none_runs r =
      (Reach-IsExclusive laws
        (record {
          held = λ n h. absurd (ground (arith, none_runs n, h));
          alone = λ a b ha hb. absurd (ground (arith, none_runs a, ha));
        })
        r).alone
