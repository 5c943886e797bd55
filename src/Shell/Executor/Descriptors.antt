-- ===== src/Shell/Executor/Descriptors.antt =====
-- What src/executor.c relies on of the system calls, as POSIX documents it: which open file stands
-- behind each file descriptor of a process.
use shellforge.Prelude.{ℕ, ◌≡◌, ◌≢◌, true, Option, none, some, ◌==◌, if◌then◌else◌, Bytes}
use shellforge.Shell.Executor.{OpenFlags, Posix}

-- The two ends of a new pipe at two free descriptors; all others stay.
pub record Piped {D K : Type 0} (reader writer : K → D) (before after : ℕ → Option D) (r w : ℕ)
    : Type 0 where
  pub pipe_of : K
  pub free_r : before r ≡ none
  pub free_w : before w ≡ none
  pub apart : r ≢ w
  pub read_end : after r ≡ some (reader pipe_of)
  pub write_end : after w ≡ some (writer pipe_of)
  pub others : (g : ℕ) → g ≢ r → g ≢ w → after g ≡ before g

-- `D` are the open files, `K` the pipes. `file_of` is the flags and the name that an open file was
-- opened with.
pub record Descriptors {S : Type 0} (os : Posix S) (D K : Type 0) : Type 0 where
  pub at : S → ℕ → Option D
  pub reader : K → D
  pub writer : K → D
  pub file_of : D → Option (OpenFlags × Bytes)
  pub open_at :
      (fl : OpenFlags) (name : Bytes) (s : S) (f : ℕ)
      → (os.open_file fl name s).0 ≡ some f
      → (x : D) × (at (os.open_file fl name s).1 f ≡ some x) × (file_of x ≡ some (fl, name))
  pub open_free :
      (fl : OpenFlags) (name : Bytes) (s : S) (f : ℕ)
      → (os.open_file fl name s).0 ≡ some f
      → at s f ≡ none
  pub open_others :
      (fl : OpenFlags) (name : Bytes) (s : S) (f g : ℕ)
      → (os.open_file fl name s).0 ≡ some f
      → g ≢ f
      → at (os.open_file fl name s).1 g ≡ at s g
  pub dup2_at :
      (a b : ℕ) (s : S) (g : ℕ)
      → (os.dup2 a b s).0 ≡ true
      → at (os.dup2 a b s).1 g ≡ (if g == b then at s a else at s g)
  pub close_at : (a : ℕ) (s : S) (g : ℕ) → at (os.close a s) g ≡ (if g == a then none else at s g)
  pub pipe_at :
      (s : S) (r w : ℕ)
      → (os.pipe s).0 ≡ some (r, w)
      → Piped reader writer (at s) (at (os.pipe s).1) r w
  pub fork_at : (s : S) (g : ℕ) → at (os.fork s).1 g ≡ at s g
  pub child_at : (s : S) (g : ℕ) → at (os.child s) g ≡ at s g
  pub setpgid_at : (a b : ℕ) (s : S) (g : ℕ) → at (os.setpgid a b s).1 g ≡ at s g
  pub waitpid_at : (a : ℕ) (s : S) (g : ℕ) → at (os.waitpid a s).1 g ≡ at s g
