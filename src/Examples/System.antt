-- ===== src/Examples/System.antt =====
-- A small system that answers the calls of src/executor.c: a process is a list of open files, each
-- new one behind the others, and the number of pipes and of processes so far.
use shellforge.Prelude.{
  codes, ℕ, zero, suc, ◌≤◌, ◌≡◌, refl, sym, ap, true, Option, none, some, List, [], ◌∷◌, ◌==◌,
  if◌then◌else◌, get_or, length, arith, Bytes,
}
use shellforge.Shell.Host.{Host}
use shellforge.Shell.Executor.{OpenFlags, Posix}
use shellforge.Shell.Executor.Descriptors.{Descriptors, Piped}

pub data Opened : Type 0 where
  terminal : Opened
  file : OpenFlags → Bytes → Opened
  reading writing : ℕ → Opened

pub record System : Type 0 where
  pub files : List (Option Opened)
  pub pipes : ℕ
  pub pids : ℕ

abbrev pub put_file : List (Option Opened) → ℕ → Option Opened → List (Option Opened)
put_file [] zero x = x ∷ []
put_file [] (suc n) x = none ∷ put_file [] n x
put_file (y ∷ ys) zero x = x ∷ ys
put_file (y ∷ ys) (suc n) x = y ∷ put_file ys n x

pub get_or-put_file :
    (xs : List (Option Opened)) (n : ℕ) (x : Option Opened) (g : ℕ)
    → get_or (put_file xs n x) g none ≡ (if g == n then x else get_or xs g none)
get_or-put_file [] zero x zero = refl
get_or-put_file [] zero x (suc g) = ground arith
get_or-put_file [] (suc n) x zero = ground arith
get_or-put_file [] (suc n) x (suc g) = ground (arith, get_or-put_file [] n x g)
get_or-put_file (y ∷ ys) zero x zero = refl
get_or-put_file (y ∷ ys) zero x (suc g) = ground arith
get_or-put_file (y ∷ ys) (suc n) x zero = ground arith
get_or-put_file (y ∷ ys) (suc n) x (suc g) = ground (arith, get_or-put_file ys n x g)

pub get_or-length : (xs : List (Option Opened)) (g : ℕ) → length xs ≤ g → get_or xs g none ≡ none
get_or-length [] g h = refl
get_or-length (x ∷ xs) zero h = absurd (omega arith)
get_or-length (x ∷ xs) (suc g) h = get_or-length xs g (omega arith)

abbrev pub with_file : System → ℕ → Option Opened → System
with_file s n x = record s { files = put_file s.files n x }

abbrev pub system : Posix System
system = record {
  open_file = λ flags name s.
      (some (length s.files), with_file s (length s.files) (some (file flags name)));
  dup2 = λ a b s. (true, with_file s b (get_or s.files a none));
  close = λ a s. with_file s a none;
  pipe = λ s. (
    some (length s.files, suc (length s.files)),
    record (with_file (with_file s (length s.files) (some (reading s.pipes))) (suc (length s.files))
        (some (writing s.pipes))) { pipes = suc s.pipes },
  );
  fork = λ s. (some s.pids, record s { pids = suc s.pids });
  child = λ s. s;
  setpgid = λ a b s. (true, s);
  waitpid = λ a s. (true, s);
}

pub some_is : {A : Type 0} {f g : A} → some f ≡ some g → f ≡ g
some_is e = cc

pub ends_are : (p q : ℕ × ℕ) → some p ≡ some q → (q.0 ≡ p.0) × (q.1 ≡ p.1)
ends_are p q e = let same = some_is e in (sym (ap (λ x. x.0) same), sym (ap (λ x. x.1) same))

pub pipe_at :
    (xs : List (Option Opened)) (k r w : ℕ)
    → r ≡ length xs
    → w ≡ suc (length xs)
    → Piped reading writing
        (λ g. get_or xs g none)
        (λ g.
          get_or
            (put_file
              (put_file xs (length xs) (some (reading k)))
              (suc (length xs))
              (some (writing k)))
            g
            none)
        r
        w
pipe_at xs k r w rl wl =
    let n = length xs in
    let one = get_or-put_file xs n (some (reading k)) in
    let two = get_or-put_file (put_file xs n (some (reading k))) (suc n) (some (writing k)) in
    record {
      pipe_of = k;
      free_r = get_or-length xs r (omega arith);
      free_w = get_or-length xs w (omega arith);
      apart = λ e. omega arith;
      read_end = ground (arith, two r, one r);
      write_end = ground (arith, two w);
      others = λ g a b. ground (arith, two g, one g);
    }

unfoldable pub system-Descriptors : Descriptors system Opened ℕ
system-Descriptors = record {
  at = λ s g. get_or s.files g none;
  reader = reading;
  writer = writing;
  file_of = λ x. elim x [ file fl name ↦ some (fl, name) | _ ↦ none ];
  open_at = λ fl name s f e. (
    file fl name,
    ground (arith, get_or-put_file s.files (length s.files) (some (file fl name)) f, some_is e),
    refl,
  );
  open_free = λ fl name s f e. get_or-length s.files f (omega (arith, some_is e));
  open_others = λ fl name s f g e ne.
      ground (arith, get_or-put_file s.files (length s.files) (some (file fl name)) g, some_is e);
  dup2_at = λ a b s g _. get_or-put_file s.files b (get_or s.files a none) g;
  close_at = λ a s g. get_or-put_file s.files a none g;
  pipe_at = λ s r w e.
      pipe_at s.files s.pipes r w (ends_are (length s.files, suc (length s.files)) (r, w) e).0
        (ends_are (length s.files, suc (length s.files)) (r, w) e).1;
  fork_at = λ s g. refl;
  child_at = λ s g. refl;
  setpgid_at = λ a b s g. refl;
  waitpid_at = λ a s g. refl;
}

-- A host with an environment of one value, and no history.
abbrev pub host_of : (Bytes → Option Bytes) → Host System
host_of getenv = record {
  posix = system;
  getenv = getenv;
  chdir = λ path s. (true, s);
  getcwd = λ s. some (codes "/root");
  add_history = λ line s. s;
  history_list = λ s. none;
  atoi = λ a. some (length a);
  kill = λ g s. s;
}
