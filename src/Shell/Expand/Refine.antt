-- ===== src/Shell/Expand/Refine.antt =====
-- `expand_string` of src/expand.c gives what its input expands to, and never leaves its buffer.
use shellforge.Prelude.{
  ◌≡◌, refl, ap, subst, ◌∙◌, ◌≢◌, ◌⊎◌, inl, inr, true, false, Option, none, some, Option-cases, [],
  ◌∷◌, arith, if◌then◌else◌, Bool-cases, length, Bytes, All, All-append, All-drop, replicate,
}
use shellforge.Shell.Result.{ok, failed, ◌>>=◌}
use shellforge.Shell.Expand.{
  Buffer, Memory, store, expand_loop, expand_string, start_capacity, text_of,
}
use shellforge.Shell.Expand.Safety.{Holds, text_of-Holds}
use shellforge.Shell.Expand.Text.{
  IsEnvironment, value, Names, Expands, done, literal, variable, dollar, braced, bare,
}
use shellforge.Shell.Expand.Loop.{SomeFails, no_first, LoopExpands, expands}

value-IsText :
    (getenv : Bytes → Option Bytes)
    → IsEnvironment getenv
    → (name : Bytes) → All (λ c. c ≢ 0) (value getenv name)
value-IsText getenv env name = elim (Option-cases (getenv name)) [
  | inl e ↦ rw (e, value) tt
  | inr (v, e) ↦ rw (e, value) (env name v e)
]

Names-IsText :
    (s name rest : Bytes) → Names s name rest → All (λ c. c ≢ 0) s → All (λ c. c ≢ 0) rest
Names-IsText s name rest (braced e a) h =
    (All-drop (λ c. c ≢ 0) name _ (subst (All (λ c. c ≢ 0)) e h).1).1
Names-IsText s name rest (bare e st a stop) h =
    All-drop (λ c. c ≢ 0) name _ (subst (All (λ c. c ≢ 0)) e h)

Expands-IsText :
    (getenv : Bytes → Option Bytes)
    → IsEnvironment getenv
    → {s t : Bytes} → Expands getenv s t
    → All (λ c. c ≢ 0) s
    → All (λ c. c ≢ 0) t
Expands-IsText getenv env done h = tt
Expands-IsText getenv env (literal ne x) h = (h.0, Expands-IsText getenv env x h.1)
Expands-IsText getenv env (variable {s} name rest e n x) h =
    All-append (λ c. c ≢ 0) (value getenv name) _ (value-IsText getenv env name)
      (Expands-IsText getenv env x (Names-IsText s name rest n h.1))
Expands-IsText getenv env (dollar e n x) h = (h.0, Expands-IsText getenv env x h.1)

abbrev empty_buffer : Buffer
empty_buffer = record {
  cells = replicate start_capacity none;
  length = 0;
  capacity = start_capacity;
}

-- The first buffer, with its terminator.
start : (b : Buffer) × (store empty_buffer 0 0 ≡ ok b) × Holds [] b
unfolding store
start = (
  record empty_buffer { cells = some 0 ∷ replicate 63 none },
  refl,
  record { rest = replicate 63 none; cells_are = refl; length_is = refl; capacity_is = refl },
)

-- With its first buffer, the call is the loop from there; without, it fails.
expand_string-first :
    (m : Memory) (getenv : Bytes → Option Bytes) (s : Bytes) {b : Buffer}
    → m.first ≡ true
    → store empty_buffer 0 0 ≡ ok b
    → expand_string m getenv (some s)
      ≡ (expand_loop m getenv 0 0 b s >>= λ b'. ok (text_of b'.cells))
unfolding expand_string
expand_string-first m getenv s first e =
    ap
      (λ t.
        if t
        then (store empty_buffer 0 0 >>= λ b.
            expand_loop m getenv 0 0 b s >>= λ b'. ok (text_of b'.cells))
        else failed)
      first
    ∙ ap (λ r. r >>= λ b. expand_loop m getenv 0 0 b s >>= λ b'. ok (text_of b'.cells)) e

expand_string-no_first :
    (m : Memory) (getenv : Bytes → Option Bytes) (s : Bytes)
    → m.first ≡ false
    → expand_string m getenv (some s) ≡ failed
unfolding expand_string
expand_string-no_first m getenv s off =
    ap
      (λ t.
        if t
        then (store empty_buffer 0 0 >>= λ b.
            expand_loop m getenv 0 0 b s >>= λ b'. ok (text_of b'.cells))
        else failed)
      off

-- For every input without NUL, every environment of such values and every outcome of the
-- allocations, `expand_string` returns what the input expands to, or it returns NULL and some
-- allocation has failed. It never writes outside of its buffer.
pub expand_string-Expands :
    (m : Memory) (getenv : Bytes → Option Bytes) (s : Bytes)
    → IsEnvironment getenv
    → All (λ c. c ≢ 0) s
    → (t : Bytes) × Expands getenv s t
      × ((expand_string m getenv (some s) ≡ ok t)
          ⊎ ((expand_string m getenv (some s) ≡ failed) × SomeFails m))
unfolding LoopExpands
expand_string-Expands m getenv s env h =
    let (t, x, run) = expands m getenv (length s) s (omega arith) in
    let (b, e, holds) = start in
    (
      t,
      x,
      elim (Bool-cases m.first) [
        | inr off ↦ inr (expand_string-no_first m getenv s off, no_first off)
        | inl first ↦ elim (run 0 b [] holds) [
          | inl (b', e', holds') ↦ inl (
              expand_string-first m getenv s first e
              ∙ rw e' (ap ok (text_of-Holds t b' (Expands-IsText getenv env x h) holds')))
          | inr (e', fails) ↦ inr (expand_string-first m getenv s first e ∙ rw e' refl, fails)
        ]
      ],
    )
