-- ===== src/Shell/Parser/Arrays.antt =====
-- The arrays of src/parser.c while a command is being filled: what each write does to the commands
-- that they hold.
use shellforge.Prelude.{
  ℕ, ◌+◌, ◌-◌, ◌<◌, ◌≡◌, refl, sym, ap, ◌∙◌, true, false, Option, none, some, List, [], ◌∷◌, ◌++◌,
  map, arith, leb, set, length, length-append, length-map, Bytes, padded, set-padded_end,
  set-padded_last, padded-default, get_or-padded_last,
}
use mathlib.Core.List.{map-append}
use shellforge.Shell.Parser.{
  Command, Pipeline, init_command, init_pipeline, max_args, max_commands, add_argument, current,
  with_current,
}
use shellforge.Shell.Parser.Abstract.{Simple, empty, with_arg, encode_command, encode}

-- The pipeline while `cur` is being filled.
abbrev pub at : List Simple → Simple → Pipeline
at done cur = encode (done ++ cur ∷ [])

pub encode_command-empty : encode_command empty ≡ init_command
unfolding encode_command init_command padded
encode_command-empty = refl

command_path :
    (c : Simple) (v : Bytes) {argv : List (Option Bytes)} {argc : ℕ}
    → argv ≡ padded none max_args (map some (c.args ++ v ∷ []))
    → argc ≡ length (c.args ++ v ∷ [])
    → record (encode_command c) { argv = argv; argc = argc } ≡ encode_command (with_arg c v)
unfolding encode_command
command_path c v e n = λ i. record {
  argv = e i;
  argc = n i;
  input = c.input;
  output = c.output;
  append = c.append;
  background = c.background;
}

-- Below the limit `add_argument` adds the argument, and keeps NULL behind the last one.
pub encode_command-with_arg :
    (c : Simple) (v : Bytes)
    → length c.args + 1 < max_args
    → add_argument true (encode_command c) v ≡ (true, encode_command (with_arg c v))
unfolding add_argument
encode_command-with_arg c v h = rw open_ (ap (λ x. (true, x)) (command_path c v slots one_more))
  where
    open_ : leb (max_args - 1) (encode_command c).argc ≡ false
    open_ = unfold encode_command in ground arith

    one_more : (encode_command c).argc + 1 ≡ length (c.args ++ v ∷ [])
    one_more = unfold encode_command in omega (arith, length-append c.args (v ∷ []))

    used : List (Option Bytes)
    used = map some c.args

    count : length used ≡ length c.args
    count = length-map {A = Bytes} some c.args

    ends : length (used ++ some v ∷ []) ≡ length c.args + 1
    ends = omega (arith, length-append used (some v ∷ []), count)

    slots :
        set
          (set (encode_command c).argv (encode_command c).argc (some v))
          ((encode_command c).argc + 1)
          none
        ≡ padded none max_args (map some (c.args ++ v ∷ []))
    slots =
        unfold encode_command in
        rw
          (
            map-append {A = Bytes} {B = Option Bytes} some c.args (v ∷ []),
            ← count,
            set-padded_end none max_args used (some v) (omega (arith, count)),
            count,
            ← ends,
          )
          (set-padded_end none max_args (used ++ some v ∷ []) none (omega (arith, ends))
            ∙ padded-default none max_args _)

pub current-at :
    (done : List Simple) (cur : Simple)
    → length done < max_commands
    → current (at done cur) (length done) ≡ encode_command cur
unfolding encode
current-at done cur h =
    rw (map-append encode_command done (cur ∷ []), ← length-map encode_command done)
      (get_or-padded_last init_command max_commands (map encode_command done) (encode_command cur)
        init_command (omega (arith, length-map encode_command done)))

pipeline_path :
    (cs : List Simple) {commands : List Command} {count : ℕ}
    → commands ≡ padded init_command max_commands (map encode_command cs)
    → count ≡ length cs
    → record { commands = commands; command_count = count } ≡ encode cs
unfolding encode
pipeline_path cs e n = λ i. record { commands = e i; command_count = n i }

pub with_current-at :
    (done : List Simple) (cur next : Simple)
    → with_current (at done cur) (length done) (encode_command next) ≡ at done next
unfolding encode
with_current-at done cur next =
    pipeline_path (done ++ next ∷ [])
      (rw
        (
          map-append encode_command done (cur ∷ []),
          map-append encode_command done (next ∷ []),
          ← length-map encode_command done,
        )
        (set-padded_last init_command max_commands (map encode_command done) _ _))
      (omega (arith, length-append done (cur ∷ []), length-append done (next ∷ [])))

pub next-at :
    (done : List Simple) (cur : Simple)
    → record (at done cur) { command_count = (at done cur).command_count + 1 }
      ≡ at (done ++ cur ∷ []) empty
unfolding encode
next-at done cur =
    pipeline_path ((done ++ cur ∷ []) ++ empty ∷ [])
      (rw (map-append encode_command (done ++ cur ∷ []) (empty ∷ []), encode_command-empty)
        (sym (padded-default init_command max_commands _)))
      (omega (arith, length-append (done ++ cur ∷ []) (empty ∷ [])))

-- What `init_pipeline` and the count of 1 leave.
pub encode-start : record init_pipeline { command_count = 1 } ≡ at [] empty
unfolding init_pipeline encode encode_command init_command padded
encode-start = refl
