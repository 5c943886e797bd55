-- ===== src/Shell/CommandText/Fits.antt =====
-- The texts of src/executor.c for the job table: the one of a pipeline fits its buffer, and the one
-- of a single command does for short commands only.
use shellforge.Prelude.{
  ℕ, ◌+◌, ◌≤◌, ◌<◌, ◌≡◌, refl, sym, ap, ◌∙◌, true, Bool-cases, inl, inr, ◌⊎◌, ltb, ltb→lt,
  append-nil, Option, none, some, List, [], ◌∷◌, ◌++◌, leb, if◌then◌else◌, length, length-append,
  map, append_assoc, arith, Bytes, codes,
}
use shellforge.Shell.Result.{Result, ok, fault, ◌>>=◌, strcat}
use shellforge.Shell.Parser.{Command, Pipeline}
use shellforge.Shell.CommandText.{
  args_of, commands_of, is_background, is_empty, args_size, commands_size, command_size,
  append_word, append_args, append_commands, build_command_string, append_rest, background_string,
}

-- The text that is meant, behind what stands already.
abbrev word_text : Bytes → Bytes → Bytes
word_text text a = (if is_empty text then text else text ++ codes " ") ++ a

unfoldable pub args_text : Bytes → List (Option Bytes) → Bytes
args_text text [] = text
args_text text (none ∷ more) = args_text text more
args_text text (some a ∷ more) = args_text (word_text text a) more

unfoldable pub commands_text : Bytes → List Command → Bytes
commands_text text [] = text
commands_text text (c ∷ []) = args_text text (args_of c)
commands_text text (c ∷ d ∷ cs) = commands_text (args_text text (args_of c) ++ codes " | ") (d ∷ cs)

unfoldable pub command_text : Pipeline → Bytes
command_text p =
    let text = commands_text [] (commands_of p) in
    if is_background p then text ++ codes " &" else text

strcat_room :
    (size : ℕ) (text s : Bytes)
    → length text + length s < size
    → strcat size text s ≡ ok (text ++ s)
unfolding strcat
strcat_room size text s h = ground arith

word_text-size : (text a : Bytes) → length (word_text text a) ≤ length text + length a + 1
word_text-size [] a = omega arith
word_text-size (c ∷ t) a =
    omega (arith, length-append (c ∷ t) (codes " "), length-append ((c ∷ t) ++ codes " ") a)

append_word_room :
    (size : ℕ) (text a : Bytes)
    → length text + length a + 1 < size
    → append_word size text a ≡ ok (word_text text a)
unfolding append_word
append_word_room size [] a h = strcat_room size [] a (omega arith)
append_word_room size (c ∷ t) a h =
    rw (strcat_room size (c ∷ t) (codes " ") (omega arith))
      (strcat_room size ((c ∷ t) ++ codes " ") a (omega (arith, length-append (c ∷ t) (codes " "))))

-- What is appended fits, and takes no more than its part of the size.
Fit : ℕ → Bytes → ℕ → Result Bytes → Bytes → Type 0
Fit size text n r t = (r ≡ ok t) × (length t ≤ length text + n)

append_args-fits :
    (size : ℕ) (text : Bytes) (more : List (Option Bytes))
    → length text + args_size more < size
    → (append_args size text more ≡ ok (args_text text more))
      × (length (args_text text more) ≤ length text + args_size more)
unfolding append_args args_text args_size
append_args-fits size text [] h = (refl, omega arith)
append_args-fits size text (none ∷ more) h = append_args-fits size text more h
append_args-fits size text (some a ∷ more) h =
    let (e, l) =
      append_args-fits size (word_text text a) more (omega (arith, word_text-size text a)) in
    (rw (append_word_room size text a (omega arith)) e, omega (arith, l, word_text-size text a))

append_commands-fits :
    (size : ℕ) (text : Bytes) (cs : List Command)
    → length text + commands_size cs < size
    → (append_commands size text cs ≡ ok (commands_text text cs))
      × (length (commands_text text cs) ≤ length text + commands_size cs)
unfolding append_commands commands_text commands_size
append_commands-fits size text [] h = (refl, omega arith)
append_commands-fits size text (c ∷ []) h = append_args-fits size text (args_of c) h
append_commands-fits size text (c ∷ d ∷ cs) h =
    let (e, l) = append_args-fits size text (args_of c) (omega arith) in
    let t = args_text text (args_of c) in
    let bar = length-append t (codes " | ") in
    let (e', l') = append_commands-fits size (t ++ codes " | ") (d ∷ cs) (omega (arith, l, bar)) in
    (rw (e, strcat_room size t (codes " | ") (omega (arith, l))) e', omega (arith, l, l', bar))

command_size-le : (p : Pipeline) → commands_size (commands_of p) < command_size p
unfolding command_size
command_size-le p = omega arith

command_size-background :
    (p : Pipeline) → is_background p ≡ true → command_size p ≡ commands_size (commands_of p) + 4
unfolding command_size
command_size-background p b = rw b (omega arith)

-- For every pipeline, `build_command_string` writes the commands with their arguments, a bar
-- between them and `&` behind a background pipeline, and never writes outside of the buffer whose
-- size it has computed, where `malloc` gives it.
pub build_command_string-command_text :
    (p : Pipeline) → build_command_string true (some p) ≡ ok (command_text p)
unfolding build_command_string command_text
build_command_string-command_text p =
    let (e, l) =
      append_commands-fits (command_size p) [] (commands_of p) (omega (arith, command_size-le p)) in
    elim (Bool-cases (is_background p)) [
      | inl b ↦
          rw (e, b)
            (strcat_room (command_size p) (commands_text [] (commands_of p)) (codes " &")
              (omega (arith, l, command_size-background p b)))
      | inr f ↦ rw (e, f) refl
    ]

-- The text of a single command.
unfoldable pub rest_text : List Bytes → Bytes
rest_text [] = []
rest_text (a ∷ others) = codes " " ++ (a ++ rest_text others)

abbrev pub background_text : Bytes → List Bytes → Bytes
background_text a others = a ++ (rest_text others ++ codes " &")

strcat_full :
    (size : ℕ) (text s : Bytes) → size ≤ length text + length s → strcat size text s ≡ fault
unfolding strcat
strcat_full size text s h = ground arith

append_rest_room :
    (size : ℕ) (text : Bytes) (others : List Bytes)
    → length text + length (rest_text others) < size
    → append_rest size text (map some others) ≡ ok (text ++ rest_text others)
unfolding append_rest rest_text
append_rest_room size text [] h = ap ok (sym (append-nil text))
append_rest_room size text (a ∷ others) h =
    let la = length-append a (rest_text others) in
    let lt = length-append text (codes " ") in
    let lta = length-append (text ++ codes " ") a in
    rw
      (
        strcat_room size text (codes " ") (omega arith),
        strcat_room size (text ++ codes " ") a (omega (arith, la, lt)),
      )
      (append_rest_room size ((text ++ codes " ") ++ a) others (omega (arith, la, lt, lta))
        ∙ ap ok (
            append_assoc (text ++ codes " ") a (rest_text others)
            ∙ append_assoc text (codes " ") (a ++ rest_text others)))

-- Where it does not fit with what comes behind, the first write behind the end is a fault.
append_rest_full :
    (size : ℕ) (text : Bytes) (others : List Bytes)
    → size ≤ length text + length (rest_text others) + 2
    → (append_rest size text (map some others) >>= λ t. strcat size t (codes " &")) ≡ fault
unfolding append_rest rest_text
append_rest_full size text [] h = strcat_full size text (codes " &") (omega arith)
append_rest_full size text (a ∷ others) h = elim (Bool-cases (leb (length text + 1 + 1) size)) [
  | inr f ↦ rw (strcat_full size text (codes " ") (ground arith)) refl
  | inl t ↦
      let la = length-append a (rest_text others) in
      let lt = length-append text (codes " ") in
      let lta = length-append (text ++ codes " ") a in
      rw (strcat_room size text (codes " ") (ground arith))
        (elim (Bool-cases (leb (length text + 1 + length a + 1) size)) [
          | inr f ↦ rw (strcat_full size (text ++ codes " ") a (ground (arith, lt))) refl
          | inl u ↦
              rw (strcat_room size (text ++ codes " ") a (ground (arith, lt))) (
                append_rest_full size ((text ++ codes " ") ++ a) others
                  (omega (arith, la, lta, lt)))
        ])
]

-- Where `malloc` answers, the text of a single background command is written whole, with a space
-- between the arguments and `&` behind them, exactly if what follows the first argument is
-- shorter than 64 bytes; otherwise `execute_command` writes behind the end of its buffer.
pub background_string_lem :
    (a : Bytes) (others : List Bytes)
    → ((length (rest_text others) + 2 < 64)
        × (background_string true (map some (a ∷ others)) ≡ ok (background_text a others)))
      ⊎ ((64 ≤ length (rest_text others) + 2)
          × (background_string true (map some (a ∷ others)) ≡ fault))
unfolding background_string
background_string_lem a others = elim (Bool-cases (ltb (length (rest_text others) + 2) 64)) [
  | inl t ↦
      let short = ltb→lt (length (rest_text others) + 2) 64 t in
      inl (
        short,
        rw
            (
              strcat_room (length a + 64) [] a (omega arith),
              append_rest_room (length a + 64) a others (omega arith),
              strcat_room (length a + 64) (a ++ rest_text others) (codes " &")
                  (omega (arith, length-append a (rest_text others))),
            )
            (ap ok (append_assoc a (rest_text others) (codes " &"))),
      )
  | inr f ↦ inr (
    ground arith,
    rw (strcat_room (length a + 64) [] a (omega arith))
        (append_rest_full (length a + 64) a others (ground arith)),
  )
]
