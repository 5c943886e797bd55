-- ===== src/Shell/Parser/Cleanup.antt =====
-- `free_pipeline` of src/parser.c: every string is given back and the commands are as new.
use shellforge.Prelude.{
  ℕ, zero, suc, ◌≡◌, refl, ap, ◌∙◌, Option, none, some, List, [], ◌∷◌, map, length, length-map,
  Bytes, padded, padded-nil, ap₂, false,
}
use shellforge.Shell.Parser.{
  init_command, init_pipeline, max_args, max_commands, clear, free_command, free_commands,
  free_pipeline,
}
use shellforge.Shell.Parser.Abstract.{Simple, empty, encode_command, encode}
use shellforge.Shell.Parser.Arrays.{encode_command-empty}

clear-padded :
    (n : ℕ) (xs : List (Option Bytes)) → clear (length xs) (padded none n xs) ≡ padded none n []
unfolding padded
clear-padded zero [] = refl
clear-padded zero (x ∷ xs) = refl
clear-padded (suc n) [] = refl
clear-padded (suc n) (x ∷ xs) = ap (◌∷◌ none) (clear-padded n xs)

cleared_path :
    {a : List (Option Bytes)}
    → a ≡ padded none max_args []
    → record { argv = a; argc = 0; input = none; output = none; append = false; background = false }
      ≡ encode_command empty
unfolding encode_command
cleared_path e = λ i. record {
  argv = e i;
  argc = 0;
  input = none;
  output = none;
  append = false;
  background = false;
}

free_command-encode_command : (c : Simple) → free_command (encode_command c) ≡ init_command
unfolding free_command encode_command
free_command-encode_command c =
    let cleared : clear (length c.args) (padded none max_args (map some c.args))
        ≡ padded none max_args [] =
      rw (← length-map {A = Bytes} some c.args) (clear-padded max_args (map some c.args)) in
    cleared_path cleared ∙ encode_command-empty

free_commands-encode :
    (n : ℕ) (cs : List Simple)
    → free_commands (length cs) (padded init_command n (map encode_command cs))
      ≡ padded init_command n []
unfolding padded free_commands
free_commands-encode zero [] = refl
free_commands-encode zero (c ∷ cs) = refl
free_commands-encode (suc n) [] = refl
free_commands-encode (suc n) (c ∷ cs) =
    ap₂ ◌∷◌ (free_command-encode_command c) (free_commands-encode n cs)

-- After `free_pipeline` no string of a parsed pipeline is left: every slot of its arrays is as
-- `init_pipeline` made it.
pub free_pipeline-encode : (cs : List Simple) → free_pipeline (encode cs) ≡ init_pipeline
unfolding free_pipeline encode init_pipeline
free_pipeline-encode cs = λ i. record {
  commands = (free_commands-encode max_commands cs ∙ padded-nil init_command max_commands) i;
  command_count = 0;
}
