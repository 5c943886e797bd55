-- ===== src/Examples/Shell.antt =====
-- The theorems about the shell at concrete inputs: its lines, its jobs and its variables.
use shellforge.Prelude.{
  ◌≡◌, refl, ◌≢◌, ◌⊎◌, inr, ℕ, ◌==◌, true, if◌then◌else◌, Option, none, some, List, [], ◌∷◌, map,
  take, ◌++◌, Bytes, codes, All, All-replicate, replicate, subst, arith,
}
use shellforge.Shell.Token.{word, pipe, end, Token}
use shellforge.Shell.Lexer.{
  Lexer, is_delimiter, isspace, lexer_next_token, tokenize_line, max_tokens,
}
use shellforge.Shell.Lexer.Words.{token, next_spec, lex_spec}
use shellforge.Shell.Lexer.Scan
use shellforge.Shell.Lexer.Refine.{enough, Meets, lexer_next_token-Meets}
use shellforge.Shell.Lexer.Lines.{tokenize_line-lex_spec, tokenize_line-EndsInEnd, EndsInEnd}
use shellforge.Shell.Lexer.RoundTrip.{
  Item, bare, quoted, bar, item_token, render, tokenize_line-render,
}
use shellforge.Shell.Parser.{Command, Pipeline, init_pipeline, parse_tokens}
use shellforge.Shell.Parser
use shellforge.Shell.Parser.Abstract.{Simple, empty, Parses, argument, connect, finish, encode}
use shellforge.Shell.Parser.Rounds.{granted}
use shellforge.Shell.Parser.Rounds
use shellforge.Shell.Parser.Refine.{Decides, parse_tokens-Parses}
use shellforge.Shell.Parser.Unique.{parse_tokens_complete}
use shellforge.Shell.Line.{pipeline_items, command_items, IsTypable}
use shellforge.Shell.Line.ReadBack.{parse_tokens-tokenize_line}
use shellforge.Shell.Parser.{free_pipeline}
use shellforge.Shell.Parser.Cleanup.{free_pipeline-encode}
use shellforge.Shell.Parser.Print.{pipeline_print, all_shown, pipeline_print-parse_tokens}
use shellforge.Shell.Jobs.{
  Job, JobTable, job_running, job_finished, free_slot, jobs_init, job_add, job_remove, job_done,
}
use shellforge.Shell.Jobs.Slots.{job_of, Full}
use shellforge.Shell.Jobs.Table.{IsValid, Adds, job_add_cases, job_of-job_remove}
use shellforge.Shell.Jobs.Full.{
  JobEvent, adds, removes, finishes, run, run-jobs_init-IsValid, job_add-run-Full, job_of-job_done,
}
use shellforge.Shell.Result
use shellforge.Shell.Expand.{Memory, expand_string}
use shellforge.Shell.Expand.Text.{IsEnvironment, Expands}
use shellforge.Shell.Expand.Loop.{SomeFails}
use shellforge.Shell.Expand.Refine.{expand_string-Expands}

-- `ls | wc`
abbrev ls_wc : List Token
ls_wc = token pipe (codes "|") ∷ token word (codes "wc") ∷ token end (codes "END") ∷ []

abbrev pub ls : Simple
ls = record empty { args = codes "ls" ∷ [] }

abbrev pub wc : Simple
wc = record empty { args = codes "wc" ∷ []; output = some (codes "out"); background = true }

ls_wc-HasValue : All Rounds.HasValue (token word (codes "ls") ∷ ls_wc)
ls_wc-HasValue = ((_, refl), ((_, refl), ((_, refl), ((_, refl), tt))))

ls_wc-Parses :
    Parses [] empty
      (token word (codes "ls") ∷ ls_wc)
      (ls ∷ record empty { args = codes "wc" ∷ [] } ∷ [])
ls_wc-Parses = argument (codes "ls") refl refl (omega arith) (
    connect refl (λ e. cc) (omega arith)
      (argument (codes "wc") refl refl (omega arith) (finish refl refl)))

parse_tokens-Parses_example :
    Decides
      (parse_tokens granted (some (token word (codes "ls") ∷ ls_wc)) (some init_pipeline))
      (Parses [] empty (token word (codes "ls") ∷ ls_wc))
parse_tokens-Parses_example =
    parse_tokens-Parses (token word (codes "ls")) ls_wc init_pipeline ls_wc-HasValue

pub ls-IsTypable : IsTypable ls
ls-IsTypable = record {
  args_quotable = (omega arith, tt);
  args_some = λ e. cc;
  args_few = omega arith;
  input_quotable = tt;
  output_quotable = tt;
  append_of_output = λ _. refl;
}

pub wc-IsTypable : IsTypable wc
wc-IsTypable = record {
  args_quotable = (omega arith, tt);
  args_some = λ e. cc;
  args_few = omega arith;
  input_quotable = tt;
  output_quotable = omega arith;
  append_of_output = λ _. refl;
}

parse_tokens-tokenize_line_example :
    parse_tokens granted
      (some (tokenize_line (λ _. enough) (render (pipeline_items (ls ∷ wc ∷ [])))))
      (some init_pipeline)
    ≡ Parser.ok (encode (ls ∷ wc ∷ []))
unfolding pipeline_items command_items
parse_tokens-tokenize_line_example =
    parse_tokens-tokenize_line ls (wc ∷ []) init_pipeline (ls-IsTypable, (wc-IsTypable, tt))
      (omega arith) (omega arith)

abbrev piped : Lexer
piped = record { input = codes "ls|wc"; pos = 2; length = 5 }

lexer_next_token-Meets_example :
    Meets piped (lexer_next_token enough piped) (next_spec (Scan.remaining piped))
lexer_next_token-Meets_example =
    lexer_next_token-Meets piped (record { length_is = refl; within = omega arith }) (omega arith)

abbrev items : List Item
items = bare b'l' (codes "s") ∷ bar ∷ quoted b'\'' (codes "a b") ∷ []

tokenize_line-render_example :
    tokenize_line (λ _. enough) (render items)
    ≡ take max_tokens (map item_token items ++ token end (codes "END") ∷ [])
unfolding is_delimiter isspace
tokenize_line-render_example =
    tokenize_line-render items
      (((refl, omega arith), ((refl, omega arith), tt)), (tt, ((inr refl, omega arith), tt)))

tokenize_line-lex_spec_example :
    tokenize_line (λ _. enough) (codes "a >b") ≡ lex_spec max_tokens (codes "a >b")
tokenize_line-lex_spec_example = tokenize_line-lex_spec (codes "a >b") (omega arith)

tokenize_line-EndsInEnd_example : EndsInEnd (tokenize_line (λ _. enough) (codes "a &"))
tokenize_line-EndsInEnd_example = tokenize_line-EndsInEnd (codes "a &") (omega arith) (omega arith)

free_pipeline-encode_example : free_pipeline (encode (ls ∷ wc ∷ [])) ≡ init_pipeline
free_pipeline-encode_example = free_pipeline-encode (ls ∷ wc ∷ [])

abbrev sleeper : JobEvent
sleeper = adds 700 job_running (codes "sleep 9 &")

one_job-IsValid : IsValid (run jobs_init (sleeper ∷ []))
one_job-IsValid = run-jobs_init-IsValid (sleeper ∷ [])

run-jobs_init-IsValid_example :
    IsValid (run jobs_init (sleeper ∷ sleeper ∷ removes 1 ∷ finishes 700 ∷ []))
run-jobs_init-IsValid_example =
    run-jobs_init-IsValid (sleeper ∷ sleeper ∷ removes 1 ∷ finishes 700 ∷ [])

job_add_cases_example :
    Adds
      (run jobs_init (sleeper ∷ []))
      800
      job_running
      (codes "top")
      (job_add true (run jobs_init (sleeper ∷ [])) 800 job_running (some (codes "top")))
    ⊎ (Full (run jobs_init (sleeper ∷ [])).jobs
        × (job_add true (run jobs_init (sleeper ∷ [])) 800 job_running (some (codes "top"))
            ≡ (none, run jobs_init (sleeper ∷ []))))
job_add_cases_example =
    job_add_cases (run jobs_init (sleeper ∷ [])) 800 job_running (codes "top") one_job-IsValid

abbrev job_seven : Job
job_seven = record { job_id = 7; pgid = 700; state = job_running; command = none }

abbrev full_table : JobTable
full_table = record { jobs = replicate 64 job_seven; next_job_id = 8 }

job_add-run-Full_example :
    job_add true (run full_table (sleeper ∷ finishes 700 ∷ [])) 800 job_running (some (codes "top"))
    ≡ (none, run full_table (sleeper ∷ finishes 700 ∷ []))
job_add-run-Full_example =
    job_add-run-Full full_table (sleeper ∷ finishes 700 ∷ []) 800 job_running (codes "top")
      (All-replicate (λ (j : Job). j.job_id ≢ 0) 64 job_seven (omega arith)) (tt, (tt, tt))

job_of-job_remove_example :
    job_of 1 (job_remove (run jobs_init (sleeper ∷ [])) 1).jobs
    ≡ (if 1 == 1 then none else job_of 1 (run jobs_init (sleeper ∷ [])).jobs)
job_of-job_remove_example =
    job_of-job_remove (run jobs_init (sleeper ∷ [])) 1 1 one_job-IsValid (omega arith) (omega arith)

abbrev small_table : JobTable
small_table = record { jobs = job_seven ∷ free_slot ∷ []; next_job_id = 8 }

job_of-job_done_example :
    (job_of 7 (job_done small_table 700).jobs ≡ some (record job_seven { state = job_finished }))
    × ((m : ℕ) → m ≢ 7 → job_of m (job_done small_table 700).jobs ≡ job_of m small_table.jobs)
unfolding job_of
job_of-job_done_example = job_of-job_done small_table 700 7 (λ _. refl, (λ e. cc, tt)) refl refl

abbrev pub home : Bytes → Option Bytes
home name = some (codes "/root")

pub home-IsEnvironment : IsEnvironment home
home-IsEnvironment name v e =
    subst (λ o. All (λ c. c ≢ 0) (elim o as (λ _. Bytes) [ none ↦ [] | some v ↦ v ])) e
      (omega arith)

abbrev pub memory : Memory
memory = record { first = true; name_at = λ _. true; grow = λ _. true }

expand_string-Expands_example :
    (t : Bytes) × Expands home (codes "a$HOME") t
    × ((expand_string memory home (some (codes "a$HOME")) ≡ Result.ok t)
        ⊎ ((expand_string memory home (some (codes "a$HOME")) ≡ Result.failed) × SomeFails memory))
expand_string-Expands_example =
    expand_string-Expands memory home (codes "a$HOME") home-IsEnvironment (omega arith)

-- The parsed pipeline, with the proof that it is what `parse_tokens` makes.
ls_wc_accepted :
    parse_tokens granted (some (token word (codes "ls") ∷ ls_wc)) (some init_pipeline)
    ≡ Parser.ok (encode (ls ∷ record empty { args = codes "wc" ∷ [] } ∷ []))
ls_wc_accepted =
    parse_tokens_complete (token word (codes "ls")) ls_wc init_pipeline ls_wc-HasValue ls_wc-Parses

pipeline_print-parse_tokens_example :
    (out : List Simple) × Parses [] empty (token word (codes "ls") ∷ ls_wc) out
    × (pipeline_print (some (encode (ls ∷ record empty { args = codes "wc" ∷ [] } ∷ [])))
        ≡ some (all_shown 0 out))
pipeline_print-parse_tokens_example =
    pipeline_print-parse_tokens (token word (codes "ls")) ls_wc init_pipeline
      (encode (ls ∷ record empty { args = codes "wc" ∷ [] } ∷ [])) ls_wc-HasValue ls_wc_accepted
