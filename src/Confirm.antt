-- ===== src/Confirm.antt =====
-- `confirm` and `confirm_str` of cli/utils.py. A text is the list of its ASCII codes. What `click.prompt` returns, prompt after
-- prompt, are the lines of `inputs`: the default when the user enters nothing. The printing is left out.
pub mod Answers
pub mod Trusted
use filecoin_porep_market_to.Prelude.{
  ℕ, zero, suc, Bool, true, false, not, ◌&&◌, ◌||◌, Option, none, some, List, [], ◌∷◌, ◌++◌, map,
  nonempty, length, Result, ok, err, if◌then◌else◌, leb, ◌==◌,
}
use filecoin_porep_market_to.Base32.{lower}

abbrev pub Text : Type 0
Text = List ℕ

-- What ends a prompt without an answer; `waiting` is a prompt that the lines do not answer yet.
pub data ConfirmError : Type 0 where
  aborted short_answers_not_unique empty_answer should_not_happen waiting : ConfirmError

unfoldable pub same_text : Text → Text → Bool
same_text [] [] = true
same_text [] (c ∷ cs) = false
same_text (c ∷ cs) [] = false
same_text (c ∷ cs) (d ∷ ds) = let rest = same_text cs ds in (c == d) && rest

-- `x in xs`
unfoldable pub text_in : Text → List Text → Bool
text_in x [] = false
text_in x (y ∷ ys) = let rest = text_in x ys in same_text x y || rest

abbrev pub is_space : ℕ → Bool
is_space c = (leb 9 c && leb c 13) || (leb 28 c && leb c 32)

unfoldable pub strip_start : Text → Text
strip_start [] = []
strip_start (c ∷ cs) = let rest = strip_start cs in if is_space c then rest else c ∷ cs

unfoldable pub strip_end : Text → Text
strip_end [] = []
strip_end (c ∷ cs) =
    let rest = strip_end cs in if is_space c && not (nonempty rest) then [] else c ∷ rest

-- `.strip().lower()`
unfoldable pub normal : Text → Text
normal text = map lower (strip_end (strip_start text))

abbrev pub yes_text : Text
yes_text = 121 ∷ 101 ∷ 115 ∷ []

abbrev pub no_text : Text
no_text = 110 ∷ 111 ∷ []

abbrev pub all_text : Text
all_text = 97 ∷ 108 ∷ 108 ∷ []

-- The keys of `{answer[0]: answer for answer in valid_answers}`, or that an answer is empty.
unfoldable pub first_letters : List Text → Result ConfirmError (List Text)
first_letters [] = ok []
first_letters ([] ∷ answers) = err empty_answer
first_letters ((c ∷ cs) ∷ answers) =
    let rest = first_letters answers in
    elim rest [ ok letters ↦ ok ((c ∷ []) ∷ letters) | err e ↦ err e ]

unfoldable pub all_different : List Text → Bool
all_different [] = true
all_different (x ∷ xs) = let rest = all_different xs in not (text_in x xs) && rest

-- `valid_answers_short[answer]`, for keys that are all different.
unfoldable pub short_answer : Text → List Text → Option Text
short_answer answer [] = none
short_answer answer ([] ∷ answers) = short_answer answer answers
short_answer answer ((c ∷ cs) ∷ answers) =
    let rest = short_answer answer answers in
    if same_text answer (c ∷ []) then some (c ∷ cs) else rest

-- The loop of `confirm_str`: prompt until the answer is a valid one. Returns it and the lines left.
unfoldable pub prompt_loop : List Text → List Text → Result ConfirmError Text × List Text
prompt_loop valid_answers [] = (err waiting, [])
prompt_loop valid_answers (line ∷ inputs) =
    let answer = normal line in
    let rest = prompt_loop valid_answers inputs in
    if not (nonempty valid_answers) || text_in answer valid_answers
    then (ok answer, inputs)
    else elim (short_answer answer valid_answers) [ some full ↦ (ok full, inputs) | none ↦ rest ]

-- The answers that are valid, the default among them.
unfoldable pub with_default : Option Text → List Text → List Text
with_default none answers = answers
with_default (some default) answers =
    if nonempty answers && not (text_in default answers) then default ∷ answers else answers

-- `confirm_str`, with short answers allowed.
unfoldable pub confirm_str :
    Option Text → List Text → Option Text → List Text → Result ConfirmError Text × List Text
confirm_str default valid_answers answer inputs =
    let valid = with_default default (map normal valid_answers) in
    elim (first_letters valid) [
      | err e ↦ (err e, inputs)
      | ok letters ↦
          if not (all_different letters)
          then (err short_answers_not_unique, inputs)
          else elim answer [
            | some given ↦ (ok (normal given), inputs)
            | none ↦ prompt_loop valid inputs
          ]
    ]

-- The set `_confirm_yes_for_all_sessions`, and the lines that the user will enter.
pub record Prompts : Type 0 where
  pub yes_for_all : List Text
  pub inputs : List Text

-- `_confirm_yes_for_all_sessions.add(session_id)`
unfoldable pub add_session : Text → List Text → List Text
add_session session sessions = if text_in session sessions then sessions else session ∷ sessions

unfoldable pub default_text : Option Bool → Option Text
default_text none = none
default_text (some true) = some yes_text
default_text (some false) = some no_text

-- What `confirm` makes of the answer of `confirm_str`; no session is the empty text, which is false as well.
unfoldable pub judge :
    Bool
    → Text
    → List Text
    → Result ConfirmError Text × List Text
    → Result ConfirmError Bool × Prompts
judge abort session yes_for_all (err e, inputs) =
    (err e, record { yes_for_all = yes_for_all; inputs = inputs })
judge abort session yes_for_all (ok raw, inputs) =
    let answer = normal raw in
    let after : Prompts = record { yes_for_all = yes_for_all; inputs = inputs } in
    let added : Prompts = record {
      yes_for_all = add_session session yes_for_all;
      inputs = inputs;
    } in
    if text_in answer (no_text ∷ [])
    then ((if abort then err aborted else ok false), after)
    else if text_in answer (if nonempty session then all_text ∷ [] else []) && nonempty session
    then (ok true, added)
    else if text_in answer (yes_text ∷ [])
    then (ok true, after)
    else (err should_not_happen, after)

unfoldable pub confirm : Option Bool → Bool → Text → Prompts → Result ConfirmError Bool × Prompts
confirm default abort session prompts =
    let given =
      if nonempty session && text_in session prompts.yes_for_all then some yes_text else none in
    let yes_for_all_answers = if nonempty session then all_text ∷ [] else [] in
    judge abort session prompts.yes_for_all (
      confirm_str (default_text default) (yes_text ∷ no_text ∷ yes_for_all_answers) given
        prompts.inputs)
