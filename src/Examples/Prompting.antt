-- ===== src/Examples/Prompting.antt =====
-- The theorems on prompts and on the self-update, at a few lines that a user enters and at a small repository.
use filecoin_porep_market_to.Prelude.{
  ℕ, ◌≡◌, ◌⊎◌, refl, Bool, true, false, none, some, List, [], ◌∷◌, ◌++◌, ok, if◌then◌else◌, ◌==◌,
}
use filecoin_porep_market_to.Confirm.{
  Text, Prompts, confirm, confirm_str, judge, prompt_loop, with_default, default_text,
  first_letters, all_different, short_answer, text_in, same_text, normal, strip_start, strip_end,
  add_session,
}
use filecoin_porep_market_to.Confirm.Answers.{ask, confirm-reads}
use filecoin_porep_market_to.Confirm.Trusted.{
  Reached, start, prompted, lines_read, SaidAll, Reached-SaidAll,
}
use filecoin_porep_market_to.Base32.{lower}
use filecoin_porep_market_to.Update.{Git, Run, MergeEnd, main_branch, check_and_prompt}
use filecoin_porep_market_to.Update.Safety.{merges, MergesSafely, check_and_prompt-MergesSafely}

-- `sp`
abbrev session_name : Text
session_name = 115 ∷ 112 ∷ []

-- ` maybe`, `ALL` and `n`.
abbrev entered : List Text
entered = (32 ∷ 109 ∷ 97 ∷ 121 ∷ 98 ∷ 101 ∷ []) ∷ (65 ∷ 76 ∷ 76 ∷ []) ∷ (110 ∷ []) ∷ []

abbrev at_first : Prompts
at_first = record { yes_for_all = []; inputs = entered }

abbrev behind_all : Prompts
behind_all = record { yes_for_all = session_name ∷ []; inputs = (110 ∷ []) ∷ [] }

confirm-reads_example :
    confirm (some true) true session_name at_first ≡ ask true session_name [] entered
unfolding text_in
confirm-reads_example = confirm-reads (some true) true session_name at_first

-- The first prompt of the session reads two lines, the second one none.
answered_all : confirm (some true) true session_name at_first ≡ (ok true, behind_all)
unfolding confirm judge confirm_str with_default default_text first_letters all_different
    short_answer prompt_loop text_in same_text normal strip_start strip_end lower add_session
answered_all = refl

not_asked_again : confirm none false session_name behind_all ≡ (ok true, behind_all)
unfolding confirm judge confirm_str with_default default_text first_letters all_different
    short_answer prompt_loop text_in same_text normal strip_start strip_end lower add_session
not_asked_again = refl

abbrev after_first : Prompts
after_first = (confirm (some true) true session_name at_first).1

first_run : Reached (lines_read session_name entered after_first.inputs ++ []) after_first
first_run = prompted (some true) true session_name (start entered)

session_there : text_in session_name after_first.yes_for_all ≡ true
unfolding confirm judge confirm_str with_default default_text first_letters all_different
    short_answer prompt_loop text_in same_text normal strip_start strip_end lower add_session
session_there = refl

Reached-SaidAll_example :
    (true ≡ true) × SaidAll session_name (lines_read session_name entered after_first.inputs ++ [])
Reached-SaidAll_example = Reached-SaidAll session_name first_run session_there

-- A repository on main at commit 1, where the remote has commit 2, and a user who agrees.
abbrev small_git : Git ℕ
small_git = record {
  env = λ name w. none;
  repo_opens = λ w. true;
  detached = λ w. false;
  tracking_branch = λ w. some (some (session_name, main_branch));
  fetch = λ remote branch w. (true, w);
  remote_sha = λ remote branch w. some 2;
  head_sha = λ w. some w;
  count_commits = λ from to w. some (if from == 1 then 1 else 0);
  is_dirty = λ w. some false;
  active_branch = λ w. some main_branch;
  confirm = λ w. (some true, w);
  merge_ff_only = λ remote branch w. (MergeEnd.merge_done, 2);
}

abbrev at_one : Run ℕ
at_one = record { world = 1; log = [] }

abbrev updated_run : Bool × Run ℕ
updated_run = check_and_prompt small_git false at_one

check_and_prompt-MergesSafely_example :
    ((merges updated_run.1.log ≡ []) × (updated_run.0 ≡ false))
    ⊎ MergesSafely small_git false at_one updated_run.0 updated_run.1
check_and_prompt-MergesSafely_example = check_and_prompt-MergesSafely small_git false at_one
