-- ===== src/Confirm/Answers.antt =====
-- `confirm` against a reading of the lines, one by one.
use filecoin_porep_market_to.Prelude.{
  ℕ, ◌≡◌, ◌⊎◌, inl, inr, refl, ◌∙◌, ap, Bool, true, false, ◌&&◌, ◌||◌, Option, none, some, List, [],
  ◌∷◌, nonempty, Result, ok, err, arith, if◌then◌else◌, Bool-cases,
}
use filecoin_porep_market_to.Confirm.{
  Text, ConfirmError, aborted, waiting, Prompts, same_text, text_in, normal, strip_start, strip_end,
  yes_text, no_text, all_text, first_letters, all_different, short_answer, prompt_loop,
  with_default, confirm_str, add_session, default_text, judge, confirm,
}
use filecoin_porep_market_to.Base32.{lower}

pub data Answer : Type 0 where
  agree refuse agree_for_all : Answer

-- What a line means, in upper or lower case and with spaces around it: `yes` or `y`, `no` or `n`, and in a session `all` or `a`.
unfoldable pub reads_word : Bool → Text → Option Answer
reads_word in_session word =
    if same_text word yes_text || same_text word (121 ∷ [])
    then some Answer.agree
    else if same_text word no_text || same_text word (110 ∷ [])
    then some Answer.refuse
    else if in_session && (same_text word all_text || same_text word (97 ∷ []))
    then some Answer.agree_for_all
    else none

abbrev pub reads : Bool → Text → Option Answer
reads in_session line = reads_word in_session (normal line)

-- Ask until a line means something, and do what it says.
unfoldable pub ask : Bool → Text → List Text → List Text → Result ConfirmError Bool × Prompts
ask abort session yes_for_all [] = (err waiting, record { yes_for_all = yes_for_all; inputs = [] })
ask abort session yes_for_all (line ∷ inputs) =
    let rest = ask abort session yes_for_all inputs in
    elim (reads (nonempty session) line) [
      | none ↦ rest
      | some answer ↦ elim answer [
        | Answer.agree ↦ (ok true, record { yes_for_all = yes_for_all; inputs = inputs })
        | Answer.refuse ↦ (
          (if abort then err aborted else ok false),
          record { yes_for_all = yes_for_all; inputs = inputs },
        )
        | Answer.agree_for_all ↦
            (ok true, record { yes_for_all = add_session session yes_for_all; inputs = inputs })
      ]
    ]

pub same_text-eq : (x y : Text) → same_text x y ≡ true → x ≡ y
unfolding same_text
same_text-eq [] [] h = refl
same_text-eq [] (d ∷ ds) h = cc
same_text-eq (c ∷ cs) [] h = cc
same_text-eq (c ∷ cs) (d ∷ ds) h = let rest = same_text-eq cs ds in ground (arith, rest)

-- The three words are themselves when they are normalized again.
words_normal :
    (normal yes_text ≡ yes_text) × (normal no_text ≡ no_text) × (normal all_text ≡ all_text)
unfolding normal strip_start strip_end lower
words_normal = (refl, refl, refl)

-- What one line makes of the rest of the prompt.
abbrev follow :
    Bool
    → Text
    → List Text
    → List Text
    → Option Answer
    → Result ConfirmError Bool × Prompts
    → Result ConfirmError Bool × Prompts
follow abort session yes_for_all inputs answer rest = elim answer [
  | none ↦ rest
  | some given ↦ elim given [
    | Answer.agree ↦ (ok true, record { yes_for_all = yes_for_all; inputs = inputs })
    | Answer.refuse ↦ (
      (if abort then err aborted else ok false),
      record { yes_for_all = yes_for_all; inputs = inputs },
    )
    | Answer.agree_for_all ↦
        (ok true, record { yes_for_all = add_session session yes_for_all; inputs = inputs })
  ]
]

abbrev session_answers : List Text
session_answers = yes_text ∷ no_text ∷ all_text ∷ []

abbrev plain_answers : List Text
plain_answers = yes_text ∷ no_text ∷ []

-- One line of the loop.
abbrev one_line :
    List Text
    → Text
    → List Text
    → Result ConfirmError Text × List Text
    → Result ConfirmError Text × List Text
one_line valid word inputs rest =
    if text_in word valid
    then (ok word, inputs)
    else elim (short_answer word valid) [ some full ↦ (ok full, inputs) | none ↦ rest ]

abbrev IsWord : Text → Type 0
IsWord word =
    (word ≡ yes_text)
    ⊎ (word ≡ no_text)
    ⊎ (word ≡ all_text)
    ⊎ (word ≡ 121 ∷ [])
    ⊎ (word ≡ 110 ∷ [])
    ⊎ (word ≡ 97 ∷ [])
    ⊎ ((same_text word yes_text ≡ false)
        × (same_text word no_text ≡ false)
        × (same_text word all_text ≡ false)
        × (same_text word (121 ∷ []) ≡ false)
        × (same_text word (110 ∷ []) ≡ false)
        × (same_text word (97 ∷ []) ≡ false))

IsWord-cases : (word : Text) → IsWord word
IsWord-cases word = ground (
  arith,
  same_text-eq word yes_text,
  same_text-eq word no_text,
  same_text-eq word all_text,
  same_text-eq word (121 ∷ []),
  same_text-eq word (110 ∷ []),
  same_text-eq word (97 ∷ []),
)

module _ (abort : Bool) (yes_for_all : List Text) where
  line_in_session :
      (c : ℕ) (cs word : Text) (inputs : List Text) (rest : Result ConfirmError Text × List Text)
      → judge abort (c ∷ cs) yes_for_all (one_line session_answers word inputs rest)
        ≡ follow abort
            (c ∷ cs)
            yes_for_all
            inputs
            (reads_word true word)
            (judge abort (c ∷ cs) yes_for_all rest)
  unfolding judge reads_word text_in same_text short_answer normal strip_start strip_end lower
  line_in_session c cs word inputs rest = elim (IsWord-cases word) [
    | inl e ↦ rw (e) refl
    | inr (inl e) ↦ rw (e) refl
    | inr (inr (inl e)) ↦ rw (e) refl
    | inr (inr (inr (inl e))) ↦ rw (e) refl
    | inr (inr (inr (inr (inl e)))) ↦ rw (e) refl
    | inr (inr (inr (inr (inr (inl e))))) ↦ rw (e) refl
    | inr (inr (inr (inr (inr (inr (y, n, a, y', n', a')))))) ↦ rw (y, n, a, y', n', a') refl
  ]

  loop_in_session :
      (c : ℕ) (cs : Text) (inputs : List Text)
      → judge abort (c ∷ cs) yes_for_all (prompt_loop session_answers inputs)
        ≡ ask abort (c ∷ cs) yes_for_all inputs
  unfolding judge prompt_loop ask
  loop_in_session c cs [] = refl
  loop_in_session c cs (line ∷ inputs) =
      line_in_session c cs (normal line) inputs (prompt_loop session_answers inputs)
      ∙ ap (follow abort (c ∷ cs) yes_for_all inputs (reads true line))
          (loop_in_session c cs inputs)

  plain_line :
      (word : Text) (inputs : List Text) (rest : Result ConfirmError Text × List Text)
      → judge abort [] yes_for_all (one_line plain_answers word inputs rest)
        ≡ follow abort [] yes_for_all inputs
            (reads_word false word)
            (judge abort [] yes_for_all rest)
  unfolding judge reads_word text_in same_text short_answer normal strip_start strip_end lower
  plain_line word inputs rest = elim (IsWord-cases word) [
    | inl e ↦ rw (e) refl
    | inr (inl e) ↦ rw (e) refl
    | inr (inr (inl e)) ↦ rw (e) refl
    | inr (inr (inr (inl e))) ↦ rw (e) refl
    | inr (inr (inr (inr (inl e)))) ↦ rw (e) refl
    | inr (inr (inr (inr (inr (inl e))))) ↦ rw (e) refl
    | inr (inr (inr (inr (inr (inr (y, n, a, y', n', a')))))) ↦ rw (y, n, y', n') refl
  ]

  plain_loop :
      (inputs : List Text)
      → judge abort [] yes_for_all (prompt_loop plain_answers inputs)
        ≡ ask abort [] yes_for_all inputs
  unfolding judge prompt_loop ask
  plain_loop [] = refl
  plain_loop (line ∷ inputs) =
      plain_line (normal line) inputs (prompt_loop plain_answers inputs)
      ∙ ap (follow abort [] yes_for_all inputs (reads false line)) (plain_loop inputs)

-- Whatever the default, `confirm` is the reading of the lines one by one. In a session that the user answered with `all` before, it returns
-- true and reads no line. Otherwise it reads lines until one is yes, no or, in a session, all, each also by its first letter, in upper or lower case and
-- with spaces around it: it returns true on yes and all, adds the session to the set on all alone, and on no returns false or aborts the command. It never raises the error on
-- short answers that are not unique, nor fails its last assertion.
pub confirm-reads :
    (default : Option Bool) (abort : Bool) (session : Text) (prompts : Prompts)
    → confirm default abort session prompts ≡ (
        if nonempty session && text_in session prompts.yes_for_all
        then (ok true, prompts)
        else ask abort session prompts.yes_for_all prompts.inputs)
unfolding confirm confirm_str with_default default_text first_letters all_different text_in
    same_text normal strip_start strip_end lower judge
confirm-reads none abort [] prompts = plain_loop abort prompts.yes_for_all prompts.inputs
confirm-reads (some true) abort [] prompts = plain_loop abort prompts.yes_for_all prompts.inputs
confirm-reads (some false) abort [] prompts = plain_loop abort prompts.yes_for_all prompts.inputs
confirm-reads none abort (c ∷ cs) prompts =
    elim (Bool-cases (text_in (c ∷ cs) prompts.yes_for_all)) [
      | inl trusted ↦ rw (trusted) refl
      | inr new ↦ rw (new) (loop_in_session abort prompts.yes_for_all c cs prompts.inputs)
    ]
confirm-reads (some true) abort (c ∷ cs) prompts =
    elim (Bool-cases (text_in (c ∷ cs) prompts.yes_for_all)) [
      | inl trusted ↦ rw (trusted) refl
      | inr new ↦ rw (new) (loop_in_session abort prompts.yes_for_all c cs prompts.inputs)
    ]
confirm-reads (some false) abort (c ∷ cs) prompts =
    elim (Bool-cases (text_in (c ∷ cs) prompts.yes_for_all)) [
      | inl trusted ↦ rw (trusted) refl
      | inr new ↦ rw (new) (loop_in_session abort prompts.yes_for_all c cs prompts.inputs)
    ]
