-- ===== src/Confirm/Trusted.antt =====
-- Which sessions are in the set `_confirm_yes_for_all_sessions`, over all the prompts of a run.
use mathlib.Core.List.{append_assoc}
use filecoin_porep_market_to.Prelude.{
  ℕ, zero, suc, ◌-◌, ◌≡◌, ◌⊎◌, inl, inr, refl, ◌∙◌, ap, sym, Bool, true, false, ◌&&◌, Option, some,
  List, [], ◌∷◌, ◌++◌, nonempty, length, length-append, take, map, arith, Bool-cases, Option-cases,
}
use filecoin_porep_market_to.Confirm.{Text, Prompts, text_in, add_session, confirm}
use filecoin_porep_market_to.Confirm.Answers.{
  Answer, reads, reads_word, ask, confirm-reads, same_text-eq,
}

-- The lines that a prompt reads, with its session.
unfoldable pub lines_read : Text → List Text → List Text → List (Text × Text)
lines_read session before after =
    map (λ line. (session, line)) (take (length before - length after) before)

-- The states that a run reaches from the empty set, with the lines that its prompts read, each call's before those of the calls before it.
pub data Reached : List (Text × Text) → Prompts → Type 0 where
  start : (inputs : List Text) → Reached [] (record { yes_for_all = []; inputs = inputs })
  prompted :
      {history : List (Text × Text)} {prompts : Prompts} (default : Option Bool) (abort : Bool)
      (session : Text)
      → Reached history prompts
      → Reached
          (lines_read session prompts.inputs (confirm default abort session prompts).1.inputs
            ++ history)
          (confirm default abort session prompts).1

-- One of the lines answered a prompt of the session with all.
abbrev pub SaidAll : Text → List (Text × Text) → Type 0
SaidAll session history =
    (before after : List (Text × Text)) × (line : Text) × (history
      ≡ before ++ (session, line) ∷ after)
    × (reads true line ≡ some Answer.agree_for_all)

-- What a prompt reads and leaves.
abbrev Reads : Text → List Text → List Text → Prompts → Type 0
Reads session yes_for_all inputs after =
    (read : List Text) × (inputs ≡ read ++ after.inputs)
    × ((after.yes_for_all ≡ yes_for_all)
        ⊎ ((nonempty session ≡ true)
            × (after.yes_for_all ≡ add_session session yes_for_all)
            × (skipped : List Text) × (line : Text) × (read ≡ skipped ++ line ∷ [])
            × (reads true line ≡ some Answer.agree_for_all)))

-- An answer of all is one only in a session.
all_in_session :
    (in_session : Bool) (line : Text)
    → reads in_session line ≡ some Answer.agree_for_all
    → (in_session ≡ true) × (reads true line ≡ some Answer.agree_for_all)
unfolding reads_word
all_in_session true line h = (refl, h)
all_in_session false line h = absurd (ground (arith, h))

ask-Reads :
    (abort : Bool) (session : Text) (yes_for_all inputs : List Text)
    → Reads session yes_for_all inputs (ask abort session yes_for_all inputs).1
unfolding ask
ask-Reads abort session yes_for_all [] = ([], refl, inl refl)
ask-Reads abort session yes_for_all (line ∷ inputs) =
    elim (Option-cases (reads (nonempty session) line)) [
      | inl unread ↦
          let (read, split, rest) = ask-Reads abort session yes_for_all inputs in
          rw (unread, ask)
            (
              line ∷ read,
              ap (λ t. line ∷ t) split,
              elim rest [
                | inl same ↦ inl same
                | inr (in_session, added, skipped, last, ends, all) ↦
                    inr (in_session, added, line ∷ skipped, last, ap (λ t. line ∷ t) ends, all)
              ],
            )
      | inr (Answer.agree, read) ↦ rw (read, ask) (line ∷ [], refl, inl refl)
      | inr (Answer.refuse, read) ↦ rw (read, ask) (line ∷ [], refl, inl refl)
      | inr (Answer.agree_for_all, read) ↦
          let (in_session, all) = all_in_session (nonempty session) line read in
          rw (read, ask) (line ∷ [], refl, inr (in_session, refl, [], line, refl, all))
    ]

confirm-Reads :
    (default : Option Bool) (abort : Bool) (session : Text) (prompts : Prompts)
    → Reads session prompts.yes_for_all prompts.inputs (confirm default abort session prompts).1
confirm-Reads default abort session prompts =
    rw (confirm-reads default abort session prompts)
      (elim (Bool-cases (nonempty session && text_in session prompts.yes_for_all)) [
        | inl trusted ↦ rw (trusted) ([], refl, inl refl)
        | inr new ↦ rw (new) (ask-Reads abort session prompts.yes_for_all prompts.inputs)
      ])

take-append {ℓ} : {A : Type ℓ} (xs ys : List A) (n : ℕ) → length xs ≡ n → take n (xs ++ ys) ≡ xs
take-append [] ys n h = rw (← h)
take-append (x ∷ xs) ys zero h = absurd (omega arith)
take-append (x ∷ xs) ys (suc n) h = ap (λ t. x ∷ t) (take-append xs ys n (omega arith))

map-append {ℓ κ} :
    {A : Type ℓ} {B : Type κ} (f : A → B) (xs ys : List A) → map f (xs ++ ys) ≡ map f xs ++ map f ys
map-append f [] ys = refl
map-append f (x ∷ xs) ys = ap (λ t. f x ∷ t) (map-append f xs ys)

lines_read_lem :
    (session : Text) (inputs read after : List Text)
    → inputs ≡ read ++ after
    → lines_read session inputs after ≡ map (λ line. (session, line)) read
unfolding lines_read
lines_read_lem session inputs read after e =
    let count : length read ≡ length inputs - length after =
      omega (arith, ap length e, length-append read after) in
    rw (e) (
      ap (map (λ line. (session, line)))
        (rw (← e) (rw (← count) (rw (e) (take-append read after (length read) refl)))))

-- What was said stays said.
SaidAll-later :
    (session : Text) (entries history : List (Text × Text))
    → SaidAll session history
    → SaidAll session (entries ++ history)
SaidAll-later session entries history (before, after, line, e, said) = (
  entries ++ before,
  after,
  line,
  ap (λ t. entries ++ t) e ∙ sym (append_assoc entries before _),
  said,
)

SaidAll-now :
    (session line : Text) (skipped : List Text) (history : List (Text × Text))
    → reads true line ≡ some Answer.agree_for_all
    → SaidAll session (map (λ l. (session, l)) (skipped ++ line ∷ []) ++ history)
SaidAll-now session line skipped history said =
    let entry : Text → Text × Text = λ l. (session, l) in
    (
      map entry skipped,
      history,
      line,
      ap (λ t. t ++ history) (map-append entry skipped (line ∷ []))
          ∙ append_assoc (map entry skipped) ((session, line) ∷ []) history,
      said,
    )

text_in-add_session :
    (s session : Text) (sessions : List Text)
    → text_in s (add_session session sessions) ≡ true
    → (s ≡ session) ⊎ (text_in s sessions ≡ true)
unfolding add_session text_in
text_in-add_session s session sessions h = ground (arith, same_text-eq s session)

-- However the prompts of a run follow each other and whatever is entered, a session is in the set of those that are no longer prompted only
-- if it has a name and one of the lines that a prompt of this very session read was an answer of all.
pub Reached-SaidAll :
    {history : List (Text × Text)} {prompts : Prompts} (session : Text)
    → Reached history prompts
    → text_in session prompts.yes_for_all ≡ true
    → (nonempty session ≡ true) × SaidAll session history
unfolding text_in
Reached-SaidAll s (start inputs) trusted = cc
Reached-SaidAll s (prompted {history} {prompts} default abort session reached) trusted =
    let (read, split, grown) = confirm-Reads default abort session prompts in
    let entries =
      lines_read_lem session prompts.inputs read (confirm default abort session prompts).1.inputs
        split in
    elim grown [
      | inl same ↦
          let (named, said) = Reached-SaidAll s reached (rw (← same) trusted) in
          (
            named,
            SaidAll-later s
                (lines_read session prompts.inputs (confirm default abort session prompts).1.inputs)
                history said,
          )
      | inr (in_session, added, skipped, line, ends, all) ↦
          elim (text_in-add_session s session prompts.yes_for_all (rw (← added) trusted)) [
            | inr before ↦
                let (named, said) = Reached-SaidAll s reached before in
                (
                  named,
                  SaidAll-later s
                      (lines_read session prompts.inputs
                        (confirm default abort session prompts).1.inputs)
                      history said,
                )
            | inl here ↦
                rw (here, entries, ends) (in_session, SaidAll-now session line skipped history all)
          ]
    ]
