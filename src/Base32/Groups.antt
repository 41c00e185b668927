-- ===== src/Base32/Groups.antt =====
-- The groups of eight letters of `b32encode`, and what `b32decode` reads of each.
use native.Mathlib.Nat.{pow-suc, div-div-eq-div-mul}
use mathlib.Core.List.{append_assoc}
use filecoin_porep_market_to.Prelude.{
  ℕ, zero, suc, ◌+◌, ◌-◌, ◌*◌, ◌/◌, ◌%◌, ◌^◌, ◌≤◌, ◌<◌, ◌≡◌, ◌≢◌, refl, ap, sym, ◌∙◌, true, some,
  List, [], ◌∷◌, ◌++◌, ok, arith, length, take, drop, map, nonempty, All,
}
use filecoin_porep_market_to.Bytes.{from_bytes, big_endian}
use filecoin_porep_market_to.Base32.{
  pad, pads, letter, digit_of, digits32, group_letters, b32encode, lower, upper, letters_value,
  last_bytes, decode_groups, is_padding,
}

-- A capital letter of the alphabet, or one of its digits.
abbrev pub IsLetter : ℕ → Type 0
IsLetter c = (digit : ℕ) × (digit < 32) × (c ≡ letter digit)

digit_of-letter : (d : ℕ) → d < 32 → digit_of (letter d) ≡ some d
unfolding digit_of letter
digit_of-letter d h = ground arith

pub letter_plain : (c : ℕ) → IsLetter c → (upper (lower c) ≡ c) × (lower c ≢ pad) × (c ≢ pad)
unfolding letter lower upper
letter_plain c (d, h, e) = ground arith

letters_value-digits32 :
    (size x acc : ℕ) → x / 32 ^ size ≡ acc → letters_value acc (map letter (digits32 size x)) ≡ ok x
unfolding letters_value digits32
letters_value-digits32 zero x acc h = ap ok (omega arith)
letters_value-digits32 (suc size) x acc h =
    let here = digit_of-letter (x / 32 ^ size % 32) (omega arith) in
    let above : x / 32 ^ size / 32 ≡ acc =
      rw (div-div-eq-div-mul x (32 ^ size) 32) (rw (← pow-suc 32 size) h) in
    rw (here, letters_value)
      (letters_value-digits32 size x (acc * 32 + x / 32 ^ size % 32) (omega arith))

pub big_endian_five :
    (a b c d e : ℕ)
    → All (λ n. n < 256) (a ∷ b ∷ c ∷ d ∷ e ∷ [])
    → big_endian 5 (from_bytes 0 (a ∷ b ∷ c ∷ d ∷ e ∷ [])) ≡ a ∷ b ∷ c ∷ d ∷ e ∷ []
unfolding big_endian from_bytes
big_endian_five a b c d e h = ground arith

abbrev pub zeros : List ℕ → List ℕ
zeros (a ∷ []) = a ∷ 0 ∷ 0 ∷ 0 ∷ 0 ∷ []
zeros (a ∷ b ∷ []) = a ∷ b ∷ 0 ∷ 0 ∷ 0 ∷ []
zeros (a ∷ b ∷ c ∷ []) = a ∷ b ∷ c ∷ 0 ∷ 0 ∷ []
zeros (a ∷ b ∷ c ∷ d ∷ []) = a ∷ b ∷ c ∷ d ∷ 0 ∷ []
zeros bytes = bytes

-- The letters of the bytes without the padding, and how many characters of padding follow.
unfoldable pub core : List ℕ → List ℕ
core [] = []
core (a ∷ []) = take 2 (group_letters (zeros (a ∷ [])))
core (a ∷ b ∷ []) = take 4 (group_letters (zeros (a ∷ b ∷ [])))
core (a ∷ b ∷ c ∷ []) = take 5 (group_letters (zeros (a ∷ b ∷ c ∷ [])))
core (a ∷ b ∷ c ∷ d ∷ []) = take 7 (group_letters (zeros (a ∷ b ∷ c ∷ d ∷ [])))
core (a ∷ b ∷ c ∷ d ∷ e ∷ bytes) = group_letters (a ∷ b ∷ c ∷ d ∷ e ∷ []) ++ core bytes

unfoldable pub missing_of : List ℕ → ℕ
missing_of [] = 0
missing_of (a ∷ []) = 6
missing_of (a ∷ b ∷ []) = 4
missing_of (a ∷ b ∷ c ∷ []) = 3
missing_of (a ∷ b ∷ c ∷ d ∷ []) = 1
missing_of (a ∷ b ∷ c ∷ d ∷ e ∷ bytes) = missing_of bytes

pub b32encode-core : (bytes : List ℕ) → b32encode bytes ≡ core bytes ++ pads (missing_of bytes)
unfolding b32encode core missing_of pads
b32encode-core [] = refl
b32encode-core (a ∷ []) = refl
b32encode-core (a ∷ b ∷ []) = refl
b32encode-core (a ∷ b ∷ c ∷ []) = refl
b32encode-core (a ∷ b ∷ c ∷ d ∷ []) = refl
b32encode-core (a ∷ b ∷ c ∷ d ∷ e ∷ bytes) = rw (b32encode-core bytes) (
    sym (
      append_assoc (group_letters (a ∷ b ∷ c ∷ d ∷ e ∷ [])) (core bytes) (pads (missing_of bytes))))

digits32-All : (size x : ℕ) → All IsLetter (map letter (digits32 size x))
unfolding digits32
digits32-All zero x = tt
digits32-All (suc size) x = ((x / 32 ^ size % 32, omega arith, refl), digits32-All size x)

take-All {ℓ κ} : {A : Type ℓ} (P : A → Type κ) (n : ℕ) (xs : List A) → All P xs → All P (take n xs)
take-All P zero xs h = tt
take-All P (suc n) [] h = tt
take-All P (suc n) (x ∷ xs) h = (h.0, take-All P n xs h.1)

append-All {ℓ κ} :
    {A : Type ℓ} (P : A → Type κ) (xs ys : List A) → All P xs → All P ys → All P (xs ++ ys)
append-All P [] ys hx hy = hy
append-All P (x ∷ xs) ys hx hy = (hx.0, append-All P xs ys hx.1 hy)

group_letters-All : (bytes : List ℕ) → All IsLetter (group_letters bytes)
unfolding group_letters
group_letters-All bytes = digits32-All 8 (from_bytes 0 bytes)

pub core-All : (bytes : List ℕ) → All IsLetter (core bytes)
unfolding core
core-All [] = tt
core-All (a ∷ []) = take-All IsLetter 2 _ (group_letters-All (zeros (a ∷ [])))
core-All (a ∷ b ∷ []) = take-All IsLetter 4 _ (group_letters-All (zeros (a ∷ b ∷ [])))
core-All (a ∷ b ∷ c ∷ []) = take-All IsLetter 5 _ (group_letters-All (zeros (a ∷ b ∷ c ∷ [])))
core-All (a ∷ b ∷ c ∷ d ∷ []) =
    take-All IsLetter 7 _ (group_letters-All (zeros (a ∷ b ∷ c ∷ d ∷ [])))
core-All (a ∷ b ∷ c ∷ d ∷ e ∷ bytes) =
    append-All IsLetter _ (core bytes) (group_letters-All (a ∷ b ∷ c ∷ d ∷ e ∷ [])) (core-All bytes)

length-digits32 : (size x : ℕ) → length (map letter (digits32 size x)) ≡ size
unfolding digits32
length-digits32 zero x = refl
length-digits32 (suc size) x = ap suc (length-digits32 size x)

pub length-group : (bytes : List ℕ) → length (group_letters bytes) ≡ 8
unfolding group_letters
length-group bytes = length-digits32 8 (from_bytes 0 bytes)

pub length-core :
    (bytes : List ℕ)
    → (groups : ℕ) × (length (core bytes) + missing_of bytes ≡ 8 * groups)
      × (missing_of bytes < 8)
      × (is_padding (missing_of bytes) ≡ true)
unfolding core missing_of group_letters digits32
length-core [] = (0, refl, omega arith, refl)
length-core (a ∷ []) = (1, refl, omega arith, refl)
length-core (a ∷ b ∷ []) = (1, refl, omega arith, refl)
length-core (a ∷ b ∷ c ∷ []) = (1, refl, omega arith, refl)
length-core (a ∷ b ∷ c ∷ d ∷ []) = (1, refl, omega arith, refl)
length-core (a ∷ b ∷ c ∷ d ∷ e ∷ bytes) =
    let (groups, whole, few, ok_padding) = length-core bytes in
    (suc groups, omega arith, few, ok_padding)

drop-append : (xs ys : List ℕ) (n : ℕ) → length xs ≡ n → drop n (xs ++ ys) ≡ ys
drop-append [] ys n h = rw (← h)
drop-append (x ∷ xs) ys zero h = absurd (omega arith)
drop-append (x ∷ xs) ys (suc n) h = drop-append xs ys n (omega arith)

take-append : (xs ys : List ℕ) (n : ℕ) → length xs ≡ n → take n (xs ++ ys) ≡ xs
take-append [] ys n h = rw (← h)
take-append (x ∷ xs) ys zero h = absurd (omega arith)
take-append (x ∷ xs) ys (suc n) h = ap (λ t. x ∷ t) (take-append xs ys n (omega arith))

-- The first letters of a number stand for its highest digits.
letters_value-take :
    (k m x acc : ℕ)
    → x / 32 ^ (k + m) ≡ acc
    → letters_value acc (take k (map letter (digits32 (k + m) x))) ≡ ok (x / 32 ^ m)
unfolding letters_value digits32
letters_value-take zero m x acc h = let e : 0 + m ≡ m = omega arith in ap ok (rw (← e) (sym h))
letters_value-take (suc k) m x acc h =
    let one_more : suc k + m ≡ suc (k + m) = omega arith in
    let h' : x / 32 ^ suc (k + m) ≡ acc = rw (← one_more) h in
    let here = digit_of-letter (x / 32 ^ (k + m) % 32) (omega arith) in
    let above : x / 32 ^ (k + m) / 32 ≡ acc =
      rw (div-div-eq-div-mul x (32 ^ (k + m)) 32) (rw (← pow-suc 32 (k + m)) h') in
    rw (one_more) (
      rw (here, letters_value)
        (letters_value-take k m x (acc * 32 + x / 32 ^ (k + m) % 32) (omega arith)))

from_bytes_bound :
    (a b c d e : ℕ)
    → All (λ n. n < 256) (a ∷ b ∷ c ∷ d ∷ e ∷ [])
    → from_bytes 0 (a ∷ b ∷ c ∷ d ∷ e ∷ []) / 32 ^ 8 ≡ 0
unfolding from_bytes
from_bytes_bound a b c d e h = ground arith

pub letters_value-group :
    (a b c d e : ℕ)
    → All (λ n. n < 256) (a ∷ b ∷ c ∷ d ∷ e ∷ [])
    → letters_value 0 (group_letters (a ∷ b ∷ c ∷ d ∷ e ∷ []))
      ≡ ok (from_bytes 0 (a ∷ b ∷ c ∷ d ∷ e ∷ []))
unfolding group_letters
letters_value-group a b c d e h =
    letters_value-digits32 8 (from_bytes 0 (a ∷ b ∷ c ∷ d ∷ e ∷ [])) 0
      (from_bytes_bound a b c d e h)

pub decode_groups_step :
    (fuel c v missing : ℕ) (cs rest bytes : List ℕ)
    → length (c ∷ cs) ≡ 8
    → letters_value 0 (c ∷ cs) ≡ ok v
    → nonempty rest ≡ true
    → decode_groups fuel rest missing ≡ ok bytes
    → decode_groups (suc fuel) ((c ∷ cs) ++ rest) missing ≡ ok (big_endian 5 v ++ bytes)
unfolding decode_groups
decode_groups_step fuel c v missing cs rest bytes eight read more decoded =
    let taken = take-append (c ∷ cs) rest 8 eight in
    let dropped = drop-append (c ∷ cs) rest 8 eight in ground (arith, taken, dropped)

pub nonempty-core : (a : ℕ) (bytes : List ℕ) → nonempty (core (a ∷ bytes)) ≡ true
unfolding core group_letters digits32
nonempty-core a [] = refl
nonempty-core a (b ∷ []) = refl
nonempty-core a (b ∷ c ∷ []) = refl
nonempty-core a (b ∷ c ∷ d ∷ []) = refl
nonempty-core a (b ∷ c ∷ d ∷ e ∷ bytes) = refl

length_positive : (xs : List ℕ) → nonempty xs ≡ true → 0 < length xs
length_positive [] h = cc
length_positive (x ∷ xs) h = omega arith

take_all : (n : ℕ) (xs : List ℕ) → length xs ≤ n → take n xs ≡ xs
take_all zero [] h = refl
take_all zero (x ∷ xs) h = absurd (omega arith)
take_all (suc n) [] h = refl
take_all (suc n) (x ∷ xs) h = ap (λ t. x ∷ t) (take_all n xs (omega arith))

drop_all : (n : ℕ) (xs : List ℕ) → length xs ≤ n → drop n xs ≡ []
drop_all zero [] h = refl
drop_all zero (x ∷ xs) h = absurd (omega arith)
drop_all (suc n) [] h = refl
drop_all (suc n) (x ∷ xs) h = drop_all n xs (omega arith)

decode_groups_last :
    (fuel c v missing : ℕ) (cs : List ℕ)
    → length (c ∷ cs) ≤ 8
    → letters_value 0 (c ∷ cs) ≡ ok v
    → decode_groups (suc fuel) (c ∷ cs) missing ≡ ok (last_bytes missing v)
unfolding decode_groups
decode_groups_last fuel c v missing cs few read =
    let taken = take_all 8 (c ∷ cs) few in
    let dropped = drop_all 8 (c ∷ cs) few in ground (arith, taken, dropped)

-- The bytes that the letters of a padded group give back.
last_bytes_padded :
    (missing a b c d e : ℕ)
    → All (λ n. n < 256) (a ∷ b ∷ c ∷ d ∷ e ∷ [])
    → from_bytes 0 (a ∷ b ∷ c ∷ d ∷ e ∷ []) / 32 ^ missing * 32 ^ missing
      ≡ from_bytes 0 (a ∷ b ∷ c ∷ d ∷ e ∷ [])
    → last_bytes missing (from_bytes 0 (a ∷ b ∷ c ∷ d ∷ e ∷ []) / 32 ^ missing)
      ≡ take ((43 - 5 * missing) / 8) (a ∷ b ∷ c ∷ d ∷ e ∷ [])
unfolding last_bytes
last_bytes_padded missing a b c d e h whole = rw (whole, big_endian_five a b c d e h)

pub whole_one :
    (a : ℕ)
    → from_bytes 0 (a ∷ 0 ∷ 0 ∷ 0 ∷ 0 ∷ []) / 32 ^ 6 * 32 ^ 6
      ≡ from_bytes 0 (a ∷ 0 ∷ 0 ∷ 0 ∷ 0 ∷ [])
unfolding from_bytes
whole_one a = omega arith

pub whole_two :
    (a b : ℕ)
    → from_bytes 0 (a ∷ b ∷ 0 ∷ 0 ∷ 0 ∷ []) / 32 ^ 4 * 32 ^ 4
      ≡ from_bytes 0 (a ∷ b ∷ 0 ∷ 0 ∷ 0 ∷ [])
unfolding from_bytes
whole_two a b = omega arith

pub whole_three :
    (a b c : ℕ)
    → from_bytes 0 (a ∷ b ∷ c ∷ 0 ∷ 0 ∷ []) / 32 ^ 3 * 32 ^ 3
      ≡ from_bytes 0 (a ∷ b ∷ c ∷ 0 ∷ 0 ∷ [])
unfolding from_bytes
whole_three a b c = omega arith

pub whole_four :
    (a b c d : ℕ)
    → from_bytes 0 (a ∷ b ∷ c ∷ d ∷ 0 ∷ []) / 32 ^ 1 * 32 ^ 1
      ≡ from_bytes 0 (a ∷ b ∷ c ∷ d ∷ 0 ∷ [])
unfolding from_bytes
whole_four a b c d = omega arith

length-take : (k : ℕ) (xs : List ℕ) → length (take k xs) ≤ k
length-take zero xs = omega arith
length-take (suc k) [] = omega arith
length-take (suc k) (x ∷ xs) = let rest = length-take k xs in omega arith

pub decode_groups_short :
    (fuel v missing : ℕ) (xs : List ℕ)
    → nonempty xs ≡ true
    → length xs ≤ 8
    → letters_value 0 xs ≡ ok v
    → decode_groups (suc fuel) xs missing ≡ ok (last_bytes missing v)
decode_groups_short fuel v missing [] some_letter few read = cc
decode_groups_short fuel v missing (c ∷ cs) some_letter few read =
    decode_groups_last fuel c v missing cs few read

pub last_group :
    (fuel k missing a b c d e : ℕ)
    → k + missing ≡ 8
    → nonempty (take k (group_letters (a ∷ b ∷ c ∷ d ∷ e ∷ []))) ≡ true
    → All (λ n. n < 256) (a ∷ b ∷ c ∷ d ∷ e ∷ [])
    → from_bytes 0 (a ∷ b ∷ c ∷ d ∷ e ∷ []) / 32 ^ missing * 32 ^ missing
      ≡ from_bytes 0 (a ∷ b ∷ c ∷ d ∷ e ∷ [])
    → decode_groups (suc fuel) (take k (group_letters (a ∷ b ∷ c ∷ d ∷ e ∷ []))) missing
      ≡ ok (take ((43 - 5 * missing) / 8) (a ∷ b ∷ c ∷ d ∷ e ∷ []))
unfolding group_letters
last_group fuel k missing a b c d e eight some_letter h whole =
    let x = from_bytes 0 (a ∷ b ∷ c ∷ d ∷ e ∷ []) in
    let bound : x / 32 ^ (k + missing) ≡ 0 = rw (eight) (from_bytes_bound a b c d e h) in
    let read = letters_value-take k missing x 0 bound in
    let read' : letters_value 0 (take k (map letter (digits32 8 x))) ≡ ok (x / 32 ^ missing) =
      rw (← eight) read in
    let few = length-take k (map letter (digits32 8 x)) in
    decode_groups_short fuel (x / 32 ^ missing) missing _ some_letter (omega arith) read'
    ∙ ap ok (last_bytes_padded missing a b c d e h whole)
