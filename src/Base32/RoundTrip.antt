-- ===== src/Base32/RoundTrip.antt =====
-- A CID in base 32 reads back as its bytes.
use filecoin_porep_market_to.Prelude.{
  ℕ, zero, suc, ◌-◌, ◌*◌, ◌/◌, ◌%◌, ◌^◌, ◌≤◌, ◌<◌, ◌≡◌, ◌≢◌, refl, ap, ◌∙◌, List, [], ◌∷◌, ◌++◌, ok,
  arith, length, length-append, map, All,
}
use filecoin_porep_market_to.Bytes.{from_bytes}
use filecoin_porep_market_to.Base32.{
  pad, pads, digits32, group_letters, rstrip, lower, upper, encode_base32_cid, decode_groups,
  b32decode, decode_base32_cid,
}
use filecoin_porep_market_to.Base32.Groups.{
  IsLetter, letter_plain, core, missing_of, b32encode-core, core-All, length-core,
  letters_value-group, big_endian_five, decode_groups_step, last_group, whole_one, whole_two,
  whole_three, whole_four, nonempty-core,
}

low : 0 < 256
low = omega arith

whole_five :
    (a b c d e : ℕ)
    → from_bytes 0 (a ∷ b ∷ c ∷ d ∷ e ∷ []) / 32 ^ 0 * 32 ^ 0
      ≡ from_bytes 0 (a ∷ b ∷ c ∷ d ∷ e ∷ [])
unfolding from_bytes
whole_five a b c d e = omega arith

decode_groups-core :
    (fuel : ℕ) (bytes : List ℕ)
    → length (core bytes) ≤ fuel
    → All (λ n. n < 256) bytes
    → decode_groups fuel (core bytes) (missing_of bytes) ≡ ok bytes
unfolding decode_groups core missing_of group_letters digits32
decode_groups-core zero [] enough h = refl
decode_groups-core zero (a ∷ []) enough h = absurd (omega arith)
decode_groups-core zero (a ∷ b ∷ []) enough h = absurd (omega arith)
decode_groups-core zero (a ∷ b ∷ c ∷ []) enough h = absurd (omega arith)
decode_groups-core zero (a ∷ b ∷ c ∷ d ∷ []) enough h = absurd (omega arith)
decode_groups-core zero (a ∷ b ∷ c ∷ d ∷ e ∷ bytes) enough h = absurd (omega arith)
decode_groups-core (suc fuel) [] enough h = refl
decode_groups-core (suc fuel) (a ∷ []) enough h =
    last_group fuel 2 6 a 0 0 0 0 refl refl (h.0, (low, (low, (low, (low, tt))))) (whole_one a)
decode_groups-core (suc fuel) (a ∷ b ∷ []) enough h =
    last_group fuel 4 4 a b 0 0 0 refl refl (h.0, (h.1.0, (low, (low, (low, tt))))) (whole_two a b)
decode_groups-core (suc fuel) (a ∷ b ∷ c ∷ []) enough h =
    last_group fuel 5 3 a b c 0 0 refl refl (h.0, (h.1.0, (h.1.1.0, (low, (low, tt)))))
      (whole_three a b c)
decode_groups-core (suc fuel) (a ∷ b ∷ c ∷ d ∷ []) enough h =
    last_group fuel 7 1 a b c d 0 refl refl (h.0, (h.1.0, (h.1.1.0, (h.1.1.1.0, (low, tt)))))
      (whole_four a b c d)
decode_groups-core (suc fuel) (a ∷ b ∷ c ∷ d ∷ e ∷ []) enough h =
    last_group fuel 8 0 a b c d e refl refl h (whole_five a b c d e)
decode_groups-core (suc fuel) (a ∷ b ∷ c ∷ d ∷ e ∷ f ∷ bytes) enough h =
    let five : All (λ n. n < 256) (a ∷ b ∷ c ∷ d ∷ e ∷ []) =
      (h.0, (h.1.0, (h.1.1.0, (h.1.1.1.0, (h.1.1.1.1.0, tt))))) in
    let rest = decode_groups-core fuel (f ∷ bytes) (omega arith) h.1.1.1.1.1 in
    decode_groups_step fuel _ _ (missing_of (f ∷ bytes)) _ (core (f ∷ bytes)) (f ∷ bytes) refl
      (letters_value-group a b c d e five) (nonempty-core f bytes) rest
    ∙ ap (λ group. ok (group ++ f ∷ bytes)) (big_endian_five a b c d e five)

rstrip_append : (xs : List ℕ) (p : ℕ) → All (λ c. c ≢ pad) xs → rstrip (xs ++ pads p) ≡ xs
unfolding rstrip pads
rstrip_append [] zero h = refl
rstrip_append [] (suc p) h = let rest = rstrip_append [] p tt in ground (arith, rest)
rstrip_append (x ∷ xs) p h = let rest = rstrip_append xs p h.1 in ground (arith, rest)

lower-pads : (p : ℕ) → map lower (pads p) ≡ pads p
unfolding lower pads
lower-pads zero = refl
lower-pads (suc p) = ap (λ t. pad ∷ t) (lower-pads p)

map_append : (f : ℕ → ℕ) (xs ys : List ℕ) → map f (xs ++ ys) ≡ map f xs ++ map f ys
map_append f [] ys = refl
map_append f (x ∷ xs) ys = ap (λ t. f x ∷ t) (map_append f xs ys)

upper-lower : (xs : List ℕ) → All IsLetter xs → map upper (map lower xs) ≡ xs
upper-lower [] h = refl
upper-lower (x ∷ xs) h = rw ((letter_plain x h.0).0, upper-lower xs h.1) refl

letters_plain :
    (xs : List ℕ) → All IsLetter xs → All (λ c. c ≢ pad) xs × All (λ c. c ≢ pad) (map lower xs)
letters_plain [] h = (tt, tt)
letters_plain (x ∷ xs) h =
    let (rest, lowered) = letters_plain xs h.1 in
    let (same, low_plain, plain) = letter_plain x h.0 in ((plain, rest), (low_plain, lowered))

length-pads : (p : ℕ) → length (pads p) ≡ p
unfolding pads
length-pads zero = refl
length-pads (suc p) = ap suc (length-pads p)

-- What the encoder writes: `b` and the letters without the padding.
encode_base32_cid-core : (bytes : List ℕ) → encode_base32_cid bytes ≡ 98 ∷ map lower (core bytes)
unfolding encode_base32_cid
encode_base32_cid-core bytes =
    let plain = (letters_plain (core bytes) (core-All bytes)).1 in
    rw
      (
        b32encode-core bytes,
        map_append lower (core bytes) (pads (missing_of bytes)),
        lower-pads (missing_of bytes),
      )
      (ap (λ t. 98 ∷ t) (rstrip_append (map lower (core bytes)) (missing_of bytes) plain))

b32decode-core :
    (bytes : List ℕ)
    → All (λ n. n < 256) bytes
    → b32decode (core bytes ++ pads (missing_of bytes)) ≡ ok bytes
unfolding b32decode
b32decode-core bytes h =
    let (groups, whole, few, is_pad) = length-core bytes in
    let stripped =
      rstrip_append (core bytes) (missing_of bytes)
        (letters_plain (core bytes) (core-All bytes)).0 in
    let decoded = decode_groups-core (length (core bytes)) bytes (omega arith) h in
    let size : length (core bytes ++ pads (missing_of bytes)) ≡ 8 * groups =
      length-append (core bytes) (pads (missing_of bytes))
      ∙ rw (length-pads (missing_of bytes)) whole in
    let missing : length (core bytes ++ pads (missing_of bytes)) - length (core bytes)
        ≡ missing_of bytes =
      omega arith in
    let whole_groups : 8 * groups % 8 ≡ 0 = omega arith in
    rw (stripped, missing, size, whole_groups, is_pad) decoded

-- `_decode_base32_cid` gives back the bytes that `_encode_base32_cid` is given, for every list of
-- bytes, whatever its length.
pub decode_base32_cid-encode_base32_cid :
    (bytes : List ℕ)
    → All (λ n. n < 256) bytes
    → decode_base32_cid (encode_base32_cid bytes) ≡ ok bytes
unfolding decode_base32_cid
decode_base32_cid-encode_base32_cid bytes h =
    let (groups, whole, few, is_pad) = length-core bytes in
    let missing : (8 - length (core bytes) % 8) % 8 ≡ missing_of bytes = omega arith in
    rw (encode_base32_cid-core bytes, upper-lower (core bytes) (core-All bytes))
      (rw (missing) (b32decode-core bytes h))
