-- ===== src/Polyline/Numbers.antt =====
-- The encoding of one number reads back, with what follows it.
use maglev.Prelude.{
  ℕ, zero, suc, ◌+◌, ◌-◌, ◌*◌, ◌/◌, ◌%◌, ◌≤◌, ◌<◌, true, false, Option, none, some, [], ◌∷◌, ◌++◌,
  Text, leb, ltb, eqb, if◌then◌else◌, ◌>>=◌, ℤ, pos, negsuc, ◌≡◌, refl, arith, Bool-cases, inl, inr,
}
use maglev.Polyline.{continued, encode_loop, encode_number, signed_number, encode_signed_number}

-- a number of the polyline format, and the rest of the text: five bits a byte, the lowest first, less 63,
-- with 32 added to all but the last
unfoldable pub decode_number : Text → Option (ℕ × Text)
decode_number [] = none
decode_number (b ∷ bs) =
    let later = decode_number bs in
    if ltb b 63
    then none
    else if ltb b (63 + 32)
    then some (b - 63, bs)
    else later >>= λ (r : ℕ × Text). some ((b - 63 - 32) + r.0 * 32, r.1)

unfoldable pub unsigned_number : ℕ → ℤ
unsigned_number n = if eqb (n % 2) 0 then pos (n / 2) else negsuc (n / 2)

unfoldable pub decode_signed_number : Text → Option (ℤ × Text)
decode_signed_number bs = decode_number bs >>= λ (r : ℕ × Text). some (unsigned_number r.0, r.1)

last_byte :
    (num : ℕ) (rest : Text) → num < 32 → decode_number ((num + 63) ∷ rest) ≡ some (num, rest)
unfolding decode_number
last_byte num rest h =
    let above : ltb (num + 63) 63 ≡ false = ground arith in
    let last : ltb (num + 63) (63 + 32) ≡ true = ground arith in
    let same : num + 63 - 63 ≡ num = omega arith in rw (above, last, same) refl

continued_byte :
    (num : ℕ) (bs rest : Text)
    → decode_number bs ≡ some (num / 32, rest)
    → decode_number (continued num ∷ bs) ≡ some (num, rest)
unfolding decode_number continued
continued_byte num bs rest h =
    let above : ltb (32 + num % 32 + 63) 63 ≡ false = ground arith in
    let more : ltb (32 + num % 32 + 63) (63 + 32) ≡ false = ground arith in
    let same : (32 + num % 32 + 63 - 63 - 32) + num / 32 * 32 ≡ num = omega arith in
    rw (above, more, h, same) refl

decode-encode_loop :
    (fuel num : ℕ) (rest : Text)
    → num ≤ fuel
    → decode_number (encode_loop fuel num ++ rest) ≡ some (num, rest)
unfolding encode_loop
decode-encode_loop zero num rest h = last_byte num rest (omega arith)
decode-encode_loop (suc fuel) num rest h = elim (Bool-cases (leb 32 num)) [
  | inl e ↦ rw e (
      continued_byte num (encode_loop fuel (num / 32) ++ rest) rest
        (decode-encode_loop fuel (num / 32) rest (ground (arith, e))))
  | inr e ↦ rw e (last_byte num rest (ground (arith, e)))
]

unsigned-signed_number : (z : ℤ) → unsigned_number (signed_number z) ≡ z
unfolding unsigned_number signed_number
unsigned-signed_number (pos n) = ground arith
unsigned-signed_number (negsuc n) = ground arith

pub decode-encode_signed_number :
    (z : ℤ) (rest : Text) → decode_signed_number (encode_signed_number z ++ rest) ≡ some (z, rest)
unfolding decode_signed_number encode_signed_number encode_number
decode-encode_signed_number z rest =
    rw
      (
        decode-encode_loop (signed_number z) (signed_number z) rest (omega arith),
        unsigned-signed_number z,
      )
      refl
