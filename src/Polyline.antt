-- ===== src/Polyline.antt =====
-- internal/utils/polyline.go: the Google Encoded Polyline of a list of coordinates. The floor of a
-- coordinate times 1e5 is floating-point and a parameter; what follows it is on integers.
pub mod Numbers
pub mod RoundTrip
use maglev.Prelude.{
  ℕ, zero, suc, ◌+◌, ◌*◌, ◌/◌, ◌%◌, List, [], ◌∷◌, ◌++◌, Text, leb, if◌then◌else◌, ℤ, pos, negsuc,
  sub_int,
}

-- `(0x20|(num&0x1f))+63`: the low five bits of `num`, with the sixth set
unfoldable pub continued : ℕ → ℕ
continued num = (32 + num % 32) + 63

-- the loop of `encodeNumber`, on fuel
unfoldable pub encode_loop : ℕ → ℕ → Text
encode_loop zero num = (num + 63) ∷ []
encode_loop (suc fuel) num =
    let later = encode_loop fuel (num / 32) in
    if leb 32 num then continued num ∷ later else (num + 63) ∷ []

-- `encodeNumber`, as what it appends; each step of its loop makes the number smaller
unfoldable pub encode_number : ℕ → Text
encode_number num = encode_loop num num

-- `num << 1`, and its complement where `num` is negative
unfoldable pub signed_number : ℤ → ℕ
signed_number (pos n) = n * 2
signed_number (negsuc n) = n * 2 + 1

-- `encodeSignedNumber`
unfoldable pub encode_signed_number : ℤ → Text
encode_signed_number num = encode_number (signed_number num)

-- the loop of `EncodePolyline`, after `floor1e5`
unfoldable pub encode_points : ℤ → ℤ → List (ℤ × ℤ) → Text
encode_points plat plng [] = []
encode_points plat plng (c ∷ cs) =
    encode_signed_number (sub_int c.0 plat)
    ++ (encode_signed_number (sub_int c.1 plng) ++ encode_points c.0 c.1 cs)

-- `floor1e5` of both coordinates
unfoldable pub floored : {N : Type 0} → (N → ℤ) → List (N × N) → List (ℤ × ℤ)
floored floor1e5 [] = []
floored floor1e5 (c ∷ cs) = (floor1e5 c.0, floor1e5 c.1) ∷ floored floor1e5 cs

-- `EncodePolyline`
unfoldable pub encode_polyline : {N : Type 0} → (N → ℤ) → List (N × N) → Text
encode_polyline floor1e5 coords = encode_points (pos 0) (pos 0) (floored floor1e5 coords)
