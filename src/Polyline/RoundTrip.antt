-- ===== src/Polyline/RoundTrip.antt =====
-- A polyline decodes to the coordinates it was made of, floored.
use maglev.Prelude.{
  ℕ, zero, suc, ◌≤◌, false, Option, none, some, List, [], ◌∷◌, ◌++◌, length, length-append, Text,
  is_empty, if◌then◌else◌, ◌>>=◌, ℤ, pos, add_int, sub_int, add_int-sub_int, ◌≡◌, refl, arith,
}
use maglev.Polyline.{encode_signed_number, encode_points, floored, encode_polyline}
use maglev.Polyline.Numbers.{decode_signed_number, decode_number, decode-encode_signed_number}

-- the points of a text, each the one before it plus two numbers of the format
unfoldable pub decode_points : ℕ → ℤ → ℤ → Text → Option (List (ℤ × ℤ))
decode_points zero plat plng bs = if is_empty bs then some [] else none
decode_points (suc fuel) plat plng bs =
    if is_empty bs
    then some []
    else decode_signed_number bs >>= λ (a : ℤ × Text).
        decode_signed_number a.1 >>= λ (b : ℤ × Text).
        decode_points fuel (add_int plat a.0) (add_int plng b.0) b.1 >>= λ rest.
        some ((add_int plat a.0, add_int plng b.0) ∷ rest)

-- a point takes at least one byte
unfoldable pub decode_polyline : Text → Option (List (ℤ × ℤ))
decode_polyline bs = decode_points (length bs) (pos 0) (pos 0) bs

decoded_not_empty :
    (bs : Text) (r : ℤ × Text)
    → decode_signed_number bs ≡ some r
    → (is_empty bs ≡ false) × (1 ≤ length bs)
unfolding decode_signed_number decode_number
decoded_not_empty [] r e = absurd (cc e)
decoded_not_empty (b ∷ bs) r e = (refl, omega arith)

decode-encode_points :
    (fuel : ℕ) (plat plng : ℤ) (cs : List (ℤ × ℤ))
    → length cs ≤ fuel
    → decode_points fuel plat plng (encode_points plat plng cs) ≡ some cs
unfolding decode_points encode_points
decode-encode_points zero plat plng [] h = refl
decode-encode_points zero plat plng (c ∷ cs) h = absurd (omega arith)
decode-encode_points (suc fuel) plat plng [] h = refl
decode-encode_points (suc fuel) plat plng (c ∷ cs) h =
    let later = encode_points c.0 c.1 cs in
    let second = encode_signed_number (sub_int c.1 plng) ++ later in
    let a = decode-encode_signed_number (sub_int c.0 plat) second in
    let b = decode-encode_signed_number (sub_int c.1 plng) later in
    let full =
      (decoded_not_empty (encode_signed_number (sub_int c.0 plat) ++ second)
        (sub_int c.0 plat, second) a).0 in
    rw
      (
        full,
        a,
        b,
        add_int-sub_int plat c.0,
        add_int-sub_int plng c.1,
        decode-encode_points fuel c.0 c.1 cs (omega (arith, h)),
      )
      refl

length-encode_signed_number : (z : ℤ) → 1 ≤ length (encode_signed_number z)
length-encode_signed_number z =
    let bs = encode_signed_number z in
    omega (
      arith,
      length-append bs [],
      (decoded_not_empty (bs ++ []) (z, []) (decode-encode_signed_number z [])).1,
    )

length-encode_points :
    (plat plng : ℤ) (cs : List (ℤ × ℤ)) → length cs ≤ length (encode_points plat plng cs)
unfolding encode_points
length-encode_points plat plng [] = omega arith
length-encode_points plat plng (c ∷ cs) =
    let later = encode_points c.0 c.1 cs in
    let second = encode_signed_number (sub_int c.1 plng) ++ later in
    omega (
      arith,
      length-append (encode_signed_number (sub_int c.0 plat)) second,
      length-encode_points c.0 c.1 cs,
      length-append (encode_signed_number (sub_int c.1 plng)) later,
      length-encode_signed_number (sub_int c.0 plat),
    )

module _ {N : Type 0} (floor1e5 : N → ℤ) where
  -- For any floor and any coordinates, the polyline that `EncodePolyline` writes decodes, by the rules of
  -- the format, to the floored coordinates, all of them and in their order.
  pub decode-encode_polyline :
      (coords : List (N × N))
      → decode_polyline (encode_polyline floor1e5 coords) ≡ some (floored floor1e5 coords)
  unfolding decode_polyline encode_polyline
  decode-encode_polyline coords =
      decode-encode_points (length (encode_points (pos 0) (pos 0) (floored floor1e5 coords)))
        (pos 0) (pos 0) (floored floor1e5 coords)
        (length-encode_points (pos 0) (pos 0) (floored floor1e5 coords))
