-- ===== src/Tests/Polylines.antt =====
-- The example of the polyline format, with coordinates that are already times 1e5.
use maglev.Prelude.{some, List, [], ◌∷◌, ℤ, pos, negsuc, sub_int, bytes, ◌≡◌, refl}
use maglev.Polyline.{
  continued, encode_loop, encode_number, signed_number, encode_signed_number, encode_points,
  floored, encode_polyline,
}
use maglev.Polyline.RoundTrip.{decode_polyline, decode-encode_polyline}

abbrev points : List (ℤ × ℤ)
points =
    (pos 3850000, negsuc 12019999)
    ∷ (pos 4070000, negsuc 12094999)
    ∷ (pos 4325200, negsuc 12645299)
    ∷ []

encoded : encode_polyline (λ (z : ℤ). z) points ≡ bytes "_p~iF~ps|U_ulLnnqC_mqNvxq`@"
unfolding encode_polyline encode_points floored encode_signed_number encode_number signed_number
    encode_loop continued sub_int
encoded = refl

decode-encode_polyline_example :
    decode_polyline (encode_polyline (λ (z : ℤ). z) points) ≡ some (floored (λ (z : ℤ). z) points)
decode-encode_polyline_example = decode-encode_polyline (λ (z : ℤ). z) points
