-- ===== src/Source/CompactSplit/Axes.antt =====
-- An encoded frame is decoded to the same counts, and to its sequence number and span code.
use zmk_pointing_tools.Base.{ap, ◌∙◌, true, arith, ℕ, ◌+◌, ◌*◌, ◌/◌, ◌%◌, ◌^◌, ◌<◌, ◌≡◌}
use zmk_pointing_tools.Base.Int.{negsuc, pos, ℤ}
use zmk_pointing_tools.Source.CompactSplit.{pack, in_axis_range, encode_axis, decode_axis}

decode-encode_axis :
    (v : ℤ) (high : ℕ) → in_axis_range v ≡ true → decode_axis (high * 2 ^ 11 + encode_axis v) ≡ v
unfolding decode_axis encode_axis
decode-encode_axis (pos n) high h = ground arith
decode-encode_axis (negsuc n) high h = ground arith

encode_axis-lt : (v : ℤ) → encode_axis v < 2 ^ 11
unfolding encode_axis
encode_axis-lt (pos n) = ground arith
encode_axis-lt (negsuc n) = ground arith

-- The fields of a packet.
pub pack-fields :
    (span sequence : ℕ) (x y : ℤ)
    → span < 16
    → sequence < 16
    → in_axis_range x ≡ true
    → in_axis_range y ≡ true
    → (pack span sequence x y / 2 ^ 30 % 4 ≡ 2)
      × (pack span sequence x y / 2 ^ 26 % 16 ≡ span)
      × (pack span sequence x y / 2 ^ 22 % 16 ≡ sequence)
      × (decode_axis (pack span sequence x y / 2 ^ 11) ≡ y)
      × (decode_axis (pack span sequence x y) ≡ x)
      × (pack span sequence x y < 2 ^ 32)
unfolding pack
pack-fields span sequence x y span_bound sequence_bound x_range y_range =
    let x_bound = encode_axis-lt x in
    let y_bound = encode_axis-lt y in
    let x_place : pack span sequence x y
        ≡ (2 * 2 ^ 19 + span * 2 ^ 15 + sequence * 2 ^ 11 + encode_axis y) * 2 ^ 11
          + encode_axis x =
      omega arith in
    let y_place : pack span sequence x y / 2 ^ 11
        ≡ (2 * 2 ^ 8 + span * 2 ^ 4 + sequence) * 2 ^ 11 + encode_axis y =
      omega arith in
    (
      omega arith,
      omega arith,
      omega arith,
      ap decode_axis y_place ∙ decode-encode_axis y _ y_range,
      ap decode_axis x_place ∙ decode-encode_axis x _ x_range,
      omega arith,
    )
