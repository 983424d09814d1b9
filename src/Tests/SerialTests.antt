-- ===== src/Tests/SerialTests.antt =====
-- The serial link at packets of four bytes with headers of two.
use idit_sdn.Base.{◌≡◌, refl, arith, true, false, none, some, [], ◌∷◌}
use idit_sdn.Serial.{Serial, buffer, receive_all, frame_decode, escape_bytes, invert}
use idit_sdn.Serial.RoundTrip.{take, frame_decode-receive_all}
use idit_sdn.Serial.Overflow.{receive_all-overflow}

abbrev idle : Serial
idle = record {
  escape_character = false;
  overflow = false;
  frame_length = 0;
  at_p2 = false;
  p1 = 9 ∷ 9 ∷ 9 ∷ 9 ∷ [];
  p2 = 9 ∷ 9 ∷ 9 ∷ 9 ∷ [];
}

-- The bytes 126 and 125 are escaped.
frame-example : frame_decode (1 ∷ 126 ∷ 125 ∷ []) ≡ 126 ∷ 1 ∷ 125 ∷ 94 ∷ 125 ∷ 93 ∷ 126 ∷ []
unfolding frame_decode escape_bytes invert
frame-example = refl

frame_decode-receive_all_example :
    (s' : Serial) × (receive_all 2 4 (frame_decode (1 ∷ 126 ∷ 125 ∷ [])) idle
      ≡ some (false ∷ [], s'))
    × (take 3 (buffer false s') ≡ 1 ∷ 126 ∷ 125 ∷ [])
    × (s'.at_p2 ≡ true)
    × (s'.frame_length ≡ 0)
    × (s'.escape_character ≡ false)
    × (s'.overflow ≡ false)
frame_decode-receive_all_example =
    frame_decode-receive_all 2 4 (1 ∷ 126 ∷ 125 ∷ []) idle refl refl (omega arith) refl
      (omega arith) (omega arith)

receive_all-overflow_example : receive_all 2 4 (frame_decode (1 ∷ 2 ∷ 3 ∷ 4 ∷ 126 ∷ [])) idle ≡ none
receive_all-overflow_example =
    receive_all-overflow 2 4 (1 ∷ 2 ∷ 3 ∷ 4 ∷ []) 126 [] idle refl refl (omega arith) refl refl
