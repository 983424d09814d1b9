-- ===== src/Serial/Overflow.antt =====
-- What a frame that is too long does to the buffers of sdn-serial.c.
use idit_sdn.Base.{ℕ, ◌<◌, ◌≡◌, refl, ◌∙◌, ap, true, false, none}
use idit_sdn.Base.{List, [], ◌∷◌, ◌++◌, length, arith, append_assoc, Bool-cases, inl, inr}
use idit_sdn.Serial.{Serial, buffer, byte_received, receive_all, escape_bytes, frame_decode}
use idit_sdn.Serial.{store_byte, invert}
use idit_sdn.Serial.RoundTrip.{
  invert-special, is_special, receive_all-quiet, receive_all-bytes, receive-boundary,
}

escape_bytes-append :
    (xs ys : List ℕ) → escape_bytes (xs ++ ys) ≡ escape_bytes xs ++ escape_bytes ys
unfolding escape_bytes
escape_bytes-append [] ys = refl
escape_bytes-append (x ∷ xs) ys = ground (arith, escape_bytes-append xs ys)

module _ (header_size max_size : ℕ) where
  store_byte-full :
      (x : ℕ) (s : Serial)
      → s.frame_length ≡ max_size
      → length (buffer s.at_p2 s) ≡ max_size
      → store_byte header_size max_size x s ≡ none
  unfolding store_byte
  store_byte-full x s full size = ground arith

  receive_all-fault :
      (x : ℕ) (rest : List ℕ) (s : Serial)
      → byte_received header_size max_size x s ≡ none
      → receive_all header_size max_size (x ∷ rest) s ≡ none
  unfolding receive_all
  receive_all-fault x rest s h = ground (arith, h)

  -- The next byte of the data does not fit.
  receive_all-full :
      (x : ℕ) (xs tail : List ℕ) (s : Serial)
      → s.escape_character ≡ false
      → s.frame_length ≡ max_size
      → length (buffer s.at_p2 s) ≡ max_size
      → receive_all header_size max_size (escape_bytes (x ∷ xs) ++ tail) s ≡ none
  unfolding escape_bytes byte_received
  receive_all-full x xs tail s esc full size = elim (Bool-cases (is_special x)) [
    | inl h ↦
        let e : escape_bytes (x ∷ xs) ≡ 125 ∷ invert x ∷ escape_bytes xs = ground (arith, h) in
        let s' : Serial = record s { escape_character = true } in
        ap (λ l. receive_all header_size max_size (l ++ tail) s) e
        ∙ (receive_all-quiet header_size max_size 125 (invert x ∷ (escape_bytes xs ++ tail)) s s'
              (ground arith)
            ∙ receive_all-fault (invert x) (escape_bytes xs ++ tail) s' (
                ground (
                  arith,
                  invert-special x h,
                  store_byte-full (invert x) (record s { escape_character = false }) full size,
                )))
    | inr h ↦
        let e : escape_bytes (x ∷ xs) ≡ x ∷ escape_bytes xs = ground (arith, h) in
        ap (λ l. receive_all header_size max_size (l ++ tail) s) e
        ∙ receive_all-fault x (escape_bytes xs ++ tail) s
            (ground (arith, store_byte-full x s full size))
  ]

  -- Between frames, with buffers of the size of a packet: a frame with one byte more than fits, or
  -- more, makes the receiver write behind the end of the buffer.
  pub receive_all-overflow :
      (xs : List ℕ) (x : ℕ) (rest : List ℕ) (s : Serial)
      → s.escape_character ≡ false
      → s.overflow ≡ false
      → s.frame_length < header_size
      → length (buffer s.at_p2 s) ≡ max_size
      → length xs ≡ max_size
      → receive_all header_size max_size (frame_decode (xs ++ (x ∷ rest))) s ≡ none
  unfolding frame_decode
  receive_all-overflow xs x rest s esc over idle size long =
      let tail = escape_bytes (x ∷ rest) ++ (126 ∷ []) in
      let s0 : Serial = record s { frame_length = 0 } in
      let (s', run, e, o, p, size', len, _) =
        receive_all-bytes header_size max_size xs tail s0 esc over size (omega (arith, long)) in
      receive_all-quiet header_size max_size 126 (escape_bytes (xs ++ (x ∷ rest)) ++ (126 ∷ [])) s
        s0 (receive-boundary header_size max_size s esc over idle)
      ∙ (ap (λ l. receive_all header_size max_size (l ++ (126 ∷ [])) s0)
            (escape_bytes-append xs (x ∷ rest))
          ∙ (ap (λ l. receive_all header_size max_size l s0)
                (append_assoc (escape_bytes xs) (escape_bytes (x ∷ rest)) (126 ∷ []))
              ∙ (run ∙ receive_all-full x rest (126 ∷ []) s' e (omega (arith, len, long)) size')))
