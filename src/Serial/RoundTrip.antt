-- ===== src/Serial/RoundTrip.antt =====
-- A frame that one side of the serial link sends is the packet that the other side receives.
use idit_sdn.Base.{ℕ, zero, suc, ◌+◌, ◌≤◌, ◌<◌, ◌≡◌, refl, ◌∙◌, sym, ap, Bool, true, false, not}
use idit_sdn.Base.{none, some, List, [], ◌∷◌, ◌++◌, length, set, length-set, arith, ◌==◌}
use idit_sdn.Base.{
  ltb, ◌&&◌, ◌||◌, Bool-cases, Option-cases, inl, inr, ==→eq, append_assoc, append-nil,
}
use idit_sdn.Serial.{Serial, buffer, put_byte, byte_received, receive_all, escape_bytes}
use idit_sdn.Serial.{frame_decode, store_byte, invert}

abbrev pub take {ℓ} : {A : Type ℓ} → ℕ → List A → List A
take zero xs = []
take (suc n) [] = []
take (suc n) (x ∷ xs) = x ∷ take n xs

-- The bytes of a packet, written into the current buffer
abbrev put_bytes : List ℕ → Serial → Serial
put_bytes [] s = s
put_bytes (x ∷ xs) s = put_bytes xs (put_byte x s)

take-set :
    (n x : ℕ) (xs : List ℕ) → n < length xs → take (suc n) (set xs n x) ≡ take n xs ++ (x ∷ [])
take-set n x [] h = absurd (omega arith)
take-set zero x (y ∷ xs) h = refl
take-set (suc n) x (y ∷ xs) h = ap (λ r. y ∷ r) (take-set n x xs (omega arith))

put_byte-fields :
    (x : ℕ) (s : Serial)
    → (length (buffer s.at_p2 (put_byte x s)) ≡ length (buffer s.at_p2 s))
      × ((put_byte x s).frame_length ≡ suc s.frame_length)
      × ((put_byte x s).at_p2 ≡ s.at_p2)
      × ((put_byte x s).escape_character ≡ s.escape_character)
      × ((put_byte x s).overflow ≡ s.overflow)
unfolding put_byte
put_byte-fields x s =
    ground (arith, length-set s.p1 s.frame_length x, length-set s.p2 s.frame_length x)

take-put_byte :
    (x : ℕ) (s : Serial)
    → s.frame_length < length (buffer s.at_p2 s)
    → take (suc s.frame_length) (buffer s.at_p2 (put_byte x s))
      ≡ take s.frame_length (buffer s.at_p2 s) ++ (x ∷ [])
unfolding put_byte
take-put_byte x s h = ground (arith, take-set s.frame_length x s.p1, take-set s.frame_length x s.p2)

-- A frame is being received, and its next byte fits.
abbrev is_receiving : ℕ → Serial → Bool
is_receiving max_size s =
    (not s.escape_character && not s.overflow)
    && (ltb s.frame_length max_size && (length (buffer s.at_p2 s) == max_size))

abbrev pub is_special : ℕ → Bool
is_special x = (x == 125) || (x == 126)

pub invert-special :
    (x : ℕ) → is_special x ≡ true → (invert (invert x) ≡ x) × ((invert x == 126) ≡ false)
unfolding invert
invert-special x h = ground (arith, ==→eq x 125, ==→eq x 126)

module _ (header_size max_size : ℕ) where
  receive-plain :
      (x : ℕ) (s : Serial)
      → is_receiving max_size s ≡ true
      → is_special x ≡ false
      → byte_received header_size max_size x s ≡ some (none, put_byte x s)
  unfolding byte_received store_byte
  receive-plain x s r h = ground arith

  receive-escape :
      (s : Serial)
      → is_receiving max_size s ≡ true
      → byte_received header_size max_size 125 s ≡ some (none, record s { escape_character = true })
  unfolding byte_received
  receive-escape s r = ground arith

  receive-inverted :
      (x : ℕ) (s : Serial)
      → is_receiving max_size s ≡ true
      → is_special x ≡ true
      → byte_received header_size max_size (invert x) (record s { escape_character = true })
        ≡ some (none, put_byte x s)
  unfolding byte_received store_byte put_byte
  receive-inverted x s r h = ground (arith, invert-special x h)

  pub receive_all-quiet :
      (x : ℕ) (rest : List ℕ) (s s' : Serial)
      → byte_received header_size max_size x s ≡ some (none, s')
      → receive_all header_size max_size (x ∷ rest) s ≡ receive_all header_size max_size rest s'
  unfolding receive_all
  receive_all-quiet x rest s s' h = elim (Option-cases (receive_all header_size max_size rest s')) [
    | inl e ↦ ground (arith, h, e)
    | inr (r, e) ↦ ground (arith, h, e)
  ]

  receive_all-byte :
      (x : ℕ) (xs rest : List ℕ) (s : Serial)
      → is_receiving max_size s ≡ true
      → receive_all header_size max_size (escape_bytes (x ∷ xs) ++ rest) s
        ≡ receive_all header_size max_size (escape_bytes xs ++ rest) (put_byte x s)
  unfolding escape_bytes
  receive_all-byte x xs rest s r = elim (Bool-cases (is_special x)) [
    | inl h ↦
        let e : escape_bytes (x ∷ xs) ≡ 125 ∷ invert x ∷ escape_bytes xs = ground (arith, h) in
        ap (λ l. receive_all header_size max_size (l ++ rest) s) e
        ∙ (receive_all-quiet 125 (invert x ∷ (escape_bytes xs ++ rest)) s
              (record s { escape_character = true }) (receive-escape s r)
            ∙ receive_all-quiet (invert x) (escape_bytes xs ++ rest)
                (record s { escape_character = true }) (put_byte x s) (receive-inverted x s r h))
    | inr h ↦
        let e : escape_bytes (x ∷ xs) ≡ x ∷ escape_bytes xs = ground (arith, h) in
        ap (λ l. receive_all header_size max_size (l ++ rest) s) e
        ∙ receive_all-quiet x (escape_bytes xs ++ rest) s (put_byte x s) (receive-plain x s r h)
  ]

  -- The state while a frame of data arrives
  pub receive_all-bytes :
      (xs rest : List ℕ) (s : Serial)
      → s.escape_character ≡ false
      → s.overflow ≡ false
      → length (buffer s.at_p2 s) ≡ max_size
      → s.frame_length + length xs ≤ max_size
      → (s' : Serial) × (receive_all header_size max_size (escape_bytes xs ++ rest) s
          ≡ receive_all header_size max_size rest s')
        × (s'.escape_character ≡ false)
        × (s'.overflow ≡ false)
        × (s'.at_p2 ≡ s.at_p2)
        × (length (buffer s'.at_p2 s') ≡ max_size)
        × (s'.frame_length ≡ s.frame_length + length xs)
        × (take (s.frame_length + length xs) (buffer s.at_p2 s')
            ≡ take s.frame_length (buffer s.at_p2 s) ++ xs)
  unfolding escape_bytes
  receive_all-bytes [] rest s esc over size fits = (
    s,
    refl,
    esc,
    over,
    refl,
    size,
    omega arith,
    ap (λ n. take n (buffer s.at_p2 s)) (omega arith)
        ∙ sym (append-nil (take s.frame_length (buffer s.at_p2 s))),
  )
  receive_all-bytes (x ∷ xs) rest s esc over size fits =
      let (size', longer, same, esc', over') = put_byte-fields x s in
      let (s', run, e, o, p, size'', len, t) =
        receive_all-bytes xs rest (put_byte x s) (esc' ∙ esc) (over' ∙ over)
          (ground (arith, size', same)) (omega (arith, longer)) in
      let first : take (put_byte x s).frame_length (buffer (put_byte x s).at_p2 (put_byte x s))
          ≡ take s.frame_length (buffer s.at_p2 s) ++ (x ∷ []) =
        ground (arith, longer, same, take-put_byte x s (omega (arith, size))) in
      (
        s',
        receive_all-byte x xs rest s (ground arith) ∙ run,
        e,
        o,
        p ∙ same,
        size'',
        omega (arith, len, longer),
        ap (λ n. take n (buffer s.at_p2 s')) (omega (arith, longer))
            ∙ (ap (λ b. take ((put_byte x s).frame_length + length xs) (buffer b s')) (sym same)
                ∙ (t
                    ∙ (ap (λ l. l ++ xs) first
                        ∙ append_assoc (take s.frame_length (buffer s.at_p2 s)) (x ∷ []) xs))),
      )

  pub receive-boundary :
      (s : Serial)
      → s.escape_character ≡ false
      → s.overflow ≡ false
      → s.frame_length < header_size
      → byte_received header_size max_size 126 s ≡ some (none, record s { frame_length = 0 })
  unfolding byte_received
  receive-boundary s esc over idle = ground arith

  -- Between frames, with buffers of the size of a packet: a packet that is not shorter than its
  -- header and not longer than a buffer, sent by `frameDecode`, posts the current buffer once, which
  -- then starts with the bytes of the packet; the other buffer is the current one, and the receiver
  -- stands between frames again.
  pub frame_decode-receive_all :
      (bytes : List ℕ) (s : Serial)
      → s.escape_character ≡ false
      → s.overflow ≡ false
      → s.frame_length < header_size
      → length (buffer s.at_p2 s) ≡ max_size
      → header_size ≤ length bytes
      → length bytes ≤ max_size
      → (s' : Serial) × (receive_all header_size max_size (frame_decode bytes) s
          ≡ some (s.at_p2 ∷ [], s'))
        × (take (length bytes) (buffer s.at_p2 s') ≡ bytes)
        × (s'.at_p2 ≡ not s.at_p2)
        × (s'.frame_length ≡ 0)
        × (s'.escape_character ≡ false)
        × (s'.overflow ≡ false)
  unfolding frame_decode receive_all byte_received
  frame_decode-receive_all bytes s esc over idle size long fits =
      let (s', run, e, o, p, size'', len, t) =
        receive_all-bytes bytes (126 ∷ []) (record s { frame_length = 0 }) esc over size
          (omega (arith, fits)) in
      (
        record s' { frame_length = 0; at_p2 = not s'.at_p2 },
        receive_all-quiet 126 (escape_bytes bytes ++ (126 ∷ [])) s (record s { frame_length = 0 })
              (receive-boundary s esc over idle)
            ∙ (run ∙ ground (arith, e, o, p, len)),
        ap (λ n. take n (buffer s.at_p2 s')) (omega arith) ∙ t,
        ap not p,
        refl,
        e,
        o,
      )
