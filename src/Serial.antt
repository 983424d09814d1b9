-- ===== src/Serial.antt =====
-- contiki-sdn/sdn-serial.c: the framing of the serial link between a node and its computer. A frame
-- stands between two boundary octets, and an octet of the data that looks like a boundary or an
-- escape is sent behind an escape, with one bit inverted. A byte is a number.
pub mod RoundTrip
pub mod Overflow
use idit_sdn.Base.{ℕ, suc, ◌+◌, ◌-◌, ◌/◌, ◌%◌, Bool, true, false, not, Option, none, some}
use idit_sdn.Base.{List, [], ◌∷◌, ◌++◌, ltb, leb, ◌==◌, ◌||◌, if◌then◌else◌, length, set}

abbrev pub frame_boundary_octet : ℕ
frame_boundary_octet = 126

abbrev pub control_escape_octet : ℕ
control_escape_octet = 125

-- `data ^ INVERT_OCTET`
unfoldable pub invert : ℕ → ℕ
invert octet = if (octet / 32) % 2 == 1 then octet - 32 else octet + 32

-- The static variables: `currentSerialPacket` points to `p2` or to `p1`.
pub record Serial : Type 0 where
  pub escape_character : Bool
  pub overflow : Bool
  pub frame_length : ℕ
  pub at_p2 : Bool
  pub p1 : List ℕ
  pub p2 : List ℕ

abbrev pub buffer : Bool → Serial → List ℕ
buffer at_p2 s = if at_p2 then s.p2 else s.p1

-- `currentSerialPacket[frame_length] = data; frame_length++;`
unfoldable pub put_byte : ℕ → Serial → Serial
put_byte octet s =
    if s.at_p2
    then record s { p2 = set s.p2 s.frame_length octet; frame_length = suc s.frame_length }
    else record s { p1 = set s.p1 s.frame_length octet; frame_length = suc s.frame_length }

-- `header_size` and `max_size` are the sizes of `sdn_serial_packet_header_t` and of
-- `sdn_serial_packet_t`.
module _ (header_size max_size : ℕ) where
  -- The packet is stored, unless it is too long. A write behind the end of the buffer has no result.
  unfoldable pub store_byte : ℕ → Serial → Option Serial
  unfolding put_byte
  store_byte octet s =
      if ltb s.frame_length (max_size + 2)
      then (if ltb s.frame_length (length (buffer s.at_p2 s))
          then some (put_byte octet s)
          else none)
      else some (record s { overflow = true })

  -- With the buffer that is posted to the process, if one is.
  unfoldable pub byte_received : ℕ → Serial → Option (Option Bool × Serial)
  unfolding store_byte invert
  byte_received octet s =
      if octet == frame_boundary_octet
      then (if s.escape_character
          then some (none, record s { escape_character = false })
          else if s.overflow
          then some (none, record s { overflow = false; frame_length = 0 })
          else if leb header_size s.frame_length
          then some (some s.at_p2, record s { frame_length = 0; at_p2 = not s.at_p2 })
          else some (none, record s { frame_length = 0 }))
      else if s.escape_character
      then elim (store_byte (invert octet) (record s { escape_character = false }))
          as (λ _. Option (Option Bool × Serial)) [ none ↦ none | some s' ↦ some (none, s') ]
      else if octet == control_escape_octet
      then some (none, record s { escape_character = true })
      else elim (store_byte octet s) as (λ _. Option (Option Bool × Serial)) [
        | none ↦ none
        | some s' ↦ some (none, s')
      ]

  -- Bytes that arrive one after the other, with the buffers that are posted, in order.
  unfoldable pub receive_all : List ℕ → Serial → Option (List Bool × Serial)
  unfolding byte_received
  receive_all [] s = some ([], s)
  receive_all (octet ∷ rest) s = elim (byte_received octet s) [
    | none ↦ none
    | some (posted, s') ↦ elim (receive_all rest s') [
      | none ↦ none
      | some (more, s'') ↦ some (elim posted [ none ↦ more | some b ↦ b ∷ more ], s'')
    ]
  ]

-- The loop of `frameDecode` over the bytes to send
unfoldable pub escape_bytes : List ℕ → List ℕ
escape_bytes [] = []
escape_bytes (octet ∷ rest) =
    let sent = escape_bytes rest in
    if (octet == control_escape_octet) || (octet == frame_boundary_octet)
    then control_escape_octet ∷ invert octet ∷ sent
    else octet ∷ sent

unfoldable pub frame_decode : List ℕ → List ℕ
unfolding escape_bytes
frame_decode bytes = frame_boundary_octet ∷ (escape_bytes bytes ++ (frame_boundary_octet ∷ []))
