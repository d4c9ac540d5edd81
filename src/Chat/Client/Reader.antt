-- ===== src/Chat/Client/Reader.antt =====
-- client.py: how the reader task ends.
use aomarket_bot.Prelude.{
  ℕ, zero, suc, ◌+◌, ◌-◌, ◌<◌, ◌≡◌, refl, inl, inr, true, none, some, List, [], ◌∷◌, is_some,
  length, drop, arith,
}
use aomarket_bot.Exec.{ok, err, key_error, Result-cases}
use aomarket_bot.Chat.Packet.{
  InboundPacket, in_schema, read_exactly, decode_header, read_frame, read_packet, decode_packet,
  decode_args,
}
use aomarket_bot.Chat.Client.{Handlers, ClientState, died, dispatch, read_loop}

length-drop : (n : ℕ) (xs : List ℕ) → length (drop n xs) ≡ length xs - n
length-drop zero xs = omega arith
length-drop (suc n) [] = omega arith
length-drop (suc n) (x ∷ xs) = omega (arith, length-drop n xs)

read_exactly-length :
    (n : ℕ) (stream : List ℕ) {out rest : List ℕ}
    → read_exactly n stream ≡ ok (out, rest)
    → length rest + n ≡ length stream
unfolding read_exactly
read_exactly-length n stream {out} {rest} h = ground (arith, length-drop n stream)

-- A packet takes its header of four bytes off the stream, and its payload.
read_frame-length :
    (stream : List ℕ) {t : ℕ} {payload rest : List ℕ}
    → read_frame stream ≡ ok (t, payload, rest)
    → length rest < length stream
unfolding read_frame
read_frame-length stream {t} {payload} {rest} e = elim (Result-cases (read_exactly 4 stream)) [
  | inr (fault, x) ↦ ground (arith, e, x)
  | inl ((header, body), x) ↦ elim (Result-cases (decode_header header)) [
    | inr (fault, y) ↦ ground (arith, e, x, y)
    | inl ((t', n), y) ↦ elim (Result-cases (read_exactly n body)) [
      | inr (fault, z) ↦ ground (arith, e, x, y, z)
      | inl ((p, r), z) ↦
          ground (arith, e, x, y, z, read_exactly-length 4 stream x, read_exactly-length n body z)
    ]
  ]
]

read_packet-length :
    (stream : List ℕ) {pkt : InboundPacket} {rest : List ℕ}
    → read_packet stream ≡ ok (pkt, rest)
    → length rest < length stream
unfolding read_packet
read_packet-length stream {pkt} {rest} e = elim (Result-cases (read_frame stream)) [
  | inr (fault, x) ↦ ground (arith, e, x)
  | inl ((t, payload, r), x) ↦ ground (arith, e, x, read_frame-length stream x)
]

-- With fuel for one byte more than the stream has, the loop comes to an end.
pub read_loop-ends :
    (h : Handlers) (fuel : ℕ) (stream : List ℕ) (s : ClientState)
    → length stream < fuel
    → is_some (read_loop h fuel stream s).0 ≡ true
unfolding read_loop
read_loop-ends h zero stream s enough = absurd (omega arith)
read_loop-ends h (suc fuel) stream s enough = elim (Result-cases (read_packet stream)) [
  | inr (fault, x) ↦ rw (x, is_some, read_loop) refl
  | inl ((pkt, rest), x) ↦ elim (Result-cases (dispatch h pkt s).0) [
    | inr (fault, y) ↦ rw (x, is_some, read_loop) (rw y refl)
    | inl (t, y) ↦
        rw (x, is_some, read_loop)
          (rw y (
            read_loop-ends h fuel rest (dispatch h pkt s).1
              (omega (arith, read_packet-length stream x))))
  ]
]

undecodable :
    (t : ℕ) (stream payload rest : List ℕ)
    → read_frame stream ≡ ok (t, payload, rest)
    → in_schema t ≡ none
    → read_packet stream ≡ err key_error
unfolding read_packet decode_packet decode_args
undecodable t stream payload rest e unknown = ground (arith, e, unknown)

-- A packet of a type that `IN_SCHEMAS` does not list ends the reader task: the KeyError of the
-- decoder is caught nowhere, and nothing that follows in the stream is read.
pub read_loop-unknown :
    (h : Handlers) (fuel t : ℕ) (stream payload rest : List ℕ) (s : ClientState)
    → read_frame stream ≡ ok (t, payload, rest)
    → in_schema t ≡ none
    → read_loop h (suc fuel) stream s ≡ (some (died key_error), s)
unfolding read_loop
read_loop-unknown h fuel t stream payload rest s e unknown =
    rw (undecodable t stream payload rest e unknown, read_loop) refl
