-- ===== src/Chat/Packet.antt =====
-- src/aomarket/aochat/packet.py and protocol.py: argument codecs and packet framing. The text of
-- an outbound argument is given as the bytes of its UTF-8 encoding.
pub mod RoundTrip
use aomarket_bot.Prelude.{
  ℕ, zero, suc, ◌+◌, ◌-◌, ◌*◌, ◌/◌, ◌%◌, ◌^◌, Bool, Option, none, some, List, [], ◌∷◌, ◌++◌, leb,
  ltb, ◌==◌, length, take, drop, replicate, if◌then◌else◌,
}
use aomarket_bot.Exec.{
  Result, ok, err, and_then, key_error, index_error, struct_error, value_error, incomplete_read,
}

-- The letters of a schema: `I`, `S`, `i`, `s`
pub data Code : Type 0 where
  word text words texts : Code

pub data Arg : Type 0 where
  int : ℕ → Arg
  bytes : List ℕ → Arg
  ints : List ℕ → Arg
  byte_lists : List (List ℕ) → Arg

abbrev pub in_schema : ℕ → Option (List Code)
in_schema t =
    if t == 0
    then some (text ∷ [])
    else if t == 5
    then some []
    else if t == 6
    then some (text ∷ [])
    else if t == 7
    then some (words ∷ texts ∷ words ∷ words ∷ [])
    else if t == 20
    then some (word ∷ text ∷ [])
    else if t == 21
    then some (word ∷ text ∷ [])
    else if t == 30
    then some (word ∷ text ∷ text ∷ [])
    else if t == 40
    then some (word ∷ word ∷ text ∷ [])
    else if t == 55
    then some (word ∷ word ∷ [])
    else if t == 56
    then some (word ∷ word ∷ [])
    else if t == 57
    then some (word ∷ word ∷ text ∷ text ∷ [])
    else if t == 100
    then some (text ∷ [])
    else none

abbrev pub out_schema : ℕ → Option (List Code)
out_schema t =
    if t == 2
    then some (word ∷ text ∷ text ∷ [])
    else if t == 3
    then some (word ∷ [])
    else if t == 21
    then some (text ∷ [])
    else if t == 30
    then some (word ∷ text ∷ text ∷ [])
    else if t == 40
    then some (word ∷ text ∷ [])
    else if t == 57
    then some (word ∷ text ∷ text ∷ [])
    else if t == 100
    then some (text ∷ [])
    else none

-- struct.pack(">H", n) and struct.pack(">I", n), which raise out of range
unfoldable pub pack_half : ℕ → Result (List ℕ)
pack_half n = if ltb n 65536 then ok (n / 256 ∷ n % 256 ∷ []) else err struct_error

unfoldable pub pack_word : ℕ → Result (List ℕ)
pack_word n =
    if ltb n 4294967296
    then ok (n / 16777216 ∷ n / 65536 % 256 ∷ n / 256 % 256 ∷ n % 256 ∷ [])
    else err struct_error

-- struct.unpack_from, on what is left of the data: the number and the rest
unfoldable pub unpack_half : List ℕ → Result (ℕ × List ℕ)
unpack_half (a ∷ b ∷ rest) = ok (a * 256 + b, rest)
unpack_half _ = err struct_error

unfoldable pub unpack_word : List ℕ → Result (ℕ × List ℕ)
unpack_word (a ∷ b ∷ c ∷ d ∷ rest) = ok (a * 16777216 + b * 65536 + c * 256 + d, rest)
unpack_word _ = err struct_error

-- The length and the bytes
unfoldable pub encode_text : List ℕ → Result (List ℕ)
unfolding pack_half
encode_text payload = and_then (pack_half (length payload)) (λ header. ok (header ++ payload))

-- One outbound argument; `bytes(value)` of a number is that many zero bytes. No caller passes a
-- list.
unfoldable pub encode_arg : Code → Arg → Result (List ℕ)
unfolding pack_word encode_text
encode_arg word (int n) = pack_word n
encode_arg word _ = err struct_error
encode_arg text (bytes payload) = encode_text payload
encode_arg text (int n) = encode_text (replicate n 0)
encode_arg text _ = err value_error
encode_arg words _ = err value_error
encode_arg texts _ = err value_error

-- `remaining.pop(0)` raises on an empty list; arguments that are left over are ignored.
unfoldable pub encode_codes : List Code → List Arg → Result (List ℕ)
unfolding encode_arg
encode_codes [] args = ok []
encode_codes (c ∷ cs) [] = err index_error
encode_codes (c ∷ cs) (a ∷ args) =
    and_then (encode_arg c a) (λ out. and_then (encode_codes cs args) (λ more. ok (out ++ more)))

-- `encode_args`: a type that `OUT_SCHEMAS` does not list raises KeyError.
unfoldable pub encode_args : ℕ → List Arg → Result (List ℕ)
unfolding encode_codes
encode_args packet_type args = elim (out_schema packet_type) [
  | none ↦ err key_error
  | some schema ↦ encode_codes schema args
]

unfoldable pub encode_header : ℕ → ℕ → Result (List ℕ)
unfolding pack_half
encode_header packet_type payload_len =
    and_then (pack_half packet_type) (λ a. and_then (pack_half payload_len) (λ b. ok (a ++ b)))

unfoldable pub encode_packet : ℕ → List Arg → Result (List ℕ)
unfolding encode_args encode_header
encode_packet packet_type args = and_then (encode_args packet_type args) (λ payload.
    and_then (encode_header packet_type (length payload)) (λ header. ok (header ++ payload)))

-- A slice stops at the end of the data.
unfoldable pub decode_words : ℕ → List ℕ → Result (List ℕ × List ℕ)
unfolding unpack_word
decode_words zero rest = ok ([], rest)
decode_words (suc n) rest = and_then (unpack_word rest) (λ (v : ℕ × List ℕ).
    and_then (decode_words n v.1) (λ (vs : List ℕ × List ℕ). ok (v.0 ∷ vs.0, vs.1)))

unfoldable pub decode_texts : ℕ → List ℕ → Result (List (List ℕ) × List ℕ)
unfolding unpack_half
decode_texts zero rest = ok ([], rest)
decode_texts (suc n) rest = and_then (unpack_half rest) (λ (v : ℕ × List ℕ).
    and_then (decode_texts n (drop v.0 v.1))
      (λ (vs : List (List ℕ) × List ℕ). ok (take v.0 v.1 ∷ vs.0, vs.1)))

unfoldable pub decode_arg : Code → List ℕ → Result (Arg × List ℕ)
unfolding unpack_half unpack_word decode_words decode_texts
decode_arg word rest = and_then (unpack_word rest) (λ (v : ℕ × List ℕ). ok (int v.0, v.1))
decode_arg text rest =
    and_then (unpack_half rest) (λ (v : ℕ × List ℕ). ok (bytes (take v.0 v.1), drop v.0 v.1))
decode_arg words rest = and_then (unpack_half rest) (λ (v : ℕ × List ℕ).
    and_then (decode_words v.0 v.1) (λ (vs : List ℕ × List ℕ). ok (ints vs.0, vs.1)))
decode_arg texts rest = and_then (unpack_half rest) (λ (v : ℕ × List ℕ).
    and_then (decode_texts v.0 v.1) (λ (vs : List (List ℕ) × List ℕ). ok (byte_lists vs.0, vs.1)))

-- Bytes after the last argument are ignored.
unfoldable pub decode_codes : List Code → List ℕ → Result (List Arg)
unfolding decode_arg
decode_codes [] rest = ok []
decode_codes (c ∷ cs) rest =
    and_then (decode_arg c rest)
      (λ (v : Arg × List ℕ). and_then (decode_codes cs v.1) (λ args. ok (v.0 ∷ args)))

unfoldable pub decode_args : ℕ → List ℕ → Result (List Arg)
unfolding decode_codes
decode_args packet_type payload = elim (in_schema packet_type) [
  | none ↦ err key_error
  | some schema ↦ decode_codes schema payload
]

pub record InboundPacket : Type 0 where
  pub packet_type : ℕ
  pub args : List Arg

unfoldable pub decode_packet : ℕ → List ℕ → Result InboundPacket
unfolding decode_args
decode_packet t payload =
    and_then (decode_args t payload) (λ args. ok (record { packet_type = t; args = args }))

-- `reader.readexactly(n)`, on what the peer sends before it closes the connection
unfoldable pub read_exactly : ℕ → List ℕ → Result (List ℕ × List ℕ)
read_exactly n stream =
    if leb n (length stream) then ok (take n stream, drop n stream) else err incomplete_read

unfoldable pub decode_header : List ℕ → Result (ℕ × ℕ)
unfolding unpack_half
decode_header header =
    and_then (unpack_half header)
      (λ (t : ℕ × List ℕ). and_then (unpack_half t.1) (λ (n : ℕ × List ℕ). ok (t.0, n.0)))

-- The type and the payload of the next packet, and what follows
unfoldable pub read_frame : List ℕ → Result (ℕ × List ℕ × List ℕ)
read_frame stream = and_then (read_exactly 4 stream) (λ (h : List ℕ × List ℕ).
    and_then (decode_header h.0) (λ (head : ℕ × ℕ).
      and_then (read_exactly head.1 h.1) (λ (p : List ℕ × List ℕ). ok (head.0, p.0, p.1))))

unfoldable pub read_packet : List ℕ → Result (InboundPacket × List ℕ)
unfolding read_frame decode_packet
read_packet stream =
    and_then (read_frame stream)
      (λ (f : ℕ × List ℕ × List ℕ). and_then (decode_packet f.0 f.1) (λ pkt. ok (pkt, f.2)))
