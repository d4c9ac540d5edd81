-- ===== src/Chat/Packet/RoundTrip.antt =====
-- What one end encodes, the other end decodes.
use aomarket_bot.Prelude.{
  ℕ, ◌/◌, ◌%◌, ◌<◌, ◌≡◌, refl, true, List, [], ◌∷◌, ap, ◌++◌, inl, inr, length, take-length-append,
  drop-length-append, length-append, arith, leb,
}
use mathlib.Core.List.{append_assoc}
use aomarket_bot.Exec.{Error, Result-cases, ok, err}
use aomarket_bot.Chat.Packet.{
  Code, word, text, Arg, int, bytes, pack_half, pack_word, unpack_half, unpack_word, encode_arg,
  encode_codes, encode_args, encode_header, encode_packet, decode_arg, decode_codes, read_frame,
  read_exactly, decode_header, encode_text,
}

-- The arguments that a schema of words and texts describes
abbrev pub Fits : List Code → List Arg → Type 0
Fits [] [] = Unit
Fits (word ∷ cs) (int n ∷ args) = (n < 4294967296) × Fits cs args
Fits (text ∷ cs) (bytes payload ∷ args) = (length payload < 65536) × Fits cs args
Fits _ _ = ⊥

half_bytes : ℕ → List ℕ
half_bytes n = n / 256 ∷ n % 256 ∷ []

word_bytes : ℕ → List ℕ
word_bytes n = n / 16777216 ∷ n / 65536 % 256 ∷ n / 256 % 256 ∷ n % 256 ∷ []

pack_half-eq : (n : ℕ) → n < 65536 → pack_half n ≡ ok (half_bytes n)
unfolding pack_half half_bytes
pack_half-eq n h = ground arith

pack_word-eq : (n : ℕ) → n < 4294967296 → pack_word n ≡ ok (word_bytes n)
unfolding pack_word word_bytes
pack_word-eq n h = ground arith

unpack-half_bytes : (n : ℕ) (rest : List ℕ) → unpack_half (half_bytes n ++ rest) ≡ ok (n, rest)
unfolding unpack_half half_bytes
unpack-half_bytes n rest = ap (λ (v : ℕ). ok (v, rest)) (omega arith)

unpack-word_bytes : (n : ℕ) (rest : List ℕ) → unpack_word (word_bytes n ++ rest) ≡ ok (n, rest)
unfolding unpack_word word_bytes
unpack-word_bytes n rest = ap (λ (v : ℕ). ok (v, rest)) (omega arith)

decode-encode_word :
    (n : ℕ) (rest : List ℕ)
    → n < 4294967296
    → (out : List ℕ) × (encode_arg word (int n) ≡ ok out)
      × (decode_arg word (out ++ rest) ≡ ok (int n, rest))
unfolding encode_arg decode_arg
decode-encode_word n rest h = (word_bytes n, pack_word-eq n h, rw (unpack-word_bytes n rest))

decode-encode_text :
    (p rest : List ℕ)
    → length p < 65536
    → (out : List ℕ) × (encode_arg text (bytes p) ≡ ok out)
      × (decode_arg text (out ++ rest) ≡ ok (bytes p, rest))
unfolding encode_arg decode_arg encode_text
decode-encode_text p rest h = (
  half_bytes (length p) ++ p,
  rw (pack_half-eq (length p) h),
  rw (append_assoc (half_bytes (length p)) p rest) (
      rw (unpack-half_bytes (length p) (p ++ rest))
        (rw (take-length-append p rest) (rw (drop-length-append p rest)))),
)

Decodes : List Code → List Arg → List ℕ → Type 0
Decodes cs args rest =
    (out : List ℕ) × (encode_codes cs args ≡ ok out) × (decode_codes cs (out ++ rest) ≡ ok args)

Decodes-cons :
    (c : Code) (cs : List Code) (a : Arg) (args : List Arg) (rest : List ℕ)
    → ((tail : List ℕ)
        → (out : List ℕ) × (encode_arg c a ≡ ok out) × (decode_arg c (out ++ tail) ≡ ok (a, tail)))
    → Decodes cs args rest
    → Decodes (c ∷ cs) (a ∷ args) rest
unfolding Decodes encode_codes decode_codes
Decodes-cons c cs a args rest one (more, e, d) =
    let (out, e', d') = one (more ++ rest) in
    (out ++ more, rw (e', e), rw (append_assoc out more rest) (rw d' (rw d)))

-- Words below 2^32 and texts of fewer than 2^16 bytes are encoded without an error, and decoding
-- gives them back, whatever follows.
pub decode-encode_codes :
    (cs : List Code) (args : List Arg) (rest : List ℕ)
    → Fits cs args
    → (out : List ℕ) × (encode_codes cs args ≡ ok out) × (decode_codes cs (out ++ rest) ≡ ok args)
unfolding Decodes encode_codes decode_codes
decode-encode_codes [] [] rest h = ([], refl, refl)
decode-encode_codes (word ∷ cs) (int n ∷ args) rest h =
    Decodes-cons word cs (int n) args rest (λ t. decode-encode_word n t h.0)
      (decode-encode_codes cs args rest h.1)
decode-encode_codes (text ∷ cs) (bytes p ∷ args) rest h =
    Decodes-cons text cs (bytes p) args rest (λ t. decode-encode_text p t h.0)
      (decode-encode_codes cs args rest h.1)
decode-encode_codes _ _ rest h = absurd h

read_exactly-append : (p rest : List ℕ) → read_exactly (length p) (p ++ rest) ≡ ok (p, rest)
unfolding read_exactly
read_exactly-append p rest =
    rw (leb_length p rest) (rw (take-length-append p rest) (rw (drop-length-append p rest)))
  where
    leb_length : (xs ys : List ℕ) → leb (length xs) (length (xs ++ ys)) ≡ true
    leb_length xs ys = ground (arith, length-append xs ys)

header_bytes : ℕ → ℕ → List ℕ
unfolding half_bytes
header_bytes t n = half_bytes t ++ half_bytes n

decode-header_bytes : (t n : ℕ) → decode_header (header_bytes t n) ≡ ok (t, n)
unfolding decode_header header_bytes
decode-header_bytes t n = ground arith

read_exactly-header_bytes :
    (t n : ℕ) (rest : List ℕ)
    → read_exactly 4 (header_bytes t n ++ rest) ≡ ok (header_bytes t n, rest)
unfolding header_bytes
read_exactly-header_bytes t n rest = read_exactly-append (header_bytes t n) rest

read_frame-header_bytes :
    (t : ℕ) (payload rest : List ℕ)
    → read_frame ((header_bytes t (length payload) ++ payload) ++ rest) ≡ ok (t, payload, rest)
unfolding read_frame
read_frame-header_bytes t payload rest =
    let header = header_bytes t (length payload) in
    rw (append_assoc header payload rest) (
      rw (read_exactly-header_bytes t (length payload) (payload ++ rest))
        (rw (decode-header_bytes t (length payload)) (rw (read_exactly-append payload rest) refl)))

encode_packet-eq :
    (t : ℕ) (args : List Arg) (payload : List ℕ) {out : List ℕ}
    → encode_args t args ≡ ok payload
    → encode_packet t args ≡ ok out
    → out ≡ header_bytes t (length payload) ++ payload
unfolding encode_packet encode_header pack_half header_bytes
encode_packet-eq t args payload e h = ground arith

encode_packet_fault :
    (t : ℕ) (args : List Arg) {out : List ℕ} {fault : Error}
    → encode_args t args ≡ err fault
    → ¬ (encode_packet t args ≡ ok out)
unfolding encode_packet
encode_packet_fault t args e h = ground arith

-- A packet that was encoded without an error is read off the front of any stream that begins with
-- it: its type, its payload, and exactly the bytes that follow.
pub read_frame-encode_packet :
    (t : ℕ) (args : List Arg) (rest : List ℕ) {out : List ℕ}
    → encode_packet t args ≡ ok out
    → (payload : List ℕ) × (encode_args t args ≡ ok payload)
      × (read_frame (out ++ rest) ≡ ok (t, payload, rest))
read_frame-encode_packet t args rest {out} h = elim (Result-cases (encode_args t args)) [
  | inl (payload, e) ↦ (
    payload,
    e,
    rw (encode_packet-eq t args payload e h) (read_frame-header_bytes t payload rest),
  )
  | inr (fault, e) ↦ absurd (encode_packet_fault t args e h)
]
