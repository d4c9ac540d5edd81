-- ===== src/Tests/Wire.antt =====
-- Concrete packets, clients, logins and keys of the chat protocol.
use aomarket_bot.Chat.Exchange.{hex, hex_from, dh_g, dh_n, generate_login_key}
use aomarket_bot.Chat.Exchange.Returns.{generate_login_key-returns}
use aomarket_bot.Prelude.{
  ℕ, ◌≡◌, refl, true, none, some, List, [], ◌∷◌, ◌++◌, Option, arith, ◌%◌, ◌^◌, ◌*◌, ◌+◌, ◌-◌, zero,
  suc, leb, if◌then◌else◌, length, is_some,
}
use aomarket_bot.Prelude.Text.{codes}
use aomarket_bot.Exec.{ok, key_error}
use aomarket_bot.Chat.Packet.{
  word, text, int, bytes, encode_codes, decode_codes, encode_args, encode_packet, read_frame,
  read_packet, read_exactly, decode_header,
}
use aomarket_bot.Chat.Packet.RoundTrip.{decode-encode_codes, read_frame-encode_packet}
use aomarket_bot.Chat.Client.{Handlers, ClientState, died, read_loop}
use aomarket_bot.Chat.Client.Reader.{read_loop-unknown, read_loop-ends}
use aomarket_bot.Chat.Client.{client_lookup}
use aomarket_bot.Chat.Lookup.{begin_lookup, end_lookup}
use aomarket_bot.Chat.Login.{Account, CharacterInfo, login, login-selected}
use aomarket_bot.Chat.Crypto.{KeyWords, permute, tea_rounds}
use aomarket_bot.Chat.Crypto.Inverse.{unrounds, unrounds-permute}

decode-encode_codes_example :
    (out : List ℕ) × (encode_codes (word ∷ text ∷ []) (int 70000 ∷ bytes (1 ∷ 2 ∷ []) ∷ [])
      ≡ ok out)
    × (decode_codes (word ∷ text ∷ []) (out ++ (9 ∷ [])) ≡ ok (int 70000 ∷ bytes (1 ∷ 2 ∷ []) ∷ []))
decode-encode_codes_example =
    decode-encode_codes (word ∷ text ∷ []) (int 70000 ∷ bytes (1 ∷ 2 ∷ []) ∷ []) (9 ∷ [])
      (omega arith, (omega arith, tt))

read_frame-encode_packet_example :
    (payload : List ℕ) × (encode_args 3 (int 5 ∷ []) ≡ ok payload)
    × (read_frame ((0 ∷ 3 ∷ 0 ∷ 4 ∷ 0 ∷ 0 ∷ 0 ∷ 5 ∷ []) ++ (9 ∷ [])) ≡ ok (3, payload, 9 ∷ []))
unfolding encode_packet
read_frame-encode_packet_example =
    read_frame-encode_packet 3 (int 5 ∷ []) (9 ∷ []) {out = 0 ∷ 3 ∷ 0 ∷ 4 ∷ 0 ∷ 0 ∷ 0 ∷ 5 ∷ []} refl

abbrev handlers : Handlers
handlers = record {
  on_tell = none;
  on_privgroup_message = none;
  on_buddy_status = none;
  lower = λ name. name;
}

abbrev client : ClientState
client = record {
  buddy_online = [];
  name_to_id = [];
  id_to_name = [];
  lookup_waiters = [];
  answers = [];
  handled = [];
}

read_loop-unknown_example :
    read_loop handlers 2 (0 ∷ 41 ∷ 0 ∷ 1 ∷ 7 ∷ 0 ∷ []) client ≡ (some (died key_error), client)
unfolding read_frame read_exactly decode_header
read_loop-unknown_example =
    read_loop-unknown handlers 1 41 (0 ∷ 41 ∷ 0 ∷ 1 ∷ 7 ∷ 0 ∷ []) (7 ∷ []) (0 ∷ []) client refl refl

read_loop-ends_example : is_some (read_loop handlers 7 (0 ∷ 5 ∷ 0 ∷ 0 ∷ 7 ∷ []) client).0 ≡ true
read_loop-ends_example = read_loop-ends handlers 7 (0 ∷ 5 ∷ 0 ∷ 0 ∷ 7 ∷ []) client (omega arith)

abbrev key : KeyWords
key = record { k1 = 1; k2 = 2; k3 = 3; k4 = 4 }

unrounds-permute_example : unrounds key tea_rounds 0 (permute key (5, 6)) ≡ (5, 6)
unrounds-permute_example = unrounds-permute key (5, 6) (omega arith, omega arith)

-- The bytes of pairs of hexadecimal digits
abbrev digit_value : ℕ → ℕ
digit_value c = if leb 97 c then c - 87 else c - 48

abbrev from_hex : List ℕ → List ℕ
from_hex (a ∷ b ∷ rest) = (digit_value a * 16 + digit_value b) ∷ from_hex rest
from_hex _ = []

length-from_hex : (n : ℕ) (t : List ℕ) → length t ≡ n * 2 → length (from_hex t) ≡ n
length-from_hex zero [] h = refl
length-from_hex zero (a ∷ t) h = absurd (omega arith)
length-from_hex (suc n) [] h = absurd (omega arith)
length-from_hex (suc n) (a ∷ []) h = absurd (omega arith)
length-from_hex (suc n) (a ∷ b ∷ t) h = omega (arith, length-from_hex n t (omega arith))

abbrev random_bytes : List ℕ
random_bytes = 1 ∷ 2 ∷ 3 ∷ 4 ∷ 5 ∷ 6 ∷ 7 ∷ 8 ∷ []

generate_login_key-returns_example :
    (crypted : List ℕ) × (generate_login_key
        (λ t. ok (from_hex t))
        3
        random_bytes
        (codes "f00d")
        (codes "ann")
        (codes "pw")
      ≡ ok (hex (dh_g ^ 3 % dh_n) ++ b'-' ∷ crypted))
    × (length crypted % 16 ≡ 0)
generate_login_key-returns_example =
    generate_login_key-returns (λ t. ok (from_hex t)) 3 random_bytes (codes "f00d") (codes "ann")
      (codes "pw") (λ t digits size. (from_hex t, refl, length-from_hex 16 t size)) refl
      (omega arith)

hex-generator : hex (dh_g ^ 3 % dh_n) ≡ codes "7d"
unfolding hex hex_from
hex-generator = refl

abbrev account : Account
account = record {
  username = 85 ∷ [];
  character_name = 66 ∷ [];
  login_key = λ seed. seed;
  capitalize = λ name. name;
}

abbrev server_bytes : List ℕ
server_bytes =
    0 ∷ 0 ∷ 0 ∷ 3 ∷ 0 ∷ 1 ∷ 65 ∷ 0 ∷ 7 ∷ 0 ∷ 23 ∷ 0 ∷ 1 ∷ 0 ∷ 0 ∷ 0 ∷ 9 ∷ 0 ∷ 1 ∷ 0 ∷ 1 ∷ 66 ∷ 0 ∷ 1
    ∷ 0 ∷ 0 ∷ 0 ∷ 1 ∷ 0 ∷ 1 ∷ 0 ∷ 0 ∷ 0 ∷ 0 ∷ 0 ∷ 5 ∷ 0 ∷ 0 ∷ []

abbrev selected : CharacterInfo
selected = record { id = 9; name = 66 ∷ []; level = 1; online = 0 }

abbrev sent_packets : List (List ℕ)
sent_packets =
    (0 ∷ 2 ∷ 0 ∷ 10 ∷ 0 ∷ 0 ∷ 0 ∷ 0 ∷ 0 ∷ 1 ∷ 85 ∷ 0 ∷ 1 ∷ 65 ∷ [])
    ∷ (0 ∷ 3 ∷ 0 ∷ 4 ∷ 0 ∷ 0 ∷ 0 ∷ 9 ∷ [])
    ∷ []

login-selected_example :
    (selected.name ≡ account.capitalize account.character_name)
    × (request selection : List ℕ) × (sent_packets ≡ request ∷ selection ∷ [])
    × (encode_packet 3 (int selected.id ∷ []) ≡ ok selection)
unfolding login read_packet read_exactly decode_header encode_packet
login-selected_example =
    login-selected account server_bytes {c = selected} {sent = sent_packets} {rest = []} refl

-- Two lookups of one name that overlap: the answer comes while both wait.
overlapping : Option ℕ × Option ℕ
unfolding begin_lookup end_lookup client_lookup
overlapping =
    let first = begin_lookup handlers 0 (65 ∷ []) client in
    let second = begin_lookup handlers 1 (65 ∷ []) first.1 in
    let answered = client_lookup handlers 7 (65 ∷ []) second.1 in
    let first_end = end_lookup first.0 answered in
    let second_end = end_lookup second.0 first_end.1 in (first_end.0, second_end.0)

overlapping_lem : overlapping ≡ (none, some 7)
unfolding overlapping begin_lookup end_lookup client_lookup
overlapping_lem = refl
