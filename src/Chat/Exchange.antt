-- ===== src/Chat/Exchange.antt =====
-- src/aomarket/aochat/crypto.py: the key of a login. What is drawn at random is an argument, and so
-- is `bytes.fromhex`; texts are the bytes of their encoding.
pub mod Returns
use aomarket_bot.Prelude.{
  ℕ, zero, suc, ◌+◌, ◌-◌, ◌/◌, ◌%◌, ◌^◌, true, false, List, [], ◌∷◌, ◌++◌, length, replicate, ltb,
  if◌then◌else◌,
}
use aomarket_bot.Exec.{Result, ok, and_then}
use aomarket_bot.Chat.Crypto.{aochat_crypt, login_blob}

abbrev pub dh_y : ℕ
dh_y =
    109686265884786736339223830187656169243227248029544320167250524239055946162623552111697425705316953552346764738781257851586321383423321224372694931624727571904031205877307455401205547707809353578653225317442078933578621465072851542602675688962593147912789903994099964591254683935535682559138570351344370003602

abbrev pub dh_n : ℕ
dh_n =
    166171706206112867279132678322179158870469712644436968239824581660540737119157379765827482214976106555127297004571233597492269278439356610570041820804178598836486423466162255678014889596061726295892421651256929066422422193708541795384672610823416936190348400890231856580080509130097191002565840440485925038703

abbrev pub dh_g : ℕ
dh_g = 5

abbrev pub hex_digit : ℕ → ℕ
hex_digit d = if ltb d 10 then 48 + d else 87 + d

-- A number has at most as many digits as its value plus one.
unfoldable pub hex_from : ℕ → ℕ → List ℕ
hex_from zero n = []
hex_from (suc fuel) n = elim (ltb n 16) [
  | true ↦ hex_digit n ∷ []
  | false ↦ hex_from fuel (n / 16) ++ hex_digit (n % 16) ∷ []
]

-- `format(n, "x")`
unfoldable pub hex : ℕ → List ℕ
unfolding hex_from
hex n = hex_from (n + 1) n

-- `text[:n]`
abbrev pub first_of : ℕ → List ℕ → List ℕ
first_of zero text = []
first_of (suc n) [] = []
first_of (suc n) (c ∷ cs) = c ∷ first_of n cs

-- `dh_k_hex`, with `zfill(32)` and `[:32]`
unfoldable pub fit_key : List ℕ → List ℕ
fit_key digits =
    if ltb (length digits) 32
    then replicate (32 - length digits) b'0' ++ digits
    else first_of 32 digits

-- `struct.pack("<I", word).hex()` of each word, one after the other
abbrev pub hex_byte : ℕ → List ℕ
hex_byte byte = hex_digit (byte / 16) ∷ hex_digit (byte % 16) ∷ []

unfoldable pub hex_words : List ℕ → List ℕ
hex_words [] = []
hex_words (word ∷ words) =
    hex_byte (word % 256)
    ++ hex_byte (word / 256 % 256)
    ++ hex_byte (word / 65536 % 256)
    ++ hex_byte (word / 16777216 % 256)
    ++ hex_words words

-- `login_str`
abbrev pub login_text : List ℕ → List ℕ → List ℕ → List ℕ
login_text server_seed username password = username ++ b'|' ∷ server_seed ++ b'|' ∷ password

unfoldable pub generate_login_key :
    (List ℕ → Result (List ℕ)) → ℕ → List ℕ → List ℕ → List ℕ → List ℕ → Result (List ℕ)
unfolding hex fit_key hex_words login_blob aochat_crypt
generate_login_key from_hex dh_x prefix server_seed username password =
    and_then (login_blob prefix (login_text server_seed username password)) (λ plain.
      and_then (aochat_crypt from_hex (fit_key (hex (dh_y ^ dh_x % dh_n))) plain)
        (λ crypted. ok (hex (dh_g ^ dh_x % dh_n) ++ b'-' ∷ hex_words crypted)))
