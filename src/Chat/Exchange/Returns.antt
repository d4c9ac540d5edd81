-- ===== src/Chat/Exchange/Returns.antt =====
-- src/aomarket/aochat/crypto.py: that the key of a login can always be made.
use Prim.Native.Nat.{bit_xor}
use aomarket_bot.Prelude.{
  ℕ, zero, suc, ◌+◌, ◌-◌, ◌*◌, ◌/◌, ◌%◌, ◌^◌, ◌<◌, ◌≤◌, ◌≡◌, refl, Bool, true, false, ◌&&◌, ◌||◌,
  List, [], ◌∷◌, ◌++◌, length, replicate, length-append, length-replicate, ltb, leb, arith,
  Bool-cases, inl, inr,
}
use aomarket_bot.Exec.{Result, ok}
use aomarket_bot.Chat.Crypto.{
  KeyWords, aochat_crypt, little_words, key_words, crypt_words, permute, word_size,
}
use aomarket_bot.Chat.Crypto.Inverse.{login_blob-length}
use aomarket_bot.Chat.Exchange.{
  hex_digit, hex_from, hex, first_of, fit_key, login_text, hex_words, generate_login_key, dh_y,
  dh_n, dh_g,
}

abbrev pub is_hex : ℕ → Bool
is_hex c = leb 48 c && leb c 57 || leb 97 c && leb c 102

abbrev pub IsHexText : List ℕ → Type 0
IsHexText [] = Unit
IsHexText (c ∷ cs) = (is_hex c ≡ true) × IsHexText cs

hex_digit-is_hex : (d : ℕ) → d < 16 → is_hex (hex_digit d) ≡ true
hex_digit-is_hex d h = ground arith

append-IsHexText : (a b : List ℕ) → IsHexText a → IsHexText b → IsHexText (a ++ b)
append-IsHexText [] b h k = k
append-IsHexText (c ∷ cs) b (hc, h) k = (hc, append-IsHexText cs b h k)

replicate-IsHexText : (n : ℕ) → IsHexText (replicate n b'0')
replicate-IsHexText zero = tt
replicate-IsHexText (suc n) = (refl, replicate-IsHexText n)

first_of-IsHexText : (n : ℕ) (t : List ℕ) → IsHexText t → IsHexText (first_of n t)
first_of-IsHexText zero t h = tt
first_of-IsHexText (suc n) [] h = tt
first_of-IsHexText (suc n) (c ∷ cs) (hc, h) = (hc, first_of-IsHexText n cs h)

ltb-lt : {a b : ℕ} → ltb a b ≡ true → a < b
ltb-lt {a = a} {b = b} h = ground (arith, h)

ltb-le : {a b : ℕ} → ltb a b ≡ false → b ≤ a
ltb-le {a = a} {b = b} h = ground (arith, h)

hex_from-IsHexText : (fuel n : ℕ) → IsHexText (hex_from fuel n)
unfolding hex_from
hex_from-IsHexText zero n = tt
hex_from-IsHexText (suc fuel) n = elim (Bool-cases (ltb n 16)) [
  | inl small ↦ rw (IsHexText, small) (hex_digit-is_hex n (ltb-lt small), tt)
  | inr large ↦
      rw (IsHexText, large)
        (append-IsHexText (hex_from fuel (n / 16)) (hex_digit (n % 16) ∷ [])
          (hex_from-IsHexText fuel (n / 16)) (hex_digit-is_hex (n % 16) (omega arith), tt))
]

length-first_of : (n : ℕ) (t : List ℕ) → n ≤ length t → length (first_of n t) ≡ n
length-first_of zero t h = refl
length-first_of (suc n) [] h = omega arith
length-first_of (suc n) (c ∷ cs) h = omega (arith, length-first_of n cs (omega arith))

length-fit_key : (t : List ℕ) → length (fit_key t) ≡ 32
unfolding fit_key
length-fit_key t = elim (Bool-cases (ltb (length t) 32)) [
  | inl short ↦ rw short omega (
    arith,
    ltb-lt short,
    length-append (replicate (32 - length t) b'0') t,
    length-replicate {A = ℕ} (32 - length t) b'0',
  )
  | inr long ↦ rw long (length-first_of 32 t (ltb-le long))
]

fit_key-IsHexText : (t : List ℕ) → IsHexText t → IsHexText (fit_key t)
unfolding fit_key
fit_key-IsHexText t h = elim (Bool-cases (ltb (length t) 32)) [
  | inl short ↦
      rw short (
        append-IsHexText (replicate (32 - length t) b'0') t (replicate-IsHexText (32 - length t)) h)
  | inr long ↦ rw long (first_of-IsHexText 32 t h)
]

-- Whole groups of four bytes can be read as words.
length-little_words :
    (n : ℕ) (data_ : List ℕ)
    → length data_ ≡ n * 4
    → (ws : List ℕ) × (little_words data_ ≡ ok ws) × (length ws ≡ n)
unfolding little_words
length-little_words zero [] h = ([], refl, refl)
length-little_words zero (a ∷ rest) h = absurd (omega arith)
length-little_words (suc n) [] h = absurd (omega arith)
length-little_words (suc n) (a ∷ []) h = absurd (omega arith)
length-little_words (suc n) (a ∷ b ∷ []) h = absurd (omega arith)
length-little_words (suc n) (a ∷ b ∷ c ∷ []) h = absurd (omega arith)
length-little_words (suc n) (a ∷ b ∷ c ∷ d ∷ rest) h =
    let (ws, e, l) = length-little_words n rest (omega arith) in
    ((a + b * 256 + c * 65536 + d * 16777216) ∷ ws, rw e refl, omega (arith, l))

four_key_words : (ws : List ℕ) → length ws ≡ 4 → (key : KeyWords) × (key_words ws ≡ ok key)
four_key_words (k1 ∷ k2 ∷ k3 ∷ k4 ∷ []) h = (record { k1 = k1; k2 = k2; k3 = k3; k4 = k4 }, refl)
four_key_words [] h = absurd (omega arith)
four_key_words (k1 ∷ []) h = absurd (omega arith)
four_key_words (k1 ∷ k2 ∷ []) h = absurd (omega arith)
four_key_words (k1 ∷ k2 ∷ k3 ∷ []) h = absurd (omega arith)
four_key_words (k1 ∷ k2 ∷ k3 ∷ k4 ∷ k5 ∷ ks) h = absurd (omega arith)

length-crypt_words :
    (key : KeyWords) (prev : ℕ × ℕ) (n : ℕ) (ws : List ℕ)
    → length ws ≡ n * 2
    → length (crypt_words key prev ws) ≡ n * 2
unfolding crypt_words
length-crypt_words key (p0, p1) zero [] h = refl
length-crypt_words key (p0, p1) zero (w ∷ ws) h = absurd (omega arith)
length-crypt_words key (p0, p1) (suc n) [] h = absurd (omega arith)
length-crypt_words key (p0, p1) (suc n) (w ∷ []) h = absurd (omega arith)
length-crypt_words key (p0, p1) (suc n) (d0 ∷ d1 ∷ ds) h =
    omega (
      arith,
      length-crypt_words key (permute key (bit_xor d0 p0, bit_xor d1 p1)) n ds (omega arith),
    )

length-hex_words : (ws : List ℕ) → length (hex_words ws) ≡ length ws * 8
unfolding hex_words
length-hex_words [] = refl
length-hex_words (w ∷ ws) = omega (arith, length-hex_words ws)

-- A text of 32 digits makes a key, under which a blob of whole blocks has as many words.
aochat_crypt-returns :
    (from_hex : List ℕ → Result (List ℕ)) (key plain : List ℕ)
    → length key ≡ 32
    → (raw : List ℕ) × (from_hex key ≡ ok raw) × (length raw ≡ 16)
    → length plain % 8 ≡ 0
    → (ws : List ℕ) × (aochat_crypt from_hex key plain ≡ ok ws) × (length ws * 4 ≡ length plain)
unfolding aochat_crypt
aochat_crypt-returns from_hex key plain size (raw, read, sixteen) whole =
    let (ks, ek, lk) = length-little_words 4 raw (omega (arith, sixteen)) in
    let (k, e) = four_key_words ks lk in
    let n = length plain / 8 in
    let (ds, ed, ld) = length-little_words (n * 2) plain (omega (arith, whole)) in
    (
      crypt_words k (0, 0) ds,
      rw (size, whole, read, ek, e, ed) refl,
      omega (arith, whole, length-crypt_words k (0, 0) n ds ld),
    )

-- Where `bytes.fromhex` reads 32 hexadecimal digits as 16 bytes, every random exponent, every 8
-- random bytes and every login string that `pack(">I")` can measure give a login key, and its
-- part behind the dash fills whole blocks, of 16 digits each.
pub generate_login_key-returns :
    (from_hex : List ℕ → Result (List ℕ)) (dh_x : ℕ) (prefix seed username password : List ℕ)
    → ((t : List ℕ)
        → IsHexText t
        → length t ≡ 32
        → (raw : List ℕ) × (from_hex t ≡ ok raw) × (length raw ≡ 16))
    → length prefix ≡ 8
    → length (login_text seed username password) < word_size
    → (crypted : List ℕ) × (generate_login_key from_hex dh_x prefix seed username password
        ≡ ok (hex (dh_g ^ dh_x % dh_n) ++ b'-' ∷ crypted))
      × (length crypted % 16 ≡ 0)
unfolding generate_login_key hex
generate_login_key-returns from_hex dh_x prefix seed username password reads eight short =
    let shared = dh_y ^ dh_x % dh_n in
    let key = fit_key (hex shared) in
    let (plain, blob, whole) =
      login_blob-length prefix (login_text seed username password) eight short in
    let digits = fit_key-IsHexText (hex shared) (hex_from-IsHexText (shared + 1) shared) in
    let size = length-fit_key (hex shared) in
    let (ws, e, l) = aochat_crypt-returns from_hex key plain size (reads key digits size) whole in
    (hex_words ws, rw (blob, e) refl, omega (arith, whole, l, length-hex_words ws))
