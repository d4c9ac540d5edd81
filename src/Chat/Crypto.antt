-- ===== src/Chat/Crypto.antt =====
-- src/aomarket/aochat/crypto.py: the block cipher of the login blob, on 32-bit words.
-- `bytes.fromhex` is a parameter.
pub mod Inverse
use Prim.Native.Nat.{bit_xor}
use aomarket_bot.Prelude.{
  ℕ, zero, suc, ◌+◌, ◌-◌, ◌*◌, ◌/◌, ◌%◌, Bool, List, [], ◌∷◌, ◌++◌, ◌==◌, length, replicate,
  if◌then◌else◌,
}
use aomarket_bot.Exec.{Result, ok, err, value_error, struct_error, and_then}
use aomarket_bot.Chat.Packet.{pack_word}

abbrev pub word_size : ℕ
word_size = 4294967296

abbrev pub tea_delta : ℕ
tea_delta = 2654435769

abbrev pub tea_rounds : ℕ
tea_rounds = 32

pub record KeyWords : Type 0 where
  pub k1 : ℕ
  pub k2 : ℕ
  pub k3 : ℕ
  pub k4 : ℕ

-- `term1 ^ term2`: the mask 0xFFFFFFF0 after `<< 4` clears bits that are zero, and the mask
-- 0x07FFFFFF after `>> 5` keeps the low 27 bits.
unfoldable pub mix : ℕ → ℕ → ℕ → ℕ → ℕ
mix x c k k' =
    let term1 = bit_xor ((x * 16 % word_size + k) % word_size) ((x + c) % word_size) in
    let term2 = (x / 32 % 134217728 + k') % word_size in bit_xor term1 term2

-- One pass of the loop of `_permute`, from the sum `c` of that pass
unfoldable pub round : KeyWords → ℕ → ℕ × ℕ → ℕ × ℕ
round key c (a, b) =
    let a' = (a + mix b c key.k1 key.k2) % word_size in
    (a', (b + mix a' c key.k3 key.k4) % word_size)

unfoldable pub rounds : KeyWords → ℕ → ℕ → ℕ × ℕ → ℕ × ℕ
rounds key zero c block = block
rounds key (suc n) c block =
    let c' = (c + tea_delta) % word_size in rounds key n c' (round key c' block)

-- `_permute`
unfoldable pub permute : KeyWords → ℕ × ℕ → ℕ × ℕ
unfolding rounds round mix
permute key block = rounds key tea_rounds 0 block

-- The loop of `aochat_crypt`, over pairs of words, from the last block written
unfoldable pub crypt_words : KeyWords → ℕ × ℕ → List ℕ → List ℕ
crypt_words key (prev0, prev1) (d0 ∷ d1 ∷ ds) =
    let block = permute key (bit_xor d0 prev0, bit_xor d1 prev1) in
    block.0 ∷ block.1 ∷ crypt_words key block ds
crypt_words key prev _ = []

-- struct.unpack("<…I", data)
unfoldable pub little_words : List ℕ → Result (List ℕ)
little_words [] = ok []
little_words (a ∷ b ∷ c ∷ d ∷ rest) =
    and_then (little_words rest) (λ ws. ok ((a + b * 256 + c * 65536 + d * 16777216) ∷ ws))
little_words _ = err struct_error

abbrev pub key_words : List ℕ → Result KeyWords
key_words (k1 ∷ k2 ∷ k3 ∷ k4 ∷ []) = ok (record { k1 = k1; k2 = k2; k3 = k3; k4 = k4 })
key_words _ = err struct_error

-- `aochat_crypt`, with the words of the ciphertext for their hexadecimal digits
unfoldable pub aochat_crypt : (List ℕ → Result (List ℕ)) → List ℕ → List ℕ → Result (List ℕ)
unfolding little_words crypt_words
aochat_crypt from_hex key_hex plain =
    if length key_hex == 32
    then if length plain % 8 == 0
      then and_then (from_hex key_hex) (λ raw. and_then (little_words raw) (λ ks.
        and_then (key_words ks)
          (λ key. and_then (little_words plain) (λ ds. ok (crypt_words key (0, 0) ds)))))
      else err value_error
    else err value_error

-- `plain` in `generate_login_key`, from the 8 random bytes and the login string
unfoldable pub login_blob : List ℕ → List ℕ → Result (List ℕ)
unfolding pack_word
login_blob prefix login_str =
    let pad = replicate ((8 - (8 + 4 + length login_str) % 8) % 8) b' ' in
    and_then (pack_word (length login_str)) (λ len. ok (prefix ++ (len ++ (login_str ++ pad))))
