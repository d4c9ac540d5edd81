-- ===== src/Chat/Crypto/Inverse.antt =====
-- The cipher of crypto.py can be undone, and the login blob fills whole blocks.
use aomarket_bot.Prelude.{
  ltb, true, ◌/◌, [], ◌∷◌, ℕ, zero, suc, ◌+◌, ◌-◌, ◌%◌, ◌<◌, ◌≡◌, refl, ap, ◌∙◌, List, ◌++◌, arith,
  length, length-append, length-replicate, replicate,
}
use aomarket_bot.Exec.{ok}
use aomarket_bot.Chat.Packet.{pack_word}
use aomarket_bot.Chat.Crypto.{
  word_size, tea_delta, tea_rounds, KeyWords, mix, round, rounds, permute, login_blob,
}

-- A pass of the loop, undone: the words in the opposite order, each less what was added
unfoldable pub unround : KeyWords → ℕ → ℕ × ℕ → ℕ × ℕ
unround key c (a, b) =
    let b' = (b + (word_size - mix a c key.k3 key.k4 % word_size)) % word_size in
    ((a + (word_size - mix b' c key.k1 key.k2 % word_size)) % word_size, b')

unfoldable pub unrounds : KeyWords → ℕ → ℕ → ℕ × ℕ → ℕ × ℕ
unfolding unround
unrounds key zero c block = block
unrounds key (suc n) c block =
    let c' = (c + tea_delta) % word_size in unround key c' (unrounds key n c' block)

abbrev pub IsBlock : ℕ × ℕ → Type 0
IsBlock (a, b) = (a < word_size) × (b < word_size)

sub_back :
    (x f : ℕ) → x < word_size → ((x + f) % word_size + (word_size - f % word_size)) % word_size ≡ x
sub_back x f h = omega arith

round-IsBlock : (key : KeyWords) (c : ℕ) (block : ℕ × ℕ) → IsBlock (round key c block)
unfolding round
round-IsBlock key c (a, b) = (omega arith, omega arith)

unround-round :
    (key : KeyWords) (c : ℕ) (block : ℕ × ℕ)
    → IsBlock block
    → unround key c (round key c block) ≡ block
unfolding unround round
unround-round key c (a, b) h =
    let a' = (a + mix b c key.k1 key.k2) % word_size in
    rw (sub_back b (mix a' c key.k3 key.k4) h.1) (rw (sub_back a (mix b c key.k1 key.k2) h.0) refl)

unrounds-rounds :
    (key : KeyWords) (n c : ℕ) (block : ℕ × ℕ)
    → IsBlock block
    → unrounds key n c (rounds key n c block) ≡ block
unfolding unrounds rounds
unrounds-rounds key zero c block h = refl
unrounds-rounds key (suc n) c block h =
    let c' = (c + tea_delta) % word_size in
    ap (unround key c') (unrounds-rounds key n c' (round key c' block) (round-IsBlock key c' block))
    ∙ unround-round key c' block h

-- The 32 rounds lose nothing: on two 32-bit words they are undone by the rounds in the opposite
-- order, whatever the key.
pub unrounds-permute :
    (key : KeyWords) (block : ℕ × ℕ)
    → IsBlock block
    → unrounds key tea_rounds 0 (permute key block) ≡ block
unfolding permute
unrounds-permute key block h = unrounds-rounds key tea_rounds 0 block h

ltb-true : (a b : ℕ) → a < b → ltb a b ≡ true
ltb-true a b h = ground arith

-- A login string that `pack(">I")` can measure makes a blob of whole 8-byte blocks.
pub login_blob-length :
    (prefix login_str : List ℕ)
    → length prefix ≡ 8
    → length login_str < word_size
    → (plain : List ℕ) × (login_blob prefix login_str ≡ ok plain) × (length plain % 8 ≡ 0)
unfolding login_blob pack_word
login_blob-length prefix login_str eight short =
    let n = length login_str in
    let pad = replicate ((8 - (8 + 4 + n) % 8) % 8) b' ' in
    let len = n / 16777216 ∷ n / 65536 % 256 ∷ n / 256 % 256 ∷ n % 256 ∷ [] in
    (
      prefix ++ (len ++ (login_str ++ pad)),
      rw (ltb-true n word_size short) refl,
      omega (
        arith,
        eight,
        length-append prefix (len ++ (login_str ++ pad)),
        length-append len (login_str ++ pad),
        length-append login_str pad,
        length-replicate {A = ℕ} ((8 - (8 + 4 + n) % 8) % 8) b' ',
      ),
    )
