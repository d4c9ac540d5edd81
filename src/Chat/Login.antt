-- ===== src/Chat/Login.antt =====
-- `login` of src/aomarket/aochat/client.py, over the bytes that the server sends. The login key and
-- `str.capitalize` are parameters; a name is the bytes of its latin-1 text.
use aomarket_bot.Prelude.{
  ℕ, ◌≡◌, refl, ap, sym, ◌∙◌, true, Option, none, some, List, [], ◌∷◌, ◌==◌, arith, if◌then◌else◌,
}
use aomarket_bot.Prelude.Table.{find, find-some}
use aomarket_bot.Exec.{Result, ok, err, and_then, value_error, login_error}
use aomarket_bot.Chat.Packet.{
  Arg, int, bytes, ints, byte_lists, InboundPacket, read_packet, encode_packet,
}
use aomarket_bot.Chat.Client.{same}

pub record CharacterInfo : Type 0 where
  pub id : ℕ
  pub name : List ℕ
  pub level : ℕ
  pub online : ℕ

-- What `login` is given: the account and the character, and the two parameters
pub record Account : Type 0 where
  pub username : List ℕ
  pub character_name : List ℕ
  pub login_key : List ℕ → List ℕ
  pub capitalize : List ℕ → List ℕ

-- `zip(ids, names, levels, online_flags, strict=True)`
unfoldable pub characters :
    (List ℕ → List ℕ) → List ℕ → List (List ℕ) → List ℕ → List ℕ → Result (List CharacterInfo)
characters capitalize [] [] [] [] = ok []
characters capitalize (i ∷ is_) (n ∷ ns) (l ∷ ls) (o ∷ os) =
    and_then (characters capitalize is_ ns ls os)
      (λ rest. ok (record { id = i; name = capitalize n; level = l; online = o } ∷ rest))
characters capitalize _ _ _ _ = err value_error

abbrev pub charlist : (List ℕ → List ℕ) → List Arg → Result (List CharacterInfo)
charlist capitalize (ints ids ∷ byte_lists names ∷ ints levels ∷ ints flags ∷ []) =
    characters capitalize ids names levels flags
charlist capitalize _ = err value_error

-- `seed_packet.args[0]`; the schema of the packet leaves no other form of arguments.
abbrev pub server_seed : List Arg → Result (List ℕ)
server_seed (bytes seed ∷ _) = ok seed
server_seed _ = err value_error

-- `if packet.type != expected: raise`; a rejected login raises the same error with its reason.
abbrev pub expect : ℕ → InboundPacket → Result (List Arg)
expect packet_type pkt = if pkt.packet_type == packet_type then ok pkt.args else err login_error

-- `next((c for c in …), None)`, and the error when there is none
abbrev pub named : Option CharacterInfo → Result CharacterInfo
named none = err login_error
named (some c) = ok c

abbrev pub select : Account → List CharacterInfo → Result CharacterInfo
select account cs =
    named (find (λ c. same (CharacterInfo.name c) (account.capitalize account.character_name)) cs)

-- The selected character, the packets sent, and what is left to read
unfoldable pub login : Account → List ℕ → Result (CharacterInfo × List (List ℕ) × List ℕ)
unfolding characters
login account stream = and_then (read_packet stream) (λ (p1 : InboundPacket × List ℕ).
    and_then (expect 0 p1.0) (λ seed_args. and_then (server_seed seed_args) (λ seed.
      and_then
        (encode_packet 2 (int 0 ∷ bytes account.username ∷ bytes (account.login_key seed) ∷ []))
        (λ request. and_then (read_packet p1.1) (λ (p2 : InboundPacket × List ℕ).
          and_then (expect 7 p2.0) (λ list_args.
            and_then (charlist account.capitalize list_args) (λ cs.
              and_then (select account cs) (λ selected.
                and_then (encode_packet 3 (int selected.id ∷ [])) (λ selection.
                  and_then (read_packet p2.1) (λ (p3 : InboundPacket × List ℕ).
                    and_then (expect 5 p3.0)
                      (λ ok_args. ok (selected, request ∷ selection ∷ [], p3.1))))))))))))

-- A step of a chain of steps that returned
and_then-inv :
    {A B : Type 0} (r : Result A) (f : A → Result B) {b : B}
    → and_then r f ≡ ok b
    → (a : A) × (r ≡ ok a) × (f a ≡ ok b)
and_then-inv (ok a) f h = (a, refl, h)
and_then-inv (err e) f h = absurd (ground arith)

named-ok : (o : Option CharacterInfo) {c : CharacterInfo} → named o ≡ ok c → o ≡ some c
named-ok none h = absurd (ground arith)
named-ok (some c) h = ground arith

same-eq : (as_ bs : List ℕ) → same as_ bs ≡ true → as_ ≡ bs
same-eq [] [] h = refl
same-eq [] (b ∷ bs) h = ground arith
same-eq (a ∷ as_) [] h = ground arith
same-eq (a ∷ as_) (b ∷ bs) h = ground (arith, same-eq as_ bs)

select-name :
    (account : Account) (cs : List CharacterInfo) {c : CharacterInfo}
    → select account cs ≡ ok c
    → c.name ≡ account.capitalize account.character_name
select-name account cs {c} h =
    let target = account.capitalize account.character_name in
    same-eq c.name target
      (find-some (λ d. same (CharacterInfo.name d) target) cs
        (named-ok (find (λ d. same (CharacterInfo.name d) target) cs) h)).0

-- A login that succeeds ends with the character that was asked for: the selected character has the
-- capitalized name, and the last of the two packets sent selects the character's id.
pub login-selected :
    (account : Account) (stream : List ℕ) {c : CharacterInfo} {sent : List (List ℕ)} {rest : List ℕ}
    → login account stream ≡ ok (c, sent, rest)
    → (c.name ≡ account.capitalize account.character_name)
      × (request selection : List ℕ) × (sent ≡ request ∷ selection ∷ [])
      × (encode_packet 3 (int c.id ∷ []) ≡ ok selection)
unfolding login
login-selected account stream {c} {sent} {rest} h0 =
    let (p1, e1, h1) = and_then-inv (read_packet stream) _ h0 in
    let (seed_args, e2, h2) = and_then-inv (expect 0 p1.0) _ h1 in
    let (seed, e3, h3) = and_then-inv (server_seed seed_args) _ h2 in
    let (request, e4, h4) =
      and_then-inv
        (encode_packet 2 (int 0 ∷ bytes account.username ∷ bytes (account.login_key seed) ∷ [])) _
        h3 in
    let (p2, e5, h5) = and_then-inv (read_packet p1.1) _ h4 in
    let (list_args, e6, h6) = and_then-inv (expect 7 p2.0) _ h5 in
    let (cs, e7, h7) = and_then-inv (charlist account.capitalize list_args) _ h6 in
    let (selected, e8, h8) = and_then-inv (select account cs) _ h7 in
    let (selection, e9, h9) = and_then-inv (encode_packet 3 (int selected.id ∷ [])) _ h8 in
    let (p3, e10, h10) = and_then-inv (read_packet p2.1) _ h9 in
    let (ok_args, e11, h11) = and_then-inv (expect 5 p3.0) _ h10 in
    let same_c = returned selected request selection p3.1 h11 in
    (
      sym (ap (λ d. CharacterInfo.name d) same_c.0) ∙ select-name account cs e8,
      request,
      selection,
      same_c.1,
      ap (λ d. encode_packet 3 (int (CharacterInfo.id d) ∷ [])) (sym same_c.0) ∙ e9,
    )
  where
    returned :
        (d : CharacterInfo) (request selection left : List ℕ)
        → ◌≡◌ {A = Result (CharacterInfo × List (List ℕ) × List ℕ)}
            (ok (d, request ∷ selection ∷ [], left))
            (ok (c, sent, rest))
        → (d ≡ c) × (sent ≡ request ∷ selection ∷ [])
    returned d request selection left e = (cc, cc)
