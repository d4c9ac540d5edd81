-- ===== src/Chat/Lookup.antt =====
-- src/aomarket/aochat/client.py: the lookup of a character by name, and what is sent by name. A
-- lookup is two steps with the reader's packets between them: one up to the wait for the answer,
-- and one from there on. What is sent is a packet's type with its arguments.
use aomarket_bot.Prelude.{ℕ, Bool, false, Option, none, some, List, [], ◌∷◌, ◌==◌, if◌then◌else◌}
use aomarket_bot.Chat.Packet.{Arg, int, bytes}
use aomarket_bot.Chat.Client.{Handlers, ClientState, put, get, same, same_id}

-- `dict.pop(key, None)`
abbrev pub remove {ℓ κ} :
    {K : Type ℓ} {V : Type κ} → (K → K → Bool) → K → List (K × V) → List (K × V)
remove eq key [] = []
remove eq key ((k, v) ∷ rest) =
    let more = remove eq key rest in if eq k key then rest else (k, v) ∷ more

abbrev pub Sent : Type 0
Sent = ℕ × List Arg

-- Where a lookup stands after its first step: the id that was known, or the number of the future
-- that it waits for, under its key.
pub data Lookup : Type 0 where
  cached : ℕ → Lookup
  waiting : List ℕ → ℕ → Lookup

-- `lookup_user` up to the wait. `waiter` is the number of the new future.
unfoldable pub begin_lookup : Handlers → ℕ → List ℕ → ClientState → Lookup × ClientState × List Sent
begin_lookup h waiter name s = elim (get same (h.lower name) s.name_to_id) [
  | some char_id ↦ (cached char_id, s, [])
  | none ↦ (
    waiting (h.lower name) waiter,
    record s { lookup_waiters = put same (h.lower name) waiter s.lookup_waiters },
    (21, bytes name ∷ []) ∷ [],
  )
]

abbrev pub join_option : Option (Option ℕ) → Option ℕ
join_option none = none
join_option (some r) = r

-- `lookup_user` from the wait on: the future's answer, or none where the time is up before it has
-- one, and in either case the key is taken out.
unfoldable pub end_lookup : Lookup → ClientState → Option ℕ × ClientState
end_lookup (cached char_id) s = (some char_id, s)
end_lookup (waiting key waiter) s = (
  join_option (get same_id waiter s.answers),
  record s { lookup_waiters = remove same key s.lookup_waiters },
)

-- `send_tell` and `send_privgroup`
abbrev pub send_tell : ℕ → List ℕ → Sent
send_tell char_id message = (30, int char_id ∷ bytes message ∷ bytes (0 ∷ []) ∷ [])

abbrev pub send_privgroup : ℕ → List ℕ → Sent
send_privgroup gid message = (57, int gid ∷ bytes message ∷ bytes (0 ∷ []) ∷ [])

-- `buddy_add` of a client that plays `selected`
abbrev pub buddy_add : Option ℕ → ℕ → List ℕ → List Sent
buddy_add none char_id buddy_type = (40, int char_id ∷ bytes buddy_type ∷ []) ∷ []
buddy_add (some own) char_id buddy_type =
    if char_id == own then [] else (40, int char_id ∷ bytes buddy_type ∷ []) ∷ []

-- `send_tell_by_name`, after its lookup
unfoldable pub tell_found : Option ℕ → List ℕ → List Sent
tell_found none message = []
tell_found (some char_id) message = send_tell char_id message ∷ []

abbrev pub or_offline : Option Bool → Bool
or_offline none = false
or_offline (some online) = online

-- `is_online_by_name`, after its lookup
unfoldable pub online_found : Option ℕ → Option ℕ → ClientState → Bool × List Sent
online_found selected none s = (false, [])
online_found selected (some char_id) s =
    (or_offline (get same_id char_id s.buddy_online), buddy_add selected char_id (1 ∷ []))

-- `name_for_id`
unfoldable pub name_for_id : ℕ → ClientState → Option (List ℕ)
name_for_id char_id s = get same_id char_id s.id_to_name

-- `_send_privgroup` of bot/runner.py
unfoldable pub send_own_privgroup : Option ℕ → List ℕ → List Sent
send_own_privgroup none message = []
send_own_privgroup (some gid) message = send_privgroup gid message ∷ []
