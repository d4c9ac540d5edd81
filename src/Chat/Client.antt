-- ===== src/Chat/Client.antt =====
-- src/aomarket/aochat/client.py: the dispatch of inbound packets and the reader task. `str.lower`
-- is a parameter, and so are the handlers, which may raise; a name is the bytes of its latin-1
-- text. A lookup that waits is a number, the order in which the lookups began.
pub mod Reader
use aomarket_bot.Prelude.{
  ℕ, zero, suc, ◌+◌, Bool, true, false, not, ◌&&◌, Option, none, some, List, [], ◌∷◌, ◌++◌, ◌==◌,
  length, if◌then◌else◌,
}
use aomarket_bot.Exec.{Error, Result, ok, err, value_error, incomplete_read, connection_error}
use aomarket_bot.Chat.Packet.{Arg, int, bytes, InboundPacket, read_packet}

-- The same bytes
abbrev pub same : List ℕ → List ℕ → Bool
same [] [] = true
same (a ∷ as_) (b ∷ bs) = a == b && same as_ bs
same _ _ = false

-- What goes to a handler
pub data Event : Type 0 where
  tell : ℕ → List ℕ → Event
  privgroup_message : ℕ → List ℕ → Event
  buddy_status : ℕ → Bool → Event

-- A handler that is not set is `none`; one that is set returns, or raises the error given.
pub record Handlers : Type 0 where
  pub on_tell : Option (Event → Option Error)
  pub on_privgroup_message : Option (Event → Option Error)
  pub on_buddy_status : Option (Event → Option Error)
  pub lower : List ℕ → List ℕ

-- Dicts as lists of pairs, and the events that handlers took, the oldest first. An answer is what
-- a lookup's future was set to.
pub record ClientState : Type 0 where
  pub buddy_online : List (ℕ × Bool)
  pub name_to_id : List (List ℕ × ℕ)
  pub id_to_name : List (ℕ × List ℕ)
  pub lookup_waiters : List (List ℕ × ℕ)
  pub answers : List (ℕ × Option ℕ)
  pub handled : List Event

-- `dict[key] = value`: a key keeps its place.
abbrev pub put {ℓ κ} :
    {K : Type ℓ} {V : Type κ} → (K → K → Bool) → K → V → List (K × V) → List (K × V)
put eq key value [] = (key, value) ∷ []
put eq key value ((k, v) ∷ rest) =
    let more = put eq key value rest in if eq k key then (k, value) ∷ rest else (k, v) ∷ more

abbrev pub get {ℓ κ} : {K : Type ℓ} {V : Type κ} → (K → K → Bool) → K → List (K × V) → Option V
get eq key [] = none
get eq key ((k, v) ∷ rest) = let more = get eq key rest in if eq k key then some v else more

abbrev pub same_id : ℕ → ℕ → Bool
same_id a b = a == b

-- `if self.on_… is not None: await self.on_…(event)`
abbrev pub handle : Option (Event → Option Error) → Event → ClientState → Result Unit × ClientState
handle none event s = (ok tt, s)
handle (some f) event s = elim (f event) [
  | none ↦ (ok tt, record s { handled = s.handled ++ event ∷ [] })
  | some e ↦ (err e, s)
]

-- `if future is not None and not future.done(): future.set_result(resolved)`
abbrev pub resolve : Option ℕ → Option ℕ → ClientState → ClientState
resolve none resolved s = s
resolve (some waiter) resolved s = elim (get same_id waiter s.answers) [
  | none ↦ record s { answers = s.answers ++ (waiter, resolved) ∷ [] }
  | some done ↦ s
]

-- 0xFFFFFFFF stands for a character that does not exist.
abbrev pub no_character : ℕ
no_character = 4294967295

unfoldable pub client_lookup : Handlers → ℕ → List ℕ → ClientState → ClientState
client_lookup h char_id name s =
    let resolved = if char_id == no_character then none else some char_id in
    let named =
      if char_id == no_character
      then s
      else record s { name_to_id = put same (h.lower name) char_id s.name_to_id } in
    resolve (get same (h.lower name) named.lookup_waiters) resolved named

-- `_dispatch`. The arguments come from the schema of the packet's type; a packet that has others
-- fails to unpack.
unfoldable pub dispatch : Handlers → InboundPacket → ClientState → Result Unit × ClientState
unfolding client_lookup
dispatch h pkt s =
    if pkt.packet_type == 30
    then elim pkt.args [
      | int sender ∷ bytes message ∷ blob ∷ [] ↦ handle h.on_tell (tell sender message) s
      | _ ↦ (err value_error, s)
    ]
    else if pkt.packet_type == 57
    then elim pkt.args [
      | gid ∷ int sender ∷ bytes message ∷ blob ∷ [] ↦
          handle h.on_privgroup_message (privgroup_message sender message) s
      | _ ↦ (err value_error, s)
    ]
    else if pkt.packet_type == 40
    then elim pkt.args [
      | int char_id ∷ int online ∷ btype ∷ [] ↦
          handle h.on_buddy_status (buddy_status char_id (not (online == 0)))
            (record s { buddy_online = put same_id char_id (not (online == 0)) s.buddy_online })
      | _ ↦ (err value_error, s)
    ]
    else if pkt.packet_type == 20
    then elim pkt.args [
      | int char_id ∷ bytes name ∷ [] ↦ (
        ok tt,
        if char_id == no_character
            then s
            else record s { id_to_name = put same_id char_id name s.id_to_name },
      )
      | _ ↦ (err value_error, s)
    ]
    else if pkt.packet_type == 21
    then elim pkt.args [
      | int char_id ∷ bytes name ∷ [] ↦ (ok tt, client_lookup h char_id name s)
      | _ ↦ (err value_error, s)
    ]
    else (ok tt, s)

-- How the reader task ends: the loop returns when the connection is lost, or an exception leaves
-- it.
pub data Exit : Type 0 where
  connection_lost : Exit
  died : Error → Exit

-- `except (asyncio.IncompleteReadError, ConnectionError)`
abbrev pub exit_on : Error → Exit
exit_on incomplete_read = connection_lost
exit_on connection_error = connection_lost
exit_on e = died e

-- `_read_loop` of a client that is not stopping, over the bytes that the server sends before it
-- closes; `none` when the fuel is spent.
unfoldable pub read_loop : Handlers → ℕ → List ℕ → ClientState → Option Exit × ClientState
read_loop h zero stream s = (none, s)
read_loop h (suc fuel) stream s = elim (read_packet stream) [
  | err e ↦ (some (exit_on e), s)
  | ok (pkt, rest) ↦
      let (r, s') = dispatch h pkt s in
      elim r [ err e ↦ (some (died e), s') | ok t ↦ read_loop h fuel rest s' ]
]
