-- ===== src/ApiKeyRepo/Sound.antt =====
-- The methods of api_key_repo.py keep the constraints of the tables.
use aomarket_bot.Prelude.{
  ℕ, String, ◌≡◌, refl, inl, inr, Bool, true, All-append, Bool-cases, arith, ◌==◌,
}
use aomarket_bot.Prelude.Int.{ℤ}
use aomarket_bot.Prelude.Table.{update, Unique-append, Unique-update, All-update}
use aomarket_bot.Db.{Db, ApiKey, is_key}
use aomarket_bot.Db.Integrity.{IsSound, IsLinkedKey, keys-IsSound}
use aomarket_bot.Exec.{◌>>=◌}
use aomarket_bot.Exec.Keeps.{Keeps}
use aomarket_bot.MarketRepo.Sound.{SoundWorld}
use aomarket_bot.ApiKeyRepo.{
  create, accepts_key, put_key, new_key, get_by_hash, revoke_all_for_player, list_for_player,
  touch_last_used, is_active_of, revoke, touch,
}

rekey-IsSound :
    (q : ApiKey → Bool) (f : ApiKey → ApiKey)
    → ((k l : ApiKey) → is_key l.key_hash (f k) ≡ is_key l.key_hash k)
    → ((k l : ApiKey) → is_key (f l).key_hash k ≡ is_key l.key_hash k)
    → ((db : Db) (k : ApiKey) → IsLinkedKey db.users k → IsLinkedKey db.users (f k))
    → (db : Db) → IsSound db
    → IsSound (record db { api_keys = update q f db.api_keys })
rekey-IsSound q f same same' linked db h =
    keys-IsSound db (update q f db.api_keys)
      (Unique-update _ q f db.api_keys same same' h.keys_once)
      (All-update _ q f db.api_keys (linked db) h.keys_linked) h

accepted-IsSound :
    (player key_hash prefix : String) (now : ℤ) (db : Db)
    → accepts_key player key_hash db ≡ true
    → IsSound db
    → IsSound (put_key now player key_hash prefix db)
accepted-IsSound player key_hash prefix now db fits h =
    keys-IsSound db _
      (Unique-append _ (new_key db.next_id now player key_hash prefix) db.api_keys (ground arith)
        h.keys_once)
      (All-append _ db.api_keys _ h.keys_linked (ground arith, tt)) h

pub create-Sound :
    (player key_hash prefix : String) → Keeps SoundWorld (create player key_hash prefix)
unfolding create ◌>>=◌
create-Sound player key_hash prefix = record {
  run = λ w h. elim (Bool-cases (accepts_key player key_hash w.db)) [
    | inl fits ↦ rw fits (accepted-IsSound player key_hash prefix w.now w.db fits h)
    | inr refused ↦ rw refused h
  ];
}

pub get_by_hash-Sound : (key_hash : String) → Keeps SoundWorld (get_by_hash key_hash)
unfolding get_by_hash
get_by_hash-Sound key_hash = record { run = λ w h. h }

pub list_for_player-Sound : (player : String) → Keeps SoundWorld (list_for_player player)
unfolding list_for_player
list_for_player-Sound player = record { run = λ w h. h }

pub revoke_all_for_player-Sound :
    (player : String) → Keeps SoundWorld (revoke_all_for_player player)
unfolding revoke_all_for_player ◌>>=◌
revoke_all_for_player-Sound player = record {
  run = λ w h.
      rekey-IsSound (is_active_of player) (revoke w.now) (λ k l. refl) (λ k l. refl) (λ db k l. l)
        w.db h;
}

pub touch_last_used-Sound : (key_id : ℕ) → Keeps SoundWorld (touch_last_used key_id)
unfolding touch_last_used ◌>>=◌
touch_last_used-Sound key_id = record {
  run = λ w h.
      rekey-IsSound (λ k. k.id == key_id) (touch w.now) (λ k l. refl) (λ k l. refl) (λ db k l. l)
        w.db h;
}

pub ruleset key_sound = (
  create-Sound, get_by_hash-Sound, list_for_player-Sound, revoke_all_for_player-Sound,
  touch_last_used-Sound,
)
