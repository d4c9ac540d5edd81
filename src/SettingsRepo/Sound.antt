-- ===== src/SettingsRepo/Sound.antt =====
-- The methods of settings_repo.py keep the constraints of the tables.
use aomarket_bot.Prelude.{String, refl, inl, inr, Bool-cases}
use aomarket_bot.Prelude.Int.{ℤ}
use aomarket_bot.Prelude.Table.{any, update, Unique-append, Unique-update}
use aomarket_bot.Db.{Db, is_setting}
use aomarket_bot.Db.Integrity.{IsSound, settings-IsSound}
use aomarket_bot.Exec.{modify}
use aomarket_bot.Exec.Keeps.{Keeps, keeps_rules}
use aomarket_bot.MarketRepo.Sound.{SoundWorld, modify-Sound}
use aomarket_bot.SettingsRepo.Values.{SettingValue}
use aomarket_bot.SettingsRepo.{
  SettingDefault, new_setting, seed, seed_defaults, get_row, get, get_bool, get_int, get_str, write,
  set,
}

seed-IsSound : (now : ℤ) (d : SettingDefault) (db : Db) → IsSound db → IsSound (seed now d db)
seed-IsSound now d db h = elim (Bool-cases (any (is_setting d.key) db.settings)) [
  | inl old ↦ rw old h
  | inr new ↦ rw new (
      settings-IsSound db _ (Unique-append _ (new_setting now d) db.settings new h.settings_once) h)
]

seed-Sound : (now : ℤ) (d : SettingDefault) → Keeps SoundWorld (modify (seed now d))
seed-Sound now d = modify-Sound _ (seed-IsSound now d)

pub seed_defaults-Sound : Keeps SoundWorld seed_defaults
unfolding seed_defaults
seed_defaults-Sound = search (keeps_rules, seed-Sound)

write-Sound :
    (key : String) (now : ℤ) (value : SettingValue)
    → Keeps SoundWorld (
        modify
          (λ db. record db { settings = update (is_setting key) (write now value) db.settings }))
write-Sound key now value = modify-Sound _ (λ db h.
    settings-IsSound db _
      (Unique-update _ (is_setting key) (write now value) db.settings (λ s t. refl) (λ s t. refl)
        h.settings_once)
      h)

module _ (key : String) where
  get_row-Sound : Keeps SoundWorld (get_row key)
  unfolding get_row
  get_row-Sound = search keeps_rules

  pub get-Sound : Keeps SoundWorld (get key)
  unfolding get
  get-Sound = search (keeps_rules, get_row-Sound)

  pub get_bool-Sound : Keeps SoundWorld (get_bool key)
  unfolding get_bool
  get_bool-Sound = search (keeps_rules, get-Sound)

  pub get_int-Sound : Keeps SoundWorld (get_int key)
  unfolding get_int
  get_int-Sound = search (keeps_rules, get-Sound)

  pub get_str-Sound : Keeps SoundWorld (get_str key)
  unfolding get_str
  get_str-Sound = search (keeps_rules, get-Sound)

  pub set-Sound : (value : SettingValue) → Keeps SoundWorld (set key value)
  unfolding set
  set-Sound value = search (keeps_rules, get_row-Sound, write-Sound)

pub ruleset settings_sound =
    (seed_defaults-Sound, get-Sound, get_bool-Sound, get_int-Sound, get_str-Sound, set-Sound)
