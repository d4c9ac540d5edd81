-- ===== src/Api/Routes/Settings.antt =====
-- src/aomarket/api/routes/settings.py, a function for each handler.
use aomarket_bot.Prelude.{String}
use aomarket_bot.Exec.{Action, pure, catch, ◌>>=◌, ◌>>◌}
use aomarket_bot.SettingsRepo
use aomarket_bot.SettingsRepo.Values.{SettingValue}
use aomarket_bot.Api.Requests.{Body, Response, success}
use aomarket_bot.Api.Answers.{App, not_found_setting}

unfoldable pub read_setting : String → Action Response
unfolding ◌>>=◌
read_setting key = do value ← SettingsRepo.get key; pure (success (Body.setting_out key value))

unfoldable pub write_setting : String → SettingValue → Action Response
unfolding read_setting ◌>>=◌
write_setting key new_value = do SettingsRepo.set key new_value; read_setting key

module _ (app : App) where
  unfoldable pub list_settings : Action Response
  unfolding ◌>>=◌
  list_settings = do settings ← SettingsRepo.all; pure (success (Body.settings_out settings))

  unfoldable pub get_setting : String → Action Response
  unfolding read_setting catch
  get_setting key = catch (not_found_setting app.env.texts) (read_setting key)

  unfoldable pub update_setting : String → SettingValue → Action Response
  unfolding write_setting catch
  update_setting key new_value =
      catch (not_found_setting app.env.texts) (write_setting key new_value)
