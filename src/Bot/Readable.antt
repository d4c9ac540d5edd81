-- ===== src/Bot/Readable.antt =====
-- What the admin command `!settings KEY VALUE` leaves in the table.
use aomarket_bot.Prelude.{
  String, ◌≡◌, refl, ap, sym, ◌∙◌, ◌⊎◌, some, List, [], ◌∷◌, Option-cases, inl, inr, Bool-cases,
}
use mathlib.Core.Path.{subst}
use aomarket_bot.Prelude.Text.{strip_text}
use aomarket_bot.Prelude.Table.{find}
use aomarket_bot.Db.{Setting, ValueType, is_setting}
use aomarket_bot.Exec.{World, Error, Result, ok, err, ◌>>=◌}
use aomarket_bot.SettingsRepo.{get, set, get_row}
use aomarket_bot.SettingsRepo.Values.{SettingValue, serialize, deserialize, parse_int}
use aomarket_bot.SettingsRepo.Typed.{find-write, text_of_truth}
use aomarket_bot.SettingsRepo.Numerals.{parse_int-str_ℤ}
use aomarket_bot.Market.Env.{Texts}
use aomarket_bot.Market.Reads.{get-Reads}
use aomarket_bot.Market.Replies.{group1, group2}
use aomarket_bot.Bot.Admin.{
  AdminCommand, Coerced, is_one_of, coerce_like, coerce_from, coerce_setting_value, store,
  admin_dispatch,
}

-- The value is one of the type.
abbrev pub type_of : SettingValue → ValueType
type_of (SettingValue.bool b) = ValueType.bool
type_of (SettingValue.int n) = ValueType.int
type_of (SettingValue.float s) = ValueType.float
type_of (SettingValue.str s) = ValueType.str

ok_same : {v u : SettingValue} → ◌≡◌ {A = Result SettingValue} (ok v) (ok u) → v ≡ u
ok_same e = cc

err_is_not : {e : Error} {v : SettingValue} → ◌≡◌ {A = Result SettingValue} (err e) (ok v) → ⊥
err_is_not h = cc

value_same : {v u : SettingValue} → Coerced.value v ≡ Coerced.value u → v ≡ u
value_same e = cc

refusal_is_not : {text : String} {v : SettingValue} → Coerced.refusal text ≡ Coerced.value v → ⊥
refusal_is_not e = cc

deserialize-type_of :
    (text : String) (t : ValueType) {v : SettingValue} → deserialize text t ≡ ok v → type_of v ≡ t
unfolding deserialize
deserialize-type_of text ValueType.bool h = ap type_of (sym (ok_same h))
deserialize-type_of text ValueType.int h = elim (Option-cases (parse_int text)) [
  | inl fails ↦ absurd (err_is_not (rw (fails, deserialize) at h))
  | inr (n, e) ↦ ap type_of (sym (ok_same (rw (e, deserialize) at h)))
]
deserialize-type_of text ValueType.float h = ap type_of (sym (ok_same h))
deserialize-type_of text ValueType.str h = ap type_of (sym (ok_same h))

deserialize-serialize :
    (v : SettingValue) → deserialize (serialize v (type_of v)) (type_of v) ≡ ok v
unfolding deserialize serialize
deserialize-serialize (SettingValue.bool b) = ap (λ c. ok (SettingValue.bool c)) (text_of_truth b)
deserialize-serialize (SettingValue.int n) = rw (parse_int-str_ℤ n, deserialize) refl
deserialize-serialize (SettingValue.float s) = refl
deserialize-serialize (SettingValue.str s) = refl

-- A value coerced by the current one is of its type.
coerce_like-type_of :
    (texts : Texts) (key raw : String) (current : SettingValue) {v : SettingValue}
    → coerce_like texts key raw current ≡ Coerced.value v
    → type_of v ≡ type_of current
unfolding coerce_like
coerce_like-type_of texts key raw (SettingValue.bool b) h =
    elim (Bool-cases (is_one_of ("true" ∷ "on" ∷ "yes" ∷ "1" ∷ []) (strip_text raw))) [
      | inl on ↦ ap type_of (sym (value_same (rw (on, coerce_like) at h)))
      | inr other ↦
          elim (Bool-cases (is_one_of ("false" ∷ "off" ∷ "no" ∷ "0" ∷ []) (strip_text raw))) [
            | inl off ↦ ap type_of (sym (value_same (rw (other, off, coerce_like) at h)))
            | inr neither ↦ absurd (refusal_is_not (rw (other, neither, coerce_like) at h))
          ]
    ]
coerce_like-type_of texts key raw (SettingValue.int n) h = elim (Option-cases (parse_int raw)) [
  | inl fails ↦ absurd (refusal_is_not (rw (fails, coerce_like) at h))
  | inr (m, e) ↦ ap type_of (sym (value_same (rw (e, coerce_like) at h)))
]
coerce_like-type_of texts key raw (SettingValue.float s) h =
    elim (Option-cases (texts.to_float raw)) [
      | inl fails ↦ absurd (refusal_is_not (rw (fails, coerce_like) at h))
      | inr (m, e) ↦ ap type_of (sym (value_same (rw (e, coerce_like) at h)))
    ]
coerce_like-type_of texts key raw (SettingValue.str s) h = ap type_of (sym (value_same h))

-- A value of the type that the row keeps is read back.
get-set :
    (key : String) (v : SettingValue) (w : World) {s : Setting}
    → find (is_setting key) w.db.settings ≡ some s
    → type_of v ≡ s.value_type
    → ((set key v w).0 ≡ ok tt) × ((get key (set key v w).1).0 ≡ ok v)
unfolding get set get_row ◌>>=◌
get-set key v w {s} row same = rw row (
  refl,
  rw (find-write w.now v key w.db.settings row)
      (subst (λ t. deserialize (serialize v t) t ≡ ok v) same (deserialize-serialize v)),
)

get-now :
    (key : String) (w : World) {s : Setting}
    → find (is_setting key) w.db.settings ≡ some s
    → (get key w).0 ≡ deserialize s.value s.value_type
unfolding get get_row ◌>>=◌
get-now key w row = rw row refl

Coerced-cases :
    (c : Coerced)
    → ((text : String) × (c ≡ Coerced.refusal text)) ⊎ ((v : SettingValue) × (c ≡ Coerced.value v))
Coerced-cases (Coerced.refusal text) = inl (text, refl)
Coerced-cases (Coerced.value v) = inr (v, refl)

store-world :
    (texts : Texts) (key : String) (v : SettingValue) (w : World)
    → (set key v w).0 ≡ ok tt
    → (get key (set key v w).1).0 ≡ ok v
    → (store texts key (Coerced.value v) w).1 ≡ (set key v w).1
unfolding store ◌>>=◌
store-world texts key v w stored read =
    rw stored (rw read ((get-Reads (λ u. u ≡ (set key v w).1) key).run (set key v w).1 refl))

admin_dispatch-store :
    (texts : Texts) (groups : List String) (w : World) {s : Setting} {current : SettingValue}
    → find (is_setting (group1 groups)) w.db.settings ≡ some s
    → deserialize s.value s.value_type ≡ ok current
    → admin_dispatch texts AdminCommand.settings_set groups w
      ≡ store texts
          (group1 groups)
          (coerce_like texts (group1 groups) (strip_text (group2 groups)) current)
          w
unfolding admin_dispatch coerce_setting_value coerce_from get_row ◌>>=◌
admin_dispatch-store texts groups w row reads = rw (row, reads) refl

store-refusal :
    (texts : Texts) (key text : String) (w : World)
    → (store texts key (Coerced.refusal text) w).1 ≡ w
unfolding store ◌>>=◌
store-refusal texts key text w = refl

-- A setting that is there and that reads as a value of its type reads as a value of its type after
-- an admin's `!settings KEY VALUE` too, whatever the text of the value is.
pub settings_set-type_of :
    (texts : Texts) (groups : List String) (w : World) {s : Setting} {current : SettingValue}
    → find (is_setting (group1 groups)) w.db.settings ≡ some s
    → deserialize s.value s.value_type ≡ ok current
    → (v : SettingValue) × ((get
          (group1 groups)
          (admin_dispatch texts AdminCommand.settings_set groups w).1).0
        ≡ ok v)
      × (type_of v ≡ s.value_type)
settings_set-type_of texts groups w {s} {current} row reads =
    let key = group1 groups in
    let ends = admin_dispatch-store texts groups w row reads in
    elim (Coerced-cases (coerce_like texts key (strip_text (group2 groups)) current)) [
      | inl (text, refused) ↦ (
        current,
        ap (λ r. (get key r.1).0) ends
            ∙ ap (λ c. (get key (store texts key c w).1).0) refused
            ∙ ap (λ u. (get key u).0) (store-refusal texts key text w)
            ∙ get-now key w row
            ∙ reads,
        deserialize-type_of s.value s.value_type reads,
      )
      | inr (v, takes) ↦
          let typed =
            coerce_like-type_of texts key _ current takes
            ∙ deserialize-type_of s.value s.value_type reads in
          let (stored, read) = get-set key v w row typed in
          (
            v,
            ap (λ r. (get key r.1).0) ends
                ∙ ap (λ c. (get key (store texts key c w).1).0) takes
                ∙ ap (λ u. (get key u).0) (store-world texts key v w stored read)
                ∙ read,
            typed,
          )
    ]
