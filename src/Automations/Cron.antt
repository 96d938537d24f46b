-- ===== src/Automations/Cron.antt =====
-- lib/agents/cron.ts: what a schedule is called. `number_of` is `Number`, where that is an integer that
-- is not below 0.
use mobile_agent.Prelude.{
  ℕ, ◌%◌, ◌==◌, leb, ltb, Text, codes, text_eq, is_empty, trim, decimal, Bool, false, ◌||◌, ◌&&◌,
  Option, none, some, List, [], ◌∷◌, ◌++◌, if◌then◌else◌, find?, all, length, get_elem?, value_or,
}
use mobile_agent.Prelude.Strings.{is_space, join}

pub record CronPreset : Type 0 where
  pub id : Text
  pub label : Text
  pub value : Text

abbrev pub hourly : CronPreset
hourly = record { id = codes "hourly"; label = codes "Cada hora"; value = codes "0 * * * *" }

abbrev pub daily : CronPreset
daily = record { id = codes "daily"; label = codes "Diario"; value = codes "0 9 * * *" }

abbrev pub weekly : CronPreset
weekly = record { id = codes "weekly"; label = codes "Semanal"; value = codes "0 9 * * 1" }

abbrev pub cron_presets : List CronPreset
cron_presets = hourly ∷ daily ∷ weekly ∷ []

day_names : List Text
day_names =
    codes "domingo"
    ∷ codes "lunes"
    ∷ codes "martes"
    ∷ codes "miércoles"
    ∷ codes "jueves"
    ∷ codes "viernes"
    ∷ codes "sábado"
    ∷ []

pad : ℕ → Text
pad n = if ltb (length (decimal n)) 2 then b'0' ∷ decimal n else decimal n

format_time : ℕ → ℕ → Text
unfolding pad
format_time minute hour = pad hour ++ codes ":" ++ pad minute ++ codes " UTC"

starts_with_space : Text → Bool
starts_with_space [] = false
starts_with_space (c ∷ s) = is_space c

add_to_first : ℕ → List Text → List Text
add_to_first c [] = (c ∷ []) ∷ []
add_to_first c (part ∷ parts) = (c ∷ part) ∷ parts

-- `s.split(/\s+/)`: only the last unit of a run of spaces splits.
unfoldable pub split_spaces : Text → List Text
unfolding starts_with_space add_to_first
split_spaces [] = [] ∷ []
split_spaces (c ∷ s) =
    let parts = split_spaces s in
    if is_space c then (if starts_with_space s then parts else [] ∷ parts) else add_to_first c parts

is_star : Text → Bool
is_star t = text_eq t (codes "*")

-- the digits of `/^\*\/(\d+)$/`
every_hours : Text → Option Text
every_hours (c ∷ d ∷ e ∷ digits) =
    if c == b'*' && d == b'/' && all (λ u. leb b'0' u && leb u b'9') (e ∷ digits)
    then some (e ∷ digits)
    else none
every_hours _ = none

day_text : Option ℕ → ℕ → ℕ → Text → Text
unfolding day_names format_time
day_text none minute hour expr = expr
day_text (some day) minute hour expr =
    if leb day 7
    then codes "Cada "
      ++ value_or (get_elem? day_names (day % 7)) []
      ++ codes " a las "
      ++ format_time minute hour
    else expr

module _ (number_of : Text → Option ℕ) where
  at_time : Option ℕ → Option ℕ → Text → Text → Text → Text → Text
  unfolding format_time day_text is_star
  at_time (some minute) (some hour) dom mon dow expr =
      if is_star dom && is_star mon
      then (if is_star dow
          then codes "Todos los días a las " ++ format_time minute hour
          else if text_eq dow (codes "1-5")
          then codes "Días laborables a las " ++ format_time minute hour
          else day_text (number_of dow) minute hour expr)
      else expr
  at_time _ _ dom mon dow expr = expr

  every_text : Option Text → Bool → Text → Text
  every_text none at_the_hour rest = rest
  every_text (some digits) at_the_hour rest =
      if at_the_hour then codes "Cada " ++ digits ++ codes " horas" else rest

  describe_fields : List Text → Text → Text
  unfolding at_time every_text every_hours is_star
  describe_fields (min ∷ hour ∷ dom ∷ mon ∷ dow ∷ []) expr =
      if is_empty min || is_empty hour || is_empty dom || is_empty mon || is_empty dow
      then expr
      else if text_eq min (codes "0") && is_star hour && is_star dom && is_star mon && is_star dow
      then codes "Cada hora"
      else every_text (every_hours hour)
          (text_eq min (codes "0") && is_star dom && is_star mon && is_star dow)
          (at_time (number_of min) (number_of hour) dom mon dow expr)
  describe_fields _ expr = expr

  unfoldable pub describe_cron : Text → Text
  unfolding describe_fields
  describe_cron expr = describe_fields (split_spaces (trim expr)) expr

id_or_custom : Option CronPreset → Text
id_or_custom none = codes "custom"
id_or_custom (some preset) = preset.id

unfoldable pub preset_for_cron : Text → Text
unfolding id_or_custom
preset_for_cron expr = id_or_custom (
    find?
      (λ (preset : CronPreset). text_eq preset.value (join (codes " ") (split_spaces (trim expr))))
      cron_presets)
