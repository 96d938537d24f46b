-- ===== src/Usage.antt =====
-- routes/usage.tsx: the page of the use of Azure DevOps. The replies of its queries are arguments, and so
-- is what the browser's formats print.
mod Builds
use mathlib.Core.Option
use mobile_agent.Prelude.{
  ℕ, ◌+◌, ◌==◌, Text, codes, text_eq, is_empty, filled, Bool, true, false, not, ◌&&◌, ◌||◌, Option,
  none, some, List, [], ◌∷◌, map, is_nil, is_none, value_or, ◌<|>◌, if◌then◌else◌,
}

pub data Period : Type 0 where
  last_7d last_30d all_time : Period

unfoldable pub period_name : Period → Text
period_name last_7d = codes "7d"
period_name last_30d = codes "30d"
period_name all_time = codes "all"

unfoldable pub period_label : Period → Text
period_label last_7d = codes "Últimos 7 días"
period_label last_30d = codes "Últimos 30 días"
period_label all_time = codes "Todo"

-- the period that the address asks for, and 30 days if it names none
unfoldable pub active_period : Option Text → Period
active_period none = last_30d
active_period (some t) =
    if text_eq t (codes "7d")
    then last_7d
    else if text_eq t (codes "30d")
    then last_30d
    else if text_eq t (codes "all")
    then all_time
    else last_30d

-- A failed query: the status of an `ApiError`, or another error.
pub data QueryError : Type 0 where
  api_error : ℕ → Text → QueryError
  other_error : Text → QueryError

unfoldable pub is_not_authorized : Option QueryError → Bool
is_not_authorized none = false
is_not_authorized (some (api_error status message)) = status == 401 || status == 403
is_not_authorized (some (other_error message)) = false

unfoldable pub message_of : QueryError → Text
message_of (api_error status message) = message
message_of (other_error message) = message

pub record AzureBuild : Type 0 where
  pub id : ℕ
  pub build_number : Option Text
  pub definition_name : Option Text
  pub status : Option Text
  pub result : Option Text
  pub source_branch : Option Text
  pub requested_for : Option Text
  pub queue_time : Option Text
  pub start_time : Option Text
  pub finish_time : Option Text
  pub web_url : Option Text

pub record Summary : Type 0 where
  pub succeeded : ℕ
  pub failed : ℕ
  pub in_progress : ℕ

abbrev pub is_text : Option Text → Text → Bool
is_text none t = false
is_text (some s) t = text_eq s t

unfoldable pub add_build : Summary → AzureBuild → Summary
add_build summary build =
    if is_text build.result (codes "succeeded")
    then record summary { succeeded = summary.succeeded + 1 }
    else (if not (is_empty (value_or build.result []))
          && not (is_text build.result (codes "succeeded"))
        then record summary { failed = summary.failed + 1 }
        else (if is_text build.status (codes "inProgress")
              || is_text build.status (codes "notStarted")
            then record summary { in_progress = summary.in_progress + 1 }
            else summary))

unfoldable pub summarize_from : Summary → List AzureBuild → Summary
unfolding add_build
summarize_from summary [] = summary
summarize_from summary (build ∷ builds) = summarize_from (add_build summary build) builds

unfoldable pub summarize_builds : List AzureBuild → Summary
unfolding summarize_from
summarize_builds builds =
    summarize_from (record { succeeded = 0; failed = 0; in_progress = 0 }) builds

-- A state is no name of a property that every object has.
unfoldable pub translate_build_state : Text → Text
translate_build_state value =
    if text_eq value (codes "canceled")
    then codes "Cancelado"
    else if text_eq value (codes "failed")
    then codes "Fallido"
    else if text_eq value (codes "inProgress")
    then codes "En progreso"
    else if text_eq value (codes "none")
    then codes "Sin resultado"
    else if text_eq value (codes "notStarted")
    then codes "En cola"
    else if text_eq value (codes "partiallySucceeded")
    then codes "Parcial"
    else if text_eq value (codes "succeeded")
    then codes "OK"
    else value

-- the label of a build, and whether its badge is the default one
unfoldable pub build_badge : AzureBuild → Text × Bool
unfolding translate_build_state
build_badge build = (
  translate_build_state (value_or build.result (value_or build.status (codes "unknown"))),
  is_text build.result (codes "succeeded"),
)

-- `to_date` is `new Date(value).toLocaleDateString`, if the date is valid.
unfoldable pub format_date : (Text → Option Text) → Option Text → Text
format_date to_date none = codes "sin fecha"
format_date to_date (some value) =
    if is_empty value then codes "sin fecha" else value_or (to_date value) (codes "sin fecha")

abbrev pub first_time : AzureBuild → Option Text
first_time build = build.finish_time <|> build.start_time <|> build.queue_time

pub record CounterRow : Type 0 where
  pub name : Text
  pub count : ℕ

unfoldable pub total_count : List CounterRow → ℕ
total_count [] = 0
total_count (row ∷ rows) = row.count + total_count rows

-- `round` is `Math.round((count / total) * 100)`, in floating point.
unfoldable pub percents : (ℕ → ℕ → ℕ) → List CounterRow → List ℕ
percents round rows =
    map (λ row. if total_count rows == 0 then 0 else round row.count (total_count rows)) rows

-- The state of the page, and the search of its address.
pub record Page : Type 0 where
  pub project : Option Text
  pub search_period : Option Text

unfoldable pub open_page : Option Text → Option Text → Page
open_page period project = record { project = project; search_period = period }

-- `first` is the name of the first project of the reply
unfoldable pub on_projects : Option Text → Page → Page
on_projects none s = s
on_projects (some first) s =
    if is_empty (value_or s.project []) then record s { project = some first } else s

pub record Search : Type 0 where
  pub project : Option Text
  pub period : Option Text

-- the state, and the search that it navigates to
unfoldable pub select_project : Text → Page → Page × Option Search
unfolding active_period period_name
select_project value s = if is_empty value then (s, none) else (
  record s { project = some value },
  some (record {
    project = some value;
    period = some (period_name (active_period s.search_period));
  }),
)

unfoldable pub select_period : Period → Page → Search
unfolding period_name
select_period period s = record { project = s.project; period = some (period_name period) }

-- The component stays mounted when the address changes, so its state keeps the project.
unfoldable pub on_search : Search → Page → Page
on_search search s = record s { search_period = search.period }

-- the key of the query of the use, if it is enabled
unfoldable pub usage_query : Bool → Page → Option (Text × Period)
unfolding active_period
usage_query has_session s =
    if has_session
    then Option.map (λ project. (project, active_period s.search_period))
        (filled (value_or s.project []))
    else none
