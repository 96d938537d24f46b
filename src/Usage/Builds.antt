-- ===== src/Usage/Builds.antt =====
-- What the cards of the page count.
use mobile_agent.Prelude.{
  ◌+◌, codes, is_empty, Bool, not, ◌&&◌, ◌||◌, List, [], ◌∷◌, filter, length, value_or, arith, ◌≡◌,
}
use mobile_agent.Usage.{AzureBuild, Summary, is_text, add_build, summarize_from, summarize_builds}

abbrev is_ok : AzureBuild → Bool
is_ok build = is_text build.result (codes "succeeded")

abbrev has_result : AzureBuild → Bool
has_result build = not (is_empty (value_or build.result []))

abbrev has_failed : AzureBuild → Bool
has_failed build = has_result build && not (is_ok build)

abbrev is_pending : AzureBuild → Bool
is_pending build =
    not (is_ok build)
    && not (has_result build)
    && (is_text build.status (codes "inProgress") || is_text build.status (codes "notStarted"))

summarize_from-counts :
    (s : Summary) (builds : List AzureBuild)
    → ((summarize_from s builds).succeeded ≡ s.succeeded + length (filter is_ok builds))
      × ((summarize_from s builds).failed ≡ s.failed + length (filter has_failed builds))
      × ((summarize_from s builds).in_progress ≡ s.in_progress + length (filter is_pending builds))
unfolding summarize_from add_build
summarize_from-counts s [] = (omega arith, omega arith, omega arith)
summarize_from-counts s (build ∷ builds) =
    let (a, b, c) = summarize_from-counts (add_build s build) builds in
    (ground (arith, a), ground (arith, b), ground (arith, c))

-- The cards count the builds that succeeded, those with another result, and those that have none and
-- run or wait.
pub summarize_builds-counts :
    (builds : List AzureBuild)
    → ((summarize_builds builds).succeeded ≡ length (filter is_ok builds))
      × ((summarize_builds builds).failed ≡ length (filter has_failed builds))
      × ((summarize_builds builds).in_progress ≡ length (filter is_pending builds))
unfolding summarize_builds
summarize_builds-counts builds =
    let (a, b, c) =
      summarize_from-counts (record { succeeded = 0; failed = 0; in_progress = 0 }) builds in
    (omega (arith, a), omega (arith, b), omega (arith, c))
