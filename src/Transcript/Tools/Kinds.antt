-- ===== src/Transcript/Tools/Kinds.antt =====
-- The order of the tests of `toolKind`.
use mobile_agent.Prelude.{
  Text, codes, ◌≡◌, refl, ◌↔◌, ◌⊎◌, inl, inr, arith, text_eq, text_eq_iff, true, false, sym,
  Bool-cases,
}
use mobile_agent.Prelude.Strings.{has, includes, to_lower_case}
use mobile_agent.Types.{fetch}
use mobile_agent.Transcript.Tools.{kind_of_lowered, tool_kind, fetch_tools, search_tools}

fetch_of_fetch : kind_of_lowered (codes "fetch") ≡ fetch
unfolding kind_of_lowered has includes
fetch_of_fetch = refl

fetch_of_http_request : kind_of_lowered (codes "http_request") ≡ fetch
unfolding kind_of_lowered has includes
fetch_of_http_request = refl

has-fetch_tools :
    (s : Text)
    → has fetch_tools s ≡ true
    → ((s ≡ codes "fetch") ⊎ (s ≡ codes "http_request")) ⊎ (has search_tools s ≡ true)
unfolding has
has-fetch_tools s h = elim (Bool-cases (text_eq (codes "fetch") s)) [
  | inl a ↦ inl (inl (sym ((text_eq_iff (codes "fetch") s).0 a)))
  | inr a ↦ elim (Bool-cases (text_eq (codes "fetch_url") s)) [
    | inl b ↦ inr (rw (← (text_eq_iff (codes "fetch_url") s).0 b) refl)
    | inr b ↦ elim (Bool-cases (text_eq (codes "http_request") s)) [
      | inl c ↦ inl (inr (sym ((text_eq_iff (codes "http_request") s).0 c)))
      | inr c ↦ absurd (ground arith)
    ]
  ]
]

fetch_tests :
    (s : Text)
    → kind_of_lowered s ≡ fetch
    → (has fetch_tools s ≡ true) × (has search_tools s ≡ false)
unfolding kind_of_lowered
fetch_tests s h = ground arith

-- `toolKind` answers "fetch" exactly for the names "fetch" and "http_request" in any case:
-- "fetch_url", which its list of fetching tools names too, was taken by an earlier test.
pub tool_kind-eq-fetch_iff :
    (name : Text)
    → (tool_kind name ≡ fetch)
      ↔ ((to_lower_case name ≡ codes "fetch") ⊎ (to_lower_case name ≡ codes "http_request"))
unfolding tool_kind
tool_kind-eq-fetch_iff name = (to, from)
  where
    to :
        kind_of_lowered (to_lower_case name) ≡ fetch
        → (to_lower_case name ≡ codes "fetch") ⊎ (to_lower_case name ≡ codes "http_request")
    to h = elim (has-fetch_tools (to_lower_case name) (fetch_tests (to_lower_case name) h).0) [
      | inl found ↦ found
      | inr searched ↦ cc ((fetch_tests (to_lower_case name) h).1)
    ]

    from :
        ((to_lower_case name ≡ codes "fetch") ⊎ (to_lower_case name ≡ codes "http_request"))
        → kind_of_lowered (to_lower_case name) ≡ fetch
    from (inl e) = rw e fetch_of_fetch
    from (inr e) = rw e fetch_of_http_request
