-- ===== src/Home/Azure.antt =====
-- components/agents/AgentsHome.tsx: which remotes are repositories of Azure DevOps.
use mobile_agent.Prelude.{
  ◌==◌, Text, codes, text_eq, Bool, false, ◌||◌, ◌&&◌, Option, none, some, [], ◌∷◌, ◌++◌,
  if◌then◌else◌,
}
use mobile_agent.Prelude.Strings.{includes, starts_with, to_lower_case}

unfoldable pub ends_with : Text → Text → Bool
ends_with [] t = text_eq [] t
ends_with (c ∷ s) t = text_eq (c ∷ s) t || ends_with s t

unfoldable pub is_azure_host : Text → Bool
unfolding ends_with
is_azure_host host =
    text_eq host (codes "dev.azure.com")
    || text_eq host (codes "ssh.dev.azure.com")
    || ends_with host (codes ".visualstudio.com")

azure_at : Text → Bool
azure_at t = starts_with t (codes "dev.azure.com") || starts_with t (codes "ssh.dev.azure.com")

-- the expression's first alternative, after `@` or `//`
azure_after : Text → Bool
unfolding azure_at
azure_after [] = false
azure_after (c ∷ []) = false
azure_after (c ∷ d ∷ t) =
    c == b'@' && azure_at (d ∷ t) || c == b'/' && d == b'/' && azure_at t || azure_after (d ∷ t)

-- `/(?:^|@|\/\/)(?:ssh\.)?dev\.azure\.com|\.visualstudio\.com/i.test(url)`
unfoldable pub looks_azure : Text → Bool
unfolding azure_at azure_after
looks_azure url =
    let lower = to_lower_case url in
    azure_at lower || azure_after lower || includes lower (codes ".visualstudio.com")

azure_parsed : Text → Option Text → Bool
unfolding is_azure_host looks_azure
azure_parsed url none = looks_azure url
azure_parsed url (some host) = is_azure_host (to_lower_case host)

-- `parse_host` fails where `new URL` throws
unfoldable pub is_azure_remote : (Text → Option Text) → Option Text → Bool
unfolding azure_parsed
is_azure_remote parse_host none = false
is_azure_remote parse_host (some []) = false
is_azure_remote parse_host (some (c ∷ url)) =
    azure_parsed (c ∷ url)
      (parse_host (if includes (c ∷ url) (codes "://") then c ∷ url else codes "ssh://" ++ c ∷ url))
