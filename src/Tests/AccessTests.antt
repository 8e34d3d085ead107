-- ===== src/Tests/AccessTests.antt =====
-- Tests of the roles and of the tool policy.
use gg_proxy.Base.{true, none, some, [], ◌∷◌, ◌≡◌, refl, ◌↔◌, ◌⊎◌, if◌then◌else◌, str_eq}
use gg_proxy.Roles.{admin, Request, readable, is_granted, require_role_or_own_session}
use gg_proxy.Roles.Gate.{Ranks, Owns, granted_iff_ranked_or_owner}
use gg_proxy.Hitl.Policy.{
  ToolPolicy, Paths, Args, accept, decide, default_policy, has_tool, SafePath, decide-SafePath,
}
use gg_proxy.Tests.Sample.{sessions}

-- The owner of the sessions, with the lowest role.
abbrev ada : Request
ada = record {
  api_key_label = some "ada";
  api_key_role = none;
  config = none;
  store = some (readable sessions);
}

granted_iff_ranked_or_owner_example :
    (is_granted (require_role_or_own_session admin 7 ada) ≡ true) ↔ (Ranks admin ada ⊎ Owns 7 ada)
granted_iff_ranked_or_owner_example = granted_iff_ranked_or_owner admin 7 ada

-- A file system without links: one file in the working directory.
abbrev paths : Paths
paths = record {
  resolve = λ path. if str_eq path "a.py" then "/" ∷ "work" ∷ "a.py" ∷ [] else "/" ∷ "work" ∷ [];
  text = λ parts. "/work/a.py";
  lower = λ text. text;
  fnmatch = λ text pattern. str_eq text pattern;
}

abbrev args : Args
args = ("file_path", "a.py") ∷ []

decide-SafePath_example :
    (has_tool "Edit" default_policy.neutral_tools ≡ true)
    ⊎ ((has_tool "Edit" default_policy.auto_accept_tools ≡ true)
        × SafePath default_policy paths args ".")
unfolding decide gg_proxy.Hitl.Policy.decide_file_tool gg_proxy.Hitl.Policy.extract_path
    gg_proxy.Hitl.Policy.inside_cwd gg_proxy.Hitl.Policy.matches_dangerous
decide-SafePath_example = decide-SafePath default_policy paths "Edit" args "." refl refl
