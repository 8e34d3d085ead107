-- ===== src/Hitl/Policy.antt =====
-- src/gg_relay/session/hitl/policy.py: which calls of tools need a human. Where a path resolves to is a
-- question to the file system; it, `str` of a path, `str.lower` and `fnmatch` are the argument `Paths`.
use Prim.Native.String.{String}
use gg_proxy.Base.{
  Bool, true, false, not, ◌&&◌, ◌||◌, ◌≡◌, ◌∙◌, ◌⊎◌, inl, inr, Option, none, some, List, [], ◌∷◌,
  if◌then◌else◌, arith, str_eq, Bool-cases, Option-cases, text_lookup, ◌++◌, refl, sym, ap, eq_iff,
}

pub data Decision : Type 0 where
  accept needs_hitl : Decision

pub record ToolPolicy : Type 0 where
  pub auto_accept_tools : List String
  pub hitl_tools : List String
  pub neutral_tools : List String
  pub path_required_tools : List String
  pub dangerous_patterns : List String

pub record Paths : Type 0 where
  -- the parts of the path that `Path.resolve` gives
  pub resolve : String → List String
  pub text : List String → String
  pub lower : String → String
  pub fnmatch : String → String → Bool

-- The arguments of a tool that are texts.
abbrev pub Args : Type 0
Args = List (String × String)

abbrev pub has_tool : String → List String → Bool
has_tool tool [] = false
has_tool tool (t ∷ tools) = str_eq tool t || has_tool tool tools

abbrev pub file_tools : List String
file_tools = "Edit" ∷ "Write" ∷ "MultiEdit" ∷ "NotebookEdit" ∷ []

abbrev dangerous : List String
dangerous = "*.env" ∷ "*/.git/*" ∷ "*/secrets/*" ∷ "*/credentials/*" ∷ "*id_rsa*" ∷ "*.pem" ∷ []

abbrev pub default_policy : ToolPolicy
default_policy = record {
  auto_accept_tools = file_tools;
  hitl_tools = "Bash" ∷ "WebFetch" ∷ "Task" ∷ [];
  neutral_tools = "Read" ∷ "Glob" ∷ "Grep" ∷ "LS" ∷ [];
  path_required_tools = file_tools;
  dangerous_patterns = dangerous;
}

abbrev pub all_in : List String → List String → Bool
all_in [] tools = true
all_in (t ∷ ts) tools = has_tool t tools && all_in ts tools

-- `__post_init__`; an ill-formed policy is a ValueError.
unfoldable pub make_policy : ToolPolicy → Option ToolPolicy
make_policy p = if all_in p.path_required_tools p.auto_accept_tools then some p else none

-- The first of the fields that holds a text that is not empty.
abbrev pub field_path : List String → Args → Option String
field_path [] args = none
field_path (k ∷ ks) args =
    let later = field_path ks args in
    elim (text_lookup k args) [ none ↦ later | some v ↦ if str_eq v "" then later else some v ]

unfoldable pub extract_path : Args → Option String
extract_path args = field_path ("file_path" ∷ "notebook_path" ∷ "path" ∷ []) args

-- `Path.relative_to` goes through exactly if the parts of the one path begin with those of the other.
abbrev pub begins_with : List String → List String → Bool
begins_with [] parts = true
begins_with (b ∷ base) [] = false
begins_with (b ∷ base) (x ∷ parts) = str_eq b x && begins_with base parts

unfoldable pub inside_cwd : Paths → String → String → Bool
inside_cwd paths path cwd = begins_with (paths.resolve cwd) (paths.resolve path)

abbrev pub any_pattern : Paths → String → List String → Bool
any_pattern paths resolved [] = false
any_pattern paths resolved (pat ∷ pats) =
    paths.fnmatch resolved (paths.lower pat) || any_pattern paths resolved pats

unfoldable pub matches_dangerous : ToolPolicy → Paths → String → Bool
matches_dangerous p paths path =
    any_pattern paths (paths.lower (paths.text (paths.resolve path))) p.dangerous_patterns

unfoldable pub decide_file_tool : ToolPolicy → Paths → String → Args → String → Decision
decide_file_tool p paths tool args cwd = elim (extract_path args) [
  | none ↦ if has_tool tool p.path_required_tools then needs_hitl else accept
  | some path ↦
      if not (inside_cwd paths path cwd)
      then needs_hitl
      else if matches_dangerous p paths path
      then needs_hitl
      else accept
]

unfoldable pub decide : ToolPolicy → Paths → String → Args → String → Decision
decide p paths tool args cwd =
    if has_tool tool p.neutral_tools
    then accept
    else if has_tool tool p.auto_accept_tools
    then decide_file_tool p paths tool args cwd
    else needs_hitl

-- A text that matches none of the patterns, all of them in lower case.
abbrev pub MatchesNone : Paths → String → List String → Type 0
MatchesNone paths t [] = Unit
MatchesNone paths t (pat ∷ pats) =
    (paths.fnmatch t (paths.lower pat) ≡ false) × MatchesNone paths t pats

-- The path in the arguments resolves to one below the resolved working directory, whose text in lower
-- case matches no dangerous pattern.
abbrev pub SafePath : ToolPolicy → Paths → Args → String → Type 0
SafePath p paths args cwd =
    (path : String) × (extract_path args ≡ some path)
    × ((below : List String) × (paths.resolve path ≡ paths.resolve cwd ++ below))
    × MatchesNone paths (paths.lower (paths.text (paths.resolve path))) p.dangerous_patterns

begins_with-below :
    (base parts : List String)
    → begins_with base parts ≡ true
    → (below : List String) × (parts ≡ base ++ below)
begins_with-below [] parts h = (parts, refl)
begins_with-below (b ∷ base) [] h = absurd (ground (arith, h))
begins_with-below (b ∷ base) (x ∷ parts) h =
    let (below, e) = begins_with-below base parts (ground (arith, h)) in
    (below, ap (λ y. y ∷ parts) (sym ((eq_iff b x).0 (ground (arith, h)))) ∙ ap (λ ys. b ∷ ys) e)

any_pattern-MatchesNone :
    (paths : Paths) (t : String) (pats : List String)
    → any_pattern paths t pats ≡ false
    → MatchesNone paths t pats
any_pattern-MatchesNone paths t [] h = tt
any_pattern-MatchesNone paths t (pat ∷ pats) h =
    (ground (arith, h), any_pattern-MatchesNone paths t pats (ground (arith, h)))

file_tool-SafePath :
    (p : ToolPolicy) (paths : Paths) (tool : String) (args : Args) (cwd : String)
    → has_tool tool p.path_required_tools ≡ true
    → decide_file_tool p paths tool args cwd ≡ accept
    → SafePath p paths args cwd
unfolding decide_file_tool inside_cwd matches_dangerous
file_tool-SafePath p paths tool args cwd required h = elim (Option-cases (extract_path args)) [
  | inl missing ↦ absurd (ground (arith, h, missing))
  | inr (path, found) ↦ (
    path,
    found,
    begins_with-below (paths.resolve cwd) (paths.resolve path) (ground (arith, h, found)),
    any_pattern-MatchesNone paths _ p.dangerous_patterns (ground (arith, h, found)),
  )
]

-- Let a tool be one that must name a path exactly if it is one that is accepted by path. Its call goes ahead
-- without a human only if the tool is neutral; or if it is accepted by path, and the path that the
-- policy finds in the arguments resolves to one at or below the resolved working directory whose text
-- in lower case matches none of the dangerous patterns in lower case.
pub decide-SafePath :
    (p : ToolPolicy) (paths : Paths) (tool : String) (args : Args) (cwd : String)
    → has_tool tool p.path_required_tools ≡ has_tool tool p.auto_accept_tools
    → decide p paths tool args cwd ≡ accept
    → (has_tool tool p.neutral_tools ≡ true)
      ⊎ ((has_tool tool p.auto_accept_tools ≡ true) × SafePath p paths args cwd)
unfolding decide
decide-SafePath p paths tool args cwd same h = elim (Bool-cases (has_tool tool p.neutral_tools)) [
  | inl neutral ↦ inl neutral
  | inr other ↦ elim (Bool-cases (has_tool tool p.auto_accept_tools)) [
    | inl by_path ↦ inr (
      by_path,
      file_tool-SafePath p paths tool args cwd (same ∙ by_path) (ground (arith, h, other, by_path)),
    )
    | inr unknown ↦ absurd (ground (arith, h, other, unknown))
  ]
]
