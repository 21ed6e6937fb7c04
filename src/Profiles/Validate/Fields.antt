-- ===== src/Profiles/Validate/Fields.antt =====
-- `validate` of profiles.py: the rules on texts, commands and exposed servers.
use remote_devbox_mcp.Base.{
  ℕ, Bool, false, not, ◌&&◌, ◌||◌, List, [], ◌∷◌, ◌++◌, none, some, if◌then◌else◌, leb, Text, codes,
  text_eq, is_in, is_empty, is_some, is_digit, any, all, select, map, mem, has_byte, find_sep,
  strip, Dict, lookup, insert,
}
use remote_devbox_mcp.Profiles.Data.{
  HostService, ArgSpec, RunnerCommand, SetupCommand, Script, ExposedMcp, Profile, runner_tool_name,
}
use remote_devbox_mcp.Gateway.Policy.Names.{valid_server_name}
use remote_devbox_mcp.Gateway.Policy.Calls.{default_deny_servers}

-- A problem by the number of its rule; the text behind the number is left out.
pub data Problem : Type 0 where
  error warning : ℕ → Problem

-- What `validate` asks the host: whether a path exists, a joined path, and `shlex.split`
-- of a command whose quotes close; for any other command `shlex.split` raises, which is left out.
pub record Host : Type 0 where
  pub exists : Text → Bool
  pub join_path : Text → Text → Text
  pub split_words : Text → List Text

abbrev pub when : Bool → Problem → List Problem
when b p = if b then p ∷ [] else []

-- `problems` of a loop over a list
unfoldable pub each {ℓ} : {A : Type ℓ} → (A → List Problem) → List A → List Problem
each f [] = []
each f (x ∷ xs) = f x ++ each f xs

-- `len(xs) != len(set(xs))`
unfoldable pub has_duplicates : List Text → Bool
has_duplicates [] = false
has_duplicates (x ∷ xs) = is_in x xs || has_duplicates xs

unfoldable pub has_duplicate_ports : List ℕ → Bool
has_duplicate_ports [] = false
has_duplicate_ports (n ∷ ns) = mem n ns || has_duplicate_ports ns

abbrev pub is_letter : ℕ → Bool
is_letter c = leb b'a' c && leb c b'z' || leb b'A' c && leb c b'Z'

-- `[A-Za-z0-9._\-/]+` and `[A-Za-z0-9._:\-+ ]*` on the whole text
unfoldable pub is_mount : Text → Bool
unfolding all has_byte
is_mount s = not (is_empty s) && all (λ c. is_letter c || is_digit c || has_byte c (codes "._-/")) s

unfoldable pub is_toolchain : Text → Bool
unfolding all has_byte
is_toolchain = all (λ c. is_letter c || is_digit c || has_byte c (codes "._:-+ "))

-- from `project_dir` to `git_email`
unfoldable pub identity_problems : Host → Profile → List Problem
unfolding is_toolchain
identity_problems host p =
    (if is_empty p.project_dir
      then error 1 ∷ []
      else when (not (host.exists p.project_dir)) (error 2))
    ++ when (not (is_toolchain p.toolchain)) (error 22)
    ++ when (is_empty p.git_name) (error 4)
    ++ when (is_empty p.git_email || not (has_byte b'@' p.git_email)) (error 5)

abbrev quote : Text
quote = 34 ∷ []

abbrev is_pathlike : Text → Bool
is_pathlike word = has_byte 92 word || has_byte b'/' word

-- the condition of R26 on two neighbouring words
abbrev splits_path : Host → Text → Text → Bool
splits_path host left right =
    is_pathlike left
    && is_pathlike right
    && host.exists (strip quote left ++ (codes " " ++ strip quote right))

unfoldable pub has_split_path : Host → List Text → Bool
has_split_path host [] = false
has_split_path host (w ∷ []) = false
has_split_path host (w ∷ x ∷ words) = splits_path host w x || has_split_path host (x ∷ words)

-- `any(op in service.cmd for op in ("&&", "||", ";", "|"))`
abbrev shell_operators : List Text
shell_operators = codes "&&" ∷ codes "||" ∷ codes ";" ∷ codes "|" ∷ []

unfoldable pub service_problems : Host → HostService → List Problem
unfolding has_split_path any
service_problems host s =
    when (not (leb 1 s.port && leb s.port 65535)) (error 6)
    ++ (if is_empty s.cmd
        then error 6 ∷ []
        else when (has_split_path host (host.split_words s.cmd)) (warning 26))
    ++ when (any (λ op. is_some (find_sep op s.cmd)) shell_operators) (warning 18)

abbrev metachars : Text
metachars = codes "|&;$()<>%!'\""

unfoldable pub arg_problems : List Text → Text × ArgSpec → List Problem
arg_problems cmd (name, spec) =
    when (not (is_in spec.type_name (codes "str" ∷ codes "path" ∷ []))) (error 23)
    ++ when (not (is_in spec.position (codes "append" ∷ codes "template" ∷ []))) (error 23)
    ++ (elim cmd [
      | [] ↦ []
      | first ∷ _ ↦ when (text_eq first (codes "{" ++ (name ++ codes "}"))) (error 23)
    ])

unfoldable pub command_problems : RunnerCommand → List Problem
unfolding each arg_problems any
command_problems c =
    when (is_empty c.name) (error 8)
    ++ when (is_empty c.cmd) (error 8)
    ++ each (λ element. when (any (λ ch. has_byte ch metachars) element) (error 9)) c.cmd
    ++ each (arg_problems c.cmd) c.args
    ++ (elim c.timeout [ none ↦ [] | some t ↦ when (not (leb 1 t && leb t 86400)) (error 25) ])

-- `tool_sources`: the raw name and the tool
unfoldable pub tool_sources : List RunnerCommand → List Script → List (Text × Text)
unfolding runner_tool_name
tool_sources commands scripts =
    map (λ c. (c.name, runner_tool_name c.name)) commands
    ++ map (λ s. (s.name, runner_tool_name (codes "script:" ++ s.name))) scripts

-- the loop over `tool_sources`, with `tool_owners`
unfoldable pub owner_problems : Dict Text → List (Text × Text) → List Problem
owner_problems owners [] = []
owner_problems owners ((raw, tool) ∷ sources) = elim (lookup tool owners) [
  | none ↦ owner_problems (insert tool raw owners) sources
  | some owner ↦
      if text_eq owner raw
      then owner_problems (insert tool raw owners) sources
      else error 10 ∷ owner_problems owners sources
]

-- the rules on commands and their tools
unfoldable pub runner_problems : Profile → List Problem
unfolding command_problems owner_problems tool_sources has_duplicates
runner_problems p =
    each command_problems p.runner_commands
    ++ when
        (has_duplicates (
          select (λ name. not (is_empty name))
            (map (λ (c : RunnerCommand). c.name) p.runner_commands)))
        (error 10)
    ++ owner_problems [] (tool_sources p.runner_commands p.scripts)

abbrev pub network_egress_servers : List Text
network_egress_servers = codes "websearch" ∷ codes "context7" ∷ []

abbrev pub secret_touching_servers : List Text
secret_touching_servers =
    codes "stitch-manager"
    ∷ codes "lgm"
    ∷ codes "ssh"
    ∷ codes "playwright"
    ∷ codes "stitch-totp"
    ∷ codes "stitch-mail"
    ∷ []

unfoldable pub mcp_problems : ExposedMcp → List Problem
unfolding has_duplicates any
mcp_problems m =
    when (not (valid_server_name m.name)) (error 36)
    ++ when (not (is_in m.mode (codes "readonly" ∷ codes "full" ∷ []))) (error 37)
    ++ when (any is_empty m.tool_allow) (error 38)
    ++ when (has_duplicates m.tool_allow) (error 38)
    ++ when (is_in m.name default_deny_servers) (error 40)

-- `exposed_names`
abbrev pub exposed_names : Profile → List Text
exposed_names p = select valid_server_name (map (λ (m : ExposedMcp). m.name) p.exposed_mcps)

-- the rules on the exposed servers
unfoldable pub exposed_problems : Profile → List Problem
unfolding each mcp_problems has_duplicates any
exposed_problems p =
    each mcp_problems p.exposed_mcps
    ++ when (has_duplicates (exposed_names p)) (error 39)
    ++ when
        (any (λ name. is_in name network_egress_servers) (exposed_names p)
          && any (λ name. is_in name secret_touching_servers) (exposed_names p))
        (error 41)

-- the rules on `deny_mounts`, `setup_cmds` and `preview_origin`
unfoldable pub mount_problems : Host → Profile → Text → List Problem
unfolding is_mount
mount_problems host p mount =
    if not (is_mount mount)
    then error 21 ∷ []
    else when (not (host.exists (host.join_path p.project_dir mount))) (warning 16)

unfoldable pub setup_problems : Host → Profile → List Problem
unfolding each mount_problems
setup_problems host p =
    each (mount_problems host p) p.deny_mounts
    ++ each (λ (s : SetupCommand). when (is_empty s.cmd) (error 17)) p.setup_cmds
    ++ when (is_empty p.preview_origin) (warning 19)
