-- ===== src/Profiles/Data.antt =====
-- The records of profiles.py and the names of runner tools. Numbers are naturals: a profile with a
-- negative number is outside the model.
use remote_devbox_mcp.Base.{
  ℕ, Bool, List, [], ◌++◌, map, Option, none, if◌then◌else◌, ◌==◌, Text, codes,
}

abbrev pub bridge_port : ℕ
bridge_port = 8787

abbrev pub max_port_ranges : ℕ
max_port_ranges = 32

pub record HostService : Type 0 where
  pub port : ℕ
  pub auth : Text
  pub cwd : Text
  pub cmd : Text

pub record ArgSpec : Type 0 where
  pub type_name : Text
  pub position : Text

pub record RunnerCommand : Type 0 where
  pub name : Text
  pub cmd : List Text
  pub description : Text
  pub args : List (Text × ArgSpec)
  pub background : Bool
  pub port : Option ℕ
  pub timeout : Option ℕ

pub record SetupCommand : Type 0 where
  pub cmd : Text
  pub marker : Text
  pub required : Bool

pub record Script : Type 0 where
  pub name : Text
  pub cmd : List Text
  pub description : Text

pub record ExposedMcp : Type 0 where
  pub name : Text
  pub mode : Text
  pub tool_allow : List Text

pub record Profile : Type 0 where
  pub project_dir : Text
  pub toolchain : Text
  pub git_name : Text
  pub git_email : Text
  pub preview_origin : Text
  pub mode : Text
  pub ui_port : Option ℕ
  pub host_services : List HostService
  pub runner_commands : List RunnerCommand
  pub runner_port : Option ℕ
  pub allowed_ports : List ℕ
  pub port_ranges : List (ℕ × ℕ)
  pub port_deny : List ℕ
  pub deny_mounts : List Text
  pub setup_cmds : List SetupCommand
  pub scripts : List Script
  pub gateway_port : Option ℕ
  pub exposed_mcps : List ExposedMcp

-- `Profile()`
abbrev pub no_profile : Profile
no_profile = record {
  project_dir = [];
  toolchain = [];
  git_name = [];
  git_email = [];
  preview_origin = [];
  mode = codes "standard";
  ui_port = none;
  host_services = [];
  runner_commands = [];
  runner_port = none;
  allowed_ports = [];
  port_ranges = [];
  port_deny = [];
  deny_mounts = [];
  setup_cmds = [];
  scripts = [];
  gateway_port = none;
  exposed_mcps = [];
}

-- `name.replace(':', '_').replace('-', '_')`
abbrev pub tool_byte : ℕ → ℕ
tool_byte c = if c == b':' then b'_' else if c == b'-' then b'_' else c

unfoldable pub runner_tool_name : Text → Text
runner_tool_name name = codes "run_" ++ map tool_byte name

unfoldable pub runner_kill_tool_name : Text → Text
unfolding runner_tool_name
runner_kill_tool_name name = runner_tool_name name ++ codes "_kill"
