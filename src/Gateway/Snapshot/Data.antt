-- ===== src/Gateway/Snapshot/Data.antt =====
-- The data of snapshot.py: decoded JSON as deep as the code looks, snapshots, refusals. A decoded
-- object has each key once, as the decoder gives it.
use remote_devbox_mcp.Base.{Bool, List, Text, Dict}

-- An item of an array, or a field of an inner object: a string or anything else.
pub data Leaf : Type 0 where
  string : Text → Leaf
  other : Leaf

pub data Value : Type 0 where
  null number : Value
  boolean : Bool → Value
  text : Text → Value
  array : List Leaf → Value
  object : Dict Leaf → Value

-- The description of a server: an object, or anything else.
pub data Entry : Type 0 where
  entry : Dict Value → Entry
  no_entry : Entry

-- A layer of the configuration: no file, no JSON, no object, no `mcp` (or null), a malformed one, or the servers.
pub data Layer : Type 0 where
  missing undecodable no_object no_servers malformed : Layer
  described : Dict Entry → Layer

-- A field of a snapshot file.
pub data Section : Type 0 where
  entries : Dict Entry → Section
  no_section : Section

-- What reading a snapshot file gives.
pub data File : Type 0 where
  not_found unreadable not_object : File
  document : Dict Section → File

pub record Pin : Type 0 where
  pub specifier : Text
  pub sha256 : Text

pub record ServerSnapshot : Type 0 where
  pub command : Text
  pub args : List Text
  pub env : Dict Text
  pub pins : Pin

abbrev pub Snapshot : Type 0
Snapshot = Dict ServerSnapshot

-- `GatewaySnapshotError`, by what it complains about
pub data Fault : Type 0 where
  bad_layer not_disclosed bad_entry is_remote bad_kind bad_command bad_env no_package unpinned :
      Fault
  bad_fields bad_pins integrity bad_file no_file unlisted drift : Fault

pub data Checked {ℓ} (A : Type ℓ) : Type ℓ where
  sound : A → Checked A
  fault : Fault → Checked A

infixl 10 ◌>>=◌
abbrev pub ◌>>=◌ {ℓ κ} : {A : Type ℓ} {B : Type κ} → Checked A → (A → Checked B) → Checked B
sound a >>= f = f a
fault e >>= f = fault e

-- The last part of a path, and the digest of command, arguments and environment.
pub record Around : Type 0 where
  pub base_name : Text → Text
  pub digest : Text → List Text → Dict Text → Text
