-- ===== src/Config.antt =====
-- server/config.go and the PoolConfig of server/pool.go: the configuration, its defaults, and how it is
-- read from a file. yaml.v3's decoding over the defaults and go-playground/validator's checks of the
-- struct tags are parameters, as is the file system.
use fireactions.Prelude.{
  Text, codes, ℤ, pos, Bool, true, false, List, [], Option, none, some, Result, ok, err, Fault,
}
use fireactions.Deepcopy.{Table}

pub record RunnerConfig : Type 0 where
  pub name : Text
  pub image_pull_policy : Text
  pub image : Text
  pub organization : Text
  pub group_id : ℤ
  pub labels : List Text

pub record FirecrackerMachineConfig : Type 0 where
  pub vcpu_count : ℤ
  pub mem_size_mib : ℤ

pub record FirecrackerConfig : Type 0 where
  pub binary_path : Text
  pub kernel_image_path : Text
  pub kernel_args : Text
  pub machine_config : FirecrackerMachineConfig
  pub metadata : Table

-- `shutdown_on_exit` is a *bool: none is nil.
pub record PoolConfig : Type 0 where
  pub name : Text
  pub shutdown_on_exit : Option Bool
  pub replicas : ℤ
  pub runner : RunnerConfig
  pub firecracker : FirecrackerConfig

-- The alias type of UnmarshalYAML, with pointers that can be nil, `none` here. A `PoolConfig` stands for one
-- whose `runner` and `firecracker` are not.
pub record PoolConfigAlias : Type 0 where
  pub name : Text
  pub shutdown_on_exit : Option Bool
  pub replicas : ℤ
  pub runner : Option RunnerConfig
  pub firecracker : Option FirecrackerConfig

abbrev pub defaults : PoolConfigAlias
defaults = record {
  name = [];
  shutdown_on_exit = some true;
  replicas = pos 0;
  runner = none;
  firecracker = none;
}

-- `unmarshal` is yaml.v3's decoding of the node into the record that it is given.
unfoldable pub unmarshal_yaml :
    (PoolConfigAlias → Result Fault PoolConfigAlias) → Result Fault PoolConfigAlias
unmarshal_yaml unmarshal = unmarshal defaults

pub record ContainerdConfig : Type 0 where
  pub address : Text
  pub namespace : Text

pub record MetricsConfig : Type 0 where
  pub enabled : Bool
  pub address : Text

pub record GitHubConfig : Type 0 where
  pub app_private_key : Text
  pub app_id : ℤ

-- `metrics` is a pointer that the validation does not require: none is nil. `containerd` and `github`
-- are pointers that it requires.
pub record Config : Type 0 where
  pub bind_address : Text
  pub containerd : ContainerdConfig
  pub metrics : Option MetricsConfig
  pub basic_auth_enabled : Bool
  pub basic_auth_users : List (Text × Text)
  pub github : GitHubConfig
  pub pools : List PoolConfig
  pub log_level : Text
  pub path : Text

abbrev pub default_config : Config
default_config = record {
  bind_address = codes ":8080";
  containerd = record {
    address = codes "/run/containerd/containerd.sock";
    namespace = codes "fireactions";
  };
  metrics = some (record { enabled = true; address = codes ":8081" });
  basic_auth_enabled = false;
  basic_auth_users = [];
  github = record { app_private_key = []; app_id = pos 0 };
  pools = [];
  log_level = codes "debug";
  path = [];
}

-- What loading asks of other code.
pub record Loader : Type 0 where
  pub open_file : Text → Result Fault Text
  pub decode : Text → Config → Result Fault Config
  pub validate : Config → Option Fault

pub data ConfigError : Type 0 where
  open_file decoding invalid : Fault → ConfigError

abbrev decode_file : Loader → Config → Result Fault Text → Result ConfigError Config
decode_file l c (err e) = err (open_file e)
decode_file l c (ok text) = elim (l.decode text c) [ err e ↦ err (decoding e) | ok d ↦ ok d ]

unfoldable pub load : Loader → Config → Result ConfigError Config
load l c = decode_file l c (l.open_file c.path)

abbrev validated : Loader → Result ConfigError Config → Result ConfigError Config
validated l (err e) = err e
validated l (ok c) = elim (l.validate c) [ some e ↦ err (invalid e) | none ↦ ok c ]

unfoldable pub new_config : Loader → Text → Result ConfigError Config
unfolding load
new_config l path = validated l (load l (record default_config { path = path }))
