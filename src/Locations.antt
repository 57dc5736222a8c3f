-- ===== src/Locations.antt =====
-- crates/core/src/paths.rs: where the daemon keeps its files. The environment is a record of what
-- `EnvPort` answers. The line that is printed for a path that is not absolute is not modelled.
pub mod Profile
mod Tests
use stapler_mcp.Common.{
  Bool, true, false, ◌||◌, Option, none, some, List, [], ◌∷◌, ◌++◌, if◌then◌else◌, Text, text,
  text_eq, is_empty, starts_with,
}

-- `EnvPort::var` and `EnvPort::home_dir`.
pub record EnvPort : Type 0 where
  pub var : Text → Option Text
  pub home_dir : Option Text

abbrev pub env_home_override : Text
env_home_override = text "STAPLER_MCP_HOME"

abbrev pub env_browser_profile_dir : Text
env_browser_profile_dir = text "STAPLER_MCP_BROWSER_PROFILE_DIR"

-- The value of a variable, if it is set and not empty.
abbrev pub given : Option Text → Option Text
given none = none
given (some v) = if is_empty v then none else some v

abbrev pub default_home : Option Text → Text
default_home none = text "/.stapler-mcp"
default_home (some home) = home ++ text "/.stapler-mcp"

unfoldable pub base_dir : EnvPort → Text
base_dir env = elim (given (env.var env_home_override)) [
  | none ↦ default_home env.home_dir
  | some v ↦ v
]

abbrev pub socket_path : EnvPort → Text
socket_path env = base_dir env ++ text "/daemon.sock"

abbrev pub lock_path : EnvPort → Text
lock_path env = base_dir env ++ text "/daemon.lock"

abbrev pub log_path : EnvPort → Text
log_path env = base_dir env ++ text "/daemon.log"

abbrev pub http_port_path : EnvPort → Text
http_port_path env = base_dir env ++ text "/http-port"

abbrev pub http_token_path : EnvPort → Text
http_token_path env = base_dir env ++ text "/http-token"

abbrev pub cache_dir : EnvPort → Text
cache_dir env = base_dir env ++ text "/cache"

abbrev pub docs_index_dir : EnvPort → Text
docs_index_dir env = base_dir env ++ text "/docs-index"

abbrev pub embedding_cache_dir : EnvPort → Text
embedding_cache_dir env = base_dir env ++ text "/models"

-- `&v[1..]` of a text that starts with `~`.
abbrev pub tail_of : Text → Text
tail_of [] = []
tail_of (c ∷ s) = s

-- `~` and `~/...` with the home directory in the place of `~`, if it is known.
unfoldable pub expand_home : Option Text → Text → Text
expand_home none v = v
expand_home (some home) v =
    if text_eq v (text "~")
    then home
    else if starts_with (text "~/") v
    then home ++ tail_of v
    else v

unfoldable pub browser_profile_dir : EnvPort → Option Text
browser_profile_dir env = elim (given (env.var env_browser_profile_dir)) [
  | none ↦ none
  | some v ↦
      if starts_with (text "/") (expand_home env.home_dir v)
      then some (expand_home env.home_dir v)
      else none
]
