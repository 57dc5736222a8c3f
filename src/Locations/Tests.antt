-- ===== src/Locations/Tests.antt =====
-- Environments for crates/core/src/paths.rs.
use stapler_mcp.Common.{
  ◌≡◌, refl, true, false, none, some, [], if◌then◌else◌, Text, text, text_eq, starts_with, is_empty,
}
use stapler_mcp.Locations.{
  EnvPort, env_browser_profile_dir, base_dir, socket_path, expand_home, browser_profile_dir,
}
use stapler_mcp.Locations.Profile.{IsNamedBy, browser_profile_dir_sound}

abbrev with_profile : Text → EnvPort
with_profile dir = record {
  var = λ name. if text_eq name env_browser_profile_dir then some dir else none;
  home_dir = some (text "/home/a");
}

path_tests :
    (socket_path (with_profile []) ≡ text "/home/a/.stapler-mcp/daemon.sock")
    × (browser_profile_dir (with_profile (text "~")) ≡ some (text "/home/a"))
    × (browser_profile_dir (with_profile (text "~b/p")) ≡ none)
    × (browser_profile_dir (with_profile []) ≡ none)
unfolding base_dir browser_profile_dir expand_home text_eq starts_with
path_tests = (refl, refl, refl, refl)

below_home : browser_profile_dir (with_profile (text "~/p")) ≡ some (text "/home/a/p")
unfolding browser_profile_dir expand_home text_eq starts_with
below_home = refl

browser_profile_dir_sound_example :
    (starts_with (text "/") (text "/home/a/p") ≡ true)
    × ((v : Text) × ((with_profile (text "~/p")).var env_browser_profile_dir ≡ some v)
        × (is_empty v ≡ false)
        × IsNamedBy (with_profile (text "~/p")) v (text "/home/a/p"))
browser_profile_dir_sound_example =
    browser_profile_dir_sound (with_profile (text "~/p")) (text "/home/a/p") below_home
