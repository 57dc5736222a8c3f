-- ===== src/Download/Tests.antt =====
-- Paths of saved pages, for `save_path_for` of crates/core/src/tools/webcrawl.rs.
use stapler_mcp.Common.{◌≡◌, refl, ◌++◌, Text, text, text_eq, ends_with, starts_with, split_on}
use stapler_mcp.Samples.{sample_lib, sample_seed}
use stapler_mcp.Crawler.{get_or}
use stapler_mcp.SavedPage.{join_with}
use stapler_mcp.Download.{relative_path, save_path_for}
use stapler_mcp.Download.Targets.{IsBelow, save_path_for-IsBelow}

relative_path_tests :
    (relative_path (text "a/../../etc/./b") ≡ text "a/etc/b")
    × (relative_path (text "a//b/") ≡ text "a/b/index.html")
    × (relative_path (text "..") ≡ text "index.html")
unfolding relative_path join_with split_on text_eq ends_with starts_with
relative_path_tests = (refl, refl, refl)

save_path_for-IsBelow_example :
    (rel : Text) × (save_path_for sample_lib (text "/d") sample_seed
      ≡ text "/d"
        ++ (text "/"
            ++ (get_or (sample_lib.host_str sample_seed) (text "unknown-host")
                ++ (text "/" ++ rel))))
    × IsBelow rel
save_path_for-IsBelow_example = save_path_for-IsBelow sample_lib (text "/d") sample_seed
