-- ===== src/Tests/ConfigRuns.antt =====
-- The distance between two concrete keys.
use mobux.Config.Suggestion.Distance.{levenshtein, reversed, edit_distance-levenshtein}
use mobux.Config.Suggestion.{edit_distance}
use mobux.Prelude.{◌≡◌}
use mobux.Strings.{chars}

edit_distance-levenshtein_example :
    edit_distance (chars "prot") (chars "port")
    ≡ levenshtein (reversed (chars "prot")) (reversed (chars "port"))
edit_distance-levenshtein_example = edit_distance-levenshtein (chars "prot") (chars "port")
