-- ===== src/Tests/UpdateRuns.antt =====
-- The version check at concrete inputs.
use mobux.Prelude.Order.{IsTotalPreorder}
use mobux.Prelude.Result.{ok}
use mobux.Prelude.{
  true, false, List, [], ◌∷◌, Option, none, some, ◌↔◌, ◌++◌, ◌==◌, ◌≡◌, refl, if◌then◌else◌, all,
}
use mobux.Strings.{
  chars, split_lines, trim, trim_start, split, split_once, parse_uint, parse_unsigned, decimal,
}
use mobux.Update.Index.{Entry}
use mobux.Update.SemVer.Equal.{IsSameVersion, cmp_version-IsSameVersion}
use Prim.Native.Nat.{Ordering}
use mobux.Update.SemVer.{
  SemVer, without_build, split_pre, identifiers, parse_core, parse, cmp_version,
}
use mobux.Update.State.Refreshes.{
  Poll, version, time, refresh_all, last_success, last_failure, refresh_all-status,
}
use mobux.Update.State.{status, new, is_available, response, no_response}
use mobux.Utf8.{Text, trim_end, is_whitespace}
use mathlib.Core.Option.{map}

-- Reads the line as the version, which is yanked where a `!` stands in front.
abbrev read_entry : Text → Option Entry
read_entry [] = none
read_entry (x ∷ line) =
    if x == b'!'
    then some (record { vers = line; yanked = true })
    else some (record { vers = x ∷ line; yanked = false })

abbrev index : Text
index = chars "1.2.0-rc.2" ++ 10 ∷ chars "1.2.0-rc.10" ++ 10 ∷ chars "!2.0.0" ++ 10 ∷ []

abbrev polls : List Poll
polls =
    (chars "noon", response (chars "200 OK") true (ok index))
    ∷ (chars "six", no_response (chars "timed out"))
    ∷ []

refresh_all-status_example :
    status (chars "1.0.0") (refresh_all read_entry (chars "1.0.0") polls (new (chars "u")))
    ≡ record {
      current = chars "1.0.0";
      latest = map version (last_success read_entry (chars "1.0.0") (chars "u") polls none);
      available =
          is_available
            (chars "1.0.0")
            (map version (last_success read_entry (chars "1.0.0") (chars "u") polls none));
      checked_at = map time (last_success read_entry (chars "1.0.0") (chars "u") polls none);
      error = last_failure read_entry (chars "1.0.0") (chars "u") polls none;
      last_run_error = none;
    }
refresh_all-status_example = refresh_all-status read_entry (chars "1.0.0") (chars "u") polls

abbrev padded : SemVer
padded = record { major = 1; minor = 0; patch = 0; pre = chars "01" ∷ [] }

abbrev plain : SemVer
plain = record { major = 1; minor = 0; patch = 0; pre = chars "1" ∷ [] }

padded-parsed : parse (chars "1.0.0-01") ≡ some padded
unfolding parse split_lines trim trim_start trim_end is_whitespace without_build split_pre split
    split_once identifiers parse_core parse_uint parse_unsigned decimal all
padded-parsed = refl

cmp_version-IsSameVersion_example :
    IsTotalPreorder cmp_version
    × ((cmp_version padded plain ≡ Ordering.eq) ↔ IsSameVersion padded plain)
cmp_version-IsSameVersion_example = cmp_version-IsSameVersion padded plain
