-- ===== src/Update/Asset.antt =====
-- src/update.rs and src/update_cli.rs: the release asset of a platform, the service's name, the recorded
-- failure, and what an update decides.
use mobux.Prelude.{Bool, true, false, not, Option, none, some, if◌then◌else◌, ◌||◌, ◌++◌, is_empty}
use mobux.Strings.{chars, trim}
use mobux.Update.SemVer.{is_newer, is_semver}
use mobux.Utf8.{Text, eq_bytes}

unfoldable pub asset_target : Text → Text → Option Text
unfolding eq_bytes
asset_target os arch =
    if not (eq_bytes os (chars "linux"))
    then none
    else if eq_bytes arch (chars "x86_64")
    then some (chars "x86_64-unknown-linux-gnu")
    else if eq_bytes arch (chars "aarch64") || eq_bytes arch (chars "arm64")
    then some (chars "aarch64-unknown-linux-gnu")
    else none

unfoldable pub asset_name : Text → Text → Option Text
asset_name os arch = elim (asset_target os arch) [
  | none ↦ none
  | some target ↦ some (chars "mobux-" ++ target ++ chars ".tar.gz")
]

-- Of `INVOCATION_ID` it counts only whether it is set.
unfoldable pub resolve_service_name : Bool → Text → Option Text
resolve_service_name invocation_id configured =
    if not invocation_id
    then none
    else if is_empty (trim configured)
    then some (chars "mobux")
    else some (trim configured)

-- The file's text, or `none` where it cannot be read.
unfoldable pub last_run_error : Option Text → Option Text
last_run_error none = none
last_run_error (some text) = if is_empty (trim text) then none else some (trim text)

pub data Decision : Type 0 where
  up_to_date : Text → Text → Decision
  available : Text → Text → Decision
  unknown : Text → Text → Decision

unfoldable pub decide : Text → Text → Decision
decide current latest =
    if not (is_semver current) || not (is_semver latest)
    then unknown current latest
    else if is_newer current latest
    then available current latest
    else up_to_date current latest

unfoldable pub has_prebuilt_asset : Text → Text → Bool
has_prebuilt_asset os arch = elim (asset_target os arch) [ some _ ↦ true | none ↦ false ]
