-- ===== src/Update/Assets.antt =====
-- internal/update/assets.go: the release asset for an install method and an architecture.
-- A `Method` is one of the seven constants, or `unknown` with any other text.
pub mod Choice
pub mod Sound
use siembox_endpoint.Prelude.{
  ℕ, Bool, true, false, ◌&&◌, ◌||◌, Option, none, some, List, [], ◌∷◌, ◌++◌, Bytes, all, ◌==◌,
  if◌then◌else◌, is_alnum, cut_prefix, cut_suffix, str_eq, str_le, sort_by, codes, keep, Result, ok,
  err, ◌>>=◌,
}

pub data Method : Type 0 where
  deb rpm linux_archive pkg darwin_archive msi windows_zip : Method
  unknown : Bytes → Method

unfoldable pub is_archive : Method → Bool
is_archive linux_archive = true
is_archive darwin_archive = true
is_archive windows_zip = true
is_archive _ = false

-- The errors of this file, each with the text that its message shows.
pub data AssetError : Type 0 where
  unsupported_arch : Bytes → AssetError
  no_windows_asset : Bytes → AssetError
  unsupported_method : Bytes → AssetError
  no_asset : Bytes → AssetError
  no_match : Bytes → AssetError

unfoldable pub deb_arch : Bytes → Result AssetError Bytes
deb_arch goarch =
    if str_eq goarch (codes "amd64") || str_eq goarch (codes "arm64")
    then ok goarch
    else err (unsupported_arch goarch)

unfoldable pub rpm_arch : Bytes → Result AssetError Bytes
rpm_arch goarch =
    if str_eq goarch (codes "amd64")
    then ok (codes "x86_64")
    else if str_eq goarch (codes "arm64")
    then ok (codes "aarch64")
    else err (unsupported_arch goarch)

-- the guard of the two Windows methods
windows_arch : Bytes → Result AssetError Bytes
windows_arch goarch =
    if str_eq goarch (codes "amd64") then ok goarch else err (no_windows_asset goarch)

-- `[A-Za-z0-9._+~]`
release_char : ℕ → Bool
release_char c = is_alnum c || c == b'.' || c == b'_' || c == b'+' || c == b'~'

-- `[A-Za-z0-9._+~]+`
release_part : Bytes → Bool
unfolding release_char
release_part [] = false
release_part (c ∷ s) = all release_char (c ∷ s)

-- The regular expression `^siembox-agent-V-[A-Za-z0-9._+~]+\.A\.rpm$` for version V and
-- architecture A: what stands between the fixed ends is a release.
unfoldable pub rpm_re : Bytes → Bytes → Bytes → Bool
unfolding release_part
rpm_re version arch name =
    elim (cut_prefix (codes "siembox-agent-" ++ (version ++ codes "-")) name) [
      | none ↦ false
      | some rest ↦ elim (cut_suffix (codes "." ++ (arch ++ codes ".rpm")) rest) [
        | none ↦ false
        | some release ↦ release_part release
      ]
    ]

-- the first of the sorted hits
first_or : Bytes → List Bytes → Result AssetError Bytes
first_or what [] = err (no_match what)
first_or what (h ∷ hs) = ok h

unfoldable pub pick_match : (Bytes → Bool) → List Bytes → Bytes → Result AssetError Bytes
unfolding first_or sort_by
pick_match re names what = first_or what (sort_by str_le (keep re names))

-- the loop over the names at the end of `SelectAsset`
unfoldable pub find_name : Bytes → List Bytes → Result AssetError Bytes
find_name want [] = err (no_asset want)
find_name want (n ∷ names) = let rest = find_name want names in if str_eq n want then ok n else rest

-- The file names of the release pipeline.
module _ (version : Bytes) where
  abbrev pub deb_name : Bytes → Bytes
  deb_name arch = codes "siembox-agent_" ++ (version ++ (codes "_" ++ (arch ++ codes ".deb")))

  abbrev pub linux_archive_name : Bytes → Bytes
  linux_archive_name arch =
      codes "siembox-endpoint_" ++ (version ++ (codes "_linux_" ++ (arch ++ codes ".tar.gz")))

  abbrev pub darwin_archive_name : Bytes → Bytes
  darwin_archive_name arch =
      codes "siembox-endpoint_" ++ (version ++ (codes "_darwin_" ++ (arch ++ codes ".tar.gz")))

  abbrev pub pkg_name : Bytes
  pkg_name = codes "siembox-agent-" ++ (version ++ codes "-macos.pkg")

  abbrev pub msi_name : Bytes
  msi_name = codes "siembox-agent-" ++ (version ++ codes "-windows-amd64.msi")

  abbrev pub zip_name : Bytes
  zip_name = codes "siembox-endpoint_" ++ (version ++ codes "_windows_amd64.zip")

-- The rpm package carries a release number that the agent cannot know, so it is matched.
unfoldable pub select_asset : Method → Bytes → Bytes → List Bytes → Result AssetError Bytes
unfolding windows_arch
select_asset deb version goarch names = do a ← deb_arch goarch; find_name (deb_name version a) names
select_asset rpm version goarch names = do
  a ← rpm_arch goarch
  pick_match (rpm_re version a) names (codes "rpm for " ++ a)
select_asset linux_archive version goarch names = do
  a ← deb_arch goarch
  find_name (linux_archive_name version goarch) names
select_asset pkg version goarch names = find_name (pkg_name version) names
select_asset darwin_archive version goarch names = do
  a ← deb_arch goarch
  find_name (darwin_archive_name version goarch) names
select_asset msi version goarch names = do
  a ← windows_arch goarch
  find_name (msi_name version) names
select_asset windows_zip version goarch names = do
  a ← windows_arch goarch
  find_name (zip_name version) names
select_asset (unknown m) version goarch names = err (unsupported_method m)
