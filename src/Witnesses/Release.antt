-- ===== src/Witnesses/Release.antt =====
-- Inputs for the theorems on internal/update: versions, assets, checksum files, methods, commands.
use siembox_endpoint.Prelude.{
  ◌<◌, none, some, [], ◌∷◌, ◌++◌, Bytes, codes, All, In, ok, lookup, insert, scan_lines, ◌≡◌, ◌≢◌,
  ◌↔◌, ◌⊎◌, inl, inr, refl, arith,
}
use siembox_endpoint.Update.Version.{Semver, parse_version, compare, check_target}
use siembox_endpoint.Update.Version.Parse.{dotted, value, parse_version_complete}
use siembox_endpoint.Update.Version.Accepted.{Spells, parse_version_sound}
use siembox_endpoint.Update.Version.Order.{
  rank, MayUpdate, check_target_iff, one, more, Upgrades-rank,
}
use siembox_endpoint.Update.Assets.{deb, rpm, linux_archive, select_asset, deb_arch, find_name}
use siembox_endpoint.Update.Assets.Choice.{select_asset-same}
use siembox_endpoint.Update.Assets.Sound.{Chosen, select_asset_sound}
use siembox_endpoint.Update.Sums.{
  Sums, parse_sums, parse_lines, read_line, finish_sums, hex_sum_re, asset_name_re, name_char,
  entry_name, byte_64, clashes,
}
use siembox_endpoint.Update.Sums.Parse.{IsRecorded, HasLine, IsSafe, parse_sums_sound}
use siembox_endpoint.Update.Method.{Runner, linux, detect_method, has_output}
use siembox_endpoint.Update.Method.Probe.{Evidence, detect_method_sound}

abbrev old_version : Semver
old_version = record { major = 1; minor = 9; patch = 12 }

abbrev new_version : Semver
new_version = record { major = 1; minor = 10; patch = 2 }

parse_version_complete_example :
    parse_version (dotted (codes "1") (codes "10") (codes "02"))
    ≡ some (record {
      major = value 0 (codes "1");
      minor = value 0 (codes "10");
      patch = value 0 (codes "02");
    })
parse_version_complete_example =
    parse_version_complete (codes "1") (codes "10") (codes "02") (refl, omega arith)
      (refl, omega arith) (refl, omega arith)

old_parsed : parse_version (codes "1.9.12") ≡ some old_version
unfolding parse_version
old_parsed = refl

parse_version_sound_example : Spells (codes "1.9.12") old_version
parse_version_sound_example = parse_version_sound (codes "1.9.12") old_parsed

check_target_iff_example :
    (check_target (codes "1.9.12") (codes "1.10.2") ≡ none)
    ↔ MayUpdate (codes "1.9.12") (codes "1.10.2")
check_target_iff_example = check_target_iff (codes "1.9.12") (codes "1.10.2")

first_upgrade : check_target (codes "1.9.12") (codes "1.10.2") ≡ none
unfolding check_target parse_version compare
first_upgrade = refl

second_upgrade : check_target (codes "1.10.2") (codes "2.0.0") ≡ none
unfolding check_target parse_version compare
second_upgrade = refl

Upgrades-rank_example :
    (t : Semver) × (parse_version (codes "2.0.0") ≡ some t) × (rank old_version < rank t)
Upgrades-rank_example =
    Upgrades-rank old_version old_parsed (more (one first_upgrade) second_upgrade)

abbrev deb_file : Bytes
deb_file = codes "siembox-agent_1.10.2_amd64.deb"

abbrev rpm_file : Bytes
rpm_file = codes "siembox-agent-1.10.2-1.x86_64.rpm"

swapped : {A : Type 0} (x y a : A) → ((x ≡ a) ⊎ ((y ≡ a) ⊎ ⊥)) → ((y ≡ a) ⊎ ((x ≡ a) ⊎ ⊥))
swapped x y a (inl e) = inr (inl e)
swapped x y a (inr (inl e)) = inl e
swapped x y a (inr (inr e)) = inr (inr e)

select_asset-same_example :
    select_asset rpm (codes "1.10.2") (codes "amd64") (deb_file ∷ rpm_file ∷ [])
    ≡ select_asset rpm (codes "1.10.2") (codes "amd64") (rpm_file ∷ deb_file ∷ [])
select_asset-same_example =
    select_asset-same rpm (codes "1.10.2") (codes "amd64") (deb_file ∷ rpm_file ∷ [])
      (rpm_file ∷ deb_file ∷ []) (λ a. (swapped deb_file rpm_file a, swapped rpm_file deb_file a))

deb_chosen :
    select_asset deb (codes "1.10.2") (codes "amd64") (rpm_file ∷ deb_file ∷ []) ≡ ok deb_file
unfolding select_asset deb_arch find_name
deb_chosen = refl

select_asset_sound_example :
    In deb_file (rpm_file ∷ deb_file ∷ [])
    × Chosen deb (codes "1.10.2") (codes "amd64") (rpm_file ∷ deb_file ∷ []) deb_file
select_asset_sound_example =
    select_asset_sound deb (codes "1.10.2") (codes "amd64") (rpm_file ∷ deb_file ∷ []) deb_file
      deb_chosen

abbrev deb_sum : Bytes
deb_sum = codes "0123456789abcdef0123456789abcdef0123456789abcdef0123456789abcdef"

abbrev sums_file : Bytes
sums_file = deb_sum ++ codes "  siembox-agent_1.10.2_amd64.deb\n"

abbrev sums_map : Sums
sums_map = (deb_file, deb_sum) ∷ []

sums_read : parse_sums sums_file ≡ ok sums_map
unfolding parse_sums parse_lines read_line finish_sums hex_sum_re asset_name_re name_char entry_name
    byte_64 clashes scan_lines lookup insert
sums_read = refl

parse_sums_sound_example :
    (sums_map ≢ [])
    × All (IsRecorded sums_map) (scan_lines 65536 sums_file).0
    × ((name sum : Bytes)
        → lookup name sums_map ≡ some sum
        → HasLine name sum (scan_lines 65536 sums_file).0 × IsSafe name sum)
parse_sums_sound_example = parse_sums_sound sums_file sums_read

abbrev no_tool : Runner
no_tool argv = none

archive_found :
    detect_method (λ p. p) no_tool linux (codes "/opt/siembox/agent") [] ≡ ok linux_archive
unfolding detect_method has_output
archive_found = refl

detect_method_sound_example :
    Evidence (λ p. p) no_tool (codes "/opt/siembox/agent") [] linux linux_archive
detect_method_sound_example =
    detect_method_sound (λ p. p) no_tool linux (codes "/opt/siembox/agent") [] archive_found
