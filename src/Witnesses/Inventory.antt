-- ===== src/Witnesses/Inventory.antt =====
-- Inputs for the theorems on the package inventory and the host's metrics.
use siembox_endpoint.Prelude.{
  ℕ, true, none, some, List, [], ◌∷◌, codes, In, IsStrict, ◌≡◌, refl, ◌↔◌, arith,
}
use siembox_endpoint.Packages.{Package}
use siembox_endpoint.Packages.Normalize.{normalize, pkg_less}
use siembox_endpoint.Packages.Normalize.Canonical.{IsNormalForm, normalize_iff}
use siembox_endpoint.Packages.Collect.{
  Source, listed, failed, not_present, collect_from, IsCollected, collect_from_iff,
}
use siembox_endpoint.Packages.Linux.Status.{Entry}
use siembox_endpoint.Metrics.Linux.{
  Mount, parse_mounts, parse_pid_stat, parse_meminfo, read_values, lines_of,
}
use siembox_endpoint.Metrics.Numbers.{space_len, wide_space}
use siembox_endpoint.Metrics.Mounts.{Listed, IsListed, print_mounts, parse_mounts-print_mounts}
use siembox_endpoint.Metrics.PidStat.{stat_line, named, parse_pid_stat-stat_line}
use siembox_endpoint.Metrics.Memory.{IsBounded, parse_meminfo-IsBounded}
use siembox_endpoint.Metrics.Collector.{ProcessInfo, by_mem, top}
use siembox_endpoint.Metrics.Collector.Top.{IsTop, top-IsTop}

abbrev curl : Package
curl = record { name = codes " curl "; version = codes "8.5.0"; kind = codes "DEB" }

abbrev zlib : Package
zlib = record { name = codes "zlib1g"; version = codes "1.3"; kind = codes "deb" }

normalize_iff_example :
    ((zlib ∷ []) ≡ normalize (curl ∷ zlib ∷ curl ∷ []))
    ↔ IsNormalForm (curl ∷ zlib ∷ curl ∷ []) (zlib ∷ [])
normalize_iff_example = normalize_iff (curl ∷ zlib ∷ curl ∷ []) (zlib ∷ [])

abbrev databases : List Source
databases =
    record { name = codes "dpkg"; ended = none; collect = listed (curl ∷ zlib ∷ []) }
    ∷ record { name = codes "rpm"; ended = none; collect = not_present }
    ∷ record {
      name = codes "apk";
      ended = some (codes "context canceled");
      collect = failed (codes "EIO");
    }
    ∷ []

collect_from_iff_example :
    IsStrict pkg_less (collect_from databases).packages
    × ((q : Package) → In q (collect_from databases).packages ↔ IsCollected q databases)
collect_from_iff_example = collect_from_iff databases

abbrev zlib_entry : Entry
zlib_entry = record {
  deb = zlib;
  is_installed = true;
  before = codes "Priority: optional" ∷ codes "Architecture: amd64" ∷ [];
  after = codes "Description: compression library" ∷ codes " ." ∷ [];
}

abbrev usb_mount : Mount
usb_mount = record { device = codes "/dev/sdb1"; point = codes "/m/a b"; fstype = codes "vfat" }

abbrev usb_listed : Listed
usb_listed = record { mount = usb_mount; options = codes "rw,relatime" }

usb-IsListed : IsListed usb_listed
unfolding space_len wide_space
usb-IsListed = ((refl, refl, refl), (refl, refl, refl), (refl, refl, refl), refl, omega arith)

parse_mounts-print_mounts_example : parse_mounts (print_mounts (usb_listed ∷ [])) ≡ usb_mount ∷ []
parse_mounts-print_mounts_example = parse_mounts-print_mounts (usb_listed ∷ []) (usb-IsListed, tt)

parse_pid_stat-stat_line_example :
    parse_pid_stat (stat_line (codes "42 ") (codes "a) (b") (codes " S 1"))
    ≡ named (codes "a) (b") (parse_pid_stat (stat_line [] [] (codes " S 1")))
parse_pid_stat-stat_line_example =
    parse_pid_stat-stat_line (codes "42 ") (codes "a) (b") (codes " S 1") refl refl

parse_meminfo-IsBounded_example :
    IsBounded
      (read_values (lines_of (codes "MemTotal: 8 kB")) [])
      (parse_meminfo (codes "MemTotal: 8 kB"))
parse_meminfo-IsBounded_example = parse_meminfo-IsBounded (codes "MemTotal: 8 kB")

abbrev shell : ProcessInfo ℕ
shell = record {
  pid = 7;
  name = codes "sh";
  user = codes "root";
  cpu_pct = 0;
  mem_rss = 900;
  mem_pct = 1;
}

abbrev browser : ProcessInfo ℕ
browser = record {
  pid = 9;
  name = codes "ff";
  user = codes "ann";
  cpu_pct = 3;
  mem_rss = 40_000;
  mem_pct = 5;
}

top-IsTop_example : IsTop (shell ∷ browser ∷ []) 1 (top (shell ∷ browser ∷ []) 1 by_mem)
top-IsTop_example = top-IsTop (shell ∷ browser ∷ []) 1
