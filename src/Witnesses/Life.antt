-- ===== src/Witnesses/Life.antt =====
-- Inputs for the theorems on the life of a self-update.
use siembox_endpoint.Prelude.{
  true, false, Option, none, some, [], ◌∷◌, ◌++◌, if◌then◌else◌, contains, str_eq, length, refl,
  Bytes, codes, ok, ◌≡◌, ◌↔◌, arith,
}
use siembox_endpoint.Update.Method.{linux}
use siembox_endpoint.Update.Download.{Downloader}
use siembox_endpoint.Update.Extract.{Archive, Swap}
use siembox_endpoint.Update.Report.{Utf8}
use siembox_endpoint.Update.Updater.{
  Updater, Identity, Job, AgentUpdateRequest, installing, consider, startup,
}
use siembox_endpoint.Update.Updater.Lifecycle.{IsSane}
use siembox_endpoint.Update.Updater.Requests.{
  MayStart, consider_iff, IsSettled, Resolves, startup_lem,
}
use siembox_endpoint.Update.Attempt.{Env, attempt}
use siembox_endpoint.Update.Attempt.Launch.{Ended, attempt_lem}
use siembox_endpoint.Update.Attempt.Trace.{here, next, considered, Reach-IsSane}

-- every text taken as valid, which the theorems allow
abbrev plain : Utf8
plain = record { valid = λ s. true; to_valid = λ s. s; to_valid_shrinks = λ s. omega arith }

abbrev nothing_yet : Identity
nothing_yet = record { last_update_request_id = []; pending_update = none; update_report = none }

abbrev fresh : Updater
fresh = record { memory = nothing_yet; disk = nothing_yet; job = none }

abbrev update_request : AgentUpdateRequest
update_request = record { request_id = codes "ab-12"; version = codes "1.10.2" }

consider_iff_example :
    (((consider true (some update_request) fresh).1 ≡ true) ↔ MayStart update_request fresh)
    × ((consider true (some update_request) fresh).1 ≡ false
        → (consider true (some update_request) fresh).0 ≡ fresh)
consider_iff_example = consider_iff true update_request fresh

abbrev waiting : Identity
waiting = record {
  last_update_request_id = codes "ab-12";
  pending_update =
      some (record { request_id = codes "ab-12"; version = codes "1.10.2"; started_at = 100 });
  update_report = some (record {
    request_id = codes "ab-12";
    version = codes "1.10.2";
    state = installing;
    error = [];
  });
}

abbrev restarting : Updater
restarting = record { memory = waiting; disk = waiting; job = none }

startup_lem_example :
    ((startup plain true (codes "1.10.2") [] [] restarting).memory.pending_update ≡ none)
    × IsSettled (startup plain true (codes "1.10.2") [] [] restarting).memory.update_report
    × Resolves
        (codes "1.10.2")
        restarting.memory.pending_update
        (startup plain true (codes "1.10.2") [] [] restarting).memory.update_report
startup_lem_example = startup_lem plain true (codes "1.10.2") [] [] restarting

abbrev update_job : Job
update_job = record { request_id = codes "ab-12"; version = codes "1.10.2" }

abbrev archive_file : Bytes
archive_file = codes "siembox-endpoint_1.10.2_linux_amd64.tar.gz"

abbrev right_sum : Bytes
right_sum = codes "0000000000000000000000000000000000000000000000000000000000000000"

abbrev other_sum : Bytes
other_sum = codes "1111111111111111111111111111111111111111111111111111111111111111"

-- A release server with the checksum file and one asset; the digest stands in for SHA-256.
abbrev release_server : Downloader
release_server = record {
  base_url = [];
  max_size = 0;
  path_escape = λ s. s;
  scheme = λ url. some (codes "https");
  new_request = λ url. none;
  do_request = λ url. ok (record {
    final_scheme = none;
    status = 200;
    content_length = none;
    body = record {
      content =
          if contains (codes "SHA256SUMS") url
          then right_sum ++ (codes "  " ++ archive_file)
          else codes "archive";
      broken = none;
    };
  });
  digest = λ content. if str_eq content (codes "archive") then right_sum else other_sum;
}

-- The reader of archives finds the new executable in the asset.
abbrev release_archive : Option Bytes → Archive
release_archive file = record {
  open_error = none;
  entries =
      record {
        name = codes "siembox-agent";
        regular = true;
        opened = none;
        body = record { content = codes "new"; broken = none };
      }
      ∷ [];
  read_error = none;
}

abbrev release_swap : Swap
release_swap = record {
  base = λ s. s;
  join = λ a b. a ++ (codes "/" ++ b);
  fs = record { create = none; write = none; close = none; chmod = none; removes = true };
  renames = record { removes = true; aside = none; place = none; restore = none };
  run_version = λ file. (codes "1.10.2", false);
  removes_new = true;
  state_dir = [];
}

-- a Linux host with the archive build, on which every step succeeds
abbrev host : Env
host = record {
  goos = linux;
  goarch = codes "amd64";
  program_files = [];
  current_version = codes "1.9.12";
  state_dir = codes "/var/lib/siembox";
  now = 100;
  exe = ok (codes "/opt/siembox/agent");
  runner = λ argv. none;
  clean = λ p. p;
  join = λ a b. a ++ (codes "/" ++ b);
  resolve_tool = λ t. t;
  downloader = release_server;
  download_fs = record {
    mkdir = none;
    create = none;
    write = none;
    close = none;
    rename = none;
    removes = true;
  };
  files = λ q. if str_eq q (codes "/opt/siembox/agent") then some (codes "old") else none;
  archive_of = release_archive;
  swap = release_swap;
  saved_state = true;
  saved_pending = true;
  saved_clear = true;
  saved_finish = true;
  launch = λ c. none;
  text = λ e. codes "failed";
  update_log = none;
}

attempt_lem_example : Ended plain host update_job (attempt plain host update_job fresh)
attempt_lem_example = attempt_lem plain host update_job fresh

-- The attempt comes to a launch, after which the executable is the one of the archive.
host_launches : length (attempt plain host update_job fresh).1 ≡ 1
unfolding attempt siembox_endpoint.Update.Attempt.run siembox_endpoint.Update.Attempt.run_prepared
    siembox_endpoint.Update.Attempt.prepare siembox_endpoint.Update.Version.check_target
    siembox_endpoint.Update.Version.parse_version siembox_endpoint.Update.Version.compare
    siembox_endpoint.Update.Method.detect_method siembox_endpoint.Update.Method.has_output
    siembox_endpoint.Update.Download.fetch_sums siembox_endpoint.Update.Download.open_body
    siembox_endpoint.Update.Download.release_url siembox_endpoint.Update.Version.valid_version
    siembox_endpoint.Update.Download.accept siembox_endpoint.Update.Download.read_sums
    siembox_endpoint.Update.Download.base siembox_endpoint.Update.Sums.parse_sums
    siembox_endpoint.Prelude.insert siembox_endpoint.Prelude.lookup
    siembox_endpoint.Prelude.scan_lines siembox_endpoint.Prelude.scan_parts
    siembox_endpoint.Prelude.sort_by siembox_endpoint.Update.Assets.deb_arch
    siembox_endpoint.Update.Assets.find_name siembox_endpoint.Update.Assets.is_archive
    siembox_endpoint.Update.Assets.pick_match siembox_endpoint.Update.Assets.rpm_arch
    siembox_endpoint.Update.Assets.rpm_re siembox_endpoint.Update.Assets.select_asset
    siembox_endpoint.Update.Attempt.command siembox_endpoint.Update.Attempt.error_message
    siembox_endpoint.Update.Attempt.launch_command siembox_endpoint.Update.Attempt.mark_pending
    siembox_endpoint.Update.Attempt.tool siembox_endpoint.Update.Disk.move
    siembox_endpoint.Update.Disk.put siembox_endpoint.Update.Disk.remove
    siembox_endpoint.Update.Download.copied siembox_endpoint.Update.Download.fetch_asset
    siembox_endpoint.Update.Download.limit_of siembox_endpoint.Update.Download.mentions_404
    siembox_endpoint.Update.Download.store siembox_endpoint.Update.Extract.binary_name
    siembox_endpoint.Update.Extract.check_and_swap siembox_endpoint.Update.Extract.copied
    siembox_endpoint.Update.Extract.extract siembox_endpoint.Update.Extract.extract_binary
    siembox_endpoint.Update.Extract.find_entry siembox_endpoint.Update.Extract.put_back
    siembox_endpoint.Update.Extract.rename siembox_endpoint.Update.Extract.replace_executable
    siembox_endpoint.Update.Extract.replace_unix siembox_endpoint.Update.Extract.replace_windows
    siembox_endpoint.Update.Extract.reports_version siembox_endpoint.Update.Extract.swap_binary
    siembox_endpoint.Update.Extract.write_limited siembox_endpoint.Update.Method.has_pkg_id
    siembox_endpoint.Update.Method.is_msi_path siembox_endpoint.Update.Method.msi_registered
    siembox_endpoint.Update.Plan.install_argv siembox_endpoint.Update.Plan.install_command
    siembox_endpoint.Update.Plan.restart_command siembox_endpoint.Update.Report.read_tail
    siembox_endpoint.Update.Report.truncate siembox_endpoint.Update.Report.with_log_tail
    siembox_endpoint.Update.Sums.asset_name_re siembox_endpoint.Update.Sums.byte_64
    siembox_endpoint.Update.Sums.clashes siembox_endpoint.Update.Sums.entry_name
    siembox_endpoint.Update.Sums.finish_sums siembox_endpoint.Update.Sums.hex_sum_re
    siembox_endpoint.Update.Sums.name_char siembox_endpoint.Update.Sums.parse_lines
    siembox_endpoint.Update.Sums.read_line siembox_endpoint.Update.Updater.finish
    siembox_endpoint.Update.Updater.message siembox_endpoint.Update.Updater.mutate
    siembox_endpoint.Update.Updater.set_state siembox_endpoint.Update.Version.parse_loop
    siembox_endpoint.Update.Version.three_numbers siembox_endpoint.Update.Version.version_re
host_launches = refl

fresh-IsSane : IsSane fresh
fresh-IsSane = ((tt, tt), (tt, tt), tt)

Reach-IsSane_example : IsSane (consider true (some update_request) fresh).0
Reach-IsSane_example =
    Reach-IsSane plain fresh-IsSane (next here (considered true (some update_request) fresh))
