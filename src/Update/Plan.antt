-- ===== src/Update/Plan.antt =====
-- internal/update/plan.go: the command that installs a verified asset or restarts the service.
-- `filepath.Join` with the state directory is the standard library's, a parameter.
pub mod Argv
use siembox_endpoint.Prelude.{List, [], ◌∷◌, ◌++◌, Bytes, codes, Result, ok, err}
use siembox_endpoint.Update.Assets.{
  Method, deb, rpm, linux_archive, pkg, darwin_archive, msi, windows_zip, unknown,
}

pub record Command : Type 0 where
  pub argv : List Bytes
  pub log_path : Bytes

abbrev pub update_log_name : Bytes
update_log_name = codes "update.log"

abbrev pub msi_log_name : Bytes
msi_log_name = codes "update-msi.log"

abbrev pub deb_script : Bytes
deb_script =
    codes
      "DEBIAN_FRONTEND=noninteractive apt-get install -y \"$1\" || DEBIAN_FRONTEND=noninteractive dpkg -i \"$1\""

pub data PlanError : Type 0 where
  no_installer : Method → PlanError

-- the `switch` of `InstallCommand`; the last clause is `default`
unfoldable pub install_argv : Method → Bytes → Bytes → Result PlanError (List Bytes)
install_argv deb asset msi_log = ok (codes "sh" ∷ codes "-c" ∷ deb_script ∷ codes "sh" ∷ asset ∷ [])
install_argv rpm asset msi_log = ok (codes "rpm" ∷ codes "-U" ∷ asset ∷ [])
install_argv pkg asset msi_log =
    ok (codes "installer" ∷ codes "-pkg" ∷ asset ∷ codes "-target" ∷ codes "/" ∷ [])
install_argv msi asset msi_log = ok (
    codes "msiexec"
    ∷ codes "/i"
    ∷ asset
    ∷ codes "/qn"
    ∷ codes "/norestart"
    ∷ codes "/l*v"
    ∷ msi_log
    ∷ [])
install_argv m asset msi_log = err (no_installer m)

-- an argument vector with its log file
logged : Bytes → Result PlanError (List Bytes) → Result PlanError Command
logged log (err e) = err e
logged log (ok argv) = ok (record { argv = argv; log_path = log })

module _ (join : Bytes → Bytes → Bytes) where
  unfoldable pub install_command : Method → Bytes → Bytes → Result PlanError Command
  unfolding install_argv logged
  install_command m asset state_dir =
      logged (join state_dir update_log_name) (install_argv m asset (join state_dir msi_log_name))

  unfoldable pub restart_command : Bytes → Bytes → Command
  restart_command exe state_dir = record {
    argv = exe ∷ codes "-dir" ∷ state_dir ∷ codes "restart" ∷ [];
    log_path = join state_dir update_log_name;
  }

-- `now` is the decimal Unix time. The wrapper script is a constant: the command's own words follow
-- as arguments.
unfoldable pub systemd_run_argv : Bytes → Command → Bytes → List Bytes
systemd_run_argv systemd_run c now =
    (systemd_run
      ∷ codes "--collect"
      ∷ codes "--unit"
      ∷ (codes "siembox-agent-update-" ++ now)
      ∷ codes "--"
      ∷ codes "sh"
      ∷ codes "-c"
      ∷ codes "log=$1; shift; exec \"$@\" >>\"$log\" 2>&1"
      ∷ codes "sh"
      ∷ c.log_path
      ∷ [])
    ++ c.argv
