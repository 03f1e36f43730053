-- ===== src/Update/Plan/Argv.antt =====
-- The words of the command lines.
use siembox_endpoint.Prelude.{
  List, Bytes, Result, ok, err, ok_injective, ◌≡◌, refl, In, inl, inr, drop, subst,
}
use siembox_endpoint.Update.Assets.{
  Method, deb, rpm, linux_archive, pkg, darwin_archive, msi, windows_zip, unknown,
}
use siembox_endpoint.Update.Plan.{
  Command, PlanError, install_argv, logged, systemd_run_argv, install_command, update_log_name,
  msi_log_name,
}

-- The asset's path is an argument of its own.
install_argv-In :
    (m : Method) (asset log : Bytes) (argv : List Bytes)
    → install_argv m asset log ≡ ok argv
    → In asset argv
unfolding install_argv
install_argv-In deb a l argv h = subst (In a) (ok_injective h) (inr (inr (inr (inr (inl refl)))))
install_argv-In rpm a l argv h = subst (In a) (ok_injective h) (inr (inr (inl refl)))
install_argv-In pkg a l argv h = subst (In a) (ok_injective h) (inr (inr (inl refl)))
install_argv-In msi a l argv h = subst (In a) (ok_injective h) (inr (inr (inl refl)))
install_argv-In linux_archive a l argv h = cc h
install_argv-In darwin_archive a l argv h = cc h
install_argv-In windows_zip a l argv h = cc h
install_argv-In (unknown x) a l argv h = cc h

pub install_command-In :
    (join : Bytes → Bytes → Bytes) (m : Method) (asset dir : Bytes) (d : Command)
    → install_command join m asset dir ≡ ok d
    → In asset d.argv
unfolding install_command logged
install_command-In join m asset dir d h =
    by_argv (install_argv m asset (join dir msi_log_name))
      (install_argv-In m asset (join dir msi_log_name)) h
  where
    by_argv :
        (r : Result PlanError (List Bytes))
        → ((argv : List Bytes) → r ≡ ok argv → In asset argv)
        → logged (join dir update_log_name) r ≡ ok d
        → In asset d.argv
    by_argv (err e) k g = cc g
    by_argv (ok argv) k g = subst (λ c. In asset c.argv) (ok_injective g) (k argv refl)

-- Run detached under systemd, a command keeps its own words, in order, behind the wrapper's ten.
systemd_run_argv_lem :
    (systemd_run now : Bytes) (c : Command) → drop 10 (systemd_run_argv systemd_run c now) ≡ c.argv
unfolding systemd_run_argv
systemd_run_argv_lem systemd_run now c = refl
