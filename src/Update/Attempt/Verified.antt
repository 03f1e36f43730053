-- ===== src/Update/Attempt/Verified.antt =====
-- What stands behind a launched installer.
use siembox_endpoint.Prelude.{true, false, some, List, [], ◌∷◌, Bytes, ok, ◌≡◌, ◌⊎◌, str_eq, In}
use siembox_endpoint.Update.Assets.{is_archive}
use siembox_endpoint.Update.Plan.{Command, install_command}
use siembox_endpoint.Update.Download.{part_of}
use siembox_endpoint.Update.Extract.Safe.{IsSwapped}
use siembox_endpoint.Update.Updater.{Updater}
use siembox_endpoint.Update.Attempt.{Env, Ready, Launched, tool, run, download_dir, swapped}
use siembox_endpoint.Update.Attempt.Prepared.{IsVerified}

-- A native installer is called on the verified file, which is an argument of its own.
abbrev pub IsNative : Env → Ready → Command → Type 0
IsNative env r d =
    (is_archive r.how ≡ false)
    × (install_command env.join r.how r.path env.state_dir ≡ ok d)
    × In r.path d.argv

-- The executable was replaced: its content is the whole entry of the verified archive, it reported
-- the version, and the command restarts it.
abbrev pub IsReplaced : Env → Bytes → Bytes → Ready → Command → Type 0
IsReplaced env ver old r d =
    (is_archive r.how ≡ true)
    × ((swapped env ver r).1 ≡ ok d)
    × IsSwapped (record env.swap { join = env.join; state_dir = env.state_dir }) r.how
        (env.archive_of (r.files r.path)) r.exe ver old (swapped env ver r)

-- What `command` and `resolveTool` made of a verified asset.
abbrev pub IsInstallerFor : Env → Bytes → Bytes → Command → Ready → Type 0
IsInstallerFor env ver old c r =
    (d : Command) × (c ≡ tool env d) × (IsNative env r d ⊎ IsReplaced env ver old r d)

-- The executable stands where the model of its swap expects it: it is a file, and no download takes
-- its place.
abbrev pub IsInPlace : Env → Bytes → Bytes → Type 0
IsInPlace env exe old =
    (env.files exe ≡ some old)
    × ((name : Bytes)
        → (str_eq (env.join (download_dir env) name) exe ≡ false)
          × (str_eq (part_of (env.join (download_dir env) name)) exe ≡ false))

-- Every process of the list installs a verified asset.
abbrev pub LaunchesVerified : Env → Bytes → Bytes → List Launched → Type 0
LaunchesVerified env ver old [] = Unit
LaunchesVerified env ver old (l ∷ ls) =
    ((r : Ready) × IsVerified env ver r × IsInstallerFor env ver old l.run r)
    × LaunchesVerified env ver old ls
