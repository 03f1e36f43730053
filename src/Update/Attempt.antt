-- ===== src/Update/Attempt.antt =====
-- internal/update/updater.go, `attempt` and `run`: one update attempt from the version check to
-- the launch of the installer. The downloads and the swap of the binary are those of Update/Download
-- and Update/Extract. What the outside answers (the runner, the server, the file system, the launch,
-- whether a write succeeds) is a record of the model, `Env`. An attempt is one step: the source runs
-- it in a goroutine beside the other operations.
pub mod Launch
pub mod Prepared
pub mod Verified
pub mod Trace
use siembox_endpoint.Prelude.{
  ℕ, Bool, true, false, not, Option, none, some, List, [], ◌∷◌, ◌++◌, Bytes, if◌then◌else◌,
  is_empty, codes, map, Result, ok, err, ◌>>=◌, ◌>>◌, guard, lookup,
}
use siembox_endpoint.Update.Version.{TargetError, invalid_version, check_target}
use siembox_endpoint.Update.Assets.{Method, AssetError, select_asset, is_archive}
use siembox_endpoint.Update.Sums.{Sums}
use siembox_endpoint.Update.Method.{Goos, Runner, MethodError, detect_method}
use siembox_endpoint.Update.Plan.{Command, PlanError, install_command}
use siembox_endpoint.Update.Disk.{Disk}
use siembox_endpoint.Update.Download.{DownloadError, Downloader, fetch_sums, fetch_asset}
use siembox_endpoint.Update.Download
use siembox_endpoint.Update.Extract.{ExtractError, Archive, Swap, swap_binary}
use siembox_endpoint.Update.Report.{Utf8, with_log_tail}
use siembox_endpoint.Update.Updater.{
  Status, failed, installing, Updater, Identity, Job, PendingUpdate, mutate, set_state, finish,
}

-- The errors of `run`; `outside` carries the text of an error that the outside returned.
pub data RunError : Type 0 where
  target : TargetError → RunError
  method : MethodError → RunError
  asset : AssetError → RunError
  plan : PlanError → RunError
  download : DownloadError → RunError
  extract : ExtractError → RunError
  outside : Bytes → RunError

-- `Options` and the answers of the outside during one attempt.
pub record Env : Type 0 where
  pub goos : Goos
  pub goarch : Bytes
  pub program_files : Bytes
  pub current_version : Bytes
  pub state_dir : Bytes
  pub now : ℕ
  -- the running executable, or why it cannot be located
  pub exe : Result Bytes Bytes
  pub runner : Runner
  -- `path.Clean`, `filepath.Join` and `resolveTool`
  pub clean : Bytes → Bytes
  pub join : Bytes → Bytes → Bytes
  pub resolve_tool : Bytes → Bytes
  -- the release server, what the file system answers to the download of the asset, and the files
  -- once the directory of the downloads and update.log were removed
  pub downloader : Downloader
  pub download_fs : Download.Fs
  pub files : Disk
  -- what the readers of gzip, tar and zip make of a file's content, and what the swap asks of the
  -- outside
  pub archive_of : Option Bytes → Archive
  pub swap : Swap
  -- whether the writes of the identity file succeed, in order: the report of the installation,
  -- the pending marker, its removal, the final report
  pub saved_state : Bool
  pub saved_pending : Bool
  pub saved_clear : Bool
  pub saved_finish : Bool
  -- `none` if the process was started
  pub launch : Command → Option Bytes
  -- `err.Error()`, and the content of update.log
  pub text : RunError → Bytes
  pub update_log : Option Bytes

-- An error of another type as an error of `run`.
abbrev pub lift : {E A : Type 0} → (E → RunError) → Result E A → Result RunError A
lift f (ok a) = ok a
lift f (err e) = err (f e)

abbrev pub check : Option TargetError → Result RunError (Unit {0})
check none = ok tt
check (some e) = err (target e)

-- `for n := range sums`, and `sums[asset]`
abbrev pub names_of : Sums → List Bytes
names_of = map (λ e. e.0)

abbrev pub sum_of : Bytes → Sums → Bytes
sum_of name sums = elim (lookup name sums) [ none ↦ [] | some s ↦ s ]

-- What `run` knows when the asset is on disk, and the files then.
pub record Ready : Type 0 where
  pub files : Disk
  pub how : Method
  pub path : Bytes
  pub exe : Bytes

-- `u.dir()`
abbrev pub download_dir : Env → Bytes
download_dir env = env.join env.state_dir (codes "update")

-- `u.dl.FetchAsset(ctx, ver, asset, sums[asset], u.dir())`
abbrev pub fetched : Env → Bytes → Bytes → Bytes → Disk × Result DownloadError Bytes
fetched env ver name want =
    fetch_asset env.downloader env.join env.download_fs ver name want (download_dir env) env.files

-- `run` up to the verified asset: nothing of the state has changed yet.
unfoldable pub prepare : Env → Bytes → Result RunError Ready
prepare env ver = do
  guard (not (is_empty ver)) (target invalid_version)
  check (check_target env.current_version ver)
  exe ← lift outside env.exe
  how ← lift method (detect_method env.clean env.runner env.goos exe env.program_files)
  sums ← lift download (fetch_sums env.downloader ver)
  name ← lift asset (select_asset how ver env.goarch (names_of sums))
  path ← lift download (fetched env ver name (sum_of name sums)).1
  ok (record {
    files = (fetched env ver name (sum_of name sums)).0;
    how = how;
    path = path;
    exe = exe;
  })

-- `cmd.Argv = append([]string{resolveTool(cmd.Argv[0])}, cmd.Argv[1:]...)`
resolved : (Bytes → Bytes) → List Bytes → List Bytes
resolved f [] = []
resolved f (a ∷ argv) = f a ∷ argv

-- `u.swapBinary(ctx, method, path, exe, ver)`, which opens the archive at the path
abbrev pub swapped : Env → Bytes → Ready → Disk × Result ExtractError Command
swapped env ver r =
    swap_binary (record env.swap { join = env.join; state_dir = env.state_dir }) r.how
      (env.archive_of (r.files r.path)) r.exe ver r.files

-- The command: the restart after a swap in place, or the native installer.
unfoldable pub command : Env → Bytes → Ready → Result RunError Command
command env ver r =
    if is_archive r.how
    then lift extract (swapped env ver r).1
    else lift plan (install_command env.join r.how r.path env.state_dir)

unfoldable pub tool : Env → Command → Command
unfolding resolved
tool env c = record c { argv = resolved env.resolve_tool c.argv }

-- The pending marker.
unfoldable pub mark_pending : Env → Job → Updater → Updater
mark_pending env j = mutate env.saved_pending λ id. record id {
  pending_update =
      some (record { request_id = j.request_id; version = j.version; started_at = env.now });
}

-- A launch, with what was on disk when the process was started.
pub record Launched : Type 0 where
  pub run : Command
  pub on_disk : Identity

-- What is left of `run` once the marker is written: the launch, undone if it fails. The list
-- holds the processes that were started.
launch_answer : Env → Command → Updater → Option Bytes → Updater × Option RunError × List Launched
launch_answer env c s none = (s, none, record { run = c; on_disk = s.disk } ∷ [])
launch_answer env c s (some e) =
    (mutate env.saved_clear (λ id. record id { pending_update = none }) s, some (outside e), [])

unfoldable pub launch_command :
    Env → Job → Command → Updater → Updater × Option RunError × List Launched
unfolding launch_answer
launch_command env j c s =
    let s' = mark_pending env j s in
    if env.saved_pending
    then launch_answer env c s' (env.launch c)
    else (s', some (outside (codes "persist pending update")), [])

install : Env → Job → Updater → Result RunError Command → Updater × Option RunError × List Launched
install env j s (err e) = (s, some e, [])
install env j s (ok c) = launch_command env j (tool env c) s

unfoldable pub run_prepared :
    Env → Job → Updater → Result RunError Ready → Updater × Option RunError × List Launched
unfolding install
run_prepared env j s (err e) = (s, some e, [])
run_prepared env j s (ok r) =
    install env j (set_state env.saved_state j.request_id j.version installing s)
      (command env j.version r)

-- The error, if any, is the second part.
unfoldable pub run : Env → Job → Updater → Updater × Option RunError × List Launched
run env j s = run_prepared env j s (prepare env j.version)

-- `withLogTailIf`: refused versions are reported as they are.
unfoldable pub error_message : Utf8 → Env → RunError → Bytes
error_message u env (target e) = env.text (target e)
error_message u env e = with_log_tail u env.update_log (env.text e)

attempt_answer :
    Utf8 → Env → Job → Updater × Option RunError × List Launched → Updater × List Launched
attempt_answer u env j (s, none, launched) = (s, launched)
attempt_answer u env j (s, some e, launched) =
    (finish u env.saved_finish j.request_id j.version failed (error_message u env e) s, launched)

-- `attempt`, and the deferred `running = false`.
unfoldable pub attempt : Utf8 → Env → Job → Updater → Updater × List Launched
unfolding attempt_answer
attempt u env j s =
    let (s', launched) = attempt_answer u env j (run env j s) in
    (record s' { job = none }, launched)
