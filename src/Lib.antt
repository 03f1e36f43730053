-- ===== src/Lib.antt =====
-- The endpoint agent of SIEMBox, modelled from its Go source: the self-update (internal/update),
-- the scan coordination, performance reporting, event batches and spool replay of the running agent
-- (internal/agent, internal/transport/spool.go), the package inventory (internal/packages), the
-- parsers of the host's metrics (internal/metrics), the telemetry of osquery (internal/telemetry),
-- the detection rules (internal/detect) and the vulnerability scanner (internal/vuln).
--
-- How the parts interact: a heartbeat gives the agent an update request and scan requests. The
-- updater (Consider) starts an attempt; it (run) checks the version, finds how the
-- agent was installed, reads the checksum file of the release, chooses the asset, downloads and
-- checks it, and launches an installer or swaps the binary; the next process resolves what was left
-- in flight (Startup). Scan requests are admitted, queued for each scan type and their runs are
-- reported to the server. Metrics are buffered and sent in batches; payloads that could not be sent
-- wait as files and are replayed. Records of osquery, from the results file that osqueryd writes or
-- from one run of osqueryi, go through the rules, and the detections leave in batches. A package
-- report sends the normalised inventory of all package databases; a vulnerability scan merges what
-- grype finds for each target.
--
-- Prelude: the libraries' names and shared lemmas. Prelude/Text: Go strings as lists of bytes and
-- the functions of package strings that the source uses, over ASCII. Prelude/Scanner: bufio.Scanner
-- by lines. Prelude/Map: a map with text keys. Prelude/Sort: sort.Strings. Prelude/Outcome: a value
-- or an error. Prelude/Integers: an int that may be negative.
--
-- Update/Version: internal/update/version.go (ParseVersion, Compare, CheckTarget).
-- Update/Assets: internal/update/assets.go (SelectAsset). Update/Sums: internal/update/sums.go
-- (ParseSHA256SUMS). Update/Method: internal/update/method.go (DetectMethod). Update/Plan:
-- internal/update/plan.go (InstallCommand, RestartCommand, systemdRunArgv). Update/Report: the texts
-- of internal/update/updater.go (truncate, readTail, withLogTail). Update/Updater: Consider, Prune,
-- Startup, CheckPending, setState, finish, with the fields of internal/config/config.go that they
-- keep, as two copies: in memory and on disk. Update/Attempt: attempt and run, with the download and
-- the swap of Update/Download and Update/Extract; Prepared holds the lemmas on the verified asset.
--
-- Update/Disk: the files as a function from paths. Update/Download: internal/update/download.go
-- (FetchSums, FetchAsset). Update/Extract: internal/update/extract.go, and swapBinary and exe of
-- updater.go; Written and Replaced hold the lemmas on the two halves, Safe the whole swap.
--
-- Agent/Coordinator: internal/agent/scans.go, the requests already seen (handleScanRequests) and
-- the queue of one scan type (runScan), whose two critical sections are `enter` and `leave`.
-- Agent/ScanRun: execScan and reportScan. Agent/Performance: internal/agent/performance.go.
-- Agent/Spool: internal/transport/spool.go (Add, List) and flushSpool of internal/agent/agent.go.
-- Agent/PackageReport, Agent/Yara, Agent/Enrollment: sendPackages and packageScan; yaraScan,
-- runYaraScans and scanPolicy; enroll and enrollWithRetry, all of internal/agent/agent.go.
-- Agent/Events: batchEvents and spoolJSON of internal/agent/agent.go. Agent/Settings: fetchConfig,
-- syncYaraRules and the start of a process, with WriteSignatures of internal/detect/yara/yara.go.
--
-- Agent/HostScans: vulnScan and inventoryScan of internal/agent/agent.go. Transport:
-- internal/transport/client.go, and FindBinary of internal/util/exec.go.
--
-- Packages/Normalize: Normalize, cut and Hash of internal/packages/packages.go. Packages/Collect:
-- CollectFrom. Packages/Linux: internal/packages/linuxdb.go (ParseDpkgStatus, ParseApkInstalled,
-- ParseRpmQuery). Packages/Desktop: internal/packages/windowsdb.go and the parsers of macosdb.go.
-- Packages/Linux/Status: dpkg's form of the status file. Metrics/Numbers: strings.Fields, with Unicode
-- white space, and the number parsers. Metrics/Words: lemmas on words. Metrics/Linux, Metrics/Darwin:
-- internal/metrics/parse.go, by system. Metrics/Collector: internal/metrics/metrics.go (Sample,
-- Processes, rates, finishDisks). Telemetry: internal/telemetry/osquery/osquery.go
-- (tailResults, parseResultLine, buildYaraScanQuery) and oneshot.go. Vuln: internal/vuln/grype.go.
-- Detect: internal/detect/sigma.go.
-- Witnesses: concrete inputs.
--
-- Times and intervals are natural numbers of seconds, strings are lists of byte values. All loops
-- are recursion over a list; no fuel is used. Parameters stand for what is outside: the HTTP
-- server's answers, the clock, the command runner, path and UTF-8 functions of Go's standard
-- library, the file system's success or failure, the scanners and collectors, the decoders of JSON,
-- archives and rules, floating point numbers and digests.
--
-- A uint64 wraps at 2 ^ 64, a text is a list of bytes (of runes, in Packages/Normalize), and a
-- scanner's line limit is the source's.
--
-- Not modelled: log lines, the goroutines and tickers of Run, the system calls of the collectors,
-- TLS settings, the state and configuration files, the commands and the tray. An update attempt is
-- one step: that CheckPending and Prune may run beside it is left out.
pub mod Prelude
pub mod Update
pub mod Agent
pub mod Packages
pub mod Metrics
pub mod Telemetry
pub mod Vuln
pub mod Detect
pub mod Transport
pub mod Witnesses
