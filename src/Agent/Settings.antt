-- ===== src/Agent/Settings.antt =====
-- internal/agent/agent.go: the server's configuration and its YARA rules (`fetchConfig`,
-- `syncYaraRules`, the configuration part of `heartbeat`, and of the start in `Run`), with
-- `WriteSignatures` of internal/detect/yara/yara.go and its call at the start in
-- cmd/siembox-agent/main.go. What the server and the disk answer is part of each turn.
pub mod Signatures
use siembox_endpoint.Prelude.{
  ℕ, Bool, true, false, not, ◌||◌, ◌&&◌, Option, none, some, List, [], ◌∷◌, ◌++◌, Bytes,
  if◌then◌else◌, is_empty, has_suffix, ℤ, pos, int_le, int_eq,
}

-- The fields of `models.AgentConfig` that these functions read.
pub record Config : Type 0 where
  pub config_version : ℤ
  pub yara_rules_version : ℤ
  pub rules : List Bytes

-- The fields of the identity that these functions change.
pub record Identity : Type 0 where
  pub config : Config
  pub applied : ℤ

-- The identity in memory and on disk, the rules that the engine was given, the signature file,
-- and whether a restart of the detection and a full YARA pass are asked for.
pub record Agent : Type 0 where
  pub memory : Identity
  pub disk : Identity
  pub loaded : List Bytes
  pub signatures : Option Bytes
  pub restart : Bool
  pub rescan : Bool

-- A write of the signature file works, or leaves something behind.
pub data Write : Type 0 where
  written : Write
  broken : Option Bytes → Write

-- a document, ended by a line feed
unfoldable pub document : Bytes → Bytes
document e = if is_empty e then [] else if has_suffix (10 ∷ []) e then e else e ++ (10 ∷ [])

unfoldable pub signature_text : Bytes → List Bytes → Bytes
signature_text base [] = base
signature_text base (e ∷ es) = signature_text (base ++ document e) es

unfoldable pub write_signatures : Bytes → List Bytes → Write → Option Bytes
write_signatures base extra written = some (signature_text base extra)
write_signatures base extra (broken left) = left

abbrev pub is_written : Write → Bool
is_written written = true
is_written (broken left) = false

-- What a synchronisation of the rules meets: the bundle, if it is fetched, the write of the file,
-- and whether the identity is saved.
pub record Sync : Type 0 where
  pub bundle : Option Bytes
  pub write : Write
  pub saved : Bool

abbrev pub save : Bool → Agent → Agent
save saved a = record a { disk = if saved then a.memory else a.disk }

-- After the bundle was fetched.
unfoldable pub apply_bundle : Bytes → Bytes → Sync → Agent → Agent
apply_bundle base raw s a =
    let left : Agent = record a { signatures = write_signatures base (raw ∷ []) s.write } in
    if is_written s.write
    then save s.saved (record left {
      memory = record a.memory { applied = a.memory.config.yara_rules_version };
      restart = true;
      rescan = true;
    })
    else left

unfoldable pub sync_yara_rules : Bytes → Sync → Agent → Agent
sync_yara_rules base s a =
    if int_le a.memory.config.yara_rules_version a.memory.applied
    then a
    else elim s.bundle [ none ↦ a | some raw ↦ apply_bundle base raw s a ]

-- What a fetch of the configuration meets.
pub record Fetch : Type 0 where
  pub config : Option Config
  pub saved : Bool
  pub sync : Sync

unfoldable pub apply_config : Bytes → Config → Fetch → Agent → Agent
apply_config base cfg f a =
    sync_yara_rules base f.sync
      (record (save f.saved (record a { memory = record a.memory { config = cfg } })) {
        loaded = cfg.rules;
      })

unfoldable pub fetch_config : Bytes → Bool → Fetch → Agent → Agent
fetch_config base force f a = elim f.config [
  | none ↦ a
  | some cfg ↦
      if int_eq cfg.config_version a.memory.config.config_version && not force
      then a
      else apply_config base cfg f a
]

-- A turn of the running agent: a poll, or a heartbeat with the version that the server wants.
pub data Turn : Type 0 where
  poll : Fetch → Turn
  heartbeat : Option ℤ → Fetch → Turn

unfoldable pub take_turn : Bytes → Turn → Agent → Agent
take_turn base (poll f) a = fetch_config base false f a
take_turn base (heartbeat none f) a = a
take_turn base (heartbeat (some v) f) a =
    if int_le v a.memory.config.config_version then a else fetch_config base false f a

unfoldable pub take_turns : Bytes → List Turn → Agent → Agent
take_turns base [] a = a
take_turns base (t ∷ ts) a = take_turns base ts (take_turn base t a)

-- A process starts: the identity is read back, `main` writes the signature file, and `Run` fetches
-- the configuration, synchronises the rules and drops the requests that this queued.
unfoldable pub start : Bytes → Write → Fetch → Sync → Agent → Agent
start base w f s a =
    let fresh : Agent = record {
      memory = a.disk;
      disk = a.disk;
      loaded = [];
      signatures = write_signatures base [] w;
      restart = false;
      rescan = false;
    } in
    let synced : Agent = sync_yara_rules base s (fetch_config base true f fresh) in
    record synced { loaded = synced.memory.config.rules; restart = false; rescan = false }
