-- ===== src/Agent/Settings/Signatures.antt =====
-- The signature file and the version that the identity says it has.
use siembox_endpoint.Prelude.{
  Bool, true, false, not, ◌&&◌, Option, none, some, List, [], ◌∷◌, Bytes, if◌then◌else◌, All, ℤ,
  int_le, int_eq, ◌≡◌, refl, sym, ◌∙◌, ap, subst, if_elim,
}
use siembox_endpoint.Agent.Settings.{
  Config, Identity, Agent, written, Sync, Fetch, Turn, poll, heartbeat, write_signatures,
  signature_text, sync_yara_rules, apply_config, fetch_config, take_turn, take_turns, start,
}

-- The version of the rules, when a fetch brings a configuration, is not above the one given.
abbrev pub IsOldConfig : ℤ → Option Config → Type 0
IsOldConfig applied none = Unit {0}
IsOldConfig applied (some cfg) = int_le cfg.yara_rules_version applied ≡ true

abbrev pub IsOld : ℤ → Fetch → Type 0
IsOld applied f = IsOldConfig applied f.config

abbrev pub fetch_of : Turn → Fetch
fetch_of (poll f) = f
fetch_of (heartbeat v f) = f

-- The file holds the rules that come with the agent alone, while the identity, in memory and on
-- disk, records the version given as applied and no configuration asks for a later one.
abbrev pub IsBaseline : Bytes → ℤ → Agent → Type 0
IsBaseline base applied a =
    (a.signatures ≡ some base)
    × (a.memory.applied ≡ applied)
    × (a.disk.applied ≡ applied)
    × (int_le a.memory.config.yara_rules_version applied ≡ true)

sync_old :
    (base : Bytes) (s : Sync) (a : Agent)
    → int_le a.memory.config.yara_rules_version a.memory.applied ≡ true
    → sync_yara_rules base s a ≡ a
unfolding sync_yara_rules
sync_old base s a h = rw (h, sync_yara_rules) refl

sync-IsBaseline :
    (base : Bytes) (applied : ℤ) (s : Sync) (a : Agent)
    → IsBaseline base applied a
    → IsBaseline base applied (sync_yara_rules base s a)
sync-IsBaseline base applied s a (f, m, d, v) =
    subst (IsBaseline base applied)
      (sym (sync_old base s a (ap (int_le a.memory.config.yara_rules_version) m ∙ v))) (f, m, d, v)

apply-IsBaseline :
    (base : Bytes) (applied : ℤ) (cfg : Config) (f : Fetch) (a : Agent)
    → int_le cfg.yara_rules_version applied ≡ true
    → IsBaseline base applied a
    → IsBaseline base applied (apply_config base cfg f a)
unfolding apply_config
apply-IsBaseline base applied cfg f a old (g, m, d, v) = sync-IsBaseline base applied f.sync _ (
  g,
  m,
  if_elim (λ (id : Identity). id.applied ≡ applied) f.saved (record a.memory { config = cfg })
      a.disk (λ _. m) (λ _. d),
  old,
)

fetch-IsBaseline :
    (base : Bytes) (applied : ℤ) (force : Bool) (f : Fetch) (a : Agent)
    → IsOld applied f
    → IsBaseline base applied a
    → IsBaseline base applied (fetch_config base force f a)
unfolding fetch_config
fetch-IsBaseline base applied force f a old h = fetched f.config old
  where
    fetched :
        (o : Option Config)
        → IsOldConfig applied o
        → IsBaseline base applied (elim o [
          | none ↦ a
          | some cfg ↦
              if int_eq cfg.config_version a.memory.config.config_version && not force
              then a
              else apply_config base cfg f a
        ])
    fetched none k = h
    fetched (some cfg) k =
        if_elim (IsBaseline base applied)
          (int_eq cfg.config_version a.memory.config.config_version && not force) a
          (apply_config base cfg f a) (λ _. h) (λ _. apply-IsBaseline base applied cfg f a k h)

turn-IsBaseline :
    (base : Bytes) (applied : ℤ) (t : Turn) (a : Agent)
    → IsOld applied (fetch_of t)
    → IsBaseline base applied a
    → IsBaseline base applied (take_turn base t a)
unfolding take_turn
turn-IsBaseline base applied (poll f) a old h = fetch-IsBaseline base applied false f a old h
turn-IsBaseline base applied (heartbeat none f) a old h = h
turn-IsBaseline base applied (heartbeat (some v) f) a old h =
    if_elim (IsBaseline base applied) (int_le v a.memory.config.config_version) a
      (fetch_config base false f a) (λ _. h) (λ _. fetch-IsBaseline base applied false f a old h)

turns-IsBaseline :
    (base : Bytes) (applied : ℤ) (ts : List Turn) (a : Agent)
    → All (λ t. IsOld applied (fetch_of t)) ts
    → IsBaseline base applied a
    → IsBaseline base applied (take_turns base ts a)
unfolding take_turns
turns-IsBaseline base applied [] a old h = h
turns-IsBaseline base applied (t ∷ ts) a (o, old) h =
    turns-IsBaseline base applied ts (take_turn base t a) old (turn-IsBaseline base applied t a o h)

-- After a restart the server's YARA rules are gone: the start writes the signature file with the
-- agent's own rules alone, and as long as no configuration asks for a later version than the one
-- that the identity on disk records as applied, the file keeps only these, whatever turns follow,
-- while the recorded version stays.
pub start-IsBaseline :
    (base : Bytes) (f : Fetch) (s : Sync) (ts : List Turn) (before : Agent)
    → int_le before.disk.config.yara_rules_version before.disk.applied ≡ true
    → IsOld before.disk.applied f
    → All (λ t. IsOld before.disk.applied (fetch_of t)) ts
    → IsBaseline base before.disk.applied (take_turns base ts (start base written f s before))
unfolding start write_signatures signature_text
start-IsBaseline base f s ts before v old olds =
    turns-IsBaseline base before.disk.applied ts (start base written f s before) olds (
      sync-IsBaseline base before.disk.applied s _
        (fetch-IsBaseline base before.disk.applied true f _ old (refl, refl, refl, v)))
