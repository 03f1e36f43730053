-- ===== src/Metrics/Collector.antt =====
-- internal/metrics/metrics.go: samples and top lists out of two readings. The operations on float64
-- are an interface, `Floats`; a reading that fails is `none`.
pub mod Top
use siembox_endpoint.Prelude.{
  ℕ, ◌+◌, ◌-◌, Bool, true, false, not, ◌&&◌, ◌||◌, Option, none, some, List, [], ◌∷◌, ◌++◌, Bytes,
  ltb, leb, ◌==◌, if◌then◌else◌, is_empty, any, length, take, str_eq, str_le, has_prefix, codes,
  lookup, insert, sort_by, ℤ, positive_or,
}
use siembox_endpoint.Metrics.Linux.{MemInfo, NetCounter, Counters}

-- `not_a_number v` is `v != v`; `truncated v` is `float64(int64(v))`.
pub record Floats (F : Type 0) : Type 0 where
  pub nought : F
  pub half : F
  pub hundred : F
  pub add : F → F → F
  pub sub : F → F → F
  pub mul : F → F → F
  pub div : F → F → F
  pub below : F → F → Bool
  pub at_least : F → F → Bool
  pub same : F → F → Bool
  pub not_a_number : F → Bool
  pub truncated : F → F
  pub of_nat : ℕ → F

abbrev pub max_disks : ℕ
max_disks = 32

abbrev pub max_interfaces : ℕ
max_interfaces = 16

abbrev pub default_top_processes : ℕ
default_top_processes = 10

abbrev pub max_top_processes : ℕ
max_top_processes = 25

unfoldable pub skip_interface : Bytes → Bool
skip_interface name =
    str_eq name (codes "lo")
    || has_prefix (codes "lo0") name
    || str_eq name (codes "Loopback Pseudo-Interface 1")
    || any (λ p. has_prefix p name)
        (codes "veth"
          ∷ codes "cali"
          ∷ codes "docker_gwbridge"
          ∷ codes "gif"
          ∷ codes "stf"
          ∷ codes "anpi"
          ∷ codes "ap1"
          ∷ codes "awdl"
          ∷ codes "llw"
          ∷ codes "utun"
          ∷ codes "bridge0"
          ∷ [])

unfoldable pub truncate : Bytes → ℕ → Bytes
truncate s n = if leb (length s) n then s else take n s

pub record DiskUsage : Type 0 where
  pub mount : Bytes
  pub fstype : Bytes
  pub total : ℕ
  pub used : ℕ
  pub free : ℕ

-- the first comparison of `finishDisks`
unfoldable pub shorter_mount : DiskUsage → DiskUsage → Bool
shorter_mount a b =
    if length a.mount == length b.mount
    then not (str_le b.mount a.mount)
    else ltb (length a.mount) (length b.mount)

abbrev pub is_known : Bytes → List Bytes → Bool
is_known key seen = not (is_empty key) && any (λ k. str_eq k key) seen

-- The loop of `finishDisks`, with the number of disks still to take.
unfoldable pub pick_disks : (DiskUsage → Bytes) → List DiskUsage → List Bytes → ℕ → List DiskUsage
pick_disks device [] seen n = []
pick_disks device (d ∷ ds) seen n = elim (d.total == 0 || is_known (device d) seen) [
  | true ↦ pick_disks device ds seen n
  | false ↦ elim (n == 1) [
    | true ↦ record d { mount = truncate d.mount 256 } ∷ []
    | false ↦
        record d { mount = truncate d.mount 256 } ∷ pick_disks device ds (device d ∷ seen) (n - 1)
  ]
]

unfoldable pub finish_disks : List DiskUsage → (DiskUsage → Bytes) → List DiskUsage
finish_disks disks device =
    sort_by (λ a b. str_le a.mount b.mount)
      (pick_disks device (sort_by (λ a b. not (shorter_mount b a)) disks) [] max_disks)

-- A process as a source reads it.
pub record RawProc (F : Type 0) : Type 0 where
  pub key : Bytes
  pub pid : ℕ
  pub name : Bytes
  pub user : Bytes
  pub cpu_sec : F
  pub cpu_pct : Option F
  pub rss : ℕ

pub record ProcessInfo (F : Type 0) : Type 0 where
  pub pid : ℕ
  pub name : Bytes
  pub user : Bytes
  pub cpu_pct : F
  pub mem_rss : ℕ
  pub mem_pct : F

-- the comparison of `top`
unfoldable pub ranks_before :
    {F : Type 0} → (ProcessInfo F → ProcessInfo F → Bool) → ProcessInfo F → ProcessInfo F → Bool
ranks_before less a b = if less a b then true else if less b a then false else ltb a.pid b.pid

unfoldable pub top :
    {F : Type 0}
    → List (ProcessInfo F)
    → ℕ
    → (ProcessInfo F → ProcessInfo F → Bool)
    → List (ProcessInfo F)
top list n less = take n (sort_by (λ a b. not (ranks_before less b a)) list)

abbrev pub by_mem : {F : Type 0} → ProcessInfo F → ProcessInfo F → Bool
by_mem a b = ltb b.mem_rss a.mem_rss

-- `index`
unfoldable pub index :
    {F : Type 0} → List (RawProc F) → List (Bytes × RawProc F) → List (Bytes × RawProc F)
index [] m = m
index (p ∷ ps) m = index ps (insert p.key p m)

pub record NetRate (F : Type 0) : Type 0 where
  pub iface : Bytes
  pub rx_bps : F
  pub tx_bps : F

-- `cpuTimes`
pub record CpuReading (F : Type 0) : Type 0 where
  pub busy : F
  pub total : F
  pub pct : Option F

pub record Load (F : Type 0) : Type 0 where
  pub load1 : F
  pub load5 : F
  pub load15 : F

-- `models.MetricSample`, less the timestamp
pub record MetricSample (F : Type 0) : Type 0 where
  pub cpu_pct : F
  pub cpu_count : ℕ
  pub mem : MemInfo
  pub loads : Option (Load F)
  pub uptime_sec : ℕ
  pub disks : List DiskUsage
  pub net : List (NetRate F)

-- `Collector`: the readings before, and when they were taken.
pub record Collector (F : Type 0) : Type 0 where
  pub prev_cpu : Option (CpuReading F)
  pub prev_net : Option (Counters × ℕ)
  pub prev_procs : Option (List (Bytes × RawProc F) × ℕ)

-- What the source reads at one time.
pub record Readings (F : Type 0) : Type 0 where
  pub cpu : Option (CpuReading F × ℕ)
  pub memory : Option MemInfo
  pub loads : Option (Load F)
  pub uptime : Option ℕ
  pub disks : Option (List DiskUsage)
  pub net : Option Counters
  pub processes : Option (List (RawProc F))

module _ {F : Type 0} (f : Floats F) where
  unfoldable pub clamp_pct : F → F
  clamp_pct v =
      if f.below v f.nought || f.not_a_number v
      then f.nought
      else if f.below f.hundred v
      then f.hundred
      else v

  unfoldable pub round2 : F → F
  round2 v =
      if f.not_a_number v
      then f.nought
      else f.div (f.truncated (f.add (f.mul v f.hundred) f.half)) f.hundred

  -- `x / seconds` of a difference of counters
  abbrev pub bps : F → ℕ → F
  bps seconds n = round2 (f.div (f.of_nat n) seconds)

  -- The loop of `rates` over the interfaces, in any order.
  unfoldable pub rate_list : Counters → F → Counters → List (NetRate F)
  rate_list prev seconds [] = []
  rate_list prev seconds ((name, c) ∷ cur) =
      let rest = rate_list prev seconds cur in
      if skip_interface name then rest else elim (lookup name prev) [
        | none ↦ rest
        | some p ↦
            if ltb c.rx p.rx || ltb c.tx p.tx
            then rest
            else record {
              iface = name;
              rx_bps = bps seconds (c.rx - p.rx);
              tx_bps = bps seconds (c.tx - p.tx);
            }
              ∷ rest
      ]

  -- the busiest first
  unfoldable pub busier : NetRate F → NetRate F → Bool
  busier a b =
      let ta = f.add a.rx_bps a.tx_bps in
      let tb = f.add b.rx_bps b.tx_bps in
      if not (f.same ta tb) then f.below tb ta else not (str_le b.iface a.iface)

  unfoldable pub rates : Counters → Counters → F → List (NetRate F)
  rates prev cur seconds =
      if f.at_least f.nought seconds
      then []
      else sort_by (λ a b. str_le a.iface b.iface)
          (take max_interfaces (sort_by (λ a b. not (busier b a)) (rate_list prev seconds cur)))

  -- `elapsed now before` is `now.Sub(before).Seconds()`.
  module _ (elapsed : ℕ → ℕ → F) where
    unfoldable pub prime : ℕ → Bool → Readings F → Collector F → Collector F
    prime now processes r c = record {
      prev_cpu = elim r.cpu [ none ↦ c.prev_cpu | some t ↦ some t.0 ];
      prev_net = elim r.net [ none ↦ c.prev_net | some n ↦ some (n, now) ];
      prev_procs =
          if processes
          then elim r.processes [ none ↦ c.prev_procs | some p ↦ some (index p [], now) ]
          else c.prev_procs;
    }

    -- the `switch` of `Sample`
    unfoldable pub cpu_share : Option (CpuReading F) → CpuReading F → F
    cpu_share prev t = elim t.pct [
      | some p ↦ clamp_pct p
      | none ↦ elim prev [
        | none ↦ f.nought
        | some q ↦
            if f.below q.total t.total && f.at_least t.busy q.busy
            then clamp_pct (f.mul (f.div (f.sub t.busy q.busy) (f.sub t.total q.total)) f.hundred)
            else f.nought
      ]
    ]

    abbrev pub rounded : Load F → Load F
    rounded l = record { load1 = round2 l.load1; load5 = round2 l.load5; load15 = round2 l.load15 }

    unfoldable pub net_rates : ℕ → Option (Counters × ℕ) → Option Counters → List (NetRate F)
    net_rates now prev none = []
    net_rates now none (some n) = []
    net_rates now (some (p, before)) (some n) = rates p n (elapsed now before)

    -- The rest of `Sample`, after the memory was read.
    unfoldable pub sample_with :
        ℕ → MemInfo → Readings F → Collector F → Collector F × MetricSample F
    sample_with now mem r c = (
      record c {
        prev_cpu = elim r.cpu [ none ↦ c.prev_cpu | some t ↦ some t.0 ];
        prev_net = elim r.net [ none ↦ c.prev_net | some n ↦ some (n, now) ];
      },
      record {
        cpu_pct = round2 (elim r.cpu [ none ↦ f.nought | some t ↦ cpu_share c.prev_cpu t.0 ]);
        cpu_count = elim r.cpu [ none ↦ 0 | some t ↦ t.1 ];
        mem = mem;
        loads = elim r.loads [ none ↦ none | some l ↦ some (rounded l) ];
        uptime_sec = elim r.uptime [ none ↦ 0 | some u ↦ u ];
        disks = elim r.disks [ none ↦ [] | some d ↦ d ];
        net = net_rates now c.prev_net r.net;
      },
    )

    unfoldable pub sample : ℕ → Readings F → Collector F → Collector F × Option (MetricSample F)
    sample now r c = elim r.memory [
      | none ↦ (c, none)
      | some mem ↦ ((sample_with now mem r c).0, some (sample_with now mem r c).1)
    ]

    -- The CPU share of one process.
    unfoldable pub proc_share : ℕ → Option (List (Bytes × RawProc F) × ℕ) → RawProc F → F
    proc_share now prev p = elim p.cpu_pct [
      | some v ↦ v
      | none ↦ elim prev [
        | none ↦ f.nought
        | some before ↦
            if f.below f.nought (elapsed now before.1)
            then elim (lookup p.key before.0) [
              | none ↦ f.nought
              | some q ↦
                  if f.at_least p.cpu_sec q.cpu_sec
                  then f.mul (f.div (f.sub p.cpu_sec q.cpu_sec) (elapsed now before.1)) f.hundred
                  else f.nought
            ]
            else f.nought
      ]
    ]

    unfoldable pub info_of :
        ℕ → ℕ → Option (List (Bytes × RawProc F) × ℕ) → RawProc F → ProcessInfo F
    info_of now mem_total prev p = record {
      pid = p.pid;
      name = truncate p.name 128;
      user = truncate p.user 64;
      cpu_pct = round2 (proc_share now prev p);
      mem_rss = p.rss;
      mem_pct =
          if ltb 0 mem_total
          then round2 (f.mul (f.div (f.of_nat p.rss) (f.of_nat mem_total)) f.hundred)
          else f.nought;
    }

    abbrev pub by_cpu : ProcessInfo F → ProcessInfo F → Bool
    by_cpu a b = f.below b.cpu_pct a.cpu_pct

    -- the bounds on `n`
    unfoldable pub top_count : ℤ → ℕ
    top_count n =
        let m = positive_or default_top_processes n in
        if ltb max_top_processes m then max_top_processes else m

    infos : ℕ → ℕ → Option (List (Bytes × RawProc F) × ℕ) → List (RawProc F) → List (ProcessInfo F)
    infos now mem_total prev [] = []
    infos now mem_total prev (p ∷ ps) = info_of now mem_total prev p ∷ infos now mem_total prev ps

    -- no baseline, and a process without a ready-made share
    unfoldable pub needs_baseline : Option (List (Bytes × RawProc F) × ℕ) → List (RawProc F) → Bool
    needs_baseline (some before) ps = false
    needs_baseline none [] = false
    needs_baseline none (p ∷ ps) = elim p.cpu_pct [ none ↦ true | some v ↦ false ]

    -- The collector afterwards, and the two lists if there is a snapshot.
    unfoldable pub processes :
        ℕ
        → ℤ
        → ℕ
        → Readings F
        → Collector F
        → Collector F × Option (List (ProcessInfo F) × List (ProcessInfo F))
    unfolding infos
    processes now n mem_total r c = elim r.processes [
      | none ↦ (c, none)
      | some ps ↦
          let next : Collector F = record c { prev_procs = some (index ps [], now) } in
          if needs_baseline c.prev_procs ps then (next, none) else (
            next,
            some (
              top (infos now mem_total c.prev_procs ps) (top_count n) by_cpu,
              top (infos now mem_total c.prev_procs ps) (top_count n) by_mem,
            ),
          )
    ]
