-- ===== src/Agent/Spool.antt =====
-- internal/transport/spool.go (`Add`, `List`) and internal/agent/agent.go
-- (`flushSpool`): the payloads that wait on disk, by file name. A store is the directory's files
-- with their content; a `.tmp` file is none of them.
pub mod Flush
pub mod Drained
use siembox_endpoint.Prelude.{
  ℕ, suc, Bool, true, false, not, Option, none, some, List, [], ◌∷◌, ◌++◌, map, Bytes, codes,
  str_eq, if◌then◌else◌, str_le, sort_by, cut_at, is_empty, lookup, keep, insert, ◌&&◌,
}

abbrev pub Store : Type 0
Store = List (Bytes × Bytes)

-- the part of a name before its first `-`, or the whole name without one or where it starts so
unfoldable pub kind_of : Bytes → Bytes
kind_of base = elim (cut_at 45 base) [
  | none ↦ base
  | some cut ↦ if is_empty cut.0 then base else cut.0
]

-- `spoolPaths`
unfoldable pub spool_path : Bytes → Option Bytes
spool_path kind =
    if str_eq kind (codes "events")
    then some (codes "/api/edr/events")
    else if str_eq kind (codes "vulns")
    then some (codes "/api/edr/vulnerabilities")
    else if str_eq kind (codes "inventory")
    then some (codes "/api/edr/inventory")
    else none

-- by file name
unfoldable pub by_name : Bytes × Bytes → Bytes × Bytes → Bool
by_name a b = str_le a.0 b.0

-- `List`, with the content of each file
unfoldable pub list : Store → Store
list store = sort_by by_name store

-- `fmt.Sprintf("%s-%d-%s.json", ...)`: the time as printed, and a new identifier
unfoldable pub spool_name : Bytes → Bytes → Bytes → Bytes
spool_name kind now id = kind ++ (b'-' ∷ (now ++ (b'-' ∷ (id ++ codes ".json"))))

-- `Add`: whether the write and the rename work. A file that was only written is none of the store.
unfoldable pub add : Bool → Bool → Bytes → Bytes → Bytes → Bytes → Store → Store × Bool
add wrote renamed now id kind payload store =
    if wrote && renamed
    then (insert (spool_name kind now id) payload store, true)
    else (store, false)

-- A payload that was sent: its route and content.
abbrev pub Delivery : Type 0
Delivery = Bytes × Bytes

-- The outside of a flush: whether a file can be read and removed, and whether the n-th send
-- succeeds.
pub record Outside : Type 0 where
  pub can_read : Bytes → Bool
  pub can_remove : Bytes → Bool
  pub post : ℕ → Bytes → Bytes → Bool

-- `_ = a.spool.Remove(e.Path)`: a file that cannot be removed stays before the others.
unfoldable pub removed : Outside → Bytes × Bytes → Store → Store
removed o file rest = if o.can_remove file.0 then rest else file ∷ rest

-- The loop of `flushSpool`: the files that stay and what was sent.
unfoldable pub flush : Outside → ℕ → Store → Store × List Delivery
flush o n [] = ([], [])
flush o n ((name, raw) ∷ rest) = elim (spool_path (kind_of name)) [
  | none ↦ let skipped = flush o n rest in (removed o (name, raw) skipped.0, skipped.1)
  | some path ↦
      let skipped = flush o n rest in
      let after = flush o (suc n) rest in
      if not (o.can_read name)
      then ((name, raw) ∷ skipped.0, skipped.1)
      else if o.post n path raw
      then (removed o (name, raw) after.0, (path, raw) ∷ after.1)
      else ((name, raw) ∷ rest, [])
]

unfoldable pub flush_spool : Outside → Store → Store × List Delivery
flush_spool o store = flush o 0 (list store)
