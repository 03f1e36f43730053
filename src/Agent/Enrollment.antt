-- ===== src/Agent/Enrollment.antt =====
-- internal/agent/agent.go (`enrollWithRetry`, `enroll`, `sec`) and internal/config/config.go
-- (`PackageInventoryInterval`): the attempts to enroll with their pauses, and the intervals of the
-- agent's own schedule. The server's and the disk's answers to the attempts are a parameter. Times
-- are in seconds.
pub mod Backoff
use siembox_endpoint.Prelude.{
  ℕ, suc, ◌*◌, Bool, true, false, not, Option, none, some, List, [], ◌∷◌, Bytes, ltb, if◌then◌else◌,
  is_empty, ℤ, positive_or,
}

abbrev pub default_heartbeat_sec : ℕ
default_heartbeat_sec = 60

abbrev pub default_package_inventory_interval_sec : ℕ
default_package_inventory_interval_sec = 21600

abbrev pub min_package_inventory_interval_sec : ℕ
min_package_inventory_interval_sec = 300

-- `sec`
unfoldable pub sec : ℤ → ℕ → ℕ
sec v def = positive_or def v

unfoldable pub package_inventory_interval : ℤ → ℕ
package_inventory_interval v =
    let s = positive_or default_package_inventory_interval_sec v in
    if ltb s min_package_inventory_interval_sec then min_package_inventory_interval_sec else s

-- The part of the state that enrolment changes.
pub record Enrollment : Type 0 where
  pub token : Bytes
  pub agent_id : Bytes
  pub agent_api_key : Bytes

pub record EnrollResponse : Type 0 where
  pub agent_id : Bytes
  pub agent_api_key : Bytes

-- what the server answered (`none` for an error) and whether the identity was saved
pub record Answer : Type 0 where
  pub response : Option EnrollResponse
  pub saved : Bool

-- `enroll`: the new state and whether it succeeded. After a failed save the identity stays in
-- memory and the token is kept.
unfoldable pub enrolled : Bool → EnrollResponse → Enrollment → Enrollment × Bool
enrolled saved r st =
    let known = record st { agent_id = r.agent_id; agent_api_key = r.agent_api_key } in
    if saved then (record known { token = [] }, true) else (known, false)

unfoldable pub enroll : Answer → Enrollment → Enrollment × Bool
enroll a st =
    if is_empty st.token
    then (st, false)
    else elim a.response [ none ↦ (st, false) | some r ↦ enrolled a.saved r st ]

-- 5 minutes
abbrev pub max_backoff : ℕ
max_backoff = 300

-- `if backoff < maxBackoff { backoff *= 2; ... }`
unfoldable pub next_backoff : ℕ → ℕ
next_backoff b =
    if ltb b max_backoff then (if ltb max_backoff (b * 2) then max_backoff else b * 2) else b

-- The loop of `enrollWithRetry` over the answers to the attempts, until one succeeds or the answers
-- end (the shutdown): the state, whether it is enrolled, and the pauses made.
unfoldable pub retry : List Answer → ℕ → Enrollment → Enrollment × Bool × List ℕ
retry [] backoff st = (st, false, [])
retry (a ∷ answers) backoff st =
    let rest = retry answers (next_backoff backoff) (enroll a st).0 in
    if (enroll a st).1 then ((enroll a st).0, true, []) else (rest.0, rest.1, backoff ∷ rest.2)

-- 5 seconds
unfoldable pub enroll_with_retry : List Answer → Enrollment → Enrollment × Bool × List ℕ
enroll_with_retry answers st = retry answers 5 st
