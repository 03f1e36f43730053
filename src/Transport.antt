-- ===== src/Transport.antt =====
-- internal/transport/client.go: the requests to the server and their answers, and `FindBinary` of
-- internal/util/exec.go. The HTTP client, JSON, gzip and the file system are parameters.
pub mod Credentials
use siembox_endpoint.Prelude.{
  ℕ, Bool, true, false, not, ◌&&◌, ◌||◌, Option, none, some, List, [], ◌∷◌, ◌++◌, Bytes, ltb, leb,
  ◌==◌, if◌then◌else◌, take, trim_right, trim_space, any, codes, Result, ok, err, equal_fold,
}

-- What a client keeps: the address of the server without slashes at its end, and the credentials.
pub record Client : Type 0 where
  pub base_url : Bytes
  pub agent_id : Bytes
  pub agent_api_key : Bytes

-- The fields of `New` that do not concern TLS.
unfoldable pub new_client : Bytes → Bytes → Bytes → Client
new_client server_url id key = record {
  base_url = trim_right (λ c. c == b'/') server_url;
  agent_id = id;
  agent_api_key = key;
}

unfoldable pub set_identity : Bytes → Bytes → Client → Client
set_identity id key c = record c { agent_id = id; agent_api_key = key }

-- A request: the credentials are those of the two headers.
pub record Request : Type 0 where
  pub is_post : Bool
  pub url : Bytes
  pub credentials : Option (Bytes × Bytes)
  pub accept : Option Bytes
  pub is_json : Bool
  pub is_gzip : Bool
  pub body : Option Bytes

-- The calls; each carries its body as JSON, or its route and its body as they are.
pub data Call : Type 0 where
  enroll send_inventory send_events send_vulnerabilities report_scan send_packages send_metrics
        heartbeat :
      Bytes → Call
  fetch_config fetch_yara_rules : Call
  post_raw : Bytes → Bytes → Call

-- `fmt.Sprintf("/api/edr/agents/%s/...", c.agentID)`
abbrev pub agent_path : Client → Bytes → Bytes
agent_path c last = codes "/api/edr/agents/" ++ (c.agent_id ++ last)

unfoldable pub path_of : Client → Call → Bytes
path_of c (enroll b) = codes "/api/edr/agents/enroll"
path_of c (heartbeat b) = agent_path c (codes "/heartbeat")
path_of c fetch_config = agent_path c (codes "/config")
path_of c fetch_yara_rules = agent_path c (codes "/yara")
path_of c (send_inventory b) = codes "/api/edr/inventory"
path_of c (send_events b) = codes "/api/edr/events"
path_of c (send_vulnerabilities b) = codes "/api/edr/vulnerabilities"
path_of c (report_scan b) = codes "/api/edr/scans"
path_of c (send_packages b) = codes "/api/edr/packages"
path_of c (send_metrics b) = codes "/api/edr/metrics"
path_of c (post_raw path b) = path

abbrev pub credentials_of : Client → Option (Bytes × Bytes)
credentials_of c = some (c.agent_id, c.agent_api_key)

-- The request of `do`: JSON both ways.
unfoldable pub json_request : Client → Bool → Bytes → Bool → Option Bytes → Request
json_request c is_post path auth body = record {
  is_post = is_post;
  url = c.base_url ++ path;
  credentials = if auth then credentials_of c else none;
  accept = some (codes "application/json");
  is_json = true;
  is_gzip = false;
  body = body;
}

unfoldable pub request_of : (Bytes → Bytes) → Client → Call → Request
request_of gzip c (enroll b) = json_request c true (path_of c (enroll b)) false (some b)
request_of gzip c fetch_config = json_request c false (path_of c fetch_config) true none
request_of gzip c (heartbeat b) = json_request c true (path_of c (heartbeat b)) true (some b)
request_of gzip c (send_inventory b) =
    json_request c true (path_of c (send_inventory b)) true (some b)
request_of gzip c (send_events b) = json_request c true (path_of c (send_events b)) true (some b)
request_of gzip c (send_vulnerabilities b) =
    json_request c true (path_of c (send_vulnerabilities b)) true (some b)
request_of gzip c (report_scan b) = json_request c true (path_of c (report_scan b)) true (some b)
request_of gzip c (send_metrics b) = json_request c true (path_of c (send_metrics b)) true (some b)
request_of gzip c (send_packages b) =
    record (json_request c true (path_of c (send_packages b)) true (some (gzip b))) {
      is_gzip = true;
    }
request_of gzip c fetch_yara_rules = record {
  is_post = false;
  url = c.base_url ++ path_of c fetch_yara_rules;
  credentials = credentials_of c;
  accept = some (codes "text/plain");
  is_json = false;
  is_gzip = false;
  body = none;
}
request_of gzip c (post_raw path b) = record {
  is_post = true;
  url = c.base_url ++ path;
  credentials = credentials_of c;
  accept = none;
  is_json = true;
  is_gzip = false;
  body = some b;
}

pub record Response : Type 0 where
  pub status : ℕ
  pub body : Bytes

-- The errors of a call: a refusal with its path, its code and a snippet (a `StatusError`; a plain
-- error for `PostRaw` and `FetchYaraRules`), or the outside's.
pub data ClientError : Type 0 where
  status_error : Bytes → ℕ → Bytes → ClientError
  outside : Bytes → ClientError
  bad_response : ClientError

-- `resp.StatusCode < 200 || resp.StatusCode >= 300`
abbrev pub is_refusal : ℕ → Bool
is_refusal status = ltb status 200 || leb 300 status

abbrev pub snippet : Bytes → Bytes
snippet body = trim_space (take 512 body)

-- `send` of a request whose answer is decoded; a call without a result takes every body.
unfoldable pub send :
    {A : Type 0} → (Bytes → Option A) → Bytes → Result Bytes Response → Result ClientError A
send decode path (err e) = err (outside e)
send decode path (ok resp) =
    if is_refusal resp.status
    then err (status_error path resp.status (snippet resp.body))
    else elim (decode resp.body) [ none ↦ err bad_response | some a ↦ ok a ]

-- A call: the server is a function of the request.
unfoldable pub call :
    {A : Type 0}
    → (Bytes → Bytes)
    → (Request → Result Bytes Response)
    → (Bytes → Option A)
    → Client
    → Call
    → Result ClientError A
call gzip http decode c k = send decode (path_of c k) (http (request_of gzip c k))

-- `FindBinary`: `look_path` is `exec.LookPath`, `is_file` is `isRegularFile`, `ext` and `join` are
-- those of package filepath.
module _ (windows : Bool) (is_file : Bytes → Bool) (ext : Bytes → Bytes)
    (join : Bytes → Bytes → Bytes) (look_path : Bytes → Option Bytes) where
  unfoldable pub stat_exec : Bytes → Option Bytes
  stat_exec path =
      if is_file path
      then some path
      else if windows
          && not (equal_fold (ext path) (codes ".exe"))
          && is_file (path ++ codes ".exe")
      then some (path ++ codes ".exe")
      else none

  unfoldable pub in_dirs : List Bytes → Bytes → Option Bytes
  in_dirs [] name = none
  in_dirs (d ∷ ds) name =
      let rest = in_dirs ds name in elim (stat_exec (join d name)) [ none ↦ rest | some p ↦ some p ]

  -- what is tried after the name as a path
  unfoldable pub on_path : List Bytes → Bytes → Option Bytes
  on_path dirs name = elim (look_path name) [ some p ↦ some p | none ↦ in_dirs dirs name ]

  unfoldable pub find_binary : Bytes → List Bytes → Option Bytes
  find_binary name dirs =
      if any (λ c. c == b'/' || c == b'\\') name
      then elim (stat_exec name) [ some p ↦ some p | none ↦ on_path dirs name ]
      else on_path dirs name
