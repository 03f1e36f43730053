-- ===== src/Transport/Credentials.antt =====
-- Who gets the agent's key.
use siembox_endpoint.Prelude.{Bool, true, false, none, Bytes, ◌++◌, if◌then◌else◌, ◌≡◌, refl}
use siembox_endpoint.Transport.{
  Client, Call, path_of, json_request, request_of, credentials_of, enroll, send_inventory,
  send_events, send_vulnerabilities, report_scan, send_packages, send_metrics, heartbeat,
  fetch_config, fetch_yara_rules, post_raw,
}

-- whether the call is the enrolment
abbrev pub is_enroll : Call → Bool
is_enroll (enroll b) = true
is_enroll _ = false

-- Every request goes to the server's address, and carries the agent's id and key, but the
-- enrolment, which carries neither.
request_of_lem :
    (gzip : Bytes → Bytes) (c : Client) (k : Call)
    → ((request_of gzip c k).url ≡ c.base_url ++ path_of c k)
      × ((request_of gzip c k).credentials ≡ (if is_enroll k then none else credentials_of c))
unfolding request_of json_request path_of
request_of_lem gzip c (enroll b) = (refl, refl)
request_of_lem gzip c (send_inventory b) = (refl, refl)
request_of_lem gzip c (send_events b) = (refl, refl)
request_of_lem gzip c (send_vulnerabilities b) = (refl, refl)
request_of_lem gzip c (report_scan b) = (refl, refl)
request_of_lem gzip c (send_packages b) = (refl, refl)
request_of_lem gzip c (send_metrics b) = (refl, refl)
request_of_lem gzip c (heartbeat b) = (refl, refl)
request_of_lem gzip c fetch_config = (refl, refl)
request_of_lem gzip c fetch_yara_rules = (refl, refl)
request_of_lem gzip c (post_raw path b) = (refl, refl)
