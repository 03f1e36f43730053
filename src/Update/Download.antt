-- ===== src/Update/Download.antt =====
-- internal/update/download.go: the download of a release file and its verification. The HTTP
-- client, `url.Parse`, `url.PathEscape`, `filepath.Join` and the digest are parameters of the model,
-- and so is what the file system answers.
pub mod Safe
use siembox_endpoint.Prelude.{
  ℕ, ◌+◌, ◌*◌, Bool, true, false, not, ◌&&◌, ◌||◌, Option, none, some, List, [], ◌∷◌, ◌++◌, Bytes,
  ltb, ◌==◌, if◌then◌else◌, is_empty, length, take, str_eq, equal_fold, trim_right, contains, codes,
  Result, ok, err, ◌>>=◌,
}
use siembox_endpoint.Update.Version.{valid_version}
use siembox_endpoint.Update.Sums.{Sums, SumsError, asset_name_re, parse_sums}
use siembox_endpoint.Update.Disk.{Disk, put, remove, move}

abbrev pub default_base_url : Bytes
default_base_url = codes "https://github.com/cladkins/siembox-endpoint/releases/download"

-- `300 << 20` and `1 << 20`
abbrev pub max_download_bytes : ℕ
max_download_bytes = 314_572_800

abbrev pub max_sums_bytes : ℕ
max_sums_bytes = 1_048_576

abbrev pub sums_asset : Bytes
sums_asset = codes "SHA256SUMS"

-- The errors of this file; the texts are those of the outside.
pub data DownloadError : Type 0 where
  invalid_version not_https no_sums sums_too_large : DownloadError
  invalid_name not_found over_limit mismatch : Bytes → DownloadError
  outside : Bytes → DownloadError
  http_status : ℕ → DownloadError
  bad_sums : SumsError → DownloadError

-- A body: what can be read, and the error that ends it if it is not its end.
pub record Body : Type 0 where
  pub content : Bytes
  pub broken : Option Bytes

-- `content_length` is `none` for -1; `final_scheme` is the scheme of `resp.Request`, if it is set.
pub record Response : Type 0 where
  pub final_scheme : Option Bytes
  pub status : ℕ
  pub content_length : Option ℕ
  pub body : Body

-- A downloader with what it calls: `url.PathEscape`, the scheme that `url.Parse` finds, the making
-- of the request and `Do`, and the hexadecimal SHA-256.
pub record Downloader : Type 0 where
  pub base_url : Bytes
  pub max_size : ℕ
  pub path_escape : Bytes → Bytes
  pub scheme : Bytes → Option Bytes
  pub new_request : Bytes → Option Bytes
  pub do_request : Bytes → Result Bytes Response
  pub digest : Bytes → Bytes

unfoldable pub base : Downloader → Bytes
base d = if is_empty d.base_url then default_base_url else trim_right (λ c. c == b'/') d.base_url

unfoldable pub limit_of : Downloader → ℕ
limit_of d = if ltb 0 d.max_size then d.max_size else max_download_bytes

abbrev pub is_https : Option Bytes → Bool
is_https none = false
is_https (some s) = str_eq s (codes "https")

unfoldable pub release_url : Downloader → Bytes → Bytes → Result DownloadError Bytes
release_url d version name =
    let url = base d ++ (codes "/v" ++ (version ++ (codes "/" ++ d.path_escape name))) in
    if not (valid_version version)
    then err invalid_version
    else if not (str_eq name sums_asset) && not (asset_name_re name)
    then err (invalid_name name)
    else if is_https (d.scheme url)
    then ok url
    else err not_https

-- `resp.Request != nil && resp.Request.URL.Scheme != "https"`
abbrev pub left_https : Option Bytes → Bool
left_https none = false
left_https (some s) = not (str_eq s (codes "https"))

abbrev pub announces_over : ℕ → Option ℕ → Bool
announces_over limit none = false
announces_over limit (some n) = ltb limit n

-- The tests on the answer.
unfoldable pub accept : Bytes → ℕ → Response → Result DownloadError Body
accept name limit resp =
    if left_https resp.final_scheme
    then err not_https
    else if not (resp.status == 200)
    then if resp.status == 404 then err (not_found name) else err (http_status resp.status)
    else if announces_over limit resp.content_length
    then err (over_limit name)
    else ok resp.body

abbrev pub from_outside : {A : Type 0} → Result Bytes A → Result DownloadError A
from_outside (ok a) = ok a
from_outside (err e) = err (outside e)

abbrev pub created : Option Bytes → Bytes → Result DownloadError Bytes
created none url = ok url
created (some e) url = err (outside e)

unfoldable pub open_body : Downloader → Bytes → Bytes → ℕ → Result DownloadError Body
open_body d version name limit = do
  url ← release_url d version name
  asked ← created (d.new_request url) url
  resp ← from_outside (d.do_request asked)
  accept name limit resp

-- `strings.Contains(err.Error(), "HTTP 404")`
unfoldable pub mentions_404 : DownloadError → Bool
mentions_404 (not_found name) = true
mentions_404 (outside e) = contains (codes "HTTP 404") e
mentions_404 e = false

-- The error of a reader that gives at most `limit` + 1 bytes: the limit hides what comes after.
abbrev pub limited_error : ℕ → Body → Option Bytes
limited_error limit body = if ltb limit (length body.content) then none else body.broken

unfoldable pub read_sums : Body → Result DownloadError Sums
read_sums body =
    let raw = take (max_sums_bytes + 1) body.content in
    elim (limited_error max_sums_bytes body) [
      | some e ↦ err (outside e)
      | none ↦
          if ltb max_sums_bytes (length raw)
          then err sums_too_large
          else elim (parse_sums raw) [ ok sums ↦ ok sums | err e ↦ err (bad_sums e) ]
    ]

unfoldable pub fetch_sums : Downloader → Bytes → Result DownloadError Sums
fetch_sums d version = elim (open_body d version sums_asset max_sums_bytes) [
  | err e ↦ if mentions_404 e then err no_sums else err e
  | ok body ↦ read_sums body
]

-- What the file system answers to `FetchAsset`, in order. A write that fails leaves some content
-- behind; `removes` says whether `os.Remove` works.
pub record Fs : Type 0 where
  pub mkdir : Option Bytes
  pub create : Option Bytes
  pub write : Option (Bytes × Bytes)
  pub close : Option Bytes
  pub rename : Option Bytes
  pub removes : Bool

-- `io.Copy` from the limited body: the content of the partial file, and the error.
unfoldable pub copied : Fs → ℕ → Body → Bytes × Option Bytes
copied fs limit body = elim fs.write [
  | some failed ↦ (failed.0, some failed.1)
  | none ↦ (take (limit + 1) body.content, limited_error limit body)
]

abbrev pub part_of : Bytes → Bytes
part_of final = final ++ codes ".part"

-- The body after the partial file is open.
unfoldable pub store :
    Downloader → Fs → ℕ → Bytes → Bytes → Bytes → Body → Disk → Disk × Result DownloadError Bytes
store d fs limit name want final body disk =
    let got = (copied fs limit body).0 in
    let part = part_of final in
    let written = put part got disk in
    let cleaned = remove fs.removes part written in
    elim (copied fs limit body).1 [
      | some e ↦ (cleaned, err (outside e))
      | none ↦
          if ltb limit (length got)
          then (cleaned, err (over_limit name))
          else if not (equal_fold (d.digest got) want)
          then (cleaned, err (mismatch name))
          else elim fs.close [
            | some e ↦ (cleaned, err (outside e))
            | none ↦ elim fs.rename [
              | some e ↦ (cleaned, err (outside e))
              | none ↦ (move got part final written, ok final)
            ]
          ]
    ]

-- `join` is `filepath.Join`.
unfoldable pub fetch_asset :
    Downloader
    → (Bytes → Bytes → Bytes)
    → Fs
    → Bytes
    → Bytes
    → Bytes
    → Bytes
    → Disk
    → Disk × Result DownloadError Bytes
fetch_asset d join fs version name want dir disk = elim (open_body d version name (limit_of d)) [
  | err e ↦ (disk, err e)
  | ok body ↦ elim fs.mkdir [
    | some e ↦ (disk, err (outside e))
    | none ↦ elim fs.create [
      | some e ↦ (disk, err (outside e))
      | none ↦ store d fs (limit_of d) name want (join dir name) body disk
    ]
  ]
]
