-- ===== src/Admin/Api.antt =====
-- web/admin/src/api: the requests of the site. The client puts its base before a path; the browser adds
-- no key of the API. A name that a request's path contains stands there as it is, since the site does
-- not encode it: what the browser and net/http make of such a path is a parameter.
pub mod Plain
use dmqtt.Base.{
  ℕ, ◌≡◌, Bytes, [], ◌∷◌, ◌++◌, codes, Bool, true, false, not, ◌&&◌, ◌||◌, if◌then◌else◌, leb,
  nat_beq,
}
use dmqtt.Base.Map.{Map}
use dmqtt.Broker.Dedup.{decimal}
use dmqtt.Http.{Method, get, post, Request}

-- Letters, digits, `-`, `_`, `~` and `.`: the bytes that URLs never encode.
unfoldable pub is_unreserved : ℕ → Bool
is_unreserved c =
    (leb b'a' c && leb c b'z')
    || (leb b'A' c && leb c b'Z')
    || (leb b'0' c && leb c b'9')
    || nat_beq c b'-'
    || nat_beq c b'_'
    || nat_beq c b'~'
    || nat_beq c b'.'

-- The rest of a path, behind a slash or not: unreserved bytes and slashes, where no part between
-- slashes is empty or starts with a dot.
unfoldable pub plain_rest : Bool → Bytes → Bool
plain_rest behind_slash [] = true
plain_rest behind_slash (c ∷ s) =
    (if nat_beq c b'/'
      then not behind_slash
      else (is_unreserved c && not (behind_slash && nat_beq c b'.')))
    && plain_rest (nat_beq c b'/') s

unfoldable pub is_plain : Bytes → Bool
is_plain [] = false
is_plain (c ∷ s) = nat_beq c b'/' && plain_rest true s

-- `url_path` is `r.URL.Path` on the server for the path that axios is given, by the URL parsers of the
-- browser and of Go. They cut at `?` and `#`, decode `%xx`, encode other bytes and drop `.` and `..`;
-- a path without any of these they keep.
pub record UrlParsing : Type 0 where
  pub url_path : Bytes → Bytes
  pub keeps_plain : (path : Bytes) → is_plain path ≡ true → url_path path ≡ path

abbrev pub base_url : Bytes
base_url = codes "/api/v1"

module _ (url : UrlParsing) where
  unfoldable pub client_request : Method → Bytes → Map Bytes Bytes → Request
  client_request method path params = record {
    method = method;
    path = url.url_path (base_url ++ path);
    query = params;
    headers = [];
  }

  unfoldable pub fetch_devices : ℕ → ℕ → Request
  fetch_devices page per_page =
      client_request get (codes "/devices")
        ((codes "page", decimal page page) ∷ (codes "per_page", decimal per_page per_page) ∷ [])

  unfoldable pub fetch_cluster_devices : Request
  fetch_cluster_devices = client_request get (codes "/cluster/devices") []

  unfoldable pub fetch_device : Bytes → Request
  fetch_device id = client_request get (codes "/devices/" ++ id) []

  unfoldable pub disconnect_device : Bytes → Request
  disconnect_device id = client_request post (codes "/devices/" ++ (id ++ codes "/disconnect")) []

  unfoldable pub fetch_migrations : Request
  fetch_migrations = client_request get (codes "/cluster/migrations") []

  unfoldable pub cancel_migration : Bytes → Request
  cancel_migration id =
      client_request post (codes "/cluster/migrations/" ++ (id ++ codes "/cancel")) []

  unfoldable pub fetch_nodes : Request
  fetch_nodes = client_request get (codes "/nodes") []

  unfoldable pub fetch_stats : Request
  fetch_stats = client_request get (codes "/stats") []

  unfoldable pub fetch_cluster_stats : Request
  fetch_cluster_stats = client_request get (codes "/cluster/stats") []
