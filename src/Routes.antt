-- ===== src/Routes.antt =====
-- proxy/routes.go: the file by which the proxy is told where a service's requests go. The encoder is
-- a parameter, and so is which of the calls on the file system fail.
pub mod Laws
pub mod Tests
use cloudrail.Common.{
  Bool, List, Option, [], false, if◌then◌else◌, none, not, some, true, ℕ, ◌&&◌, ◌++◌, ◌==◌, ◌||◌,
  ◌∷◌,
}
use cloudrail.Common.Int.{ℤ}
use cloudrail.Common.Table.{delete, exists, find}
use cloudrail.Common.Table.Writes.{upsert}
use cloudrail.Common.Text.{Text, bytes, equals}
use cloudrail.Deployment.Model.{Deployment, Service}
use cloudrail.Deployment.Outside.{id_text}
use cloudrail.Deployment.Settings.{public_http}
use cloudrail.Deployment.Workspaces.{remove, rename}
use cloudrail.Result.{Error, disk_failed}

pub record Router : Type 0 where
  pub name : Text
  pub rule : Text
  pub entry_point : Text
  pub service : Text
  pub middleware : Text
  pub cert_resolver : Option Text

-- the body of the file: its routers, one backend, and the header that names the deployment
pub record RouteFile : Type 0 where
  pub routers : List Router
  pub backend : Text
  pub container : Text
  pub port : ℤ
  pub deployment : ℕ

-- the directory: a service's file, and the temporary files
pub record Directory : Type 0 where
  pub routes : List (ℕ × Text)
  pub temporary : List Text

-- the calls on the file system that fail
pub record Faults : Type 0 where
  pub mkdir : Bool
  pub remove : Bool
  pub read : Bool
  pub create_temp : Bool
  -- the bytes that a write which fails has written
  pub write : Option Text
  pub sync : Bool
  pub close : Bool
  pub rename : Bool
  pub open_dir : Bool
  pub sync_dir : Bool

unfoldable pub route_key : ℕ → Text
route_key id = bytes "svc-" ++ id_text id

abbrev host_rule : Text → Text
host_rule host = bytes "Host(`" ++ host ++ bytes "`)"

unfoldable pub router : Text → Text → Text → Option Text → Text → Router
router name entry key resolver host = record {
  name = name;
  rule = host_rule host;
  entry_point = entry;
  service = key;
  middleware = key;
  cert_resolver = resolver;
}

-- the routers, with the probe's where the proxy speaks HTTPS
unfoldable pub routers_of : Bool → Text → Text → List Router
unfolding router
routers_of false key host = router key (bytes "web") key none host ∷ []
routers_of true key host =
    router key (bytes "websecure") key (some (bytes "letsencrypt")) host
    ∷ router (key ++ bytes "-probe") (bytes "probe") key none host
    ∷ []

-- Container
unfoldable pub container_name : ℕ → Text
container_name id = bytes "cloudrail-app-" ++ id_text id

unfoldable pub route_file : Bool → Text → Service → Deployment → RouteFile
unfolding routers_of route_key container_name
route_file https host s d = record {
  routers = routers_of https (route_key s.id) host;
  backend = route_key s.id;
  container = container_name d.id;
  port = d.port;
  deployment = d.id;
}

abbrev pub file_of : ℕ → ℕ × Text → Bool
file_of id f = f.0 == id

abbrev pub with_content : Text → ℕ × Text → ℕ × Text
with_content body f = (f.0, body)

abbrev pub content : Option (ℕ × Text) → Option Text
content none = none
content (some f) = some (f.1)

-- what the proxy reads of a service
unfoldable pub route_of : ℕ → Directory → Option Text
route_of id dir = content (find (file_of id) dir.routes)

abbrev failed_if : Bool → Option Error
failed_if true = some disk_failed
failed_if false = none

-- os.Remove, of a file that may not exist
unfoldable pub remove_route : Faults → ℕ → Directory → Option Error × Directory
remove_route x id dir =
    if not (exists (file_of id) dir.routes)
    then (none, dir)
    else if x.remove
    then (some disk_failed, dir)
    else (none, record dir { routes = delete (file_of id) dir.routes })

-- the temporary file, which the deferred os.Remove takes away, unless that fails
unfoldable pub clear_temp : Faults → Text → Directory → Directory
clear_temp x left dir = if x.remove then record dir { temporary = left ∷ dir.temporary } else dir

-- os.Rename puts the whole file in the place of the old one
unfoldable pub rename_route : ℕ → Text → Directory → Directory
rename_route id body dir = record dir {
  routes = upsert (file_of id) (with_content body) (id, body) dir.routes;
}

-- from CreateTemp on
unfoldable pub write_route : Faults → ℕ → Text → Directory → Option Error × Directory
unfolding clear_temp rename_route
write_route x id body dir = if x.create_temp then (some disk_failed, dir) else elim x.write [
  | some part ↦ (some disk_failed, clear_temp x part dir)
  | none ↦
      if x.sync || x.close || x.rename
      then (some disk_failed, clear_temp x body dir)
      else (failed_if (x.open_dir || x.sync_dir), rename_route id body dir)
]

-- bytes.Equal of a file that was read
abbrev is_same : Bool → Text → Option Text → Bool
is_same unread body none = false
is_same unread body (some old) = not unread && equals old body

-- Routes.Set after the encoding
unfoldable pub put_route : Faults → ℕ → Text → Directory → Option Error × Directory
unfolding write_route route_of
put_route x id body dir =
    if is_same x.read body (route_of id dir) then (none, dir) else write_route x id body dir

-- Routes.Set; `host` is the host name of the service
unfoldable pub set_service :
    (RouteFile → Text)
    → Faults
    → Bool
    → Text
    → Service
    → Option Deployment
    → Directory
    → Option Error × Directory
unfolding remove_route put_route route_file
set_service encode x https host s none dir =
    if x.mkdir then (some disk_failed, dir) else remove_route x s.id dir
set_service encode x https host s (some d) dir =
    if x.mkdir
    then (some disk_failed, dir)
    else if public_http s
    then put_route x s.id (encode (route_file https host s d)) dir
    else remove_route x s.id dir

-- the file that Routes.Set is to leave
unfoldable pub wanted : (RouteFile → Text) → Bool → Text → Service → Option Deployment → Option Text
unfolding route_file
wanted encode https host s none = none
wanted encode https host s (some d) =
    if public_http s then some (encode (route_file https host s d)) else none
