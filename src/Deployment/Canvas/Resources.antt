-- ===== src/Deployment/Canvas/Resources.antt =====
-- deployment/canvas.go: the resources of an environment, their states and places, and their links.
use text.Mathlib.Text.{◌==◌ as str_eq}
use cloudrail.Common.{
  Bool, List, Option, String, [], false, if◌then◌else◌, is_some, ltb, map, none, not, some, suc, ℕ,
  ◌%◌, ◌&&◌, ◌*◌, ◌++◌, ◌+◌, ◌/◌, ◌==◌, ◌||◌, ◌∷◌,
}
use cloudrail.Common.Int.{ℤ, pos}
use cloudrail.Common.Table.{exists, find, first_by, select}
use cloudrail.Common.Text.{Text, bytes, equals}
use cloudrail.Deployment.Model.{
  Attachment, Db, Deployment, DesiredState, ResourceKind, Service, Status, Volume, active, terminal,
}
use cloudrail.Deployment.Variables.{Binding, Bucket, Reference, Workspace}
use cloudrail.Deployment.Volumes.{of_volume}

-- "service:"+id, "volume:"+id, "bucket:"+id, and the texts that are none of these
pub data ResourceKey : Type 0 where
  of_service : ℕ → ResourceKey
  of_volume_id : ℕ → ResourceKey
  of_bucket : ℕ → ResourceKey
  unknown : Text → ResourceKey

unfoldable pub same_resource : ResourceKey → ResourceKey → Bool
unfolding equals
same_resource (of_service a) (of_service b) = a == b
same_resource (of_volume_id a) (of_volume_id b) = a == b
same_resource (of_bucket a) (of_bucket b) = a == b
same_resource (unknown s) (unknown t) = equals s t
same_resource _ _ = false

pub data CanvasKind : Type 0 where
  service database volume bucket : CanvasKind

pub data CanvasStatus : Type 0 where
  deployed : Status → CanvasStatus
  stopped empty available attached connected : CanvasStatus

pub record Position : Type 0 where
  pub x : ℤ
  pub y : ℤ

-- a resource before its place is known
pub record Item : Type 0 where
  pub key : ResourceKey
  pub kind : CanvasKind
  pub name : Text
  pub status : CanvasStatus

pub record Resource : Type 0 where
  pub item : Item
  pub position : Position

pub data LinkKind : Type 0 where
  volume_attachment bucket_binding variable_reference : LinkKind

pub record Link : Type 0 where
  pub from : ResourceKey
  pub to : ResourceKey
  pub kind : LinkKind
  pub label : Text

-- canvas_layouts
pub record Layout : Type 0 where
  pub project : ℕ
  pub environment : String
  pub key : ResourceKey
  pub position : Position

pub record CanvasDb : Type 0 where
  pub workspace : Workspace
  pub environments : List (ℕ × String)
  pub layouts : List Layout

-- the state of the last deployment, where it is given
abbrev latest_or_empty : Option Status → CanvasStatus
latest_or_empty none = empty
latest_or_empty (some s) = deployed s

abbrev is_pending : Option Status → Bool
is_pending none = false
is_pending (some s) = not (terminal s)

abbrev serving : DesiredState → CanvasStatus
serving DesiredState.stopped = stopped
serving DesiredState.running = deployed active

-- deploymentStatus
unfoldable pub deployment_status : Option Status → Option ℕ → DesiredState → CanvasStatus
deployment_status latest current desired =
    if is_pending latest
    then latest_or_empty latest
    else if is_some current
    then serving desired
    else latest_or_empty latest

abbrev pub row_offset : CanvasKind → ℕ
row_offset database = 190
row_offset _ = 0

-- defaultCanvasPosition
unfoldable pub default_position : ℕ → CanvasKind → Position
default_position index kind = record {
  x = pos (90 + index % 3 * 310);
  y = pos (100 + index / 3 * 190 + row_offset kind);
}

abbrev pub layout_at : ℕ → String → ResourceKey → Layout → Bool
layout_at project environment key l =
    l.project == project && str_eq l.environment environment && same_resource l.key key

abbrev pub saved_position : ℕ → String → ResourceKey → List Layout → Option Position
saved_position project environment key ls = elim (find (layout_at project environment key) ls) [
  | none ↦ none
  | some l ↦ some l.position
]

abbrev or_default : Option Position → Position → Position
or_default none p = p
or_default (some q) p = q

-- the place of each resource, from the number of those before it
unfoldable pub place : ℕ → String → List Layout → ℕ → List Item → List Resource
unfolding default_position
place project environment ls index [] = []
place project environment ls index (i ∷ is) =
    record {
      item = i;
      position =
          or_default (saved_position project environment i.key ls) (default_position index i.kind);
    }
    ∷ place project environment ls (suc index) is

-- ORDER BY created_at DESC,id DESC
abbrev newer : Deployment → Deployment → Bool
newer d e = ltb e.created_at d.created_at || (d.created_at == e.created_at && ltb e.id d.id)

abbrev deployment_of : ℕ → Deployment → Bool
deployment_of id d = d.service_id == id

abbrev status_of : Option Deployment → Option Status
status_of none = none
status_of (some d) = some d.status

abbrev kind_of : ResourceKind → CanvasKind
kind_of ResourceKind.service = service
kind_of ResourceKind.database = database

unfoldable service_item : Db → Service → Item
unfolding deployment_status
service_item db s = record {
  key = of_service s.id;
  kind = kind_of s.resource_kind;
  name = s.name;
  status =
      deployment_status (status_of (first_by newer (deployment_of s.id) db.deployments)) s.active_id
        s.desired_state;
}

unfoldable volume_item : Db → Volume → Item
volume_item db v = record {
  key = of_volume_id v.id;
  kind = volume;
  name = v.name;
  status = if exists (of_volume v.id) db.attachments then attached else available;
}

unfoldable bucket_item : Workspace → Bucket → Item
bucket_item w b = record {
  key = of_bucket b.id;
  kind = bucket;
  name = b.name;
  status = if exists (λ x. x.bucket_id == b.id) w.bindings then connected else available;
}

abbrev service_in : ℕ → String → Service → Bool
service_in project environment s = s.project == project && str_eq s.environment environment

abbrev volume_in : ℕ → String → Volume → Bool
volume_in project environment v = v.project == project && str_eq v.environment environment

abbrev bucket_in : ℕ → String → Bucket → Bool
bucket_in project environment b = b.project == project && equals b.environment (bytes environment)

unfoldable pub items : ℕ → String → Workspace → List Item
unfolding service_item volume_item bucket_item
items project environment w =
    map (service_item w.main) (select (service_in project environment) w.main.services)
    ++ map (volume_item w.main) (select (volume_in project environment) w.main.volumes)
    ++ map (bucket_item w) (select (bucket_in project environment) w.buckets)

unfoldable attachment_link : Attachment → Link
attachment_link a = record {
  from = of_volume_id a.volume_id;
  to = of_service a.service_id;
  kind = volume_attachment;
  label = a.mount_path;
}

unfoldable binding_link : Binding → Link
binding_link b = record {
  from = of_service b.service_id;
  to = of_bucket b.bucket_id;
  kind = bucket_binding;
  label = b.prefix ++ bytes "_*";
}

-- the label has an arrow, three bytes of UTF-8, between the names
unfoldable reference_link : Reference → Link
reference_link r = record {
  from = of_service r.source;
  to = of_service r.target;
  kind = variable_reference;
  label = r.variable_name ++ (32 ∷ 226 ∷ 134 ∷ 146 ∷ 32 ∷ []) ++ r.target_variable;
}

abbrev here : ℕ → String → ℕ → Db → Bool
here project environment id db =
    exists (λ s. s.id == id && service_in project environment s) db.services

-- the rows whose two ends lie in the environment; those of a volume by the order of the volumes
unfoldable pub links_of : ℕ → String → Workspace → List Link
unfolding attachment_link binding_link reference_link
links_of project environment w =
    map attachment_link (attachments_in (select (volume_in project environment) w.main.volumes))
    ++ map binding_link (
        select
          (λ b.
            exists (λ k. k.id == b.bucket_id && bucket_in project environment k) w.buckets
            && here project environment b.service_id w.main)
          w.bindings)
    ++ map reference_link (
        select
          (λ r.
            here project environment r.source w.main && here project environment r.target w.main)
          w.references)
  where
    attachments_in : List Volume → List Attachment
    attachments_in [] = []
    attachments_in (v ∷ vs) =
        let rest = attachments_in vs in
        elim (find (of_volume v.id) w.main.attachments) [ none ↦ rest | some a ↦ a ∷ rest ]
