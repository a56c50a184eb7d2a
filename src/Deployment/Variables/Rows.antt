-- ===== src/Deployment/Variables/Rows.antt =====
-- deployment/workspace.go and the migrations: the rows of variables, references and buckets.
use cloudrail.Common.{Bool, List, any, false, true, ℕ, ◌&&◌, ◌++◌, ◌==◌}
use cloudrail.Common.Text.{Text, bytes, equals}
use cloudrail.Deployment.Model.{Db}
use cloudrail.Deployment.Outside.{id_text}

pub data VariableKind : Type 0 where
  secret plain reference : VariableKind

pub record Variable : Type 0 where
  pub service_id : ℕ
  pub name : Text
  pub ciphertext : Text
  pub kind : VariableKind

-- service_references
pub record Reference : Type 0 where
  pub source : ℕ
  pub variable_name : Text
  pub target : ℕ
  pub target_variable : Text

-- bucket_bindings
pub record Binding : Type 0 where
  pub bucket_id : ℕ
  pub service_id : ℕ
  pub prefix : Text

pub record Bucket : Type 0 where
  pub id : ℕ
  pub project : ℕ
  pub environment : Text
  pub name : Text
  pub endpoint : Text
  pub region : Text
  pub bucket_name : Text
  pub force_path_style : Bool
  pub credential_version : ℕ
  pub credentials : Text

-- the tables of the operations on variables and on buckets
pub record Workspace : Type 0 where
  pub main : Db
  pub variables : List Variable
  pub references : List Reference
  pub buckets : List Bucket
  pub bindings : List Binding

abbrev pub is_reference : VariableKind → Bool
is_reference reference = true
is_reference _ = false

-- two primary keys of a service and a name
abbrev pub same_key : ℕ → Text → ℕ → Text → Bool
same_key service name id other = service == id && equals name other

abbrev pub variable_at : ℕ → Text → Variable → Bool
variable_at id name v = same_key v.service_id v.name id name

abbrev pub reference_at : ℕ → Text → Reference → Bool
reference_at id name r = same_key r.source r.variable_name id name

abbrev pub reference_to : ℕ → Text → Reference → Bool
reference_to id name r = same_key r.target r.target_variable id name

-- "variable:"+id+":"+name
unfoldable pub variable_scope : ℕ → Text → Text
variable_scope id name = bytes "variable:" ++ id_text id ++ bytes ":" ++ name

abbrev pub Key : Type 0
Key = ℕ × Text

abbrev pub visited : ℕ → Text → List Key → Bool
visited id name visiting = any (λ k. same_key (k.0) (k.1) id name) visiting
