-- ===== src/Deployment/Templates.antt =====
-- deployment/templates.go: the catalogue of data services.
use text.Mathlib.Text.{◌==◌ as str_eq}
use cloudrail.Common.{ℕ, String, Bool, ◌&&◌, ◌||◌, List, [], ◌∷◌}
use cloudrail.Common.Text.{Text, bytes}
use cloudrail.Common.Table.{find}
use cloudrail.Result.{Result, or_else, unknown_template}
use cloudrail.Deployment.Model.{Kind, postgres, redis, mysql, mongo}

pub record Template : Type 0 where
  pub key : String
  pub version : String
  pub port : ℕ
  pub mount_path : Text
  pub memory_mb : ℕ
  pub image : Text
  pub kind : Kind
  pub start_command : Text

unfoldable pub catalog : List Template
catalog =
    record {
      key = "postgres";
      version = "17.6";
      port = 5432;
      mount_path = bytes "/var/lib/postgresql/data";
      memory_mb = 256;
      image =
          bytes "postgres@sha256:ef257d85f76e48da1c64832459b59fcaba1a4dac97bf5d7450c77753542eee94";
      kind = postgres;
      start_command = [];
    }
    ∷ record {
      key = "redis";
      version = "8.2.2";
      port = 6379;
      mount_path = bytes "/data";
      memory_mb = 128;
      image = bytes "redis@sha256:59b6e694653476de2c992937ebe1c64182af4728e54bb49e9b7a6c26614d8933";
      kind = redis;
      start_command = bytes "exec redis-server --appendonly yes --requirepass \"$REDIS_PASSWORD\"";
    }
    ∷ record {
      key = "mysql";
      version = "8.4.7";
      port = 3306;
      mount_path = bytes "/var/lib/mysql";
      memory_mb = 512;
      image = bytes "mysql@sha256:0426ec38c7a10aa45ba383887df7878f74ee70e2fd589c7b69207f3577901903";
      kind = mysql;
      start_command = [];
    }
    ∷ record {
      key = "mongo";
      version = "8.0.29";
      port = 27017;
      mount_path = bytes "/data/db";
      memory_mb = 512;
      image = bytes "mongo@sha256:02a0cc7939f5ed38f30f9bc714ef5f682d49baf9350c54acf302ce833087fe8a";
      kind = mongo;
      start_command = [];
    }
    ∷ []

abbrev pub fits : String → String → Template → Bool
fits key version t = str_eq t.key key && (str_eq version "" || str_eq t.version version)

-- dataTemplate
unfoldable pub data_template : String → String → Result Template
unfolding catalog find
data_template key version = or_else (find (fits key version) catalog) unknown_template
