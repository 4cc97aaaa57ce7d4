-- ===== src/Metrics.antt =====
-- clc/metrics/key.go: the keys under which metrics are stored. Dates, their format and their parsing
-- are those of Go's time package: a type and two functions.
pub mod RoundTrip
mod Tests
use hazelcast_commandline_cl.Prelude.{ℕ, Option, some, none, List, [], ◌∷◌, Text, codes, ◌>>=◌}
use hazelcast_commandline_cl.Strings.Split.{split, join}

-- `storageKey`, with the embedded `Key`.
pub record StorageKey (Date : Type 0) : Type 0 where
  pub key_prefix : Text
  pub datetime : Date
  pub cluster_id : Text
  pub viridian_cluster_id : Text
  pub acquisition_source : Text
  pub clc_version : Text
  pub metric_name : Text

-- `KeyFieldSeparator`
abbrev pub key_field_separator : ℕ
key_field_separator = b'^'

-- `newStorageKey`
abbrev pub new_storage_key :
    {Date : Type 0} → Date → Text → Text → Text → Text → Text → StorageKey Date
new_storage_key datetime cluster_id viridian_cluster_id source version metric = record {
  key_prefix = codes "ph";
  datetime = datetime;
  cluster_id = cluster_id;
  viridian_cluster_id = viridian_cluster_id;
  acquisition_source = source;
  clc_version = version;
  metric_name = metric;
}

module _ {Date : Type 0} (format : Date → Text) (parse : Text → Option Date) where
  abbrev pub fields : StorageKey Date → List Text
  fields c =
      c.key_prefix
      ∷ format c.datetime
      ∷ c.cluster_id
      ∷ c.viridian_cluster_id
      ∷ c.acquisition_source
      ∷ c.clc_version
      ∷ c.metric_name
      ∷ []

  unfoldable pub marshal : StorageKey Date → Text
  unfolding join
  marshal c = join key_field_separator (fields c)

  -- `Unmarshal`, once the key is split: seven fields, the second one a date.
  abbrev pub from_fields : List Text → Option (StorageKey Date)
  from_fields (s0 ∷ s1 ∷ s2 ∷ s3 ∷ s4 ∷ s5 ∷ s6 ∷ []) = parse s1 >>= λ date. some (record {
    key_prefix = s0;
    datetime = date;
    cluster_id = s2;
    viridian_cluster_id = s3;
    acquisition_source = s4;
    clc_version = s5;
    metric_name = s6;
  })
  from_fields _ = none

  -- `none` is an error.
  unfoldable pub unmarshal : Text → Option (StorageKey Date)
  unfolding split
  unmarshal b = from_fields (split key_field_separator b)
