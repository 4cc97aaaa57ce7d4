-- ===== src/Metrics/RoundTrip.antt =====
-- A stored key is read back, and a key that is read is stored under the same bytes.
use mathlib.Core.Option.{some-injective}
use hazelcast_commandline_cl.Prelude.{
  ◌≡◌, refl, ap, sym, ◌∙◌, false, Option, some, none, List, [], ◌∷◌, Text, All, ◌>>=◌,
}
use hazelcast_commandline_cl.Strings.Split.{split, join, contains, split-join, join-split}
use hazelcast_commandline_cl.Metrics.{
  StorageKey, key_field_separator, fields, marshal, from_fields, unmarshal,
}

module _ {Date : Type 0} (format : Date → Text) (parse : Text → Option Date) where
  -- If no field of a key holds the separator, and its date is read back from its format, then
  -- Unmarshal reads the key back from what Marshal writes.
  pub unmarshal-marshal :
      (c : StorageKey Date)
      → parse (format c.datetime) ≡ some c.datetime
      → All (λ s. contains s key_field_separator ≡ false) (fields format parse c)
      → unmarshal format parse (marshal format parse c) ≡ some c
  unfolding marshal unmarshal
  unmarshal-marshal c date plain =
      ap (from_fields format parse) (
        split-join key_field_separator c.key_prefix
          (format c.datetime
            ∷ c.cluster_id
            ∷ c.viridian_cluster_id
            ∷ c.acquisition_source
            ∷ c.clc_version
            ∷ c.metric_name
            ∷ [])
          plain)
      ∙ rw date

  from_fields-fields :
      (ts : List Text) (c : StorageKey Date)
      → ((s : Text) (d : Date) → parse s ≡ some d → format d ≡ s)
      → from_fields format parse ts ≡ some c
      → fields format parse c ≡ ts
  from_fields-fields ([]) c exact h = cc
  from_fields-fields (s0 ∷ []) c exact h = cc
  from_fields-fields (s0 ∷ s1 ∷ []) c exact h = cc
  from_fields-fields (s0 ∷ s1 ∷ s2 ∷ []) c exact h = cc
  from_fields-fields (s0 ∷ s1 ∷ s2 ∷ s3 ∷ []) c exact h = cc
  from_fields-fields (s0 ∷ s1 ∷ s2 ∷ s3 ∷ s4 ∷ []) c exact h = cc
  from_fields-fields (s0 ∷ s1 ∷ s2 ∷ s3 ∷ s4 ∷ s5 ∷ []) c exact h = cc
  from_fields-fields (s0 ∷ s1 ∷ s2 ∷ s3 ∷ s4 ∷ s5 ∷ s6 ∷ []) c exact h = dated (parse s1) refl h
    where
      dated :
          (o : Option Date)
          → parse s1 ≡ o
          → (o >>= λ date. some (record {
            key_prefix = s0;
            datetime = date;
            cluster_id = s2;
            viridian_cluster_id = s3;
            acquisition_source = s4;
            clc_version = s5;
            metric_name = s6;
          }))
            ≡ some c
          → fields format parse c ≡ s0 ∷ s1 ∷ s2 ∷ s3 ∷ s4 ∷ s5 ∷ s6 ∷ []
      dated none e k = cc
      dated (some d) e k =
          sym (ap (fields format parse) (some-injective _ _ k))
          ∙ ap (λ t. s0 ∷ t ∷ s2 ∷ s3 ∷ s4 ∷ s5 ∷ s6 ∷ []) (exact s1 d e)
  from_fields-fields (s0 ∷ s1 ∷ s2 ∷ s3 ∷ s4 ∷ s5 ∷ s6 ∷ s7 ∷ ts) c exact h = cc

  -- If a text that is parsed is the format of its date, then a text that Unmarshal reads as a key is
  -- what Marshal writes for this key.
  pub marshal-unmarshal :
      (b : Text) (c : StorageKey Date)
      → ((s : Text) (d : Date) → parse s ≡ some d → format d ≡ s)
      → unmarshal format parse b ≡ some c
      → marshal format parse c ≡ b
  unfolding marshal unmarshal
  marshal-unmarshal b c exact h =
      ap (join key_field_separator) (from_fields-fields (split key_field_separator b) c exact h)
      ∙ join-split key_field_separator b
