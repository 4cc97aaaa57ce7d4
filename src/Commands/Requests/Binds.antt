-- ===== src/Commands/Requests/Binds.antt =====
-- What follows a helper may use what the helper returned.
use hazelcast_commandline_cl.Prelude.{ℕ, List, [], ◌∷◌, Text}
use hazelcast_commandline_cl.Wire.Bytes.{Bytes}
use hazelcast_commandline_cl.Wire.Protocol.{Protocol}
use hazelcast_commandline_cl.Commands.Context.{Client}
use hazelcast_commandline_cl.Commands.Action.{Action, Event, ◌>>=◌}
use hazelcast_commandline_cl.Commands.Common.{
  make_value_from_string, make_key_data, make_value_data, make_key_value_data,
  string_to_partition_id,
}
use hazelcast_commandline_cl.Commands.Maps.Puts.{keys_of}
use hazelcast_commandline_cl.Commands.Sends.{Sends, Sends-bind, Sends-pure}
use hazelcast_commandline_cl.Commands.Arguments.{
  IsRead, IsKey, IsValue, AreKeys, IsPartition, make_value_from_string-Returns, Returns,
  Returns-pure, Returns-bind, Sends-bind-Returns, make_key_data-Returns, make_value_data-Returns,
  make_key_value_data-Returns, string_to_partition_id-Returns,
}
use hazelcast_commandline_cl.Commands.Requests.Quiet.{
  Sends-make_value_from_string, Sends-make_key_data, Sends-make_value_data,
  Sends-make_key_value_data, Sends-string_to_partition_id,
}

module _ {p : Protocol} {c : Client p} {P : Event p.Message c.Value → Type 0} {B : Type 0} where
  pub Sends-bind-make_value_from_string :
      (flag text : Text) (f : c.Value → Action c B)
      → ((value : c.Value) → IsRead c flag text value → Sends P (f value))
      → Sends P (make_value_from_string c text (c.string_prop flag) >>= f)
  Sends-bind-make_value_from_string flag text f =
      Sends-bind-Returns c (IsRead c flag text) _ f (make_value_from_string-Returns c flag text)
        (Sends-make_value_from_string text _)

  pub Sends-bind-make_key_data :
      (text : Text) (f : Bytes → Action c B)
      → ((key : Bytes) → IsKey c text key → Sends P (f key))
      → Sends P (make_key_data c text >>= f)
  Sends-bind-make_key_data text f =
      Sends-bind-Returns c (IsKey c text) _ f (make_key_data-Returns c text)
        (Sends-make_key_data text)

  pub Sends-bind-make_value_data :
      (text : Text) (f : Bytes → Action c B)
      → ((vd : Bytes) → IsValue c text vd → Sends P (f vd))
      → Sends P (make_value_data c text >>= f)
  Sends-bind-make_value_data text f =
      Sends-bind-Returns c (IsValue c text) _ f (make_value_data-Returns c text)
        (Sends-make_value_data text)

  pub Sends-bind-make_key_value_data :
      (key value : Text) (f : Bytes × Bytes → Action c B)
      → ((kv : Bytes × Bytes) → IsKey c key kv.0 → IsValue c value kv.1 → Sends P (f kv))
      → Sends P (make_key_value_data c key value >>= f)
  Sends-bind-make_key_value_data key value f h =
      Sends-bind-Returns c _ _ f (make_key_value_data-Returns c key value)
        (Sends-make_key_value_data key value) (λ kv is. h kv is.0 is.1)

  pub Sends-bind-string_to_partition_id :
      (name : Text) (f : ℕ → Action c B)
      → ((pid : ℕ) → IsPartition c name pid → Sends P (f pid))
      → Sends P (string_to_partition_id c name >>= f)
  Sends-bind-string_to_partition_id name f =
      Sends-bind-Returns c (IsPartition c name) _ f (string_to_partition_id-Returns c name)
        (Sends-string_to_partition_id name)

module _ {p : Protocol} {c : Client p} where
  keys_of-Returns : (texts : List Text) → Returns c (AreKeys c texts) (keys_of c texts)
  keys_of-Returns [] = Returns-pure c (AreKeys c []) [] tt
  keys_of-Returns (text ∷ texts) =
      Returns-bind c (IsKey c text) (AreKeys c (text ∷ texts)) _ _ (make_key_data-Returns c text)
        (λ key is_key.
          Returns-bind c (AreKeys c texts) (AreKeys c (text ∷ texts)) _ _ (keys_of-Returns texts)
            (λ keys are_keys.
              Returns-pure c (AreKeys c (text ∷ texts)) (key ∷ keys) (is_key, are_keys)))

module _ {p : Protocol} {c : Client p} {P : Event p.Message c.Value → Type 0} where
  keys_of-Sends : (texts : List Text) → Sends P (keys_of c texts)
  keys_of-Sends [] = Sends-pure []
  keys_of-Sends (text ∷ texts) =
      Sends-bind _ _ (Sends-make_key_data text)
        (λ key. Sends-bind _ _ (keys_of-Sends texts) (λ keys. Sends-pure (key ∷ keys)))

  pub Sends-bind-keys_of :
      {B : Type 0} (texts : List Text) (f : List Bytes → Action c B)
      → ((keys : List Bytes) → AreKeys c texts keys → Sends P (f keys))
      → Sends P (keys_of c texts >>= f)
  Sends-bind-keys_of texts f =
      Sends-bind-Returns c (AreKeys c texts) _ f (keys_of-Returns texts) (keys_of-Sends texts)

pub ruleset bind_rules = (
  Sends-bind-make_value_from_string, Sends-bind-make_key_data, Sends-bind-make_value_data,
  Sends-bind-make_key_value_data, Sends-bind-string_to_partition_id, Sends-bind-keys_of,
)
