-- ===== src/Commands/Requests/Maps.antt =====
-- The requests of the map and multimap commands.
use hazelcast_commandline_cl.Prelude.{
  ℕ, ◌≡◌, Option, some, List, [], ◌∷◌, Text, codes, arith, Bool-cases, inl, inr,
}
use hazelcast_commandline_cl.Prelude.Int.{pos, ltb_ℤ}
use hazelcast_commandline_cl.Wire.Bytes.{Bytes}
use hazelcast_commandline_cl.Wire.Protocol.{Protocol}
use hazelcast_commandline_cl.Codec.Calls.{
  encode, map_set, map_set_with_max_idle, map_load_all, map_load_given_keys, multi_map_put,
}
use hazelcast_commandline_cl.Commands.Context.{Client, Row, Structure, int64_bits}
use hazelcast_commandline_cl.Commands.Action.{Action, Target, on_key, on_random, invoked}
use hazelcast_commandline_cl.Commands.Common.{int_or_unset}
use hazelcast_commandline_cl.Commands.Maps.{
  map_name, key_row, value_row, pair_row, entry_set_body, exec_entry_set, key_set_body,
  exec_key_set, values_body, exec_values, map_response_rows, multi_map_response_rows, get_body,
  rows_or_no_values, exec_get, map_remove_body, exec_map_remove,
}
use hazelcast_commandline_cl.Commands.Maps.Puts.{
  ttl, max_idle, set_request, map_set_body, exec_map_set, load_request, load_all_body,
  exec_load_all, multi_map_put_body, exec_multi_map_put,
}
use hazelcast_commandline_cl.Commands.Sends.{Sends, Sends-bind-or_panic, sends_rules}
use hazelcast_commandline_cl.Commands.Registry.{
  Command, map_set_command, map_load_all_command, multi_map_put_command,
}
use hazelcast_commandline_cl.Commands.Requests.{
  map_sets, map_sets_idle, map_loads, map_loads_keys, multi_map_puts, Asks, encoded-Asks,
}
use hazelcast_commandline_cl.Commands.Requests.Quiet.{
  quiet_rules, Sends-println_unnecessary, Sends-add_output_rows,
}
use hazelcast_commandline_cl.Commands.Requests.Binds.{bind_rules}
use hazelcast_commandline_cl.Commands.Arguments.{
  IsKey, IsValue, AreKeys, AreKeys-blank, AreKeys-filled,
}
use hazelcast_commandline_cl.Commands.Requests.Lists.{int64_bits_range}

module _ {p : Protocol} (c : Client p) where
  open p use {Message}

  -- A command that may ask a random member by what its encoder makes.
  abbrev pub Encodes : Command → Option Message → Target → Type 0
  Encodes k o t = (m : Message) → o ≡ some m → Asks c k (invoked t m)

  pub entry_set-Sends :
      (k : Command) (kind : Structure) (encoder : Text → Option Message)
      (decoder : Message → Option (List (Bytes × Bytes)))
      → Encodes k (encoder (map_name c)) on_random
      → Sends (Asks c k) (exec_entry_set c kind encoder decoder)
  unfolding exec_entry_set entry_set_body pair_row key_row value_row
  entry_set-Sends k kind encoder decoder asked =
      search (asked, Sends-bind-or_panic, bind_rules, sends_rules, quiet_rules) depth 40

  pub key_set-Sends :
      (k : Command) (kind : Structure) (encoder : Text → Option Message)
      (decoder : Message → Option (List Bytes))
      → Encodes k (encoder (map_name c)) on_random
      → Sends (Asks c k) (exec_key_set c kind encoder decoder)
  unfolding exec_key_set key_set_body key_row
  key_set-Sends k kind encoder decoder asked =
      search (asked, Sends-bind-or_panic, bind_rules, sends_rules, quiet_rules) depth 40

  pub values-Sends :
      (k : Command) (kind : Structure) (encoder : Text → Option Message)
      (decoder : Message → Option (List Bytes))
      → Encodes k (encoder (map_name c)) on_random
      → Sends (Asks c k) (exec_values c kind encoder decoder)
  unfolding exec_values values_body value_row
  values-Sends k kind encoder decoder asked =
      search (asked, Sends-bind-or_panic, bind_rules, sends_rules, quiet_rules) depth 40

  pub map_response_rows-Sends :
      (k : Command) (decoder : Message → Option (Option Bytes)) (m : Message)
      → Sends (Asks c k) (map_response_rows c decoder m)
  unfolding map_response_rows
  map_response_rows-Sends k decoder m = search (sends_rules, quiet_rules) depth 20

  pub multi_map_response_rows-Sends :
      (k : Command) (decoder : Message → Option (List Bytes)) (m : Message)
      → Sends (Asks c k) (multi_map_response_rows c decoder m)
  unfolding multi_map_response_rows value_row
  multi_map_response_rows-Sends k decoder m = search (sends_rules, quiet_rules) depth 20

  rows_or_no_values-Sends :
      (k : Command) (rows : List (Row c.Value)) → Sends (Asks c k) (rows_or_no_values c rows)
  rows_or_no_values-Sends k [] = Sends-println_unnecessary _
  rows_or_no_values-Sends k (row ∷ rows) = Sends-add_output_rows (row ∷ rows)

  pub get-Sends :
      (k : Command) (kind : Structure) (encoder : Text → Bytes → ℕ → Option Message)
      (decoder : Message → Action c (List (Row c.Value)))
      → ((m : Message) → Sends (Asks c k) (decoder m))
      → ((key : Bytes)
          → IsKey c (c.string_arg (codes "key")) key
          → Encodes k (encoder (map_name c) key 0) (on_key key))
      → Sends (Asks c k) (exec_get c kind encoder decoder)
  unfolding exec_get get_body
  get-Sends k kind encoder decoder decodes asked =
      search
        (
          asked, decodes, rows_or_no_values-Sends, Sends-bind-or_panic, bind_rules, sends_rules,
          quiet_rules,
        )
        depth 40

  pub map_remove-Sends :
      (k : Command) (kind : Structure) (encoder : Text → Bytes → ℕ → Option Message)
      (decoder : Message → Action c (List (Row c.Value)))
      → ((m : Message) → Sends (Asks c k) (decoder m))
      → ((key : Bytes)
          → IsKey c (c.string_arg (codes "key")) key
          → Encodes k (encoder (map_name c) key 0) (on_key key))
      → Sends (Asks c k) (exec_map_remove c kind encoder decoder)
  unfolding exec_map_remove map_remove_body
  map_remove-Sends k kind encoder decoder decodes asked =
      search (asked, decodes, Sends-bind-or_panic, bind_rules, sends_rules, quiet_rules) depth 40

  set-asked :
      (key value : Bytes)
      → IsKey c (c.string_arg (codes "key")) key
      → IsValue c (c.string_arg (codes "value")) value
      → Encodes map_set_command (set_request c key value) (on_key key)
  unfolding encode set_request
  set-asked key value is_key is_value m h = elim (Bool-cases (ltb_ℤ (max_idle c) (pos 0))) [
    | inl below ↦
        encoded-Asks (map_set (map_name c) key value 0 (ttl c)) m
          (map_sets key value is_key is_value below)
          (omega arith, (int64_bits_range (int_or_unset c (codes "ttl")), tt)) (rw below at h)
    | inr above ↦
        encoded-Asks
          (map_set_with_max_idle (map_name c) key value 0 (ttl c) (int64_bits (max_idle c))) m
          (map_sets_idle key value is_key is_value above)
          (
            omega arith,
            (int64_bits_range (int_or_unset c (codes "ttl")), (int64_bits_range (max_idle c), tt)),
          )
          (rw above at h)
  ]

  pub exec_map_set-Sends : Sends (Asks c map_set_command) (exec_map_set c)
  unfolding exec_map_set map_set_body
  exec_map_set-Sends =
      search (set-asked, Sends-bind-or_panic, bind_rules, sends_rules, quiet_rules) depth 40

  load-asked :
      (keys : List Bytes)
      → AreKeys c (c.strings_arg (codes "key")) keys
      → Encodes map_load_all_command (load_request c keys) on_random
  unfolding encode load_request
  load-asked [] are_keys m =
      encoded-Asks (map_load_all (map_name c) _) m (map_loads (AreKeys-blank c _ are_keys)) (tt, tt)
  load-asked (key ∷ keys) are_keys m =
      encoded-Asks (map_load_given_keys (map_name c) (key ∷ keys) _) m
        (map_loads_keys (key ∷ keys) (AreKeys-filled c _ key keys are_keys) are_keys) (tt, tt)

  pub exec_load_all-Sends : Sends (Asks c map_load_all_command) (exec_load_all c)
  unfolding exec_load_all load_all_body
  exec_load_all-Sends =
      search (load-asked, Sends-bind-or_panic, bind_rules, sends_rules, quiet_rules) depth 40

  put-asked :
      (key value : Bytes)
      → IsKey c (c.string_arg (codes "key")) key
      → IsValue c (c.string_arg (codes "value")) value
      → Encodes multi_map_put_command
          (encode p (multi_map_put (map_name c) key value 0))
          (on_key key)
  put-asked key value is_key is_value m =
      encoded-Asks (multi_map_put (map_name c) key value 0) m
        (multi_map_puts key value is_key is_value) (omega arith, tt)

  pub exec_multi_map_put-Sends : Sends (Asks c multi_map_put_command) (exec_multi_map_put c)
  unfolding exec_multi_map_put multi_map_put_body encode
  exec_multi_map_put-Sends =
      search (put-asked, Sends-bind-or_panic, bind_rules, sends_rules, quiet_rules) depth 40
