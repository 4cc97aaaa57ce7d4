-- ===== src/Commands/Requests/Quiet.antt =====
-- The helpers of the commands ask the client for nothing.
use hazelcast_commandline_cl.Prelude.{Bool, true, false, Option, some, none, List, [], ◌∷◌, Text}
use hazelcast_commandline_cl.Wire.Bytes.{Bytes}
use hazelcast_commandline_cl.Wire.Protocol.{Protocol}
use hazelcast_commandline_cl.Commands.Context.{Client, Row, Structure}
use hazelcast_commandline_cl.Commands.Action.{
  Event, Target, on_partition, on_key, on_random, invoked,
}
use hazelcast_commandline_cl.Commands.Common.{
  invoke, set_text, print_if, println_unnecessary, add_output_rows, ensure_printer, or_registered,
  set_registered, client_internal, increment_cluster_metric, string_to_partition_id,
  make_value_from_string, make_key_data, make_value_data, make_key_value_data, add_dds_rows,
  decode_or_label, get_structure,
}
use hazelcast_commandline_cl.Commands.Sends.{
  Sends, Sends-pure, Sends-act, Sends-traced, Sends-gets, Sends-bind, sends_rules,
}

module _ {p : Protocol} {c : Client p} {P : Event p.Message c.Value → Type 0} where
  open p use {Message}

  pub Sends-invoke : (t : Target) (m : Message) → P (invoked t m) → Sends P (invoke c t m)
  unfolding invoke
  Sends-invoke (on_partition i) m h = Sends-traced _ _ h
  Sends-invoke (on_key key) m h = Sends-traced _ _ h
  Sends-invoke on_random m h = Sends-traced _ _ h

  pub Sends-set_text : (text : Text) → Sends P (set_text c text)
  unfolding set_text
  Sends-set_text text = search sends_rules

  pub Sends-increment_cluster_metric : (text : Text) → Sends P (increment_cluster_metric c text)
  unfolding increment_cluster_metric
  Sends-increment_cluster_metric text = search sends_rules

  pub Sends-client_internal : Sends P (client_internal c)
  unfolding client_internal
  Sends-client_internal = search (sends_rules, Sends-set_text)

  pub Sends-string_to_partition_id : (name : Text) → Sends P (string_to_partition_id c name)
  unfolding string_to_partition_id
  Sends-string_to_partition_id name = search sends_rules

  pub Sends-make_value_from_string : (s type : Text) → Sends P (make_value_from_string c s type)
  unfolding make_value_from_string
  Sends-make_value_from_string s type = search sends_rules

  pub Sends-make_key_data : (key : Text) → Sends P (make_key_data c key)
  unfolding make_key_data
  Sends-make_key_data key = search (sends_rules, Sends-make_value_from_string)

  pub Sends-make_value_data : (value : Text) → Sends P (make_value_data c value)
  unfolding make_value_data
  Sends-make_value_data value = search (sends_rules, Sends-make_value_from_string)

  pub Sends-make_key_value_data : (key value : Text) → Sends P (make_key_value_data c key value)
  unfolding make_key_value_data
  Sends-make_key_value_data key value =
      search (sends_rules, Sends-make_key_data, Sends-make_value_data)

  Sends-print_if : (quiet : Bool) (text : Text) → Sends P (print_if c quiet text)
  Sends-print_if true text = Sends-pure tt
  Sends-print_if false text = Sends-act _

  pub Sends-println_unnecessary : (text : Text) → Sends P (println_unnecessary c text)
  unfolding println_unnecessary
  Sends-println_unnecessary text =
      Sends-bind _ _ (Sends-gets _) (λ quiet. Sends-print_if quiet text)

  Sends-set_registered :
      (name : Text) (printer : Option c.Printer) → Sends P (set_registered c name printer)
  Sends-set_registered name (some printer) = search sends_rules
  Sends-set_registered name none = search sends_rules

  Sends-or_registered : (printer : Option c.Printer) → Sends P (or_registered c printer)
  Sends-or_registered (some printer) = Sends-pure printer
  Sends-or_registered none = Sends-set_registered _ _

  pub Sends-add_output_rows : (rows : List (Row c.Value)) → Sends P (add_output_rows c rows)
  unfolding add_output_rows ensure_printer
  Sends-add_output_rows [] = Sends-pure tt
  Sends-add_output_rows (row ∷ rows) = search (sends_rules, Sends-or_registered)

  pub Sends-add_dds_rows :
      (type_name what : Text) (rows : List (Row c.Value))
      → Sends P (add_dds_rows c type_name what rows)
  unfolding add_dds_rows
  Sends-add_dds_rows type_name what [] = Sends-println_unnecessary _
  Sends-add_dds_rows type_name what (row ∷ rows) = Sends-add_output_rows _

  pub Sends-decode_or_label : (raw : Option Bytes) → Sends P (decode_or_label c raw)
  unfolding decode_or_label
  Sends-decode_or_label raw = search sends_rules

  pub Sends-get_structure : (kind : Structure) → Sends P (get_structure c kind)
  unfolding get_structure
  Sends-get_structure kind = search (sends_rules, Sends-client_internal, Sends-set_text)

pub ruleset quiet_rules = (
  Sends-set_text, Sends-increment_cluster_metric, Sends-client_internal,
  Sends-string_to_partition_id, Sends-make_value_from_string, Sends-make_key_data,
  Sends-make_value_data, Sends-make_key_value_data, Sends-println_unnecessary,
  Sends-add_output_rows, Sends-add_dds_rows, Sends-decode_or_label, Sends-get_structure,
  Sends-invoke,
)
