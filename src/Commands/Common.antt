-- ===== src/Commands/Common.antt =====
-- base/commands/common.go, internal/client.go, and the methods of clc/cmd's ExecContext that every
-- command calls.
use hazelcast_commandline_cl.Prelude.{
  ℕ, Bool, ◌||◌, Option, some, none, List, [], ◌∷◌, ◌++◌, Text, codes, if◌then◌else◌,
}
use hazelcast_commandline_cl.Prelude.Int.{ℤ, negsuc}
use hazelcast_commandline_cl.Strings.Split.{contains}
use hazelcast_commandline_cl.Cmd.Args.{after_byte}
use hazelcast_commandline_cl.Wire.Bytes.{Bytes}
use hazelcast_commandline_cl.Wire.Protocol.{Protocol}
use hazelcast_commandline_cl.Commands.Context.{
  Outcome, ok, failed, panicked, Client, Row, Structure, list_structure, set_structure,
  queue_structure, map_structure, multi_map_structure,
}
use hazelcast_commandline_cl.Commands.Action.{
  Action, Target, on_partition, on_key, on_random, invoked, pure, raise, lift, outside, traced,
  ◌>>=◌, ◌>>◌, handle, act, gets,
}
use hazelcast_commandline_cl.Commands.Labels.{type_to_label, type_string}

-- clc.TTLUnset
abbrev pub ttl_unset : ℤ
ttl_unset = negsuc 0

module _ {p : Protocol} (c : Client p) where
  open p use {Message}

  -- ClientInternal.InvokeOnPartition, InvokeOnKey and InvokeOnRandomTarget
  unfoldable pub invoke : Target → Message → Action c Message
  invoke (on_partition i) m = traced (invoked (on_partition i) m) (c.invoke_on_partition i m)
  invoke (on_key key) m = traced (invoked (on_key key) m) (c.invoke_on_key key m)
  invoke on_random m = traced (invoked on_random m) (c.invoke_on_random m)

  unfoldable pub set_text : Text → Action c Unit
  set_text text = act (c.set_text text)

  -- ExecContext.Quiet
  unfoldable pub is_quiet : c.World → Bool
  is_quiet w = c.bool_prop (codes "quiet") || c.is_pipe w

  abbrev pub print_if : Bool → Text → Action c Unit
  print_if quiet text = if quiet then pure tt else act (c.print_line text)

  -- ExecContext.PrintlnUnnecessary
  unfoldable pub println_unnecessary : Text → Action c Unit
  println_unnecessary text = gets is_quiet >>= λ quiet. print_if quiet text

  abbrev pub set_registered : Text → Option c.Printer → Action c c.Printer
  set_registered name (some printer) = act (c.set_printer printer) >> pure printer
  set_registered name none =
      raise (c.error_of (codes "printer " ++ name ++ codes " is not available"))

  abbrev pub or_registered : Option c.Printer → Action c c.Printer
  or_registered (some printer) = pure printer
  or_registered none =
      set_registered (c.string_prop (codes "format"))
        (c.registered (c.string_prop (codes "format")))

  -- ExecContext.ensurePrinter
  unfoldable pub ensure_printer : Action c c.Printer
  ensure_printer = gets c.printer >>= or_registered

  -- ExecContext.AddOutputRows
  unfoldable pub add_output_rows : List (Row c.Value) → Action c Unit
  add_output_rows [] = pure tt
  add_output_rows (row ∷ rows) =
      ensure_printer >>= λ printer. outside (c.print_rows printer (row ∷ rows))

  -- The result of a body that ran while its context ended, or did not.
  abbrev pub on_done : {A : Type 0} → Outcome c.Error A → Option c.Error → Outcome c.Error A
  on_done panicked _ = panicked
  on_done (ok a) none = ok a
  on_done (failed e) none = failed e
  on_done _ (some e) = failed (if c.is_canceled e then c.user_cancelled else e)

  -- ExecContext.ExecuteBlocking: the body runs on when the context ends, but its result is lost. Where
  -- both are ready the code takes either, and the model the end of the context.
  unfoldable pub execute_blocking : {A : Type 0} → Action c A → Action c A
  execute_blocking f s = let (r, s') = f s in (on_done r (c.context_err s'.world), s')

  -- cmd.ClientInternal
  unfoldable pub client_internal : Action c Unit
  client_internal = set_text (codes "Connecting to the cluster") >> outside c.connect

  -- cmd.IncrementClusterMetric
  unfoldable pub increment_cluster_metric : Text → Action c Unit
  increment_cluster_metric metric = act (c.increment metric)

  -- The text behind the first @, or all of it.
  abbrev pub partition_key : Text → Text
  partition_key name = if contains name b'@' then after_byte b'@' name else name

  -- internal.StringToPartitionID
  unfoldable pub string_to_partition_id : Text → Action c ℕ
  string_to_partition_id name = do
    key_data ← outside (c.encode_value (c.text_value (partition_key name)))
    outside (c.partition_id key_data)

  abbrev pub or_string : Text → Text
  or_string [] = codes "string"
  or_string (x ∷ type) = x ∷ type

  unfoldable pub make_value_from_string : Text → Text → Action c c.Value
  make_value_from_string s type = lift (c.value_from_string s (or_string type))

  unfoldable pub make_key_data : Text → Action c Bytes
  make_key_data key = do
    value ← make_value_from_string key (c.string_prop (codes "key-type"))
    outside (c.encode_value value)

  unfoldable pub make_value_data : Text → Action c Bytes
  make_value_data value_str = do
    value ← make_value_from_string value_str (c.string_prop (codes "value-type"))
    outside (c.encode_value value)

  unfoldable pub make_key_value_data : Text → Text → Action c (Bytes × Bytes)
  make_key_value_data key value = do
    kd ← make_key_data key
    vd ← make_value_data value
    pure (kd, vd)

  -- AddDDSRows
  unfoldable pub add_dds_rows : Text → Text → List (Row c.Value) → Action c Unit
  add_dds_rows type_name what [] = println_unnecessary (
      codes "OK No "
      ++ what
      ++ codes " found in "
      ++ type_name
      ++ codes " '"
      ++ c.string_prop (codes "name")
      ++ codes "'.")
  add_dds_rows type_name what (row ∷ rows) = add_output_rows (row ∷ rows)

  -- GetTTL and getMaxIdle
  unfoldable pub int_or_unset : Text → ℤ
  int_or_unset flag = if c.has_prop flag then c.int_prop flag else ttl_unset

  -- A column, and the column of its type behind it.
  abbrev pub typed_row : Text → Text → ℤ → c.Value → Bool → Row c.Value
  typed_row name type_name type value show_type =
      record { name = name; type_of = type; value = value }
      ∷ (if show_type
          then record {
            name = type_name;
            type_of = type_string;
            value = c.text_value (type_to_label type);
          }
            ∷ []
          else [])

  -- DecodeData, with a label in the place of a value that cannot be decoded.
  unfoldable pub decode_or_label : Option Bytes → Action c c.Value
  decode_or_label bytes =
      handle (outside (c.decode_value bytes)) pure
        (λ e. pure (c.nondecoded (type_to_label (c.data_type bytes))))

  -- A loop that appends a row for each item, or stops.
  unfoldable pub each_row :
      {A : Type 0} → (A → Action c (Row c.Value)) → List A → Action c (List (Row c.Value))
  each_row f [] = pure []
  each_row f (a ∷ items) = do row ← f a; rows ← each_row f items; pure (row ∷ rows)

  abbrev pub structure_name : Structure → Text
  structure_name list_structure = codes "List"
  structure_name set_structure = codes "Set"
  structure_name queue_structure = codes "Queue"
  structure_name map_structure = codes "Map"
  structure_name multi_map_structure = codes "MultiMap"

  -- getList, getSet, getQueue, getMap and getMultiMap
  unfoldable pub get_structure : Structure → Action c c.Proxy
  get_structure kind = do
    client_internal
    set_text (
        codes "Getting "
        ++ structure_name kind
        ++ codes " '"
        ++ c.string_prop (codes "name")
        ++ codes "'")
    outside (c.get_proxy kind (c.string_prop (codes "name")))
