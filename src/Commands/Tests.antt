-- ===== src/Commands/Tests.antt =====
-- The theorems on commands at a client that answers every call.
use hazelcast_commandline_cl.Prelude.{
  ℕ, ◌≡◌, refl, true, false, some, none, List, [], ◌∷◌, Text, codes, equal, if◌then◌else◌,
}
use hazelcast_commandline_cl.Prelude.Int.{pos, negsuc}
use hazelcast_commandline_cl.Codec.Requests.OtherOps.{encode_set_remove_request}
use hazelcast_commandline_cl.Codec.Builtin.{encode_data, encode_string}
use hazelcast_commandline_cl.Codec.Requests.{request}
use hazelcast_commandline_cl.Codec.Responses.{decode_set_remove_response}
use hazelcast_commandline_cl.Wire.Bytes.{le_value, uint}
use hazelcast_commandline_cl.Wire.Fields.{decode_boolean}
use hazelcast_commandline_cl.Strings.Split.{contains}
use hazelcast_commandline_cl.Wire.Sample.{SampleMessage, sample}
use hazelcast_commandline_cl.Commands.Context.{Client, Outcome, ok, failed, Row}
use hazelcast_commandline_cl.Commands.Action.{
  State, outside, pure, gets, ◌>>=◌, act, lift, or_panic, raise, traced,
}
use hazelcast_commandline_cl.Commands.Common.{
  add_output_rows, ensure_printer, execute_blocking, client_internal, set_text,
  increment_cluster_metric, each_row, make_value_data, make_value_from_string,
  string_to_partition_id, invoke,
}
use hazelcast_commandline_cl.Commands.Labels.{type_to_label, type_string}
use hazelcast_commandline_cl.Commands.Batches.{
  exec_queue_offer, exec_queue_poll, exec_set_remove, set_remove_body, remove_item,
}
use hazelcast_commandline_cl.Commands.Sends.{Sends}
use hazelcast_commandline_cl.Commands.Counts.{AddsOf, exec_queue_poll-count, exec_set_remove-count}
use hazelcast_commandline_cl.Commands.Failures.{NeverFails, exec_queue_offer-NeverFails}

-- The world is a number that nothing changes; the client converts values and answers the calls on a
-- partition as it is told.
abbrev client_of : (Text → Outcome Text Text) → (SampleMessage → SampleMessage) → Client sample
client_of converts answers = record {
  World = ℕ;
  Error = Text;
  Value = Text;
  error_of = λ text. text;
  user_cancelled = codes "cancelled";
  string_prop = λ flag. if equal flag (codes "name") then codes "orders" else [];
  bool_prop = λ flag. false;
  int_prop = λ flag. pos 2;
  has_prop = λ flag. false;
  string_arg = λ key. key;
  strings_arg = λ key. codes "1" ∷ codes "2" ∷ [];
  int_arg = λ key. pos 0;
  text_value = λ text. text;
  bool_value = λ b. if b then codes "true" else codes "false";
  int32_value = λ i. codes "number";
  nondecoded = λ label. label;
  value_from_string = λ value type. converts value;
  context_err = λ w. none;
  is_canceled = λ e. false;
  set_text = λ text w. w;
  print_line = λ text w. w;
  is_pipe = λ w. true;
  yes_no = λ question w. (ok false, w);
  Printer = ℕ;
  printer = λ w. some 1;
  set_printer = λ printer w. w;
  registered = λ name. some 1;
  print_rows = λ printer rows w. (ok tt, w);
  increment = λ metric w. w;
  connect = λ w. (ok tt, w);
  encode_value = λ value w. (ok value, w);
  decode_value = λ bytes w. (failed (codes "not decoded"), w);
  data_type = λ bytes. type_string;
  partition_id = λ key w. (ok 7, w);
  invoke_on_partition = λ pid m w. (ok (answers m), w);
  invoke_on_key = λ key m w. (ok m, w);
  invoke_on_random = λ m w. (ok m, w);
  Proxy = ℕ;
  get_proxy = λ kind name w. (ok 3, w);
  proxy_add = λ proxy bytes w. (ok true, w);
  proxy_destroy = λ proxy w. (ok tt, w);
  proxy_clear = λ proxy w. (ok tt, w);
  proxy_size = λ proxy w. (ok (pos 0), w);
  lock = λ proxy key w. (ok tt, w);
  lock_with_lease = λ proxy key ttl w. (ok tt, w);
  try_lock = λ proxy key w. (ok true, w);
  try_lock_with_lease = λ proxy key ttl w. (ok true, w);
  unlock = λ proxy key w. (ok tt, w);
}

-- No value converts, and a call is answered by its own message.
abbrev client : Client sample
client = client_of (λ value. failed (codes "no value")) (λ m. m)

-- Each value converts, and each call is answered by true.
abbrev true_reply : SampleMessage
true_reply = record {
  frames =
      record { content = 0 ∷ 0 ∷ 0 ∷ 0 ∷ 0 ∷ 0 ∷ 0 ∷ 0 ∷ 0 ∷ 0 ∷ 0 ∷ 0 ∷ 0 ∷ 1 ∷ []; flags = 4 }
      ∷ [];
  message_type = 0;
  retryable = false;
  partition_id = 0;
}

abbrev agreeing : Client sample
agreeing = client_of (λ value. ok value) (λ m. true_reply)

prints : (rows : List (Row Text)) → NeverFails client (add_output_rows client rows)
unfolding add_output_rows ensure_printer outside pure gets ◌>>=◌
prints [] s e = cc
prints (row ∷ rows) s e = cc

exec_queue_offer-NeverFails_example : NeverFails client (exec_queue_offer client)
exec_queue_offer-NeverFails_example = exec_queue_offer-NeverFails client prints

labels : type_to_label type_string ≡ codes "STRING"
unfolding type_to_label
labels = refl

no_label : type_to_label (negsuc 98) ≡ codes "UNKNOWN_TYPE:-99"
unfolding type_to_label
no_label = refl

abbrev begin : State client
begin = record { world = 0; trace = [] }

exec_queue_poll-count_example : AddsOf 2 begin (exec_queue_poll client begin)
exec_queue_poll-count_example = exec_queue_poll-count 2 begin refl

abbrev fresh : State agreeing
fresh = record { world = 0; trace = [] }

-- The removal succeeds.
removed : (exec_set_remove agreeing fresh).0 ≡ ok tt
unfolding exec_set_remove outside pure gets ◌>>=◌ act lift or_panic raise traced add_output_rows
    ensure_printer execute_blocking client_internal set_text increment_cluster_metric each_row
    make_value_data make_value_from_string string_to_partition_id invoke set_remove_body remove_item
    encode_set_remove_request encode_data encode_string request decode_set_remove_response le_value
    uint decode_boolean contains
removed = refl

exec_set_remove-count_example : AddsOf 2 fresh (exec_set_remove agreeing fresh)
exec_set_remove-count_example = exec_set_remove-count fresh
