-- ===== src/Commands/Context.antt =====
-- What a command is given: the `ExecContext` of internal/plug, and the client of hazelcast-go-client
-- behind it. The client is not in this repository, so it is a parameter, over a world of any type.
use hazelcast_commandline_cl.Prelude.{ℕ, ◌-◌, ◌%◌, ◌^◌, Bool, Option, List, Text}
use hazelcast_commandline_cl.Prelude.Int.{ℤ, pos, negsuc}
use hazelcast_commandline_cl.Wire.Bytes.{Bytes}
use hazelcast_commandline_cl.Wire.Protocol.{Protocol}

-- A call returns a value or an error, or panics.
pub data Outcome (Error A : Type 0) : Type 0 where
  ok : A → Outcome Error A
  failed : Error → Outcome Error A
  panicked : Outcome Error A

abbrev pub Step : Type 0 → Type 0 → Type 0 → Type 0
Step World Error A = World → Outcome Error A × World

-- output.Column and output.Row
pub record Column (Value : Type 0) : Type 0 where
  pub name : Text
  pub type_of : ℤ
  pub value : Value

abbrev pub Row : Type 0 → Type 0
Row Value = List (Column Value)

pub data Structure : Type 0 where
  list_structure set_structure queue_structure map_structure multi_map_structure : Structure

-- int32(i) and int64(i), as bit patterns.
abbrev pub int32_bits : ℤ → ℕ
int32_bits (pos n) = n % 2 ^ 32
int32_bits (negsuc n) = 2 ^ 32 - 1 - n % 2 ^ 32

abbrev pub int64_bits : ℤ → ℕ
int64_bits (pos n) = n % 2 ^ 64
int64_bits (negsuc n) = 2 ^ 64 - 1 - n % 2 ^ 64

pub record Client (p : Protocol) : Type 1 where
  pub World : Type 0
  pub Error : Type 0
  pub Value : Type 0
  -- errors.New, and errors.ErrUserCancelled
  pub error_of : Text → Error
  pub user_cancelled : Error
  -- ec.Props() and the arguments of the command
  pub string_prop : Text → Text
  pub bool_prop : Text → Bool
  pub int_prop : Text → ℤ
  pub has_prop : Text → Bool
  pub string_arg : Text → Text
  pub strings_arg : Text → List Text
  pub int_arg : Text → ℤ
  -- Go values that a command makes itself
  pub text_value : Text → Value
  pub bool_value : Bool → Value
  pub int32_value : ℤ → Value
  pub nondecoded : Text → Value
  -- internal/mk: ValueFromString(value, type)
  pub value_from_string : Text → Text → Outcome Error Value
  -- the context ends with an error; errors.Is(err, context.Canceled)
  pub context_err : World → Option Error
  pub is_canceled : Error → Bool
  -- the terminal: the spinner's text, a line of output, stdin or stdout that is a pipe, a question
  pub set_text : Text → World → World
  pub print_line : Text → World → World
  pub is_pipe : World → Bool
  pub yes_no : Text → Step World Error Bool
  -- the printer of the context, and those of the registry
  pub Printer : Type 0
  pub printer : World → Option Printer
  pub set_printer : Printer → World → World
  pub registered : Text → Option Printer
  pub print_rows : Printer → List (Row Value) → Step World Error Unit
  -- the metric store, and the client, its data and proxies
  pub increment : Text → World → World
  pub connect : Step World Error Unit
  pub encode_value : Value → Step World Error Bytes
  pub decode_value : Option Bytes → Step World Error Value
  pub data_type : Option Bytes → ℤ
  pub partition_id : Bytes → Step World Error ℕ
  pub invoke_on_partition : ℕ → p.Message → Step World Error p.Message
  pub invoke_on_key : Bytes → p.Message → Step World Error p.Message
  pub invoke_on_random : p.Message → Step World Error p.Message
  pub Proxy : Type 0
  pub get_proxy : Structure → Text → Step World Error Proxy
  pub proxy_add : Proxy → Bytes → Step World Error Bool
  pub proxy_destroy : Proxy → Step World Error Unit
  pub proxy_clear : Proxy → Step World Error Unit
  pub proxy_size : Proxy → Step World Error ℤ
  pub lock : Proxy → Value → Step World Error Unit
  pub lock_with_lease : Proxy → Value → ℤ → Step World Error Unit
  pub try_lock : Proxy → Value → Step World Error Bool
  pub try_lock_with_lease : Proxy → Value → ℤ → Step World Error Bool
  pub unlock : Proxy → Value → Step World Error Unit
