-- ===== src/Lib.antt =====
-- The Hazelcast command line client, CLC: a model of parts of its own logic, and what is proved of it.
--
-- The program parses a command, connects to a cluster with the hazelcast-go-client module, encodes
-- the request of the command as a message of the client protocol, invokes it on a member, and
-- decodes and prints the reply. The modelled parts, and the modules that model them:
--
-- Codec (internal/proto/codec): the codecs of the messages that the client module has none for.
--   Codec.Builtin and Codec.Builtin.Items model builtin.go: the encoders append frames to a message,
--   the decoders read from a list of frames and leave the rest. Codec.Requests has one encoder for
--   each Encode…Request function, Codec.Calls the calls that they encode as one data type, with the
--   fields and parts that each call has. Codec.Responses has the Decode…Response functions and the
--   handler of topic events, and Codec.Summary the job summaries of job_and_sql_summary_codec.go and
--   sql_summary_codec.go. A function that indexes out of range, or asks an exhausted iterator for a
--   frame, panics: it returns none.
-- Wire: what the codecs stand on. Wire.Protocol is the interface of the client module's protocol
--   package, which is not part of the repository: frames, messages, offsets and sizes, with laws
--   that its documentation states; Wire.Sample is an instance. Wire.Bytes has the little-endian
--   buffers of encoding/binary, Wire.Fields the fixed-size fields, and Wire.Layout the fields of an
--   initial frame, one behind the other. Integers of 32 and 64 bits are their bit patterns, natural
--   numbers below 2 ^ 32 and 2 ^ 64.
-- Version (internal/version.go): CheckVersion and the functions it calls; a panic is none. Jobs are
--   submitted differently to a 5.3.0 server, and integration tests are skipped by version.
-- Output (internal/output): the ordered set of columns, in ordered_set.go.
-- Sql (clc/sql/sql.go): ExecSQL, which may apply the suggestion of the server, and execSQL, which
--   executes again while the cluster cannot be reached. The cluster, the clock and the context are a
--   state of any type, with the calls that the code makes; to execute a query gives either a result or
--   an error, as the client module documents.
-- Jobs (base/commands/job/common.go, internal/jet/job.go): Jobs.Ids has idToString and stringToID,
--   Jobs.Finding the maps that MakeJobNameIDMaps makes of the list of jobs that Codec.Summary
--   decodes, and the two look-ups of JobsInfo, Jobs.Waiting EnsureJobState and the loop of
--   WaitJobState, over any source of job lists.
-- Table (internal/table/table.go): splitLines, which breaks the text of a cell at the column's width.
-- Metrics (clc/metrics/key.go): the keys under which metrics are stored, their Marshal and Unmarshal;
--   dates and their format are a parameter.
-- Str (internal/str/str.go): SplitByComma, over the slice that it ranges over and writes to;
--   ParseKeyValue is in Cmd.
-- Cmd (clc/cmd/command_context.go, exec_context.go): the argument specifications of a command, the
--   check that ArgsFunc makes of the number of arguments, and makeKeywordArgs, which converts them.
--   The sum of the minima, an int that may wrap, is its bit pattern of 64 bits.
-- Plug (internal/plug/types.go): Properties, the stack of maps that holds the options of a command.
-- Commands (base/commands: common.go, map_common.go, list, set, queue, map, multimap): the Exec methods
--   of the commands on data structures. Commands.Context is the interface to the execution context and
--   the client, Commands.Action the body of a command as steps on a world, with a trace of the messages
--   invoked and of the calls of proxies; a trace is no part of the program. Commands.Common has the
--   helpers of common.go, internal/client.go and of ExecContext (clc/cmd/exec_context.go), among them
--   ExecuteBlocking, whose body runs on when the context ends; Commands.Labels has the labels of types.
--   Commands.Lists, Batches, Maps, Locks and Structures have the commands, Commands.Registry lists
--   them, Commands.Arguments says which data are those of an argument, Commands.Requests what each
--   command may ask for, and Commands.Counts how often two of them ask.
--   What is written to the log is left out.
-- Shell (clc/shell/shell.go, oneshot_shell.go, base/commands/shell_script_common.go): Shell.Reading has
--   makeEndLineFunc, with the variable that its closure keeps, readTextBasic, readTextReadline and
--   Start, over a list of lines; Shell.Statements says which statements lines hold. A read that fails
--   otherwise than at the end of the input is left out.
-- Strings: strings.Split, strings.Join and other functions of Go's strings and strconv packages, as
--   they are documented, on texts, which are lists of bytes.
-- Prelude: names, numbers, lists and texts that the modules share.
--
-- Loops over lists are structural recursion. Four functions have fuel: the loop that decodes a list of
-- frames gets the number of frames left, which each item makes smaller, so it is enough; the loops
-- of execSQL, of WaitJobState and of Start get a number of rounds, and their theorems say with how
-- many they return. Printing a 64-bit number writes at most 16 digits in base 16, and 20 in base 10,
-- which is enough for any.
--
-- Not modelled: the decoders of index configurations and of the map configuration, and the string
-- maps of the codec; the streaming of SQL rows; the commands on other data structures and on the
-- Viridian service, and unlocking; the conversion of statements to queries; the printers, the metric
-- store, the Viridian client and the configuration; the conversion of values by name of type
-- (internal/conversion.go), which is a parameter of the commands; and all input and output.
mod Prelude
pub mod Strings
pub mod Wire
pub mod Codec
pub mod Version
pub mod Output
pub mod Sql
pub mod Jobs
pub mod Table
pub mod Metrics
pub mod Str
pub mod Cmd
pub mod Plug
pub mod Commands
pub mod Shell
