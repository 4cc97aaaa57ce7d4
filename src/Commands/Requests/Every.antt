-- ===== src/Commands/Requests/Every.antt =====
-- What a command asks the client for is what it is meant to ask for.
use hazelcast_commandline_cl.Wire.Protocol.{Protocol}
use hazelcast_commandline_cl.Commands.Sends.{Sends}
