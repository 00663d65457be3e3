-- ===== src/Server/Asked.antt =====
-- The request that each call of the client should leave to the slave of its session.
use server_client.Common.{ℕ, List, pos}
use server_client.Wire.OpCode
use server_client.Server.{ServerState, Request}

-- What a slave is left when a client asks for a close.
abbrev pub close_request : ServerState → ℕ → ℕ → Request
close_request s i h = record (s.slaves i).request {
  op_code = pos OpCode.close_file;
  fhandler = pos h;
}

-- What a slave is left when a client asks for an open.
abbrev pub open_request : ServerState → ℕ → List ℕ → ℕ → Request
open_request s i path flags = record (s.slaves i).request {
  op_code = pos OpCode.open_file;
  name = path;
  flags = pos flags;
}

-- What a slave is left when a client asks for a read.
abbrev pub read_request : ServerState → ℕ → ℕ → ℕ → Request
read_request s i h len = record (s.slaves i).request {
  op_code = pos OpCode.read_file;
  fhandler = pos h;
  len = len;
}

-- What a slave is left when a client asks for a write.
abbrev pub write_request : ServerState → ℕ → ℕ → List ℕ → ℕ → Request
write_request s i h text len = record (s.slaves i).request {
  op_code = pos OpCode.write_file;
  fhandler = pos h;
  len = len;
  to_write = text;
}

-- What a slave is left when a client unmounts.
abbrev pub unmount_request : ServerState → ℕ → Request
unmount_request s i = record (s.slaves i).request { op_code = pos OpCode.unmount }
