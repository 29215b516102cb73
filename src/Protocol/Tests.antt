-- ===== src/Protocol/Tests.antt =====
-- One request and its reply, and the instance of the theorem.
use reactor_network_library.Prelude.{eagain, ℕ, false, List, [], ◌∷◌, ◌++◌, replicate}
use reactor_network_library.Buffer.{Buffer, ReadResult, got, failed}
use reactor_network_library.Connection.{Connection, SendResult}
use reactor_network_library.Connection.Outgoing.{Outgoing}
use reactor_network_library.Stress
use reactor_network_library.Stress.{Client}

abbrev clear : Buffer
clear = record { buffer = replicate 8 0; reader_index = 8; writer_index = 8 }

abbrev server : Connection
server = record {
  inputbuf = clear;
  outputbuf = clear;
  disconnect = false;
  writing = false;
  closing = false;
  lasttime = 1;
  istimeout = false;
}

-- The request "h", read at once.
abbrev events : List (ℕ × List ReadResult)
events = (2, got (0 ∷ 0 ∷ 0 ∷ 1 ∷ 104 ∷ []) ∷ failed eagain ∷ []) ∷ []

-- The server when it has read it.
abbrev has_read : Connection
has_read = record server {
  inputbuf = record {
    buffer = replicate 8 0 ++ (0 ∷ 0 ∷ 0 ∷ 1 ∷ 104 ∷ []);
    reader_index = 8;
    writer_index = 8;
  };
  lasttime = 2;
}

-- The kernel takes the reply in two parts.
abbrev writes : List (List SendResult)
writes = ((7, 0) ∷ replicate 11 (0, eagain)) ∷ ((5, 0) ∷ replicate 4 (0, 0)) ∷ []

abbrev reply : List ℕ
reply = 0 ∷ 0 ∷ 0 ∷ 8 ∷ 114 ∷ 101 ∷ 112 ∷ 108 ∷ 121 ∷ 58 ∷ 32 ∷ 104 ∷ []

abbrev has_replied : Outgoing
has_replied = record {
  conn = record has_read {
    outputbuf = record { buffer = replicate 8 0 ++ reply; reader_index = 8; writer_index = 8 };
  };
  tasks = [];
  taken = reply;
}

-- The client, with one request in flight.
abbrev client : Client
client = record Stress.init { inflight = 1; g_inflight = 1; recv_buf = replicate 20 0 }

-- The reply arrives in three parts.
abbrev arrivals : List ReadResult
arrivals =
    got (0 ∷ 0 ∷ 0 ∷ [])
    ∷ got (8 ∷ 114 ∷ 101 ∷ 112 ∷ [])
    ∷ got (108 ∷ 121 ∷ 58 ∷ 32 ∷ 104 ∷ [])
    ∷ failed eagain
    ∷ []
