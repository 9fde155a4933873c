-- ===== src/Tests/Nets.antt =====
-- An Extern in a state with one class and no links.
use casycom.Base.{ℕ, Bool, true, false, List, [], ◌∷◌, none, ◌==◌, if◌then◌else◌}
use casycom.Iids
use casycom.Msg.{Interface, Proxy, Msg}
use casycom.Loop.{Sys}
use casycom.Protocol.Com.{i_com}
use casycom.Protocol.Timer.{no_fd}
use casycom.Externs.{Extern, Net}
use casycom.Externs.Incoming.{Program}

abbrev pub proxy : ℕ → ℕ → ℕ → Proxy
proxy interface src dest = record { interface = interface; src = src; dest = dest }

abbrev pub named : List ℕ → Interface
named name = record { name = name; method = [] }

-- COM at its address, and two other interfaces.
abbrev pub interfaces : ℕ → Interface
interfaces i =
    if i == Iids.com_iid then i_com else if i == 20 then named (b'A' ∷ []) else named (b'B' ∷ [])

abbrev pub program : Program
program = record {
  interfaces = interfaces;
  dtable = λ f. record { at = 81; interface = Iids.com_iid } ∷ [];
}

abbrev pub sys : Sys ℕ
sys = record {
  omap = [];
  registry = record { object_table = 80 ∷ []; default_object = 0 };
  input_queue = [];
  output_queue = [];
  error = none;
  quitting = false;
  exit_code = 3;
  user = 0;
}

abbrev pub extern_with : Bool → ℕ → List ℕ → Extern
extern_with is_client h_read h_buf = record {
  at = 5000;
  info_at = 5080;
  reply = proxy Iids.extern_r 2 1;
  fd = 4;
  out = record { outgoing = []; h_written = 0; b_written = 0 };
  h_read = h_read;
  b_read = 0;
  in_msg = none;
  exported = [];
  imported = [];
  info = record {
    interfaces = 20 ∷ [];
    creds = record { pid = 0; uid = 0; gid = 0 };
    oid = 2;
    is_client = is_client;
    is_unix_socket = true;
  };
  conns = [];
  timer = proxy Iids.timer 2 3;
  last_fd = no_fd;
  h_buf = h_buf;
}

abbrev pub net : Net ℕ
net = record { sys = sys; closed = []; externs = extern_with true 0 [] ∷ [] }

abbrev pub message : ℕ → ℕ → ℕ → ℕ → List ℕ → Msg
message interface dest imethod size body = record {
  h = proxy interface 1 dest;
  imethod = imethod;
  size = size;
  extid = 6;
  fdoffset = 255;
  body = body;
}
