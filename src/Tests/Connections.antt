-- ===== src/Tests/Connections.antt =====
-- Connections of an Extern, a relay and a server.
use casycom.Base.{ℕ, ◌≡◌, refl, true, false, [], ◌∷◌, List, some, none, arith}
use casycom.Iids
use casycom.Msg.{Msg}
use casycom.Links.{free_oid}
use casycom.Loop.{Sys}
use casycom.Externs.{
  Extern, conn_by_extid, comma_names, export_text, matching, import_from, find_by_interface,
}
use casycom.Externs.Conns.{IsInOrder}
use casycom.Externs.Exports.{import_from-export_text}
use casycom.Externs.Incoming.{accepted, refused, connect_in}
use casycom.Externs.Incoming.Connections.{HasFreeOid, connect_in-IsInOrder, connect_in-client}
use casycom.Externs.Outgoing.{Texts, Calls, connect_out, is_com_delete}
use casycom.Externs.Outgoing.Connections.{connect_in-connect_out}
use casycom.Relay.{Relay, relay_create, attach, relay_object_destroyed}
use casycom.Relay.Lifetime.{Follows, begun, told}
use casycom.Framework.{create_reply_proxy, create_proxy_to}
use casycom.Tests.Rounds.{client}
use casycom.Relay.Routes.{Relays, relay_create-RelaysBetween}
use casycom.Server.{ExternServer, accept_one}
use casycom.Server.Accepts.{Accepts, accept_one-Accepts}
use casycom.Tests.Nets.{proxy, interfaces, program, sys, extern_with, net, message}

abbrev ext : Extern
ext = extern_with false 0 []

abbrev request : Msg
request = message 20 9 0 0 []

net-IsInOrder : IsInOrder ext net
net-IsInOrder = record {
  connected = record { extids = tt; oids = tt; own = tt; linked = tt };
  sorted = tt;
}

not_delete : is_com_delete request ≡ false
unfolding is_com_delete
not_delete = refl

abbrev answer : Msg
answer = record request { extid = (connect_out program ext request net).0.extid }

connect_in-connect_out_example :
    (m : Msg) × (connect_in program
        ((connect_out program ext request net).1)
        answer
        ((connect_out program ext request net).2)
      ≡ (
        accepted m,
        (connect_out program ext request net).1,
        (connect_out program ext request net).2,
      ))
    × (m.h.dest ≡ 9)
    × (m.body ≡ [])
connect_in-connect_out_example =
    connect_in-connect_out program ext request answer net net-IsInOrder (omega arith) (omega arith)
      not_delete refl

free : HasFreeOid sys.omap
unfolding free_oid
free = record { room = omega arith; small = omega arith }

connect_in-IsInOrder_example :
    IsInOrder ((connect_in program ext request net).1) ((connect_in program ext request net).2)
connect_in-IsInOrder_example = connect_in-IsInOrder program ext request net net-IsInOrder free

absent : conn_by_extid [] 6 ≡ none
unfolding conn_by_extid
absent = refl

connect_in-client_example :
    connect_in program (extern_with true 0 []) request net ≡ (refused, extern_with true 0 [], net)
connect_in-client_example =
    connect_in-client program (extern_with true 0 []) request net refl absent (omega arith)

abbrev list : List ℕ
list = b'A' ∷ b',' ∷ b'B' ∷ []

sent_list : export_text interfaces (20 ∷ 21 ∷ []) ≡ some list
unfolding export_text comma_names
sent_list = refl

import_from-export_text_example :
    import_from interfaces (20 ∷ 21 ∷ []) [] list ≡ matching interfaces (20 ∷ 21 ∷ []) (b'A' ∷ [])
import_from-export_text_example =
    import_from-export_text interfaces (20 ∷ 21 ∷ []) 20 (21 ∷ []) list
      (omega arith, (omega arith, tt)) (omega arith, tt) (λ e. cc) sent_list

imports : find_by_interface net.externs 20 ≡ some (extern_with true 0 [])
unfolding find_by_interface
imports = refl

abbrev texts : Texts
texts = record { multiple = []; recvmsg = []; sendmsg = []; incompatible = [] }

abbrev calls : Calls
calls = record { reads = []; writes = [] }

-- The relay as it is made, and after the news that its Extern is gone.
abbrev relay : Relay
relay = (relay_create program 6000 request net).0

followed :
    Follows program texts calls client 4 [] relay false (relay_object_destroyed relay 2 net).0
unfolding relay_create attach create_reply_proxy create_proxy_to find_by_interface
followed = told 2 net begun

relay_create-RelaysBetween_example :
    Relays program texts calls client 4 [] false 1 9 5000 (relay_object_destroyed relay 2 net).0 net
relay_create-RelaysBetween_example =
    relay_create-RelaysBetween program texts calls client 4 [] 6000 request net net
      (extern_with true 0 []) false (relay_object_destroyed relay 2 net).0 (omega arith) imports
      followed

abbrev server : ExternServer
server = record {
  at = 7000;
  reply = proxy Iids.extern_r 2 1;
  fd = 3;
  timer = proxy Iids.timer 2 3;
  close_when_empty = true;
  exported = 4096;
  pconn = [];
}

accept_one-Accepts_example :
    (r : ExternServer × Sys ℕ) × (accept_one program.dtable 11 server sys ≡ some r)
    × Accepts 11 server sys r
accept_one-Accepts_example =
    accept_one-Accepts program.dtable 11 server sys
      (record { distinct = tt; linked = tt; sorted = tt }) (omega arith) (omega arith) (omega arith)
