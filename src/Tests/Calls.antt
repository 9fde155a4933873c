-- ===== src/Tests/Calls.antt =====
-- Calls through the stubs of each interface.
use casycom.Base.{true, [], ◌∷◌, arith}
use casycom.Iids
use casycom.Protocol.Fields.{Delivers}
use casycom.Protocol.Timer
use casycom.Protocol.Io
use casycom.Protocol.Extern
use casycom.Protocol.ExternServer
use casycom.Protocol.Com
use casycom.Protocol.Com.Texts.{com_calls-Delivers}
use casycom.Protocol.Sockets.{via, open_calls-Delivers}

timer_calls-Delivers_example :
    Delivers
      (via Iids.timer 3 7)
      (b'u' ∷ b'i' ∷ b'x' ∷ [])
      Timer.timer_dispatch
      (Timer.watched 1025 5 2000)
      (Timer.watch (via Iids.timer 3 7) 1025 5 2000)
    × Delivers
        (via Iids.timer_r 7 3)
        (b'i' ∷ [])
        Timer.timer_r_dispatch
        (Timer.fired 5)
        (Timer.timer (via Iids.timer_r 7 3) 5)
timer_calls-Delivers_example =
    Timer.timer_calls-Delivers 3 7 1025 5 2000 (via Iids.timer_r 7 3) (omega arith) (omega arith)
      (omega arith)

io_calls-Delivers_example :
    Delivers
      (via Iids.io 3 7)
      (b'x' ∷ [])
      Io.io_dispatch
      (Io.read 4096)
      (Io.io_read (via Iids.io 3 7) 4096)
    × Delivers
        (via Iids.io 3 7)
        (b'x' ∷ [])
        Io.io_dispatch
        (Io.write 4096)
        (Io.io_write (via Iids.io 3 7) 4096)
    × Delivers
        (via Iids.io 3 7)
        (b'x' ∷ [])
        (Io.io_r_dispatch Io.both)
        (Io.was_read 4096)
        (Io.io_r_read (via Iids.io 3 7) 4096)
    × Delivers
        (via Iids.io 3 7)
        (b'x' ∷ [])
        (Io.io_r_dispatch Io.both)
        (Io.was_written 4096)
        (Io.io_r_written (via Iids.io 3 7) 4096)
    × Delivers
        (via Iids.io 3 7)
        (b'i' ∷ [])
        Io.fd_io_dispatch
        (Io.attached 5)
        (Io.attach (via Iids.io 3 7) 5)
io_calls-Delivers_example =
    Io.io_calls-Delivers (via Iids.io 3 7) 4096 5 (omega arith) (omega arith)

open_calls-Delivers_example :
    Delivers
      (via Iids.extern 3 7)
      (b'i' ∷ b'u' ∷ b'x' ∷ b'x' ∷ [])
      (Extern.extern_dispatch Iids.extern)
      (Extern.opened 5 1 4096 8192)
      (Extern.open_extern (via Iids.extern 3 7) 5 1 4096 8192)
    × Delivers
        (via Iids.extern_r 3 7)
        (b'x' ∷ [])
        (Extern.extern_r_dispatch Iids.extern_r true)
        (Extern.was_connected 4096)
        (Extern.connected (via Iids.extern_r 3 7) 4096)
    × Delivers
        (via Iids.extern_server 3 7)
        (b'x' ∷ b'i' ∷ b'b' ∷ [])
        (ExternServer.server_dispatch Iids.extern_server)
        (ExternServer.opened 5 8192 true)
        (ExternServer.open_server (via Iids.extern_server 3 7) 5 8192 true)
open_calls-Delivers_example =
    open_calls-Delivers 3 7 5 1 4096 8192 4096 true (omega arith) (omega arith) (omega arith)
      (omega arith) (omega arith)

-- "ab".
com_calls-Delivers_example :
    Delivers
      (via Iids.com_iid 3 7)
      (b's' ∷ [])
      (Com.com_dispatch true)
      (Com.error (b'a' ∷ b'b' ∷ []))
      (Com.error_message (via Iids.com_iid 3 7) (b'a' ∷ b'b' ∷ []))
    × Delivers
        (via Iids.com_iid 3 7)
        (b's' ∷ [])
        (Com.com_dispatch true)
        (Com.export (b'a' ∷ b'b' ∷ []))
        (Com.export_message (via Iids.com_iid 3 7) (b'a' ∷ b'b' ∷ []))
    × Delivers
        (via Iids.com_iid 3 7)
        []
        (Com.com_dispatch true)
        Com.delete
        (Com.delete_message (via Iids.com_iid 3 7))
com_calls-Delivers_example =
    com_calls-Delivers true 3 7 (b'a' ∷ b'b' ∷ []) (omega arith, (omega arith, tt)) (omega arith)
