-- ===== src/Classes/Address.antt =====
-- The addresses of the factories and of their dtables, which the code only compares: distinct, and
-- not null.
use casycom.Base.{ℕ}

abbrev pub fd_io : ℕ
fd_io = 1

abbrev pub timer : ℕ
timer = 2

abbrev pub extern : ℕ
extern = 3

abbrev pub com_relay : ℕ
com_relay = 4

abbrev pub extern_server : ℕ
extern_server = 5
