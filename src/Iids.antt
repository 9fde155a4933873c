-- ===== src/Iids.antt =====
-- The addresses of the library's own interfaces (`iid_t`), which the code only compares: distinct,
-- and not null.
use casycom.Base.{ℕ}

abbrev pub null : ℕ
null = 0

abbrev pub app : ℕ
app = 1

abbrev pub timer : ℕ
timer = 2

abbrev pub timer_r : ℕ
timer_r = 3

abbrev pub io : ℕ
io = 4

abbrev pub io_r : ℕ
io_r = 5

abbrev pub fd_io : ℕ
fd_io = 6

abbrev pub com_iid : ℕ
com_iid = 7

abbrev pub extern : ℕ
extern = 8

abbrev pub extern_r : ℕ
extern_r = 9

abbrev pub extern_server : ℕ
extern_server = 10
