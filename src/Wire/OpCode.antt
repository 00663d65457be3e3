-- ===== src/Wire/OpCode.antt =====
-- tecnicofs_ex2/common/common.h: the operation codes of the requests.
use server_client.Common.{ℕ}

abbrev pub mount : ℕ
mount = 1

abbrev pub unmount : ℕ
unmount = 2

abbrev pub open_file : ℕ
open_file = 3

abbrev pub close_file : ℕ
close_file = 4

abbrev pub write_file : ℕ
write_file = 5

abbrev pub read_file : ℕ
read_file = 6

abbrev pub shutdown : ℕ
shutdown = 7
