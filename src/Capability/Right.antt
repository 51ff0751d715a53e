-- ===== src/Capability/Right.antt =====
-- The flags `ARGUS_CAP_RIGHT_*` of src/capability_abi.h.
use argusos_uefi_v.Base.{ℕ}

abbrev pub read : ℕ
read = 1

abbrev pub write : ℕ
write = 2

abbrev pub wait : ℕ
wait = 4

abbrev pub present : ℕ
present = 8

abbrev pub send : ℕ
send = 16

abbrev pub receive : ℕ
receive = 32

abbrev pub connect : ℕ
connect = 64
