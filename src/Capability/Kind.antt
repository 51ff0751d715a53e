-- ===== src/Capability/Kind.antt =====
-- `argus_capability_type_t` of src/capability_abi.h.
use argusos_uefi_v.Base.{ℕ}

abbrev pub empty : ℕ
empty = 0

abbrev pub clock : ℕ
clock = 1

abbrev pub input : ℕ
input = 2

abbrev pub surface : ℕ
surface = 3

abbrev pub ipc : ℕ
ipc = 4

abbrev pub anonymous_stream : ℕ
anonymous_stream = 5

abbrev pub raw_network : ℕ
raw_network = 6
