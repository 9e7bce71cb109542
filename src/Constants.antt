-- ===== src/Constants.antt =====
-- src/constants.rs
use screech.Base.{ℕ}

abbrev pub psklen : ℕ
psklen = 32

abbrev pub cipherkeylen : ℕ
cipherkeylen = 32

abbrev pub taglen : ℕ
taglen = 16

abbrev pub maxhashlen : ℕ
maxhashlen = 64

abbrev pub maxblocklen : ℕ
maxblocklen = 128

abbrev pub maxdhlen : ℕ
maxdhlen = 56

abbrev pub maxmsglen : ℕ
maxmsglen = 65535
