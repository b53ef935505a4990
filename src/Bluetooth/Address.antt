-- ===== src/Bluetooth/Address.antt =====
-- `_mwp_str2ba` of src/clib/btdev.c.
use mwptools.Common.{ℕ, zero, suc, Option, none, some, List, [], ◌∷◌, drop}
use mwptools.Common.CString.{codes, strchr}
use mwptools.Common.Strtol.{strtol, to_unsigned}

-- `(uint8_t)strtol(ptr, NULL, 16)`
abbrev pub octet : List ℕ → ℕ
octet ptr = to_unsigned 8 (strtol 16 ptr).0

-- `if (!(ptr = strchr(ptr, ':'))) ptr = ":00:00:00:00:00"; ptr++;`
abbrev pub or_zeros : Option (List ℕ) → List ℕ
or_zeros none = codes ":00:00:00:00:00"
or_zeros (some rest) = rest

abbrev pub next : List ℕ → List ℕ
next ptr = drop 1 (or_zeros (strchr ptr b':'))

-- The rounds of the loop, `left` of them. The array is written from its end on, so that the last
-- argument is the part written so far. Where `ptr` is after the last round does not matter.
unfoldable pub read_octets : ℕ → List ℕ → List ℕ → List ℕ
read_octets zero ptr b = b
read_octets (suc left) ptr b = read_octets left (next ptr) (octet ptr ∷ b)

unfoldable pub str2ba : List ℕ → List ℕ
unfolding read_octets
str2ba str = read_octets 6 str []
