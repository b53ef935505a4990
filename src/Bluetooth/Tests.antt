-- ===== src/Bluetooth/Tests.antt =====
-- Addresses and connections of src/clib/btdev.c, and the theorems about them at concrete values.
use mwptools.Common.{
  ℕ, ◌+◌, ◌-◌, ◌≡◌, refl, true, false, List, [], ◌∷◌, ◌++◌, length, replicate, if◌then◌else◌, arith,
}
use mwptools.Common.CString.{codes}
use mwptools.Bluetooth.Address.{str2ba}
use mwptools.Bluetooth.RoundTrip.{print, reverse_onto, hex, str2ba-print}
use mwptools.Bluetooth.Connect.{Process, Calls, connect_bt_device, connect_bt_device-open_fds}

abbrev octets : List ℕ
octets = 30 ∷ 180 ∷ 5 ∷ 255 ∷ []

printed : print (0 ∷ octets) ≡ codes "00:1E:B4:05:FF"
unfolding hex
printed = refl

str2ba-print_example :
    str2ba (print (0 ∷ octets)) ≡ replicate (5 - length octets) 0 ++ reverse_onto (0 ∷ octets) []
str2ba-print_example =
    str2ba-print 0 octets
      (omega arith, (omega arith, (omega arith, (omega arith, (omega arith, tt))))) (omega arith)

abbrev refused : Calls
refused = record { socket = true; socket_errno = 0; connect = false; connect_errno = 111 }

abbrev process : Process
process = record { open_fds = 3; sigint_blocked = true; address = [] }

connect_bt_device-open_fds_example :
    let (connected, lasterr, p') = connect_bt_device refused (codes "00:1E:B4:05:FF:00") process in
    (p'.open_fds ≡ (if connected then process.open_fds + 1 else process.open_fds))
    × (connected ≡ (if refused.socket then refused.connect else false))
    × (p'.address
        ≡ (if refused.socket then str2ba (codes "00:1E:B4:05:FF:00") else process.address))
    × (p'.sigint_blocked ≡ (if refused.socket then false else process.sigint_blocked))
connect_bt_device-open_fds_example =
    connect_bt_device-open_fds refused (codes "00:1E:B4:05:FF:00") process
