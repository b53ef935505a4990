-- ===== src/Ports/Tests.antt =====
-- Devices that src/clib/poll_serials.c finds, and the theorems about them at concrete systems.
use mwptools.Common.{
  ℕ, ◌+◌, ◌≡◌, refl, true, false, ◌-◌, ◌%◌, Option, none, some, List, [], ◌∷◌, ◌++◌, keep, length,
  replicate, ◌==◌, if◌then◌else◌, arith, ◌⊎◌, length-replicate,
}
use mwptools.Common.Int.{pos, negsuc}
use mwptools.Common.CString.{codes, str_equal}
use mwptools.Common.Result.{ok, fault, past_end}
use mwptools.Common.Decimal.{decimal}
use mwptools.Ports.Devs.{paths}
use mwptools.Ports.Listing.{path, listed}
use mwptools.Ports.Darwin
use mwptools.Ports.Darwin.{
  counts, adds, check_ports-listed, check_ports-terminated, check_delete_name-adds,
}
use mwptools.Ports.Linux
use mwptools.Ports.Linux.{is_usb, only_acm, check_ports-acm}
use mwptools.Ports.FreeBsd
use mwptools.Ports.FreeBsd.{is_device, range, check_ports-devices}
use mwptools.Ports.Windows
use mwptools.Ports.Windows.{Value, Registry, Memory}
use mwptools.Ports.Windows.Values.{IsSized, entry, entries, values, check_ports-values}
use mwptools.Ports.Windows.Names.{check_insert_name-kinds, check_delete_name-entry}

abbrev blank : ℕ → List ℕ
blank n = replicate n 0

blank-sized : (n : ℕ) → length (blank n) ≡ n
blank-sized n = length-replicate n 0

abbrev usb : List ℕ
usb = codes "cu.usbmodem1"

abbrev bluetooth : List ℕ
bluetooth = codes "cu.Bluetooth-modem"

usb_adds : Darwin.adds usb ≡ true
unfolding Darwin.adds
usb_adds = refl

-- The second pass leaves out a name with a capital letter that the first pass counts.
capital_counts : Darwin.counts bluetooth ≡ true
unfolding Darwin.counts
capital_counts = refl

capital_not_added : Darwin.adds bluetooth ≡ false
unfolding Darwin.adds
capital_not_added = refl

check_ports-listed_example :
    Darwin.check_ports blank (some (usb ∷ [])) (some (usb ∷ bluetooth ∷ []))
    ≡ listed (length (keep counts (usb ∷ []))) (paths adds path (usb ∷ bluetooth ∷ []))
check_ports-listed_example =
    check_ports-listed blank (usb ∷ []) (usb ∷ bluetooth ∷ []) blank-sized (refl, (refl, tt))

check_ports-terminated_example :
    (Darwin.check_ports blank (some (usb ∷ bluetooth ∷ [])) (some (usb ∷ bluetooth ∷ [])) ≡ ok none)
    ⊎ ((m : ℕ) × (Darwin.check_ports blank
            (some (usb ∷ bluetooth ∷ []))
            (some (usb ∷ bluetooth ∷ []))
          ≡ ok (some (paths adds path (usb ∷ bluetooth ∷ []) ++ replicate (m + 1) none))))
check_ports-terminated_example =
    check_ports-terminated blank (usb ∷ bluetooth ∷ []) blank-sized (refl, (refl, tt))

usb_deletable : Darwin.check_delete_name (path usb) ≡ pos 0
usb_deletable = check_delete_name-adds usb usb_adds

abbrev ttys : List (List ℕ)
ttys = codes "ttyUSB0" ∷ codes "ttyACM0" ∷ codes "null" ∷ []

check_ports-acm_example : Linux.check_ports blank (some ttys) (some ttys) ≡ (
    if length (keep only_acm ttys) == 0
    then listed (length (keep is_usb ttys)) (paths is_usb path ttys)
    else fault past_end)
check_ports-acm_example = check_ports-acm blank ttys blank-sized (refl, (refl, (refl, tt)))

-- The character devices are /dev/cuaU0 and /dev/cuaU17.
abbrev stat : List ℕ → Option ℕ
stat name =
    if str_equal name (codes "/dev/cuaU0")
    then some 8576
    else if str_equal name (codes "/dev/cuaU17")
    then some 8576
    else if str_equal name (codes "/dev/cuaU2")
    then some 33188
    else none

check_ports-devices_example :
    let found = keep (is_device stat) (range 0 32) in
    FreeBsd.check_ports stat blank (blank 32) (blank 32)
    ≡ ok (if length found == 0 then none else some (FreeBsd.listed found))
check_ports-devices_example = check_ports-devices stat blank (blank 32) (blank 32) refl refl refl

abbrev com3 : Value
com3 = record { name = codes "\\Device\\BthModem0"; bytes = codes "COM3" ++ 0 ∷ [] }

abbrev reg : Registry
reg = record { opens = true; nvals = some 2; value = λ i. if i == 0 then some com3 else none }

abbrev memory : Memory
memory = record { malloc = blank; stack = λ i. blank 256 }

memory-IsSized : IsSized memory
memory-IsSized = record { malloc = blank-sized; stack = λ i. refl }

check_ports-values_example :
    Windows.check_ports reg memory
    ≡ ok (record {
      devs =
          if 2 == 0
          then none
          else some (entries (values reg 2 0) ++ replicate (2 - length (values reg 2 0) + 1) none);
      open_keys = 1;
    })
check_ports-values_example =
    check_ports-values reg memory memory-IsSized 2 refl refl
      (record { terminated = refl; short = omega arith; named = refl }, tt)

check_insert_name-kinds_example :
    (Windows.check_insert_name (codes "COM4 \\Device\\" ++ (codes "USBSER" ++ codes "000")) ≡ pos 1)
    × (Windows.check_insert_name (codes "\\Device\\" ++ (codes "BthModem" ++ decimal 13))
        ≡ (if 13 % 2 == 0 then negsuc 0 else pos 0))
check_insert_name-kinds_example =
    check_insert_name-kinds (codes "\\Device\\") (codes "COM4 \\Device\\") (codes "000") 13 refl
      refl (omega arith)

com3_deletable : Windows.check_delete_name (entry com3) ≡ pos 0
com3_deletable = check_delete_name-entry com3 (codes "3") (codes "BthModem0") refl refl
