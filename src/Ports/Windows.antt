-- ===== src/Ports/Windows.antt =====
-- `check_ports`, `check_insert_name` and `check_delete_name` of src/clib/poll_serials.c for Windows.
pub mod Names
pub mod Values
use mwptools.Common.{
  ℕ, zero, suc, ◌+◌, ◌%◌, Bool, true, false, ◌&&◌, Option, none, some, List, [], ◌∷◌, ◌++◌, length,
  drop, replicate, leb, ltb, ◌==◌, if◌then◌else◌,
}
use mwptools.Common.Int.{ℤ, pos, negsuc}
use mwptools.Common.Result.{Result, ok, ◌>>=◌}
use mwptools.Common.CString.{codes, starts_with, strstr}
use mwptools.Common.Strtol.{strtol, to_int}
use mwptools.Common.Buffer.{strcpy, text, overwrite}
use mwptools.Ports.Devs.{Devs, store}

-- A value of the key: its name, and the bytes of its data, the NUL included if it is stored.
pub record Value : Type 0 where
  pub name : List ℕ
  pub bytes : List ℕ

-- `SERIALCOMM`: whether `RegOpenKeyEx` succeeds, the number of values that `RegQueryInfoKey` gives,
-- and what `RegEnumValue` gives for an index; `none` where they fail.
pub record Registry : Type 0 where
  pub opens : Bool
  pub nvals : Option ℕ
  pub value : ℕ → Option Value

-- What the memory holds before it is written: `malloc(n)`, and the array `data` in each round.
pub record Memory : Type 0 where
  pub malloc : ℕ → List ℕ
  pub stack : ℕ → List ℕ

-- `sprintf(element, "%s %s", data, name)`
pub make_element : Memory → ℕ → Value → Result (List ℕ)
make_element m i v = do
  start ← text (overwrite (m.stack i) v.bytes)
  element ← strcpy 0 (start ++ b' ' ∷ v.name) (m.malloc (length v.name + length v.bytes + 2))
  text element

-- The rounds of the loop from `i` on, `left` of them.
pub enumerate : Registry → Memory → ℕ → ℕ → Devs → Result Devs
unfolding make_element
enumerate reg m zero i d = ok d
enumerate reg m (suc left) i d = elim (reg.value i) [
  | none ↦ ok d
  | some v ↦ make_element m i v >>= λ e. store e d >>= λ d'. enumerate reg m left (i + 1) d'
]

-- The array, or `none` for NULL, and how many keys stay open.
pub record Listed : Type 0 where
  pub devs : Option (List (Option (List ℕ)))
  pub open_keys : ℕ

pub list_values : Registry → Memory → Option ℕ → Result Listed
unfolding enumerate
list_values reg m none = ok (record { devs = none; open_keys = 1 })
list_values reg m (some nvals) =
    if nvals == 0
    then ok (record { devs = none; open_keys = 1 })
    else (enumerate reg m nvals 0 (record { slots = replicate (nvals + 1) none; j = 0 }) >>= λ d.
        ok (record { devs = some d.slots; open_keys = 1 }))

-- `RegCloseKey` is never called.
unfoldable pub check_ports : Registry → Memory → Result Listed
unfolding list_values
check_ports reg m =
    if reg.opens then list_values reg m reg.nvals else ok (record { devs = none; open_keys = 0 })

-- `atoi`
abbrev pub atoi : List ℕ → ℤ
atoi s = to_int (strtol 10 s).0

-- `(id & 1) == 0`
abbrev pub is_even : ℤ → Bool
is_even (pos n) = n % 2 == 0
is_even (negsuc n) = n % 2 == 1

-- What follows `BthModem`.
abbrev pub check_modem : List ℕ → ℤ
check_modem [] = negsuc 0
check_modem (c ∷ s) = if is_even (atoi (c ∷ s)) then negsuc 0 else pos 0

-- From what `strstr` finds for `USBSER` and for `BthModem`.
abbrev pub insert_where : Option (List ℕ) → Option (List ℕ) → ℤ
insert_where (some usb) modem = pos 1
insert_where none none = negsuc 0
insert_where none (some modem) = check_modem (drop 8 modem)

unfoldable pub check_insert_name : List ℕ → ℤ
check_insert_name s = insert_where (strstr s (codes "USBSER")) (strstr s (codes "BthModem"))

unfoldable pub check_delete_name : List ℕ → ℤ
check_delete_name s =
    if ltb 3 (length s) && starts_with (codes "COM") s
    then elim (strstr (drop 3 s) (codes " \\Device\\")) [ none ↦ negsuc 0 | some rest ↦ pos 0 ]
    else negsuc 0
