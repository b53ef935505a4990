-- ===== src/Ports/Windows/Names.antt =====
-- What `check_insert_name` and `check_delete_name` of src/clib/poll_serials.c answer on Windows.
use mwptools.Common.{
  ℕ, suc, ◌%◌, ◌^◌, ◌<◌, ◌≡◌, refl, sym, ap, ap₂, subst, ◌∙◌, Bool, true, not, none, some, List, [],
  ◌∷◌, ◌++◌, all, length, ltb, ◌==◌, if◌then◌else◌, arith, Bool-cases, inl, inr, length-append,
}
use mwptools.Common.Int.{pos, negsuc}
use mwptools.Common.CString.{codes, starts_with, strstr}
use mwptools.Common.Strtol.{to_int, to_int-small}
use mwptools.Common.Decimal.{decimal, strtol-decimal, decimal-digit, decimal-all}
use mwptools.Ports.Windows.{
  Value, atoi, is_even, check_modem, insert_where, check_insert_name, check_delete_name,
}
use mwptools.Ports.Windows.Values.{entry, string}

abbrev pub has_no : ℕ → List ℕ → Bool
has_no c = all (λ d. not (d == c))

-- A text without the first byte of another does not hold the other.
strstr-none : (s : List ℕ) (c : ℕ) (p : List ℕ) → has_no c s ≡ true → strstr s (c ∷ p) ≡ none
strstr-none [] c p h = refl
strstr-none (d ∷ s) c p h = ground (arith, strstr-none s c p)

-- Behind such a text the other is found at once.
strstr-append :
    (s : List ℕ) (c : ℕ) (p r : List ℕ)
    → has_no c s ≡ true
    → starts_with (c ∷ p) r ≡ true
    → strstr (s ++ r) (c ∷ p) ≡ some r
strstr-append [] c p [] h k = ground arith
strstr-append [] c p (d ∷ r) h k = rw k refl
strstr-append (d ∷ s) c p r h k = ground (arith, strstr-append s c p r)

-- A text that is somewhere in another is found.
strstr-finds :
    (s p r : List ℕ) → starts_with p r ≡ true → (t : List ℕ) × (strstr (s ++ r) p ≡ some t)
strstr-finds [] p [] h = ([], rw h refl)
strstr-finds [] p (d ∷ r) h = (d ∷ r, rw h refl)
strstr-finds (d ∷ s) p r h =
    let (t, e) = strstr-finds s p r h in
    elim (Bool-cases (starts_with p (d ∷ s ++ r))) [
      | inl here ↦ (d ∷ s ++ r, rw here refl)
      | inr later ↦ (t, rw later e)
    ]

has_no-append :
    (c : ℕ) (s t : List ℕ) → has_no c s ≡ true → has_no c t ≡ true → has_no c (s ++ t) ≡ true
has_no-append c [] t h k = k
has_no-append c (d ∷ s) t h k = ground (arith, has_no-append c s t)

-- A name whose bytes are neither `U` nor `B` up to `BthModem` and a number below 2^31 is left out
-- when the number is odd, and is put at the end when it is even.
check_insert_name-modem :
    (p : List ℕ) (n : ℕ)
    → has_no b'U' p ≡ true
    → has_no b'B' p ≡ true
    → n < 2 ^ 31
    → check_insert_name (p ++ (codes "BthModem" ++ decimal n))
      ≡ (if n % 2 == 0 then negsuc 0 else pos 0)
unfolding check_insert_name
check_insert_name-modem p n no_u no_b small =
    let (d, t, lt, e) = decimal-digit n (omega arith) in
    let value : atoi (decimal n) ≡ pos n =
      ap (λ r. to_int r.0) (strtol-decimal n (omega arith)) ∙ to_int-small n small in
    let no_u_all : has_no b'U' (p ++ (codes "BthModem" ++ decimal n)) ≡ true =
      has_no-append b'U' p (codes "BthModem" ++ decimal n) no_u
        (decimal-all (λ c. not (c == b'U')) (λ d small_d. ground arith) n) in
    let modem : check_modem (decimal n) ≡ (if n % 2 == 0 then negsuc 0 else pos 0) =
      subst (λ s. check_modem s ≡ (if is_even (atoi s) then negsuc 0 else pos 0)) (sym e) refl
      ∙ ap (λ id. if is_even id then negsuc 0 else pos 0) value in
    let found : strstr (p ++ (codes "BthModem" ++ decimal n)) (codes "BthModem")
        ≡ some (codes "BthModem" ++ decimal n) =
      strstr-append p b'B' (codes "thModem") (codes "BthModem" ++ decimal n) no_b refl in
    ap₂ insert_where
      (strstr-none (p ++ (codes "BthModem" ++ decimal n)) b'U' (codes "SBSER") no_u_all) found
    ∙ modem

-- A name with `USBSER` in it is put in front, whatever else it holds.
check_insert_name-usb : (p t : List ℕ) → check_insert_name (p ++ (codes "USBSER" ++ t)) ≡ pos 1
unfolding check_insert_name
check_insert_name-usb p t =
    let (r, e) = strstr-finds p (codes "USBSER") (codes "USBSER" ++ t) refl in
    ap (λ usb. insert_where usb (strstr (p ++ (codes "USBSER" ++ t)) (codes "BthModem"))) e

-- A name with `USBSER` in it is put in front, whatever else it holds. A name whose bytes are neither
-- `U` nor `B` up to `BthModem` and a number below 2^31 is left out when the number is odd, and is put
-- at the end when it is even.
pub check_insert_name-kinds :
    (p q t : List ℕ) (n : ℕ)
    → has_no b'U' p ≡ true
    → has_no b'B' p ≡ true
    → n < 2 ^ 31
    → (check_insert_name (q ++ (codes "USBSER" ++ t)) ≡ pos 1)
      × (check_insert_name (p ++ (codes "BthModem" ++ decimal n))
          ≡ (if n % 2 == 0 then negsuc 0 else pos 0))
check_insert_name-kinds p q t n no_u no_b small =
    (check_insert_name-usb q t, check_insert_name-modem p n no_u no_b small)

-- A port `COM..` whose value names a device, as `check_ports` lists it, may be removed.
pub check_delete_name-entry :
    (v : Value) (port device : List ℕ)
    → string v.bytes ≡ codes "COM" ++ port
    → v.name ≡ codes "\\Device\\" ++ device
    → check_delete_name (entry v) ≡ pos 0
unfolding check_delete_name
check_delete_name-entry v port device is_com named =
    let (r, e) = strstr-finds port (codes " \\Device\\") (codes " \\Device\\" ++ device) refl in
    rw (is_com, named, e)
      (let long : ltb 3 (suc (suc (suc (length (port ++ (codes " \\Device\\" ++ device))))))
            ≡ true =
          ground (arith, length-append port (codes " \\Device\\" ++ device)) in
        rw long refl)
