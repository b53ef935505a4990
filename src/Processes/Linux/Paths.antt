-- ===== src/Processes/Linux/Paths.antt =====
-- The paths that `pid_from_name` of src/common/pid_from_name.c builds on Linux, and the commands that
-- it reads into the same array.
use mwptools.Common.{
  ℕ, ◌+◌, ◌-◌, ◌≤◌, ◌<◌, ◌≡◌, refl, sym, ap, ◌∙◌, Bool, true, false, not, all, ◌==◌, Option, none,
  some, List, [], ◌∷◌, ◌++◌, length, take, drop, set, if◌then◌else◌, arith, length-append,
  length-set, Bool-cases, inl, inr,
}
use mathlib.Core.List.{append_assoc, append-nil}
use mwptools.Common.Int.{ℤ}
use mwptools.Common.CString.{codes}
use mwptools.Common.Result.{ok}
use mwptools.Common.Strtol.{to_int}
use mwptools.Common.Buffer.{
  strcpy, text, line, has_no_nul, is_line, text-append, line-append, strcpy-append,
  overwrite-append, length-overwrite, take-all, length-drop, has_no_nul-append,
}
use mwptools.Processes.Pids.{Holds, add-ok}
use mwptools.Processes.Linux.{System, Search, is_nil, read, check_uid, check_command, look_at}

abbrev pub proc : List ℕ
proc = codes "/proc/"

abbrev pub uid_map : List ℕ
uid_map = codes "uid_map"

abbrev pub comm : List ℕ
comm = codes "/comm"

abbrev pub has_no_slash : List ℕ → Bool
has_no_slash = all (λ c. not (c == b'/'))

-- The name of a directory entry.
pub record IsEntry (name : List ℕ) : Type 0 where
  pub short : length name ≤ 255
  pub no_nul : has_no_nul name ≡ true
  pub no_slash : has_no_slash name ≡ true

-- The numbers that one entry adds.
abbrev pub report : System → Option (List ℕ) → ℤ → List ℤ
report sys none pid = []
report sys (some s) pid = if sys.matches s then to_int pid ∷ [] else []

is_nil-append : (s : List ℕ) (c : ℕ) (t : List ℕ) → is_nil (s ++ c ∷ t) ≡ false
is_nil-append [] c t = refl
is_nil-append (d ∷ s) c t = refl

pub check_command-ok :
    (sys : System) (pid : ℤ) (s : List ℕ) (f : Search) {pids : List ℤ}
    → is_line s ≡ true
    → length s < 64
    → length f.buf ≡ 4096
    → Holds pids f.pids
    → (f' : Search) × (check_command sys pid (some (s ++ b'\n' ∷ [])) f ≡ ok f')
      × (length f'.buf ≡ 4096)
      × Holds (pids ++ report sys (some s) pid) f'.pids
unfolding check_command
check_command-ok sys pid s f {pids} clean short size h =
    let bytes : List ℕ = s ++ b'\n' ∷ [] in
    let fits : length bytes ≤ 4096 = omega (arith, length-append s (b'\n' ∷ [])) in
    let buf' : List ℕ = read bytes f.buf in
    let shape : buf' ≡ s ++ b'\n' ∷ drop (length bytes) f.buf = rw (
      take-all 4096 bytes fits,
      overwrite-append bytes f.buf (omega arith),
      append_assoc s (b'\n' ∷ []) (drop (length bytes) f.buf),
    ) in
    let reads : line buf' ≡ ok s = rw shape (line-append s (drop (length bytes) f.buf) clean) in
    let not_nil : is_nil bytes ≡ false = is_nil-append s b'\n' [] in
    let b'' : List ℕ = set buf' (length s) 0 in
    let size'' : length b'' ≡ 4096 =
      length-set buf' (length s) 0 ∙ length-overwrite f.buf (take 4096 bytes) ∙ size in
    elim (Bool-cases (sys.matches s)) [
      | inl yes' ↦
          let (p, e, h') = add-ok (to_int pid) h in
          (record { buf = b''; pids = p }, rw (not_nil, reads, yes', e), size'', rw yes' h')
      | inr no' ↦ (record f { buf = b'' }, rw (not_nil, reads, no'), size'', rw (no', append-nil) h)
    ]

pub check_command-none : (sys : System) (pid : ℤ) (f : Search) → check_command sys pid none f ≡ ok f
unfolding check_command
check_command-none sys pid f = refl

-- The two paths that the function builds in its array.
pub path-ok :
    (sys : System) (name : List ℕ) (pid : ℤ) (f : Search)
    → IsEntry name
    → length f.buf ≡ 4096
    → sys.read_file ((proc ++ name) ++ uid_map) ≡ none
    → (buf : List ℕ) × (length buf ≡ 4096)
      × (look_at sys name pid f
          ≡ check_command sys pid (sys.read_file ((proc ++ name) ++ comm)) (record f { buf = buf }))
unfolding look_at
path-ok sys name pid f entry size absent =
    let r1 : List ℕ = 0 ∷ drop 7 f.buf in
    let r2 : List ℕ = 0 ∷ drop (length name + 1) r1 in
    let tail : List ℕ = 0 ∷ drop 8 r2 in
    let r3 : List ℕ = uid_map ++ tail in
    let p : List ℕ = proc ++ name in
    let buf : List ℕ = (p ++ comm) ++ 0 ∷ drop 6 r3 in
    let size1 : length r1 ≡ 4090 = omega (arith, size, length-drop 7 f.buf) in
    let size2 : length r2 ≡ 4090 - length name =
      omega (arith, size1, entry.short, length-drop (length name + 1) r1) in
    let size_tail : length tail ≡ 4083 - length name =
      omega (arith, size2, entry.short, length-drop 8 r2) in
    let end : 6 + length name ≡ length p = sym (length-append proc name) in
    let s1 : strcpy 0 proc f.buf ≡ ok (proc ++ r1) =
      strcpy-append 0 [] proc f.buf refl (omega (arith, size)) in
    let s2 : strcpy 6 name (proc ++ r1) ≡ ok (p ++ r2) =
      strcpy-append 6 proc name r1 refl (omega (arith, size1, entry.short)) in
    let s3 : strcpy (6 + length name) uid_map (p ++ r2) ≡ ok ((p ++ uid_map) ++ tail) =
      strcpy-append (6 + length name) p uid_map r2 end (omega (arith, size2, entry.short)) in
    let s4 : strcpy (6 + length name) comm ((p ++ uid_map) ++ tail) ≡ ok buf =
      ap (strcpy (6 + length name) comm) (append_assoc p uid_map tail)
      ∙ strcpy-append (6 + length name) p comm r3 end (omega (arith, size_tail, entry.short)) in
    let clean : has_no_nul p ≡ true = has_no_nul-append proc name refl entry.no_nul in
    let t3 : text ((p ++ uid_map) ++ tail) ≡ ok (p ++ uid_map) =
      text-append (p ++ uid_map) (drop 8 r2) (has_no_nul-append p uid_map clean refl) in
    let t5 : text buf ≡ ok (p ++ comm) =
      text-append (p ++ comm) (drop 6 r3) (has_no_nul-append p comm clean refl) in
    (
      buf,
      omega (
        arith,
        size_tail,
        entry.short,
        end,
        length-append (p ++ comm) (0 ∷ drop 6 r3),
        length-append p comm,
        length-drop 6 r3,
        length-append uid_map tail,
      ),
      rw (s1, s2, s3, t3, absent, check_uid, s4, t5),
    )
