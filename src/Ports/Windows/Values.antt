-- ===== src/Ports/Windows/Values.antt =====
-- What `check_ports` of src/clib/poll_serials.c lists on Windows.
use mwptools.Common.{
  ℕ, zero, suc, ◌+◌, ◌-◌, ◌≤◌, ◌<◌, ◌≡◌, refl, ap, ◌∙◌, true, false, Option, none, some, List, [],
  ◌∷◌, ◌++◌, map, length, drop, All, replicate, ◌==◌, if◌then◌else◌, arith, Bool-cases,
  Option-cases, inl, inr, length-append, length-replicate,
}
use mathlib.Core.List.{append_assoc, append-nil}
use mwptools.Common.Result.{ok}
use mwptools.Common.Buffer.{
  text, overwrite, has_no_nul, has_no_nul-append, strcpy-append, text-append,
}
use mwptools.Ports.Devs.{filled, store-filled}
use mwptools.Ports.Windows.{
  Value, Registry, Memory, make_element, enumerate, list_values, check_ports,
}

-- The bytes in front of the first NUL.
abbrev pub string : List ℕ → List ℕ
string [] = []
string (c ∷ s) = let rest = string s in if c == 0 then [] else c ∷ rest

-- The data is a string that fits the array for it, and the name one without a NUL byte.
pub record IsString (v : Value) : Type 0 where
  pub terminated : has_no_nul v.bytes ≡ false
  pub short : length v.bytes ≤ 256
  pub named : has_no_nul v.name ≡ true

-- Memory blocks have the size that they are asked for.
pub record IsSized (m : Memory) : Type 0 where
  pub malloc : (n : ℕ) → length (m.malloc n) ≡ n
  pub stack : (i : ℕ) → length (m.stack i) ≡ 256

text-overwrite :
    (buf s : List ℕ)
    → has_no_nul s ≡ false
    → length s ≤ length buf
    → text (overwrite buf s) ≡ ok (string s)
text-overwrite buf [] h k = ground arith
text-overwrite [] (c ∷ s) h k = absurd (omega arith)
text-overwrite (b ∷ buf) (c ∷ s) h k = ground (arith, text-overwrite buf s)

length-string : (s : List ℕ) → has_no_nul s ≡ false → length (string s) < length s
length-string [] h = ground arith
length-string (c ∷ s) h = ground (arith, length-string s)

string-has_no_nul : (s : List ℕ) → has_no_nul (string s) ≡ true
string-has_no_nul [] = refl
string-has_no_nul (c ∷ s) = ground (arith, string-has_no_nul s)

-- `<data> <name>`
abbrev pub entry : Value → List ℕ
entry v = string v.bytes ++ b' ' ∷ v.name

make_element-ok :
    (m : Memory) (i : ℕ) (v : Value) → IsSized m → IsString v → make_element m i v ≡ ok (entry v)
unfolding make_element
make_element-ok m i v sized is =
    let element : List ℕ = m.malloc (length v.name + length v.bytes + 2) in
    let room : length (entry v) < length element = omega (
      arith,
      sized.malloc (length v.name + length v.bytes + 2),
      length-append (string v.bytes) (b' ' ∷ v.name),
      length-string v.bytes is.terminated,
    ) in
    let fits : length v.bytes ≤ length (m.stack i) = omega (arith, is.short, sized.stack i) in
    let clean : has_no_nul (b' ' ∷ v.name) ≡ true = rw is.named refl in
    rw
      (
        text-overwrite (m.stack i) v.bytes is.terminated fits,
        strcpy-append 0 [] (entry v) element refl room,
      )
      (text-append (entry v) _
        (has_no_nul-append (string v.bytes) (b' ' ∷ v.name) (string-has_no_nul v.bytes) clean))

abbrev followed : Option Value → List Value → List Value
followed none vs = []
followed (some v) vs = v ∷ vs

-- The values from an index on, up to the first that cannot be read.
abbrev pub values : Registry → ℕ → ℕ → List Value
values reg zero i = []
values reg (suc left) i = followed (reg.value i) (values reg left (i + 1))

abbrev pub entries : List Value → List (Option (List ℕ))
entries = map (λ v. some (entry v))

values-length : (reg : Registry) (left i : ℕ) → length (values reg left i) ≤ left
values-length reg zero i = omega arith
values-length reg (suc left) i = elim (Option-cases (reg.value i)) [
  | inl end ↦ rw (values, followed, end) (omega arith)
  | inr (v, e) ↦ rw (values, followed, e) (omega (arith, values-length reg left (i + 1)))
]

module _ (reg : Registry) (m : Memory) (sized : IsSized m) where
  enumerate-values :
      (left i : ℕ) (p r : List (Option (List ℕ)))
      → All IsString (values reg left i)
      → left ≤ length r
      → enumerate reg m left i (filled p r)
        ≡ ok (filled (p ++ entries (values reg left i)) (drop (length (values reg left i)) r))
  unfolding enumerate
  enumerate-values zero i p r strings room = rw append-nil refl
  enumerate-values (suc left) i p [] strings room = absurd (omega arith)
  enumerate-values (suc left) i p (x ∷ r) strings room = elim (Option-cases (reg.value i)) [
    | inl end ↦ rw (enumerate, end, append-nil) refl
    | inr (v, e) ↦
        let (here, there) : IsString v × All IsString (values reg left (i + 1)) = rw e at strings in
        rw (enumerate, e, make_element-ok m i v sized here, store-filled (entry v) x p r)
          (enumerate-values left (i + 1) (p ++ some (entry v) ∷ []) r there (omega arith)
            ∙ ap (λ q. ok (filled q (drop (length (values reg left (i + 1))) r)))
                (append_assoc p (some (entry v) ∷ []) (entries (values reg left (i + 1)))))
  ]

  drop-room :
      (k n : ℕ)
      → k ≤ n
      → drop k (replicate {A = Option (List ℕ)} (n + 1) none) ≡ replicate (n - k + 1) none
  drop-room zero n h = let e : n + 1 ≡ n - 0 + 1 = omega arith in ap (λ m. replicate m none) e
  drop-room (suc k) zero h = absurd (omega arith)
  drop-room (suc k) (suc n) h =
      let e : suc n + 1 ≡ suc (n + 1) = omega arith in
      let f : n - k + 1 ≡ suc n - suc k + 1 = omega arith in
      rw e (drop-room k n (omega arith) ∙ ap (λ m. replicate m none) f)

  list_values-some :
      (n : ℕ)
      → All IsString (values reg n 0)
      → list_values reg m (some n)
        ≡ ok (record {
          devs =
              if n == 0
              then none
              else some
                  (entries (values reg n 0) ++ replicate (n - length (values reg n 0) + 1) none);
          open_keys = 1;
        })
  unfolding list_values
  list_values-some n strings =
      let slots : List (Option (List ℕ)) = replicate (n + 1) none in
      let room : n ≤ length slots =
        omega (arith, length-replicate {A = Option (List ℕ)} (n + 1) none) in
      elim (Bool-cases (n == 0)) [
        | inl empty ↦ rw empty refl
        | inr some_values ↦
            rw
              (
                some_values,
                enumerate-values n 0 [] slots strings room,
                drop-room (length (values reg n 0)) n (values-length reg n 0),
              )
              refl
      ]

  -- When the key opens and gives its number of values, and the data of each value that can be read is
  -- a string of at most 256 bytes, the function runs without a fault. With no values it returns NULL;
  -- otherwise the array holds `<data> <name>` for each value up to the first that cannot be read, in
  -- order, and NULL pointers behind them, at least one. In both cases the key stays open.
  pub check_ports-values :
      (n : ℕ)
      → reg.opens ≡ true
      → reg.nvals ≡ some n
      → All IsString (values reg n 0)
      → check_ports reg m
        ≡ ok (record {
          devs =
              if n == 0
              then none
              else some
                  (entries (values reg n 0) ++ replicate (n - length (values reg n 0) + 1) none);
          open_keys = 1;
        })
  unfolding check_ports
  check_ports-values n opens nvals strings = rw (opens, nvals) (list_values-some n strings)
