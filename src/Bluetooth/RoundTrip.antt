-- ===== src/Bluetooth/RoundTrip.antt =====
-- That `_mwp_str2ba` of src/clib/btdev.c reads what is printed for an address.
use mwptools.Common.{
  ℕ, zero, suc, ◌+◌, ◌-◌, ◌*◌, ◌/◌, ◌%◌, ◌^◌, ◌≤◌, ◌<◌, ◌≡◌, refl, sym, ap, ap₂, ◌∙◌, true, false,
  Option, none, some, List, [], ◌∷◌, ◌++◌, length, All, replicate, ltb, ◌==◌, if◌then◌else◌, arith,
  lt→ltb, Bool-cases, inl, inr,
}
use mwptools.Common.CString.{codes}
use mwptools.Common.Strtol.{digit, digits, is_space, starts_with_digit, strtol, clamp, to_unsigned}
use mwptools.Bluetooth.Address.{octet, next, read_octets, str2ba}

-- The digit that stands for a number below 16.
unfoldable pub hex : ℕ → ℕ
hex d = if ltb d 10 then 48 + d else 55 + d

-- `XX:XX:..`, an octet of two digits each.
abbrev pub print_rest : List ℕ → List ℕ
print_rest [] = []
print_rest (b ∷ bs) = b':' ∷ hex (b / 16) ∷ hex (b % 16) ∷ print_rest bs

abbrev pub print : List ℕ → List ℕ
print [] = []
print (b ∷ bs) = hex (b / 16) ∷ hex (b % 16) ∷ print_rest bs

digit-hex : (d : ℕ) → d < 16 → digit 16 (hex d) ≡ some d
unfolding hex
digit-hex d h = ground arith

-- A byte that is a digit is no space, sign, colon or `x`.
record IsPlain (c : ℕ) : Type 0 where
  space : is_space c ≡ false
  minus : (c == b'-') ≡ false
  plus : (c == b'+') ≡ false
  small_x : (c == b'x') ≡ false
  large_x : (c == b'X') ≡ false
  colon : (c == b':') ≡ false

hex-IsPlain : (d : ℕ) → d < 16 → IsPlain (hex d)
unfolding hex
hex-IsPlain d h = record {
  space = ground arith;
  minus = ground arith;
  plus = ground arith;
  small_x = ground arith;
  large_x = ground arith;
  colon = ground arith;
}

digits-step :
    (acc c d : ℕ) (s : List ℕ)
    → digit 16 c ≡ some d
    → digits 16 acc (c ∷ s) ≡ digits 16 (acc * 16 + d) s
digits-step acc c d s h =
    ap (λ (o : Option ℕ). elim o [ none ↦ (acc, c ∷ s) | some e ↦ digits 16 (acc * 16 + e) s ]) h

digits-rest : (n : ℕ) (bs : List ℕ) → digits 16 n (print_rest bs) ≡ (n, print_rest bs)
digits-rest n [] = refl
digits-rest n (b ∷ bs) = refl

strtol-plain :
    (c d : ℕ) (s : List ℕ)
    → IsPlain c
    → IsPlain d
    → starts_with_digit 16 (c ∷ d ∷ s) ≡ true
    → strtol 16 (c ∷ d ∷ s) ≡ (clamp false (digits 16 0 (c ∷ d ∷ s)).0, (digits 16 0 (c ∷ d ∷ s)).1)
strtol-plain c d s p q h = elim (Bool-cases (c == b'0')) [
  | inl zero_first ↦ rw (p.space, p.minus, p.plus, zero_first, q.small_x, q.large_x, h) refl
  | inr other ↦ rw (p.space, p.minus, p.plus, other, h) refl
]

octet-print : (b : ℕ) (bs : List ℕ) → b < 256 → octet (print (b ∷ bs)) ≡ b
octet-print b bs small =
    let h : ℕ = b / 16 in
    let l : ℕ = b % 16 in
    let high : h < 16 = omega arith in
    let low : l < 16 = omega arith in
    let s : List ℕ = hex l ∷ print_rest bs in
    let starts : starts_with_digit 16 (hex h ∷ s) ≡ true =
      ap (λ (o : Option ℕ). elim o [ none ↦ false | some e ↦ true ]) (digit-hex h high) in
    let value : digits 16 0 (hex h ∷ s) ≡ (b, print_rest bs) =
      digits-step 0 (hex h) h s (digit-hex h high)
      ∙ digits-step (0 * 16 + h) (hex l) l (print_rest bs) (digit-hex l low)
      ∙ digits-rest ((0 * 16 + h) * 16 + l) bs
      ∙ (let whole : (0 * 16 + h) * 16 + l ≡ b = omega arith in
          ap (λ n. (n, print_rest bs)) whole) in
    let small63 : ltb b (2 ^ 63) ≡ true = lt→ltb b (2 ^ 63) (omega arith) in
    let same : b % 2 ^ 8 ≡ b = omega arith in
    ap (λ r. to_unsigned 8 r.0)
      (strtol-plain (hex h) (hex l) (print_rest bs) (hex-IsPlain h high) (hex-IsPlain l low) starts)
    ∙ ap (λ r. to_unsigned 8 (clamp false r.0)) value
    ∙ rw (small63, same) refl

next-print : (b c : ℕ) (bs : List ℕ) → b < 256 → next (print (b ∷ c ∷ bs)) ≡ print (c ∷ bs)
next-print b c bs small =
    let high : b / 16 < 16 = omega arith in
    let low : b % 16 < 16 = omega arith in
    rw ((hex-IsPlain (b / 16) high).colon, (hex-IsPlain (b % 16) low).colon) refl

next-last : (b : ℕ) → b < 256 → next (print (b ∷ [])) ≡ codes "00:00:00:00:00"
next-last b small =
    let high : b / 16 < 16 = omega arith in
    let low : b % 16 < 16 = omega arith in
    rw ((hex-IsPlain (b / 16) high).colon, (hex-IsPlain (b % 16) low).colon) refl

-- With nothing left of the text, the remaining octets are 0.
read_octets-zeros :
    (left : ℕ) (b : List ℕ)
    → left ≤ 5
    → read_octets left (codes "00:00:00:00:00") b ≡ replicate left 0 ++ b
unfolding read_octets
read_octets-zeros zero b h = refl
read_octets-zeros (suc zero) b h = refl
read_octets-zeros (suc (suc zero)) b h = refl
read_octets-zeros (suc (suc (suc zero))) b h = refl
read_octets-zeros (suc (suc (suc (suc zero)))) b h = refl
read_octets-zeros (suc (suc (suc (suc (suc zero))))) b h = refl
read_octets-zeros (suc (suc (suc (suc (suc (suc n)))))) b h = absurd (omega arith)

abbrev pub reverse_onto : List ℕ → List ℕ → List ℕ
reverse_onto [] b = b
reverse_onto (x ∷ xs) b = reverse_onto xs (x ∷ b)

read_octets-print :
    (x : ℕ) (xs : List ℕ) (more : ℕ) (b : List ℕ)
    → All (λ n. n < 256) (x ∷ xs)
    → more ≤ 5
    → read_octets (length xs + 1 + more) (print (x ∷ xs)) b
      ≡ replicate more 0 ++ reverse_onto (x ∷ xs) b
unfolding read_octets
read_octets-print x [] more b (small, _) h =
    let e : length {A = ℕ} [] + 1 + more ≡ suc more = omega arith in
    rw (e, octet-print x [] small, next-last x small) (read_octets-zeros more (x ∷ b) h)
read_octets-print x (y ∷ ys) more b (small, rest) h =
    let e : suc (length ys) + 1 + more ≡ suc (length ys + 1 + more) = omega arith in
    ap (λ n. read_octets n (print (x ∷ y ∷ ys)) b) e
    ∙ ap₂ (λ ptr v. read_octets (length ys + 1 + more) ptr (v ∷ b)) (next-print x y ys small)
        (octet-print x (y ∷ ys) small)
    ∙ read_octets-print y ys more (x ∷ b) rest h

-- An address of one to six octets is read octet by octet, the last one of the text first in the array;
-- the octets that are missing at the end of the text are 0.
pub str2ba-print :
    (x : ℕ) (xs : List ℕ)
    → All (λ n. n < 256) (x ∷ xs)
    → length xs ≤ 5
    → str2ba (print (x ∷ xs)) ≡ replicate (5 - length xs) 0 ++ reverse_onto (x ∷ xs) []
unfolding str2ba
str2ba-print x xs small h =
    let e : length xs + 1 + (5 - length xs) ≡ 6 = omega arith in
    ap (λ n. read_octets n (print (x ∷ xs)) []) (sym e)
    ∙ read_octets-print x xs (5 - length xs) [] small (omega arith)
