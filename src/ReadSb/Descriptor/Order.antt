-- ===== src/ReadSb/Descriptor/Order.antt =====
-- The order of names that `strcmp` gives, and lists in that order.
use mwptools.Common.{
  ℕ, zero, suc, ◌≡◌, ◌<◌, Bool, true, false, ◌&&◌, ◌||◌, String, some, List, [], ◌∷◌, ltb, ◌==◌,
  all, get_elem?, arith, &&-true, get_elem?-all,
}
use mwptools.Common.CString.{codes}

abbrev pub bytes_ltb : List ℕ → List ℕ → Bool
bytes_ltb s [] = false
bytes_ltb [] (d ∷ t) = true
bytes_ltb (c ∷ s) (d ∷ t) = ltb c d || ((c == d) && bytes_ltb s t)

-- `strcmp(s, t) < 0`
abbrev pub strcmp_ltb : String → String → Bool
strcmp_ltb s t = bytes_ltb (codes s) (codes t)

abbrev pub is_ascending : List String → Bool
is_ascending [] = true
is_ascending (s ∷ ss) = all (strcmp_ltb s) ss && is_ascending ss

pub is_ascending-lt :
    (ss : List String) (j k : ℕ) {s t : String}
    → is_ascending ss ≡ true
    → j < k
    → get_elem? ss j ≡ some s
    → get_elem? ss k ≡ some t
    → strcmp_ltb s t ≡ true
is_ascending-lt [] j k h lt e f = ground arith
is_ascending-lt (x ∷ ss) j zero h lt e f = absurd (omega arith)
is_ascending-lt (x ∷ ss) zero (suc k) {s} {t} h lt e f =
    let x_is : x ≡ s = ground arith in get_elem?-all (strcmp_ltb s) ss k (ground arith) f
is_ascending-lt (x ∷ ss) (suc j) (suc k) h lt e f =
    is_ascending-lt ss j k (&&-true (all (strcmp_ltb x) ss) (is_ascending ss) h).1 (omega arith) e f
