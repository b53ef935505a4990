-- ===== src/Environment/Locale.antt =====
-- `get_user_locale` of src/clib/getloc.c, on POSIX systems and on Windows.
use mwptools.Common.{ℕ, ◌+◌, ◌≡◌, refl, true, Option, none, some, List, [], ◌∷◌, ◌++◌, length}
use mathlib.Core.List.{append_assoc}
use mwptools.Common.CString.{codes}
use mwptools.Common.Result.{Result, ok, ◌>>=◌}
use mwptools.Common.Buffer.{store, text, has_no_nul, store-terminated, text-append}

-- The values of `LANG` and `LC_ALL`.
unfoldable pub get_user_locale_posix : Option (List ℕ) → Option (List ℕ) → List ℕ
get_user_locale_posix (some lang) lc_all = lang
get_user_locale_posix none (some lc_all) = lc_all
get_user_locale_posix none none = codes "C"

-- The bytes of the name in UTF-8, with its NUL, where there is one, and the bytes that `malloc`
-- returns.
unfoldable pub get_user_locale_windows : Option (List ℕ) → (ℕ → List ℕ) → Result (List ℕ)
get_user_locale_windows none malloc = ok (codes "C")
get_user_locale_windows (some bytes) malloc =
    store 0 bytes (malloc (length bytes + 1)) >>= store (length bytes) (0 ∷ []) >>= text

-- `LC_ALL` decides only where `LANG` is not set.
lang_first :
    (lang : List ℕ) (lc_all : Option (List ℕ)) → get_user_locale_posix (some lang) lc_all ≡ lang
unfolding get_user_locale_posix
lang_first lang lc_all = refl

-- On Windows, when `malloc` returns as many bytes as it is asked for and the system knows the user's
-- locale, the result is its name in UTF-8, which the system gives with one NUL, at its end: nothing is
-- written past the array, whose text ends inside it, and the second NUL that the code adds is not part
-- of the name.
pub get_user_locale_windows-name :
    (malloc : ℕ → List ℕ) (name : List ℕ)
    → ((n : ℕ) → length (malloc n) ≡ n)
    → has_no_nul name ≡ true
    → get_user_locale_windows (some (name ++ 0 ∷ [])) malloc ≡ ok name
unfolding get_user_locale_windows
get_user_locale_windows-name malloc name sized clean =
    let bytes : List ℕ = name ++ 0 ∷ [] in
    rw
      (
        store-terminated bytes (malloc (length bytes + 1)) (sized (length bytes + 1)),
        append_assoc name (0 ∷ []) (0 ∷ []),
      )
      (text-append name (0 ∷ []) clean)
