-- ===== src/Environment/Tests.antt =====
-- What src/clib/getloc.c, src/common/posix_psmisc.c and src/clib/mwp_glinfo.c return in some cases.
use mwptools.Common.{◌≡◌, refl, [], ◌∷◌, ◌++◌, replicate, length-replicate, true, false, none, some}
use mwptools.Common.CString.{codes}
use mwptools.Common.Result.{ok}
use mwptools.Environment.Locale.{
  get_user_locale_posix, get_user_locale_windows, get_user_locale_windows-name,
}
use mwptools.Environment.Status.{parse_wstatus}
use mwptools.Environment.Graphics.{get_glinfo, untouched}

-- Everywhere else LC_ALL comes before LANG.
lang_over_lc_all :
    get_user_locale_posix (some (codes "en_GB")) (some (codes "de_DE")) ≡ codes "en_GB"
unfolding get_user_locale_posix
lang_over_lc_all = refl

get_user_locale_windows-name_example :
    get_user_locale_windows (some (codes "en-GB" ++ 0 ∷ [])) (λ n. replicate n 7)
    ≡ ok (codes "en-GB")
get_user_locale_windows-name_example =
    get_user_locale_windows-name (λ n. replicate n 7) (codes "en-GB") (λ n. length-replicate n 7)
      refl

exited : parse_wstatus 768 true ≡ (true, some 3)
unfolding parse_wstatus
exited = refl

killed : parse_wstatus 9 true ≡ (false, some 0)
unfolding parse_wstatus
killed = refl

-- Without the driver's function nothing is written.
no_strings : get_glinfo (record { path = true; opens = true; strings = none }) ≡ untouched
unfolding get_glinfo
no_strings = refl
