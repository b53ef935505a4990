-- ===== src/Launch/Ends.antt =====
-- What `create_win_process` of src/common/winproc.c leaves open.
use mwptools.Common.{ℕ, ◌+◌, ◌≡◌, refl, Bool, true, false, if◌then◌else◌}
use mwptools.Launch.Create.{
  has_stdin, has_stdout, has_stderr, has_winspecial, Pipe, Launched, launch, create_win_process,
}

abbrev pub one_if : Bool → ℕ
one_if b = if b then 1 else 0

abbrev pub IsHandedOver : Bool → Bool → Pipe → Type 0
IsHandedOver asked returned p = (returned ≡ asked) × (p.parent ≡ asked) × (p.child ≡ false)

-- The ends after a launch for which the given streams were asked for.
abbrev pub IsLaunched : Bool → Bool → Bool → Bool → Launched → Type 0
IsLaunched created i o e r =
    IsHandedOver i r.sinp r.ends.stdin
    × IsHandedOver o r.sout r.ends.stdout
    × IsHandedOver e r.eout r.ends.stderr
    × (r.ends.nul_handles + one_if o + one_if e ≡ 2)
    × (r.ends.bad_closes ≡ (if created then 0 else one_if i + one_if o + one_if e))

launch-IsLaunched :
    (created i o e special : Bool) → IsLaunched created i o e (launch created i o e special)
unfolding launch
launch-IsLaunched true true true true special =
    ((refl, refl, refl), (refl, refl, refl), (refl, refl, refl), refl, refl)
launch-IsLaunched true true true false special =
    ((refl, refl, refl), (refl, refl, refl), (refl, refl, refl), refl, refl)
launch-IsLaunched true true false true special =
    ((refl, refl, refl), (refl, refl, refl), (refl, refl, refl), refl, refl)
launch-IsLaunched true true false false special =
    ((refl, refl, refl), (refl, refl, refl), (refl, refl, refl), refl, refl)
launch-IsLaunched true false true true special =
    ((refl, refl, refl), (refl, refl, refl), (refl, refl, refl), refl, refl)
launch-IsLaunched true false true false special =
    ((refl, refl, refl), (refl, refl, refl), (refl, refl, refl), refl, refl)
launch-IsLaunched true false false true special =
    ((refl, refl, refl), (refl, refl, refl), (refl, refl, refl), refl, refl)
launch-IsLaunched true false false false special =
    ((refl, refl, refl), (refl, refl, refl), (refl, refl, refl), refl, refl)
launch-IsLaunched false true true true special =
    ((refl, refl, refl), (refl, refl, refl), (refl, refl, refl), refl, refl)
launch-IsLaunched false true true false special =
    ((refl, refl, refl), (refl, refl, refl), (refl, refl, refl), refl, refl)
launch-IsLaunched false true false true special =
    ((refl, refl, refl), (refl, refl, refl), (refl, refl, refl), refl, refl)
launch-IsLaunched false true false false special =
    ((refl, refl, refl), (refl, refl, refl), (refl, refl, refl), refl, refl)
launch-IsLaunched false false true true special =
    ((refl, refl, refl), (refl, refl, refl), (refl, refl, refl), refl, refl)
launch-IsLaunched false false true false special =
    ((refl, refl, refl), (refl, refl, refl), (refl, refl, refl), refl, refl)
launch-IsLaunched false false false true special =
    ((refl, refl, refl), (refl, refl, refl), (refl, refl, refl), refl, refl)
launch-IsLaunched false false false false special =
    ((refl, refl, refl), (refl, refl, refl), (refl, refl, refl), refl, refl)

-- Whether or not the process can be created, the caller gets the open end of a pipe for exactly the
-- streams it asked for, and the other end is closed; one handle of `NUL` stays open for each of
-- stdout and stderr that it did not ask for. No end is closed twice when the process is created; when
-- it is not, one is for each stream that was asked for.
pub create_win_process-ends :
    (created : Bool) (flags : ℕ)
    → IsLaunched created
        (has_stdin flags)
        (has_stdout flags)
        (has_stderr flags)
        (create_win_process created flags)
unfolding create_win_process
create_win_process-ends created flags = launch-IsLaunched created _ _ _ (has_winspecial flags)
