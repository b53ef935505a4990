-- ===== src/Serial/Transfer.antt =====
-- `read_serial` and `get_error_text` of src/clib/rserial.c on POSIX systems.
use mwptools.Common.{
  ℕ, zero, suc, ◌%◌, ◌^◌, ◌≤◌, ◌<◌, ◌≡◌, refl, true, Option, none, some, List, [], length, take,
  ltb, leb, if◌then◌else◌, arith, Bool-cases, inl, inr, length-take,
}
use mwptools.Common.Int.{ℤ, pos, negsuc}
use mwptools.Common.CString.{codes}
use mwptools.Common.Result.{Result, ok, fault, past_end, ◌>>=◌}
use mwptools.Common.Strtol.{to_unsigned, to_int, to_int-small}
use mwptools.Common.Buffer.{overwrite, strcpy, text, strcpy-append, strcpy-full}

-- An `int` as a `size_t`.
abbrev pub to_size : ℤ → ℕ
to_size n = to_unsigned 64 n

-- `nb` when `read` is called: `queued` is what `FIONREAD` stores, or `none` where it fails.
abbrev pub request : Option ℤ → ℕ → ℤ
request none buflen = to_int (pos buflen)
request (some nb) buflen = if ltb buflen (to_size nb) then to_int (pos buflen) else nb

-- `read` copies at most as many of the bytes that have come as it is asked for; more than the buffer
-- holds would be written past its end. The result is the number of bytes and the buffer; a read that
-- fails is left out.
unfoldable pub read_serial : Option ℤ → List ℕ → ℕ → List ℕ → Result (ℕ × List ℕ)
read_serial queued bytes buflen buffer =
    let got = take (to_size (request queued buflen)) bytes in
    if leb (length got) (length buffer)
    then ok (length got, overwrite buffer got)
    else fault past_end

request-bounded :
    (queued : Option ℤ) (buflen : ℕ) → buflen < 2 ^ 31 → to_size (request queued buflen) ≤ buflen
request-bounded none buflen h =
    let same : buflen % 2 ^ 64 ≡ buflen = omega arith in
    rw (to_int-small buflen h, same) (omega arith)
request-bounded (some nb) buflen h =
    let same : buflen % 2 ^ 64 ≡ buflen = omega arith in
    elim (Bool-cases (ltb buflen (to_size nb))) [
      | inl more ↦ rw (more, to_int-small buflen h, same) (omega arith)
      | inr fits ↦ rw fits (ground arith)
    ]

-- Whatever number of queued bytes the driver reports, a negative one included, a read into a buffer
-- of fewer than 2^31 bytes stays inside it, and returns at most its length.
pub read_serial-bounded :
    (queued : Option ℤ) (bytes : List ℕ) (buflen : ℕ) (buffer : List ℕ)
    → length buffer ≡ buflen
    → buflen < 2 ^ 31
    → (n : ℕ) × (buffer' : List ℕ) × (read_serial queued bytes buflen buffer ≡ ok (n, buffer'))
      × (n ≤ buflen)
unfolding read_serial
read_serial-bounded queued bytes buflen buffer size small =
    let want : ℕ = to_size (request queued buflen) in
    let few : length (take want bytes) ≤ buflen =
      omega (arith, length-take want bytes, request-bounded queued buflen small) in
    let fits : leb (length (take want bytes)) (length buffer) ≡ true = ground arith in
    (length (take want bytes), overwrite buffer (take want bytes), rw fits refl, few)

abbrev pub generr : List ℕ
generr = codes "Operation failed: the log may have more detail"

-- The argument in front stands for `strerror_r`, which is given an empty text and writes at most
-- `buflen` bytes.
unfoldable pub get_error_text : (ℤ → List ℕ → List ℕ) → ℤ → List ℕ → Result (List ℕ)
get_error_text strerror_r (pos zero) buf = strcpy 0 generr buf >>= text
get_error_text strerror_r (pos (suc n)) buf =
    strcpy 0 [] buf >>= λ b. text (strerror_r (pos (suc n)) b)
get_error_text strerror_r (negsuc n) buf = strcpy 0 [] buf >>= λ b. text (strerror_r (negsuc n) b)

-- Without an error number the text is the general one, whose length the code does not compare with
-- that of the buffer: it is written past the end of a buffer of fewer than 47 bytes.
pub get_error_text-zero :
    (strerror_r : ℤ → List ℕ → List ℕ) (buf : List ℕ)
    → get_error_text strerror_r (pos 0) buf
      ≡ (if ltb (length buf) 47 then fault past_end else ok generr)
unfolding get_error_text
get_error_text-zero strerror_r buf = elim (Bool-cases (ltb (length buf) 47)) [
  | inl small ↦ rw (strcpy-full 0 generr buf (ground arith), small) refl
  | inr large ↦ rw (strcpy-append 0 [] generr buf refl (ground arith), large) refl
]
