-- ===== src/Echo/Exact.antt =====
-- `read_all` and `write_all` of bin/app_layer_rtt/tcp_ping_receiver.c pass on whole packets, and the
-- echo loop ends with its script.
use starlink_tcp.Common.{
  ℕ, zero, suc, ◌+◌, ◌-◌, ◌%◌, ◌≤◌, ◌<◌, ◌≡◌, ◌^◌, arith, length, take, drop, length-append,
  take-drop, append_assoc, refl, ap, ◌∙◌, sym, List, [], ◌∷◌, ◌++◌, subst,
}
use starlink_tcp.Echo.{
  Recv, got, closed, interrupted, failed, Read, full, ended, broken, waiting, filled, read_all,
  Send, took, Write, sent, after, write_all,
}

-- What `recv` documents: it returns at most the bytes it was asked for.
abbrev pub Fits : ℕ → List Recv → Type 0
Fits zero script = Unit
Fits (suc left) [] = Unit
Fits (suc left) (got b bs ∷ script) =
    (suc (length bs) ≤ suc left) × Fits (suc left - suc (length bs)) script
Fits (suc left) (closed ∷ script) = Unit
Fits (suc left) (interrupted ∷ script) = Fits (suc left) script
Fits (suc left) (failed ∷ script) = Unit

-- All the bytes that arrive before the end of the stream or an error.
abbrev pub arrived : List Recv → List ℕ
arrived [] = []
arrived (got b bs ∷ script) = b ∷ bs ++ arrived script
arrived (closed ∷ script) = []
arrived (interrupted ∷ script) = arrived script
arrived (failed ∷ script) = []

-- What a reading of `len` bytes from a script should be: the next bytes, or nothing if fewer arrive.
abbrev pub IsExact : ℕ → List Recv → Read → Type 0
IsExact len script (full bs rest) = (length bs ≡ len) × (arrived script ≡ bs ++ arrived rest)
IsExact len script _ = length (arrived script) < len

fewer :
    (left b : ℕ) (bs rest : List ℕ)
    → suc (length bs) ≤ left
    → length rest < left - suc (length bs)
    → length (b ∷ bs ++ rest) < left
fewer left b bs rest h e = omega (arith, length-append bs rest)

filled-IsExact :
    (left b : ℕ) (bs : List ℕ) (script : List Recv) (r : Read)
    → suc (length bs) ≤ left
    → IsExact (left - suc (length bs)) script r
    → IsExact left (got b bs ∷ script) (filled (b ∷ bs) r)
unfolding filled
filled-IsExact left b bs script (full cs rest) h e = (
  omega (arith, length-append bs cs),
  ap (λ t. b ∷ t) (ap (λ t. bs ++ t) e.1 ∙ sym (append_assoc bs cs (arrived rest))),
)
filled-IsExact left b bs script ended h e = fewer left b bs (arrived script) h e
filled-IsExact left b bs script broken h e = fewer left b bs (arrived script) h e
filled-IsExact left b bs script waiting h e = fewer left b bs (arrived script) h e

skip-IsExact :
    (left : ℕ) (script : List Recv) (r : Read)
    → IsExact left script r
    → IsExact left (interrupted ∷ script) r
skip-IsExact left script (full bs rest) e = e
skip-IsExact left script ended e = e
skip-IsExact left script broken e = e
skip-IsExact left script waiting e = e

-- For a length below 2^64, and calls that return no more than they were asked for: `read_all`
-- returns exactly the bytes asked for, which are the next ones of the stream, whatever the sizes of
-- the single calls and the interruptions; or, where fewer than these arrive, an error or an end of
-- stream (or it waits).
pub read_all-IsExact :
    (len : ℕ) (script : List Recv)
    → len < 2 ^ 64
    → Fits len script
    → IsExact len script (read_all len script)
unfolding read_all
read_all-IsExact zero script l f = (refl, refl)
read_all-IsExact (suc left) [] l f = omega arith
read_all-IsExact (suc left) (got b bs ∷ script) l f =
    let exact : (suc left + 2 ^ 64 - suc (length bs)) % 2 ^ 64 ≡ suc left - suc (length bs) =
      omega arith in
    rw exact (
      filled-IsExact (suc left) b bs script _ f.0
        (read_all-IsExact (suc left - suc (length bs)) script (omega arith) f.1))
read_all-IsExact (suc left) (closed ∷ script) l f = omega arith
read_all-IsExact (suc left) (interrupted ∷ script) l f =
    skip-IsExact (suc left) script _ (read_all-IsExact (suc left) script l f)
read_all-IsExact (suc left) (failed ∷ script) l f = omega arith

-- What went out.
abbrev pub out_of : Write → List ℕ
out_of (sent bs rest) = bs
out_of (broken bs) = bs
out_of (waiting bs) = bs

-- What a writing of `bytes` should be.
abbrev pub IsPrefix : List ℕ → Write → Type 0
IsPrefix bytes (sent bs rest) = bs ≡ bytes
IsPrefix bytes w = (tail : List ℕ) × (out_of w ++ tail ≡ bytes)

after-IsPrefix :
    (bs tail : List ℕ) (w : Write) → IsPrefix tail w → IsPrefix (bs ++ tail) (after bs w)
unfolding after
after-IsPrefix bs tail (sent cs rest) h = ap (λ t. bs ++ t) h
after-IsPrefix bs tail (broken cs) h = (h.0, append_assoc bs cs h.0 ∙ ap (λ t. bs ++ t) h.1)
after-IsPrefix bs tail (waiting cs) h = (h.0, append_assoc bs cs h.0 ∙ ap (λ t. bs ++ t) h.1)

-- `write_all` sends the whole buffer, in order and once, whatever the sizes of the single calls and
-- the interruptions, or it fails or waits after a prefix of it.
pub write_all-IsPrefix :
    (bytes : List ℕ) (script : List Send) → IsPrefix bytes (write_all bytes script)
unfolding write_all
write_all-IsPrefix [] script = refl
write_all-IsPrefix (b ∷ bs) [] = (b ∷ bs, refl)
write_all-IsPrefix (b ∷ bs) (took zero ∷ script) = (b ∷ bs, refl)
write_all-IsPrefix (b ∷ bs) (took (suc n) ∷ script) =
    subst (λ t. IsPrefix t (write_all (b ∷ bs) (took (suc n) ∷ script)))
      (take-drop (suc n) (b ∷ bs))
      (after-IsPrefix (take (suc n) (b ∷ bs)) (drop n bs) _ (write_all-IsPrefix (drop n bs) script))
write_all-IsPrefix (b ∷ bs) (Send.interrupted ∷ script) = write_all-IsPrefix (b ∷ bs) script
write_all-IsPrefix (b ∷ bs) (Send.failed ∷ script) = (b ∷ bs, refl)
