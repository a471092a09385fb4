-- ===== src/Ipc/Wire/RoundTrip.antt =====
-- Extracting a string from a payload undoes appending it.
use duckpass.Ipc.Wire.{htonl_bytes, ntohl_bytes, append_string, extract_string}
use duckpass.Prelude.{
  ℕ, ◌+◌, ◌-◌, ◌%◌, ◌^◌, ◌<◌, true, false, ◌++◌, Bytes, length, length-append, drop, take-append,
  drop-append, drop_exact, ltb, le→ltb, append_assoc, ◌≡◌, refl, sym, ap, ◌∙◌, arith,
}

pub ntohl_bytes-htonl_bytes :
    (n : ℕ) (rest : Bytes) → n < 2 ^ 32 → ntohl_bytes (htonl_bytes n ++ rest) ≡ n
unfolding ntohl_bytes htonl_bytes
ntohl_bytes-htonl_bytes n rest h = omega arith

pub length-htonl_bytes : (n : ℕ) → length (htonl_bytes n) ≡ 4
unfolding htonl_bytes
length-htonl_bytes n = refl

pub length-append_string :
    (buf str : Bytes) → length (append_string buf str) ≡ length buf + 4 + length str
unfolding append_string
length-append_string buf str =
    rw
      (
        length-append (buf ++ htonl_bytes (length str % 2 ^ 32)) str,
        length-append buf (htonl_bytes (length str % 2 ^ 32)),
        length-htonl_bytes (length str % 2 ^ 32),
      )
      refl

append_whole :
    (buf str rest : Bytes)
    → append_string buf str ++ rest ≡ buf ++ (htonl_bytes (length str % 2 ^ 32) ++ (str ++ rest))
unfolding append_string
append_whole buf str rest =
    append_assoc (buf ++ htonl_bytes (length str % 2 ^ 32)) str rest
    ∙ append_assoc buf (htonl_bytes (length str % 2 ^ 32)) (str ++ rest)

-- A string of fewer than 2^32 bytes that was appended to a buffer is extracted from where it was
-- appended, whatever follows, and the offset moves behind it.
pub extract_string-append_string :
    (buf str rest out_str : Bytes)
    → length str < 2 ^ 32
    → extract_string (append_string buf str ++ rest) (length buf) out_str
      ≡ record { found = true; offset = length (append_string buf str); out_str = str }
unfolding extract_string
extract_string-append_string buf str rest out_str h =
    rw (size, whole, len_there, enough, room, after, take-append str rest)
      (ap (λ (n : ℕ). record { found = true; offset = n; out_str = str })
        (sym (length-append_string buf str)))
  where
    fits : length str % 2 ^ 32 ≡ length str
    fits = omega arith

    len : Bytes
    len = htonl_bytes (length str)

    whole : append_string buf str ++ rest ≡ buf ++ (len ++ (str ++ rest))
    whole = append_whole buf str rest ∙ rw fits refl

    size : length (append_string buf str ++ rest) ≡ length buf + 4 + length str + length rest
    size = length-append (append_string buf str) rest ∙ rw (length-append_string buf str) refl

    len_there : ntohl_bytes (drop (length buf) (buf ++ (len ++ (str ++ rest)))) ≡ length str
    len_there =
        rw (drop-append buf (len ++ (str ++ rest))) (ntohl_bytes-htonl_bytes (length str) _ h)

    enough : ltb (length buf + 4 + length str + length rest) (length buf + 4) ≡ false
    enough = le→ltb _ _ (omega arith)

    room : ltb (length buf + 4 + length str + length rest - (length buf + 4)) (length str) ≡ false
    room = le→ltb _ _ (omega arith)

    after : drop (length buf + 4) (buf ++ (len ++ (str ++ rest))) ≡ str ++ rest
    after = rw (sym (append_assoc buf len (str ++ rest))) (
        drop_exact (length buf + 4) (buf ++ len) (str ++ rest)
          (length-append buf len ∙ rw (length-htonl_bytes (length str)) refl))
