-- ===== src/OpenUds/Framing.antt =====
-- Frames that are written and read again: crates/ppb-server/src/pmp/openuds/protocol.rs.
use phira_plus_backend.Prelude.{
  ℕ, ◌+◌, ◌/◌, ◌%◌, ◌^◌, ◌≤◌, ◌<◌, ◌≡◌, ◌∙◌, refl, sym, ap, subst, true, some, List, [], ◌∷◌, ◌++◌,
  nat_eq, length, arith,
}
use mathlib.Core.Option
use phira_plus_backend.Json.{Value}
use phira_plus_backend.OpenUds.{
  max_payload_size, framed, JsonLibrary, to_le_bytes, from_le_bytes, encode, read_exact,
  parse_payload, read_payload, read_frame,
}

-- What the server relies on: the text of a value is not empty, is UTF-8, and reads as the value.
pub record PrintsFaithfully (lib : JsonLibrary) (value : Value) : Type 0 where
  pub not_empty : 1 ≤ length (lib.to_vec value)
  pub utf8 : lib.is_utf8 (lib.to_vec value) ≡ true
  pub read : lib.from_str (lib.to_vec value) ≡ some value

le_bytes-round :
    (n : ℕ)
    → n < 2 ^ 32
    → from_le_bytes (n % 256) (n / 256 % 256) (n / 65536 % 256) (n / 16777216 % 256) ≡ n
le_bytes-round n h = omega arith

read_exact-append : (xs ys : List ℕ) → read_exact (length xs) (xs ++ ys) ≡ some (xs, ys)
unfolding read_exact
read_exact-append [] ys = refl
read_exact-append (x ∷ xs) ys = ap (Option.map (λ r. (x ∷ r.0, r.1))) (read_exact-append xs ys)

read_payload-append :
    (lib : JsonLibrary) (value : Value) (n : ℕ) (rest : List ℕ)
    → PrintsFaithfully lib value
    → n ≡ length (lib.to_vec value)
    → length (lib.to_vec value) ≤ max_payload_size
    → read_payload lib n (lib.to_vec value ++ rest) ≡ framed (value, rest)
unfolding read_payload parse_payload
read_payload-append lib value n rest f e l =
    subst (λ m. read_payload lib m (lib.to_vec value ++ rest) ≡ framed (value, rest)) (sym e)
      (ground (arith, l, f.not_empty, f.utf8, f.read, read_exact-append (lib.to_vec value) rest))

-- A value whose text is at most 16 MiB is encoded, in four bytes more than its text, and a reader of
-- a stream that begins with the frame gets the value and leaves what follows it.
pub encode-read_frame :
    (lib : JsonLibrary) (value : Value) (rest : List ℕ)
    → PrintsFaithfully lib value
    → length (lib.to_vec value) ≤ max_payload_size
    → (frame : List ℕ) × (encode lib value ≡ framed frame)
      × (length frame ≡ 4 + length (lib.to_vec value))
      × (read_frame lib (frame ++ rest) ≡ framed (value, rest))
unfolding encode read_frame
encode-read_frame lib value rest f l =
    let small : length (lib.to_vec value) % 2 ^ 32 ≡ length (lib.to_vec value) = omega (arith, l) in
    (
      to_le_bytes (length (lib.to_vec value) % 2 ^ 32) ++ lib.to_vec value,
      ground (arith, small, l),
      omega arith,
      read_payload-append lib value _ rest f
          (le_bytes-round (length (lib.to_vec value) % 2 ^ 32) (omega arith) ∙ small) l,
    )

-- A text of 4 GiB and some bytes, at most 16 MiB more, is not refused: its frame names the length of
-- the excess alone.
encode-wraps :
    (lib : JsonLibrary) (value : Value) (excess : ℕ)
    → length (lib.to_vec value) ≡ 2 ^ 32 + excess
    → excess ≤ max_payload_size
    → encode lib value ≡ framed (to_le_bytes excess ++ lib.to_vec value)
unfolding encode
encode-wraps lib value excess e l =
    let wrapped : length (lib.to_vec value) % 2 ^ 32 ≡ excess = omega (arith, e, l) in
    rw wrapped (ground (arith, l))
