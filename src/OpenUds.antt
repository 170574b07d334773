-- ===== src/OpenUds.antt =====
-- The frames between the server and PMP: crates/ppb-server/src/pmp/openuds/protocol.rs. A stream is
-- the list of its bytes until it closes. The printing and parsing of JSON and the check of UTF-8 are
-- parameters.
mod Framing
mod Tests
use phira_plus_backend.Prelude.{
  ℕ, zero, suc, ◌+◌, ◌*◌, ◌/◌, ◌%◌, ◌^◌, Bool, true, false, not, Option, none, some, List, [], ◌∷◌,
  ◌++◌, ◌==◌, nat_eq, length, ltb, if◌then◌else◌,
}
use mathlib.Core.Option
use phira_plus_backend.Json.{Value}

-- 16 MiB.
abbrev pub max_payload_size : ℕ
max_payload_size = 16777216

pub data ProtocolError : Type 0 where
  payload_too_large : ℕ → ProtocolError
  invalid_length_prefix invalid_utf8 invalid_json io : ProtocolError

pub data FrameResult {ℓ} (A : Type ℓ) : Type ℓ where
  framed : A → FrameResult A
  broken : ProtocolError → FrameResult A

-- `serde_json::to_vec` of a value, which succeeds, `str::from_utf8` and `serde_json::from_str`.
pub record JsonLibrary : Type 0 where
  pub to_vec : Value → List ℕ
  pub is_utf8 : List ℕ → Bool
  pub from_str : List ℕ → Option Value

-- `u32::to_le_bytes` and `from_le_bytes`.
abbrev pub to_le_bytes : ℕ → List ℕ
to_le_bytes n = n % 256 ∷ n / 256 % 256 ∷ n / 65536 % 256 ∷ n / 16777216 % 256 ∷ []

abbrev pub from_le_bytes : ℕ → ℕ → ℕ → ℕ → ℕ
from_le_bytes a b c d = a + 256 * b + 65536 * c + 16777216 * d

-- `encode`; the length is cut to 32 bits before it is tested.
pub encode : JsonLibrary → Value → FrameResult (List ℕ)
encode lib value =
    let payload = lib.to_vec value in
    let len = length payload % 2 ^ 32 in
    if ltb max_payload_size len
    then broken (payload_too_large len)
    else framed (to_le_bytes len ++ payload)

-- `read_exact`: so many bytes and the rest of the stream.
pub read_exact : ℕ → List ℕ → Option (List ℕ × List ℕ)
read_exact zero stream = some ([], stream)
read_exact (suc n) [] = none
read_exact (suc n) (b ∷ stream) = Option.map (λ r. (b ∷ r.0, r.1)) (read_exact n stream)

pub parse_payload : JsonLibrary → List ℕ → List ℕ → FrameResult (Value × List ℕ)
parse_payload lib payload rest =
    if not (lib.is_utf8 payload) then broken invalid_utf8 else elim (lib.from_str payload) [
      | none ↦ broken invalid_json
      | some value ↦ framed (value, rest)
    ]

pub read_payload : JsonLibrary → ℕ → List ℕ → FrameResult (Value × List ℕ)
unfolding read_exact parse_payload
read_payload lib payload_len stream =
    if payload_len == 0
    then broken invalid_length_prefix
    else if ltb max_payload_size payload_len
    then broken (payload_too_large payload_len)
    else elim (read_exact payload_len stream) [
      | none ↦ broken io
      | some read ↦ parse_payload lib read.0 read.1
    ]

-- `read_frame_async`: the value of a frame and the rest of the stream.
pub read_frame : JsonLibrary → List ℕ → FrameResult (Value × List ℕ)
unfolding read_payload
read_frame lib (a ∷ b ∷ c ∷ d ∷ stream) = read_payload lib (from_le_bytes a b c d) stream
read_frame lib _ = broken io
