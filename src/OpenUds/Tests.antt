-- ===== src/OpenUds/Tests.antt =====
-- A frame and a byte after it.
use phira_plus_backend.Prelude.{ℕ, ◌+◌, ◌≡◌, refl, arith, true, some, List, [], ◌∷◌, ◌++◌, length}
use phira_plus_backend.Json.{object, end}
use phira_plus_backend.OpenUds.{JsonLibrary, encode, framed, read_frame}
use phira_plus_backend.OpenUds.Framing.{PrintsFaithfully, encode-read_frame}

abbrev lib : JsonLibrary
lib = record {
  to_vec = λ v. b'{' ∷ b'}' ∷ [];
  is_utf8 = λ s. true;
  from_str = λ s. some (object end);
}

lib-PrintsFaithfully : PrintsFaithfully lib (object end)
lib-PrintsFaithfully = record { not_empty = omega arith; utf8 = refl; read = refl }

encode-read_frame_example :
    (frame : List ℕ) × (encode lib (object end) ≡ framed frame)
    × (length frame ≡ 4 + 2)
    × (read_frame lib (frame ++ (7 ∷ [])) ≡ framed (object end, 7 ∷ []))
encode-read_frame_example =
    encode-read_frame lib (object end) (7 ∷ []) lib-PrintsFaithfully (omega arith)
