-- ===== src/Occlient/Post.antt =====
-- The command "post" of src/tools/occlient.cpp.
use hanfun_io_tivity.Prelude.{Bool, true, false, List, [], ◌∷◌, ◌++◌, if◌then◌else◌}
use hanfun_io_tivity.Prelude.Bytes.{Bytes}
use hanfun_io_tivity.Occlient.Arguments.{has_equals}
use hanfun_io_tivity.Occlient.Json.{Json}

-- The words with an equals sign, or without.
abbrev pub select : Bool → List Bytes → List Bytes
select b [] = []
select true (w ∷ ws) = if has_equals w then w ∷ select true ws else select true ws
select false (w ∷ ws) = if has_equals w then select false ws else w ∷ select false ws

abbrev pub concat : List Bytes → Bytes
concat [] = []
concat (w ∷ ws) = w ++ concat ws
