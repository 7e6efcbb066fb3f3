-- ===== src/Occlient/Arguments.antt =====
-- The words behind a command of src/tools/occlient.cpp.
use hanfun_io_tivity.Prelude.{
  Bool, false, ◌||◌, List, [], ◌∷◌, ◌++◌, Option, none, some, if◌then◌else◌, ◌==◌,
}
use hanfun_io_tivity.Prelude.Bytes.{Bytes, codes, bytes_eq}
use hanfun_io_tivity.HanClient.Cstring.{has_prefix}
use hanfun_io_tivity.Occlient.{Format, cbor, vnd_ocf_cbor}

-- A word behind the ones so far.
abbrev pub add_query : Bytes → Bytes → Bytes
add_query [] w = w
add_query (c ∷ q) w = (c ∷ q) ++ b';' ∷ w

abbrev pub with_query : Bytes → Bytes → Bytes
with_query uri [] = uri
with_query uri (c ∷ q) = uri ++ b'?' ∷ (c ∷ q)

pub record Search : Type 0 where
  pub uri : Bytes
  pub query : Bytes
  pub format : Format

abbrev pub is_accept : Bytes → Bool
is_accept w = bytes_eq w (codes "Accept:")

-- The format that "Accept:" is followed by, if it is this one.
abbrev pub accept_format : Bytes → Format → Bytes → Search → Search
accept_format name format w q = if bytes_eq w name then record q { format = format } else q

-- A word of "find" that is not "Accept:"; no word is empty.
abbrev pub find_word : Bytes → Search → Search
find_word w q =
    if has_prefix (codes "/") w
    then record q { uri = w }
    else record q { query = add_query q.query w }

-- The words of "find"; a token behind the last is undefined.
unfoldable pub find_words : List Bytes → Search → Option Search
unfolding bytes_eq
find_words [] q = some q
find_words (w ∷ []) q = if is_accept w then none else some (find_word w q)
find_words (w ∷ f ∷ ws) q =
    let accepted = find_words ws (accept_format (codes "application/cbor") cbor f q) in
    let next = find_words (f ∷ ws) (find_word w q) in if is_accept w then accepted else next

abbrev pub get_word : Bytes → Search → Search
get_word w q = record q { query = add_query q.query w }

-- The words of "get" and "observe" behind the first.
unfoldable pub get_words : List Bytes → Search → Option Search
unfolding bytes_eq
get_words [] q = some q
get_words (w ∷ []) q = if is_accept w then none else some (get_word w q)
get_words (w ∷ f ∷ ws) q =
    let accepted =
      get_words ws (accept_format (codes "application/vnd.ocf+cbor") vnd_ocf_cbor f q) in
    let next = get_words (f ∷ ws) (get_word w q) in if is_accept w then accepted else next

abbrev pub has_equals : Bytes → Bool
has_equals [] = false
has_equals (c ∷ s) = (c == b'=') || has_equals s

-- The words of "post": the query and the body.
unfoldable pub post_words : List Bytes → Bytes → Bytes → Bytes × Bytes
post_words [] query body = (query, body)
post_words (w ∷ ws) query body =
    let asked = post_words ws (add_query query w) body in
    let said = post_words ws query (body ++ w) in if has_equals w then asked else said
