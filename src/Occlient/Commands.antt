-- ===== src/Occlient/Commands.antt =====
-- The commands of src/tools/occlient.cpp and the lines of its input.
use hanfun_io_tivity.Prelude.{
  ℕ, true, List, [], ◌∷◌, ◌++◌, Option, none, some, if◌then◌else◌, ◌>>=◌, get_elem?,
}
use hanfun_io_tivity.Prelude.Bytes.{Bytes, codes, bytes_eq}
use hanfun_io_tivity.Stack.{DevAddr}
use hanfun_io_tivity.HanClient.Cstring.{tokens, is_blank}
use hanfun_io_tivity.Occlient.{
  cbor, vnd_ocf_cbor, discover, get, post, observe, ClientRequest, Client,
}
use hanfun_io_tivity.Occlient.Stoi.{stoi, stoi_any}
use hanfun_io_tivity.Occlient.Arguments.{with_query, find_words, get_words, post_words}

abbrev request : ClientRequest → Client → Client
request r c = record c { requests = c.requests ++ (r ∷ []) }

unfoldable pub do_find : List Bytes → Client → Option Client
do_find words c = do
  q ← find_words words (record { uri = codes "/oic/res"; query = []; format = vnd_ocf_cbor })
  some (
      request
        (record {
          method = discover;
          uri = with_query q.uri q.query;
          addr = none;
          payload = none;
          accept = some q.format;
        })
        c)

-- What the index of a resource stands for, or where `std::stoi` throws the word itself.
abbrev pub target_at : Bytes → Client → Option ℕ → Option (Bytes × Option DevAddr)
target_at w c none = some (w, none)
target_at w c (some i) = get_elem? c.resources i >>= λ r. some (r.uri, some r.addr)

-- The first word of "get".
unfoldable pub get_target : Bytes → Client → Option (Bytes × Option DevAddr)
get_target w c = target_at w c (stoi w)

unfoldable pub do_get : List Bytes → Client → Option Client
do_get [] c = none
do_get (w ∷ words) c = do
  target ← get_target w c
  q ← get_words words (record { uri = target.0; query = []; format = cbor })
  some (
      request
        (record {
          method = get;
          uri = with_query q.uri q.query;
          addr = target.1;
          payload = none;
          accept = some q.format;
        })
        c)

-- What makes a payload of a body: `ConvertJSONToCBOR` with its buffer, the result of OCRepPayloadCreate,
-- and what the pointer to it is behind OCParsePayload of some bytes, also where that fails: its result is
-- not read.
pub record Posting : Type 0 where
  pub convert_json : Bytes → Bytes
  pub rep_payload_create : Option ℕ
  pub parse_payload : Bytes → Option ℕ → Option ℕ

-- The payload, from the bytes of the buffer: without any there is none.
abbrev pub payload_of : Posting → Bytes → Option ℕ
payload_of p [] = none
payload_of p (b ∷ bytes) = p.parse_payload (b ∷ bytes) p.rep_payload_create

module _ (p : Posting) where
  unfoldable pub do_post : List Bytes → Client → Option Client
  do_post [] c = none
  do_post (w ∷ words) c = do
    i ← stoi w
    r ← get_elem? c.resources i
    let said = post_words words [] []
    some (
        request
          (record {
            method = post;
            uri = with_query r.uri said.0;
            addr = some r.addr;
            payload = payload_of p (p.convert_json said.1);
            accept = none;
          })
          c)

unfoldable pub do_observe : List Bytes → Client → Option Client
do_observe [] c = none
do_observe (w ∷ words) c = do
  i ← stoi w
  q ← get_words words (record { uri = []; query = []; format = cbor })
  r ← get_elem? c.resources i
  some (
      request
        (record {
          method = observe;
          uri = with_query r.uri q.query;
          addr = some r.addr;
          payload = none;
          accept = some q.format;
        })
        c)

unfoldable pub do_cancel : List Bytes → Client → Option Client
do_cancel [] c = none
do_cancel (w ∷ words) c =
    stoi_any w >>= λ handle. some (record c { cancelled = c.cancelled ++ (handle ∷ []) })

module _ (p : Posting) where
  -- "list" only prints, and nothing happens at "put", "delete" and other words.
  unfoldable pub handle_command : Bytes → List Bytes → Client → Option Client
  handle_command cmd words c =
      if bytes_eq cmd (codes "find")
      then do_find words c
      else if bytes_eq cmd (codes "get")
      then do_get words c
      else if bytes_eq cmd (codes "post")
      then do_post p words c
      else if bytes_eq cmd (codes "observe")
      then do_observe words c
      else if bytes_eq cmd (codes "cancel")
      then do_cancel words c
      else if bytes_eq cmd (codes "quit")
      then some (record c { quit = true })
      else some c

  -- The tokens of a line; without any only the usage is printed.
  abbrev pub handle_tokens : List Bytes → Client → Option Client
  handle_tokens [] c = some c
  handle_tokens (cmd ∷ words) c = handle_command cmd words c

  -- A line of the input.
  unfoldable pub handle_line : Bytes → Client → Option Client
  handle_line line c = handle_tokens (tokens is_blank line) c
