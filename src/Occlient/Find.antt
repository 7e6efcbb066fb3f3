-- ===== src/Occlient/Find.antt =====
-- The command "find" of src/tools/occlient.cpp.
use hanfun_io_tivity.Prelude.{true, List, [], ◌∷◌, ◌++◌, some, none, all, ◌≡◌, refl, ap, ◌∙◌}
use hanfun_io_tivity.Prelude.Bytes.{Bytes, codes, bytes_eq}
use hanfun_io_tivity.Occlient.{Client, discover, vnd_ocf_cbor}
use hanfun_io_tivity.Occlient.Arguments.{Search, with_query}
use hanfun_io_tivity.Occlient.Commands.{
  Posting, do_find, handle_command, handle_tokens, handle_line,
}
use hanfun_io_tivity.Occlient.Words.{
  are_names, is_name, print_words, tokens-print_words, join, is_asked, find_words-join,
}

-- A line handles its command with its words.
pub handle_line-print_words :
    (p : Posting) (cmd : Bytes) (ws : List Bytes) (c : Client)
    → is_name cmd ≡ true
    → are_names ws ≡ true
    → handle_line p (cmd ++ print_words ws) c ≡ handle_command p cmd ws c
unfolding handle_line
handle_line-print_words p cmd ws c h k =
    ap (λ t. handle_tokens p t c) (tokens-print_words cmd ws h k)

-- A line "find" with words asks the discovery for all of them, joined by semicolons; without words it
-- asks for every resource.
handle_line-find :
    (p : Posting) (ws : List Bytes) (c : Client)
    → are_names ws ≡ true
    → all is_asked ws ≡ true
    → handle_line p (codes "find" ++ print_words ws) c
      ≡ some (record c {
        requests =
            c.requests
            ++ ((record {
              method = discover;
              uri = with_query (codes "/oic/res") (join ws);
              addr = none;
              payload = none;
              accept = some vnd_ocf_cbor;
            })
                ∷ []);
      })
unfolding handle_command do_find bytes_eq
handle_line-find p ws c h k =
    let start : Search = record { uri = codes "/oic/res"; query = []; format = vnd_ocf_cbor } in
    handle_line-print_words p (codes "find") ws c refl h
    ∙ (rw (find_words-join ws start h k refl) refl)
