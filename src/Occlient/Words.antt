-- ===== src/Occlient/Words.antt =====
-- The words of a line of src/tools/occlient.cpp, and the query that they make.
use hanfun_io_tivity.Prelude.{
  ℕ, Bool, true, false, not, ◌&&◌, List, [], ◌∷◌, ◌++◌, some, all, append-nil, append_assoc, ◌≡◌,
  refl, sym, ap, ◌∙◌, arith,
}
use hanfun_io_tivity.Prelude.Bytes.{Bytes, codes}
use hanfun_io_tivity.HanClient.Cstring.{
  tokens, split, split-word, add_token, is_word, is_blank, tokens-word, has_prefix,
}
use hanfun_io_tivity.Occlient.Arguments.{
  Search, is_accept, add_query, find_words, get_word, get_words,
}

-- A word is not empty and has no blank.
abbrev pub is_name : Bytes → Bool
is_name [] = false
is_name (c ∷ w) = is_word is_blank (c ∷ w)

abbrev pub are_names : List Bytes → Bool
are_names = all is_name

-- The words of a line behind the command.
unfoldable pub print_words : List Bytes → Bytes
print_words [] = []
print_words (w ∷ ws) = 32 ∷ (w ++ print_words ws)

pub tokens-print_words :
    (cmd : Bytes) (ws : List Bytes)
    → is_name cmd ≡ true
    → are_names ws ≡ true
    → tokens is_blank (cmd ++ print_words ws) ≡ cmd ∷ ws
unfolding print_words
tokens-print_words [] ws h k = cc
tokens-print_words (c ∷ cmd) [] h k =
    unfold tokens split add_token in
    rw (split-word is_blank (c ∷ cmd) [] h) (ap (λ t. t ∷ []) (append-nil (c ∷ cmd)))
tokens-print_words (c ∷ cmd) (w ∷ ws) h k =
    let first : is_name w ≡ true = ground arith in
    let rest : are_names ws ≡ true = ground arith in
    tokens-word is_blank (c ∷ cmd) 32 (w ++ print_words ws) h refl
    ∙ ap (add_token (c ∷ cmd)) (tokens-print_words w ws first rest)
    ∙ (unfold add_token in refl)

-- The words with a semicolon between each two.
abbrev behind : List Bytes → Bytes
behind [] = []
behind (w ∷ ws) = b';' ∷ (w ++ behind ws)

abbrev pub join : List Bytes → Bytes
join [] = []
join (w ∷ ws) = w ++ behind ws

abbrev pub add_queries : List Bytes → Bytes → Bytes
add_queries [] q = q
add_queries (w ∷ ws) q = add_queries ws (add_query q w)

add_queries-behind :
    (ws : List Bytes) (c : ℕ) (q : Bytes) → add_queries ws (c ∷ q) ≡ (c ∷ q) ++ behind ws
add_queries-behind [] c q = sym (append-nil (c ∷ q))
add_queries-behind (w ∷ ws) c q =
    add_queries-behind ws c (q ++ b';' ∷ w) ∙ append_assoc (c ∷ q) (b';' ∷ w) (behind ws)

pub add_queries-join : (ws : List Bytes) → are_names ws ≡ true → add_queries ws [] ≡ join ws
add_queries-join [] h = refl
add_queries-join ([] ∷ ws) h = cc
add_queries-join ((c ∷ w) ∷ ws) h = add_queries-behind ws c w

-- A word that "find" puts in its query.
abbrev pub is_asked : Bytes → Bool
is_asked w = not (is_accept w) && not (has_prefix (codes "/") w)

find_words-add :
    (ws : List Bytes) (q : Search)
    → all is_asked ws ≡ true
    → find_words ws q ≡ some (record q { query = add_queries ws q.query })
unfolding find_words
find_words-add [] q h = refl
find_words-add (w ∷ []) q h =
    let no_accept : is_accept w ≡ false = ground arith in
    let no_uri : has_prefix (codes "/") w ≡ false = ground arith in rw (no_accept, no_uri) refl
find_words-add (w ∷ f ∷ ws) q h =
    let no_accept : is_accept w ≡ false = ground arith in
    let no_uri : has_prefix (codes "/") w ≡ false = ground arith in
    let rest : all is_asked (f ∷ ws) ≡ true = ground arith in
    rw (no_accept, no_uri) (find_words-add (f ∷ ws) (get_word w q) rest)

get_words-add :
    (ws : List Bytes) (q : Search)
    → all (λ w. not (is_accept w)) ws ≡ true
    → get_words ws q ≡ some (record q { query = add_queries ws q.query })
unfolding get_words
get_words-add [] q h = refl
get_words-add (w ∷ []) q h = let no_accept : is_accept w ≡ false = ground arith in rw no_accept refl
get_words-add (w ∷ f ∷ ws) q h =
    let no_accept : is_accept w ≡ false = ground arith in
    let rest : all (λ x. not (is_accept x)) (f ∷ ws) ≡ true = ground arith in
    rw no_accept (get_words-add (f ∷ ws) (get_word w q) rest)

pub find_words-join :
    (ws : List Bytes) (q : Search)
    → are_names ws ≡ true
    → all is_asked ws ≡ true
    → q.query ≡ []
    → find_words ws q ≡ some (record q { query = join ws })
find_words-join ws q n h e =
    find_words-add ws q h
    ∙ ap (λ t. some (record q { query = t })) (ap (add_queries ws) e ∙ add_queries-join ws n)

pub get_words-join :
    (ws : List Bytes) (q : Search)
    → are_names ws ≡ true
    → all (λ w. not (is_accept w)) ws ≡ true
    → q.query ≡ []
    → get_words ws q ≡ some (record q { query = join ws })
get_words-join ws q n h e =
    get_words-add ws q h
    ∙ ap (λ t. some (record q { query = t })) (ap (add_queries ws) e ∙ add_queries-join ws n)
