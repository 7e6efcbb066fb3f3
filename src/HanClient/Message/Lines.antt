-- ===== src/HanClient/Message/Lines.antt =====
-- The lines of a datagram: what `Message::pack` writes, as the tokens that `strtok` finds in it.
use hanfun_io_tivity.Prelude.{
  ◌≡◌, refl, ◌≢◌, true, List, [], ◌∷◌, ◌++◌, Option, some, none, arith, append_assoc, ap, ◌∙◌,
}
use hanfun_io_tivity.Prelude.Bytes.{Bytes, is_text}
use hanfun_io_tivity.HanClient.Cstring.{
  tokens, is_crlf, is_word, add_token, tokens-word, tokens-delim,
}
use hanfun_io_tivity.HanClient.Message.{crlf}
use hanfun_io_tivity.HanClient.Message.Pack.{service_text}

-- A line that survives: not empty, and free of NUL, CR and LF.
pub record IsLine (w : Bytes) : Type 0 where
  pub text : is_text w ≡ true
  pub word : is_word is_crlf w ≡ true
  pub filled : w ≢ []

abbrev pub AreLines : List Bytes → Type 0
AreLines [] = Unit
AreLines (l ∷ ls) = IsLine l × AreLines ls

abbrev pub join_lines : List Bytes → Bytes
join_lines [] = []
join_lines (l ∷ ls) = l ++ (crlf ++ join_lines ls)

pub is_text-append : (s t : Bytes) → is_text s ≡ true → is_text t ≡ true → is_text (s ++ t) ≡ true
is_text-append [] t h k = k
is_text-append (c ∷ s) t h k = ground (arith, is_text-append s t)

pub is_word-append :
    (s t : Bytes)
    → is_word is_crlf s ≡ true
    → is_word is_crlf t ≡ true
    → is_word is_crlf (s ++ t) ≡ true
is_word-append [] t h k = k
is_word-append (c ∷ s) t h k = ground (arith, is_word-append s t)

pub is_text-join_lines : (ls : List Bytes) → AreLines ls → is_text (join_lines ls) ≡ true
is_text-join_lines [] h = refl
is_text-join_lines (l ∷ ls) h =
    is_text-append l (crlf ++ join_lines ls) h.0.text (is_text-join_lines ls h.1)

add_token_filled : (w : Bytes) (ts : List Bytes) → w ≢ [] → add_token w ts ≡ w ∷ ts
unfolding add_token
add_token_filled [] ts h = absurd (h refl)
add_token_filled (c ∷ w) ts h = refl

tokens-line : (w s : Bytes) → IsLine w → tokens is_crlf (w ++ (crlf ++ s)) ≡ w ∷ tokens is_crlf s
tokens-line w s h = rw (
  tokens-word is_crlf w 13 (10 ∷ s) h.word refl,
  tokens-delim is_crlf 10 s refl,
  add_token_filled w (tokens is_crlf s) h.filled,
)

tokens-join_lines : (ls : List Bytes) → AreLines ls → tokens is_crlf (join_lines ls ++ crlf) ≡ ls
tokens-join_lines [] h = unfold tokens in refl
tokens-join_lines (l ∷ ls) h =
    simp append_assoc (rw (tokens-line l (join_lines ls ++ crlf) h.0, tokens-join_lines ls h.1))

pub tokens-join_lines_bare : (ls : List Bytes) → AreLines ls → tokens is_crlf (join_lines ls) ≡ ls
tokens-join_lines_bare [] h = unfold tokens in refl
tokens-join_lines_bare (l ∷ ls) h =
    rw (tokens-line l (join_lines ls) h.0, tokens-join_lines_bare ls h.1)

-- The first line, in front of the command.
abbrev pub service_lines : Option Bytes → List Bytes
service_lines none = []
service_lines (some s) = (b'[' ∷ (s ++ b']' ∷ [])) ∷ []

tokens-command :
    (c : Bytes) (ls : List Bytes)
    → IsLine c
    → AreLines ls
    → tokens is_crlf (c ++ (crlf ++ (join_lines ls ++ crlf))) ≡ c ∷ ls
tokens-command c ls hc hl = rw (tokens-line c (join_lines ls ++ crlf) hc, tokens-join_lines ls hl)

pub tokens-datagram :
    (svc : Option Bytes) (c : Bytes) (ls : List Bytes)
    → AreLines (service_lines svc)
    → IsLine c
    → AreLines ls
    → tokens is_crlf (service_text svc ++ (c ++ (crlf ++ (join_lines ls ++ crlf))))
      ≡ service_lines svc ++ c ∷ ls
tokens-datagram none c ls hs hc hl = tokens-command c ls hc hl
tokens-datagram (some s) c ls hs hc hl =
    let rest : Bytes = c ++ (crlf ++ (join_lines ls ++ crlf)) in
    rw (append_assoc s (b']' ∷ crlf) rest, ← append_assoc s (b']' ∷ []) (crlf ++ rest))
      (tokens-line (b'[' ∷ (s ++ b']' ∷ [])) rest hs.0
        ∙ ap (λ ts. (b'[' ∷ (s ++ b']' ∷ [])) ∷ ts) (tokens-command c ls hc hl))

pub is_text-datagram :
    (svc : Option Bytes) (c : Bytes) (ls : List Bytes)
    → AreLines (service_lines svc)
    → IsLine c
    → AreLines ls
    → is_text (service_text svc ++ (c ++ (crlf ++ (join_lines ls ++ crlf)))) ≡ true
is_text-datagram svc c ls hs hc hl = is_text-append (service_text svc) _ (first svc hs) (
    is_text-append c _ hc.text
      (is_text-append (join_lines ls) crlf (is_text-join_lines ls hl) refl))
  where
    first : (v : Option Bytes) → AreLines (service_lines v) → is_text (service_text v) ≡ true
    first none h = refl
    first (some s) h =
        let line : is_text ((s ++ b']' ∷ []) ++ crlf) ≡ true =
          is_text-append (s ++ b']' ∷ []) crlf h.0.text refl in
        rw (append_assoc s (b']' ∷ []) crlf) at line
