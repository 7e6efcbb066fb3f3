-- ===== src/Plugin/Words.antt =====
-- The words of the lines that src/samples/hanfun_bridge.cpp prints.
use hanfun_io_tivity.Prelude.{
  ℕ, suc, Bool, true, false, List, [], ◌∷◌, ◌++◌, take, drop, append_assoc, ◌≡◌, ◌≢◌, refl, ap, ◌∙◌,
  arith,
}
use hanfun_io_tivity.Prelude.Bytes.{Bytes, codes, is_text}
use hanfun_io_tivity.HanClient.Cstring.{tokens, split, add_token, is_word, tokens-word}
use hanfun_io_tivity.HanClient.Number.{is_space}
use hanfun_io_tivity.Plugin.{decimal_text, bool_text, virtual_text, exec_line}
use hanfun_io_tivity.Plugin.Number.{is_digits, decimal_text-digits}

-- A word that survives in a line: not empty, without white space and NUL.
pub record IsWord (w : Bytes) : Type 0 where
  pub word : is_word is_space w ≡ true
  pub text : is_text w ≡ true
  pub filled : w ≢ []

add_token-filled : (w : Bytes) (ts : List Bytes) → w ≢ [] → add_token w ts ≡ w ∷ ts
unfolding add_token
add_token-filled [] ts h = absurd (h refl)
add_token-filled (c ∷ w) ts h = refl

-- A word in front of white space.
pub tokens-IsWord :
    (w : Bytes) (c : ℕ) (s : Bytes)
    → IsWord w
    → is_space c ≡ true
    → tokens is_space (w ++ c ∷ s) ≡ w ∷ tokens is_space s
tokens-IsWord w c s h k =
    tokens-word is_space w c s h.word k ∙ add_token-filled w (tokens is_space s) h.filled

digits-word : (s : Bytes) → is_digits s ≡ true → (is_word is_space s ≡ true) × (is_text s ≡ true)
digits-word [] h = (refl, refl)
digits-word (c ∷ s) h =
    let rest : is_digits s ≡ true = ground arith in
    let (a, b) = digits-word s rest in (ground arith, ground arith)

pub decimal_text-IsWord : (n : ℕ) → IsWord (decimal_text (suc n) n)
decimal_text-IsWord n =
    let (c, s, e, d) = decimal_text-digits n n (omega arith) in
    let (a, b) = digits-word (c ∷ s) d in rw e (record { word = a; text = b; filled = λ x. cc })

pub bool_text-IsWord : (b : Bool) → IsWord (bool_text b)
bool_text-IsWord true = record { word = refl; text = refl; filled = λ x. cc }
bool_text-IsWord false = record { word = refl; text = refl; filled = λ x. cc }

-- A word, the name of the next option, and the rest, each behind white space.
tokens-option :
    (w name s : Bytes)
    → IsWord w
    → IsWord name
    → tokens is_space (w ++ (32 ∷ (name ++ (32 ∷ s)))) ≡ w ∷ name ∷ tokens is_space s
tokens-option w name s h k =
    tokens-IsWord w 32 (name ++ (32 ∷ s)) h refl
    ∙ ap (λ ts. w ∷ ts) (tokens-IsWord name 32 s k refl)

option_name : (w : Bytes) → is_word is_space w ≡ true → is_text w ≡ true → w ≢ [] → IsWord w
option_name w a b c = record { word = a; text = b; filled = c }

tokens-ps : (s : Bytes) → tokens is_space (codes " --ps " ++ s) ≡ codes "--ps" ∷ tokens is_space s
unfolding split add_token tokens
tokens-ps s = refl

module _ (prefix uuid own : Bytes) (sender : ℕ) (secure_mode : Bool) where
  -- The words of an "exec" line behind the first: whatever follows the last blank.
  unfoldable pub exec_words : List Bytes
  exec_words =
      codes "--ps"
      ∷ prefix
      ∷ codes "--uuid"
      ∷ uuid
      ∷ codes "--sender"
      ∷ decimal_text (suc sender) sender
      ∷ codes "--rd"
      ∷ own
      ∷ codes "--secureMode"
      ∷ bool_text secure_mode
      ∷ []

  abbrev behind_exec : Bytes → Bytes
  behind_exec s =
      codes " --ps "
      ++ (prefix
          ++ (codes " --uuid "
              ++ (uuid
                  ++ (codes " --sender "
                      ++ (decimal_text (suc sender) sender
                          ++ (codes " --rd "
                              ++ (own
                                  ++ (codes " --secureMode "
                                      ++ (bool_text secure_mode ++ (32 ∷ s))))))))))

  tokens-behind_exec :
      (s : Bytes)
      → IsWord prefix
      → IsWord uuid
      → IsWord own
      → tokens is_space (behind_exec s)
        ≡ codes "--ps"
          ∷ prefix
          ∷ codes "--uuid"
          ∷ uuid
          ∷ codes "--sender"
          ∷ decimal_text (suc sender) sender
          ∷ codes "--rd"
          ∷ own
          ∷ codes "--secureMode"
          ∷ bool_text secure_mode
          ∷ tokens is_space s
  tokens-behind_exec s p u o =
      let b : Bytes = bool_text secure_mode ++ (32 ∷ s) in
      let r : Bytes = own ++ (codes " --secureMode " ++ b) in
      let n : Bytes = decimal_text (suc sender) sender ++ (codes " --rd " ++ r) in
      let i : Bytes = uuid ++ (codes " --sender " ++ n) in
      tokens-ps (prefix ++ (codes " --uuid " ++ i))
      ∙ ap (λ ts. codes "--ps" ∷ ts)
          (tokens-option prefix (codes "--uuid") i p
              (option_name (codes "--uuid") refl refl (λ x. cc))
            ∙ ap (λ ts. prefix ∷ codes "--uuid" ∷ ts)
                (tokens-option uuid (codes "--sender") n u
                    (option_name (codes "--sender") refl refl (λ x. cc))
                  ∙ ap (λ ts. uuid ∷ codes "--sender" ∷ ts)
                      (tokens-option (decimal_text (suc sender) sender) (codes "--rd") r
                          (decimal_text-IsWord sender)
                          (option_name (codes "--rd") refl refl (λ x. cc))
                        ∙ ap (λ ts. decimal_text (suc sender) sender ∷ codes "--rd" ∷ ts)
                            (tokens-option own (codes "--secureMode") b o
                                (option_name (codes "--secureMode") refl refl (λ x. cc))
                              ∙ ap (λ ts. own ∷ codes "--secureMode" ∷ ts)
                                  (tokens-IsWord (bool_text secure_mode) 32 s
                                    (bool_text-IsWord secure_mode) refl)))))

  -- The line, with what follows it.
  exec_line-behind :
      (is_virtual : Bool) (s : Bytes)
      → exec_line prefix uuid sender own secure_mode is_virtual ++ s
        ≡ codes "exec" ++ behind_exec (virtual_text is_virtual ++ s)
  unfolding exec_line
  exec_line-behind is_virtual s = simp append_assoc

  -- Ten words of an "exec" line, whatever the last one says.
  pub take-exec_line :
      (is_virtual : Bool) (s : Bytes)
      → IsWord prefix
      → IsWord uuid
      → IsWord own
      → take 10
          (tokens is_space (drop 4 (exec_line prefix uuid sender own secure_mode is_virtual ++ s)))
        ≡ exec_words
  unfolding exec_words
  take-exec_line is_virtual s p u o =
      ap (λ t. take 10 (tokens is_space (drop 4 t))) (exec_line-behind is_virtual s)
      ∙ ap (take 10) (tokens-behind_exec (virtual_text is_virtual ++ s) p u o)
