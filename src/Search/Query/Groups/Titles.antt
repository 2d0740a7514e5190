-- ===== src/Search/Query/Groups/Titles.antt =====
-- A job title of two words, alone in its group.
use kall.Common.{
  ℕ, suc, Char, code, String, ◌≡◌, refl, sym, ap, ◌∙◌, Bool, true, false, not, ◌&&◌, some, [], ◌∷◌,
  arith, ◌==◌,
}
use Prim.Native.String
use text.Mathlib.TextLemmas.{nil-append, cons-append, append-nil, append_assoc as text_append_assoc}
use kall.Common.Text.{is_nonempty, is_space, trim}
use kall.Common.Decimal.{decimal}
use kall.Search.Tokens.{
  Token, single, span_chars, tokens_after, token_at, clean_term, has_prefix_ci, is_bare, is_quote,
  drop_first_quote, drop_last_quote, drop_operator,
}
use kall.Search.Query.{
  SearchGroup, token_terms, token_label, add_group, add_tokens, parse_query, build_query,
  built_term,
}
use kall.Search.Tokens.Scanning.{
  size, all_chars, all_chars-append, stops, span_of, span_chars-append, tokens_after-append,
  trim-word, trim_end-word,
}
use kall.Search.Query.Groups.RoundTrip.{
  not_quote, tokens_after-match, tokens_after-space, unquoted-plain, no_tokens, quote_append,
  add_tokens-nil, add_tokens-cons,
}

-- A character of a word: no white space, no parenthesis and no quote.
abbrev pub is_word : ℕ → Bool
is_word c = is_bare c && not (is_quote c)

all_chars-word :
    (w : String)
    → all_chars is_word w ≡ true
    → (all_chars is_bare w ≡ true) × (all_chars not_quote w ≡ true)
all_chars-word String.[] h = (refl, refl)
all_chars-word (String.◌∷◌ c w) h =
    let (b, q) = all_chars-word w (ground arith) in (ground arith, ground arith)

drop_last_quote-word : (w : String) → all_chars is_word w ≡ true → drop_last_quote w ≡ w
unfolding drop_last_quote
drop_last_quote-word String.[] h = refl
drop_last_quote-word (String.◌∷◌ c String.[]) h = ground arith
drop_last_quote-word (String.◌∷◌ c (String.◌∷◌ d w)) h =
    ap (String.◌∷◌ c) (drop_last_quote-word (String.◌∷◌ d w) (ground arith))

-- A word before a closing quote.
abbrev pub closed : String → String
closed String.[] = "\""
closed (String.◌∷◌ c w) = String.◌∷◌ c (closed w)

drop_last_quote-closed : (w : String) → all_chars is_word w ≡ true → drop_last_quote (closed w) ≡ w
unfolding drop_last_quote
drop_last_quote-closed String.[] h = refl
drop_last_quote-closed (String.◌∷◌ c String.[]) h = refl
drop_last_quote-closed (String.◌∷◌ c (String.◌∷◌ d w)) h =
    ap (String.◌∷◌ c) (drop_last_quote-closed (String.◌∷◌ d w) (ground arith))

closed-append : (w : String) → closed w ≡ String.◌++◌ w "\""
closed-append String.[] = sym (nil-append "\"")
closed-append (String.◌∷◌ c w) = ap (String.◌∷◌ c) (closed-append w) ∙ sym (cons-append c w "\"")

bare-closed : (w : String) → all_chars is_word w ≡ true → all_chars is_bare (closed w) ≡ true
unfolding is_space
bare-closed String.[] h = refl
bare-closed (String.◌∷◌ c w) h = ground (arith, bare-closed w)

abbrev opened : String → String
opened a = String.◌∷◌ "i" (
    String.◌∷◌ "n" (
      String.◌∷◌ "t" (
        String.◌∷◌ "i"
          (String.◌∷◌ "t" (String.◌∷◌ "l" (String.◌∷◌ "e" (String.◌∷◌ ":" (String.◌∷◌ "\"" a))))))))

bare-opened : (a : String) → all_chars is_word a ≡ true → all_chars is_bare (opened a) ≡ true
unfolding is_space
bare-opened a h = (all_chars-word a h).0

clean_term-opened : (a : String) → all_chars is_word a ≡ true → clean_term (opened a) ≡ a
unfolding clean_term
clean_term-opened a h =
    let bare : all_chars is_bare a ≡ true = (all_chars-word a h).0 in
    ap (λ x. trim (drop_last_quote x)) (trim_end-word a bare)
    ∙ ap trim (drop_last_quote-word a h)
    ∙ trim-word a bare

drop_operator-other :
    (x : String)
    → has_prefix_ci "site:" x ≡ false
    → has_prefix_ci "intitle:" x ≡ false
    → drop_operator x ≡ x
drop_operator-other x s i = ground arith

drop_first_quote-word :
    (c : Char) (w : String)
    → all_chars is_word (String.◌∷◌ c w) ≡ true
    → drop_first_quote (closed (String.◌∷◌ c w)) ≡ closed (String.◌∷◌ c w)
drop_first_quote-word c w h = ground arith

clean_term-closed :
    (c : Char) (w : String)
    → all_chars is_word (String.◌∷◌ c w) ≡ true
    → has_prefix_ci "site:" (closed (String.◌∷◌ c w)) ≡ false
    → has_prefix_ci "intitle:" (closed (String.◌∷◌ c w)) ≡ false
    → clean_term (closed (String.◌∷◌ c w)) ≡ String.◌∷◌ c w
unfolding clean_term
clean_term-closed c w h s i =
    let x : String = closed (String.◌∷◌ c w) in
    ap (λ y. trim (drop_last_quote (drop_first_quote (drop_operator y))))
      (trim-word x (bare-closed (String.◌∷◌ c w) h))
    ∙ ap (λ y. trim (drop_last_quote (drop_first_quote y))) (drop_operator-other x s i)
    ∙ ap (λ y. trim (drop_last_quote y)) (drop_first_quote-word c w h)
    ∙ ap trim (drop_last_quote-closed (String.◌∷◌ c w) h)
    ∙ trim-word (String.◌∷◌ c w) ((all_chars-word (String.◌∷◌ c w) h).0)

token_at-bare :
    (c : Char) (w s : String)
    → all_chars is_bare (String.◌∷◌ c w) ≡ true
    → (code c == b'-') ≡ false
    → (code c == b'"') ≡ false
    → stops is_bare s ≡ true
    → token_at (String.◌∷◌ c (String.◌++◌ w s)) ≡ some (single false (String.◌∷◌ c w), suc (size w))
token_at-bare c w s h m q k =
    let whole : span_chars is_bare (String.◌∷◌ c (String.◌++◌ w s)) ≡ span_of (String.◌∷◌ c w) s =
      ap (span_chars is_bare) (sym (cons-append c w s))
      ∙ span_chars-append is_bare (String.◌∷◌ c w) s h k in
    let plain : (code c == b'(') ≡ false = ground arith in rw (whole, plain, m, q) (ground arith)

operator_append :
    (s : String)
    → String.◌++◌ "intitle:" s
      ≡ String.◌∷◌ "i" (
          String.◌∷◌ "n" (
            String.◌∷◌ "t" (
              String.◌∷◌ "i"
                (String.◌∷◌ "t" (String.◌∷◌ "l" (String.◌∷◌ "e" (String.◌∷◌ ":" s)))))))
operator_append s =
    cons-append "i" "ntitle:" s
    ∙ ap (String.◌∷◌ "i") (
        cons-append "n" "title:" s
        ∙ ap (String.◌∷◌ "n") (
            cons-append "t" "itle:" s
            ∙ ap (String.◌∷◌ "t") (
                cons-append "i" "tle:" s
                ∙ ap (String.◌∷◌ "i") (
                    cons-append "t" "le:" s
                    ∙ ap (String.◌∷◌ "t") (
                        cons-append "l" "e:" s
                        ∙ ap (String.◌∷◌ "l") (
                            cons-append "e" ":" s
                            ∙ ap (String.◌∷◌ "e")
                                (cons-append ":" "" s ∙ ap (String.◌∷◌ ":") (nil-append s))))))))

-- The text that is built for the title.
built_title :
    (a b : String)
    → all_chars is_word a ≡ true
    → all_chars is_word b ≡ true
    → built_term "Job titles" (String.◌++◌ a (String.◌∷◌ " " b))
      ≡ opened (String.◌++◌ a (String.◌∷◌ " " (closed b)))
built_title a b h k =
    let t : String = String.◌++◌ a (String.◌∷◌ " " b) in
    let plain : all_chars not_quote t ≡ true =
      all_chars-append not_quote a (String.◌∷◌ " " b)
      ∙ ground (arith, (all_chars-word a h).1, (all_chars-word b k).1) in
    rw (unquoted-plain t plain) (
      ap (String.◌++◌ "intitle:") (
        quote_append (String.◌++◌ t "\"")
        ∙ ap (String.◌∷◌ "\"") (
            text_append_assoc a (String.◌∷◌ " " b) "\""
            ∙ ap (String.◌++◌ a)
                (cons-append " " b "\"" ∙ ap (String.◌∷◌ " ") (sym (closed-append b)))))
      ∙ operator_append (String.◌∷◌ "\"" (String.◌++◌ a (String.◌∷◌ " " (closed b)))))

-- `opened a` without its first character.
abbrev opened_rest : String → String
opened_rest a = String.◌∷◌ "n" (
    String.◌∷◌ "t" (
      String.◌∷◌ "i"
        (String.◌∷◌ "t" (String.◌∷◌ "l" (String.◌∷◌ "e" (String.◌∷◌ ":" (String.◌∷◌ "\"" a)))))))

opened-append : (a s : String) → String.◌++◌ (opened_rest a) s ≡ opened_rest (String.◌++◌ a s)
opened-append a s = simp (cons-append)

-- A run of such characters at the head of a text is read as one token.
tokens_after-bare :
    (c : Char) (w s : String)
    → all_chars is_bare (String.◌∷◌ c w) ≡ true
    → (code c == b'-') ≡ false
    → (code c == b'"') ≡ false
    → stops is_bare s ≡ true
    → tokens_after 0 (String.◌∷◌ c (String.◌++◌ w s))
      ≡ single false (String.◌∷◌ c w) ∷ tokens_after 0 s
tokens_after-bare c w s h m q k =
    tokens_after-match c (String.◌++◌ w s) (single false (String.◌∷◌ c w)) (size w)
      (token_at-bare c w s h m q k)
    ∙ ap (λ ts. single false (String.◌∷◌ c w) ∷ ts)
        (ap (λ n. tokens_after n (String.◌++◌ w s)) (omega arith) ∙ tokens_after-append w s 0)

-- The text of a title of two words is read as two tokens.
tokens_after-title :
    (a : String) (c : Char) (w : String)
    → all_chars is_word a ≡ true
    → all_chars is_word (String.◌∷◌ c w) ≡ true
    → (code c == b'-') ≡ false
    → tokens_after 0 (opened (String.◌++◌ a (String.◌∷◌ " " (closed (String.◌∷◌ c w)))))
      ≡ single false (opened a) ∷ single false (closed (String.◌∷◌ c w)) ∷ []
unfolding is_space
tokens_after-title a c w h k m =
    let b : String = closed (String.◌∷◌ c w) in
    let not_quoted : (code c == b'"') ≡ false = ground arith in
    ap (λ x. tokens_after 0 (String.◌∷◌ "i" x)) (sym (opened-append a (String.◌∷◌ " " b)))
    ∙ tokens_after-bare "i" (opened_rest a) (String.◌∷◌ " " b) (bare-opened a h) refl refl refl
    ∙ ap (λ ts. single false (opened a) ∷ ts)
        (tokens_after-space b
          ∙ ap (λ x. tokens_after 0 (String.◌∷◌ c x)) (sym (append-nil (closed w)))
          ∙ tokens_after-bare c (closed w) "" (bare-closed (String.◌∷◌ c w) k) m not_quoted refl
          ∙ ap (λ ts. single false b ∷ ts) no_tokens)

abbrev pub title_group : (id title : String) → SearchGroup
title_group id title = record { id = id; label = "Job titles"; terms = title ∷ [] }

token_terms-single :
    (negated : Bool) (raw t : String)
    → clean_term raw ≡ t
    → is_nonempty t ≡ true
    → token_terms (single negated raw) ≡ t ∷ []
unfolding token_terms
token_terms-single negated raw t e n = rw (e, n) refl

token_label-title : (a : String) → token_label (single false (opened a)) ≡ "Job titles"
unfolding token_label
token_label-title a = refl

token_label-other :
    (raw : String)
    → has_prefix_ci "site:" raw ≡ false
    → has_prefix_ci "intitle:" raw ≡ false
    → token_label (single false raw) ≡ "Search terms"
unfolding token_label
token_label-other raw s i = rw (s, i) refl

first_group :
    (token : Token) (t l : String)
    → token_terms token ≡ t ∷ []
    → token_label token ≡ l
    → add_group [] token (token_terms token)
      ≡ record { id = "query-0"; label = l; terms = t ∷ [] } ∷ []
unfolding decimal
first_group token t l e k = rw (e, k) refl

second_group :
    (g : SearchGroup) (token : Token) (t l : String)
    → token_terms token ≡ t ∷ []
    → token_label token ≡ l
    → add_group (g ∷ []) token (token_terms token)
      ≡ g ∷ record { id = "query-1"; label = l; terms = t ∷ [] } ∷ []
unfolding decimal
second_group g token t l e k = rw (e, k) refl

-- A job title of two words that is alone in its group does not come back: the text that is built for it is
-- read as a job title with the first word and a search term with the second.
pub title_splits :
    (id a : String) (c : Char) (w : String)
    → is_nonempty a ≡ true
    → all_chars is_word a ≡ true
    → all_chars is_word (String.◌∷◌ c w) ≡ true
    → (code c == b'-') ≡ false
    → has_prefix_ci "site:" (closed (String.◌∷◌ c w)) ≡ false
    → has_prefix_ci "intitle:" (closed (String.◌∷◌ c w)) ≡ false
    → parse_query
        (build_query (title_group id (String.◌++◌ a (String.◌∷◌ " " (String.◌∷◌ c w))) ∷ []))
      ≡ title_group "query-0" a
        ∷ record { id = "query-1"; label = "Search terms"; terms = String.◌∷◌ c w ∷ [] }
        ∷ []
unfolding parse_query build_query
title_splits id a c w n h k m s i =
    let b : String = String.◌∷◌ c w in
    let g : SearchGroup = title_group "query-0" a in
    ap (λ x. add_tokens [] (tokens_after 0 x)) (built_title a b h k)
    ∙ ap (add_tokens []) (tokens_after-title a c w h k m)
    ∙ add_tokens-cons [] (single false (opened a)) (single false (closed b) ∷ [])
    ∙ ap (λ gs. add_tokens gs (single false (closed b) ∷ []))
        (first_group (single false (opened a)) a "Job titles"
          (token_terms-single false (opened a) a (clean_term-opened a h) n) (token_label-title a))
    ∙ add_tokens-cons (g ∷ []) (single false (closed b)) []
    ∙ ap (λ gs. add_tokens gs [])
        (second_group g (single false (closed b)) b "Search terms"
          (token_terms-single false (closed b) b (clean_term-closed c w k s i) refl)
          (token_label-other (closed b) s i))
    ∙ add_tokens-nil (g ∷ record { id = "query-1"; label = "Search terms"; terms = b ∷ [] } ∷ [])
