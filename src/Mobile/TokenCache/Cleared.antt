-- ===== src/Mobile/TokenCache/Cleared.antt =====
-- Signing out forgets every token: the index holds the key of each one, through any sequence of calls.
use kall.Common.{
  false, all, if◌then◌else◌, Bool, String, ◌≡◌, refl, sym, ap, ◌∙◌, ◌≢◌, inl, inr, true, false, not,
  ◌||◌, none, List, [], ◌∷◌, ◌++◌, arith, str_eq, eq_iff, eq_refl, Bool-cases, keep, All,
  any-append, contains,
}
use mathlib.Core.Path.{subst}
use kall.Common.Json.{items}
use kall.Mobile.TokenCache.{
  Device, strings, token_keys, to_items, write_keys, distinct_from, put_or_delete, drop_token,
  put_token, take_token, save_token, clear_token, clear_all, clear_session_token_cache, clears,
  is_cleared, Op, save, clear, apply_all, fresh,
}

abbrev pub Tracks : List String → List (String × String) → Type 0
Tracks keys tokens = All (λ p. contains p.0 keys ≡ true) tokens

-- The index, when it can be read, holds the key of every token.
abbrev pub IsTracked : Device → Type 0
IsTracked d = Tracks (token_keys true d) d.tokens

pub strings-to_items : (ks : List String) → strings (items (to_items ks)) ≡ ks
strings-to_items [] = refl
strings-to_items (k ∷ ks) = ap (λ r. k ∷ r) (strings-to_items ks)

contains-distinct_from :
    (key : String) (seen ks : List String)
    → (contains key (distinct_from seen ks) || contains key seen)
      ≡ (contains key ks || contains key seen)
unfolding distinct_from
contains-distinct_from key seen [] = refl
contains-distinct_from key seen (k ∷ ks) = elim (Bool-cases (contains k seen)) [
  | inl known ↦ rw known (elim (Bool-cases (str_eq k key)) [
    | inl same ↦
        let there : contains key seen ≡ true =
          subst (λ j. contains j seen ≡ true) ((eq_iff k key).0 same) known in
        ground (arith, there)
    | inr other ↦ ground (arith, contains-distinct_from key seen ks)
  ])
  | inr unseen ↦ rw unseen (ground (arith, contains-distinct_from key (k ∷ seen) ks))
]

contains-append_self : (key : String) (ks : List String) → contains key (ks ++ key ∷ []) ≡ true
contains-append_self key ks =
    rw (any-append (λ k. str_eq k key) ks (key ∷ [])) (ground (arith, eq_refl key))

contains-append :
    (key other : String) (ks : List String)
    → contains key ks ≡ true
    → contains key (ks ++ other ∷ []) ≡ true
contains-append key other ks h = rw (any-append (λ k. str_eq k key) ks (other ∷ [])) (rw h)

contains-keep :
    (key other : String) (ks : List String)
    → key ≢ other
    → contains key (keep (λ item. not (str_eq item other)) ks) ≡ contains key ks
contains-keep key other [] ne = refl
contains-keep key other (k ∷ ks) ne =
    ground (arith, contains-keep key other ks ne, eq_iff k other, eq_iff k key)

ne_of_str_eq : (k key : String) → str_eq k key ≡ false → k ≢ key
ne_of_str_eq k key h e = ground (arith, eq_iff k key)

-- After a key is dropped, what is tracked by that key and others is tracked by the others.
Tracks-drop_token :
    (key : String) (ks ks' : List String) (ts : List (String × String))
    → ((j : String) → j ≢ key → contains j ks ≡ true → contains j ks' ≡ true)
    → Tracks ks ts
    → Tracks ks' (drop_token key ts)
unfolding drop_token
Tracks-drop_token key ks ks' [] f h = tt
Tracks-drop_token key ks ks' ((k, t) ∷ ts) f (h, hs) = elim (Bool-cases (str_eq k key)) [
  | inl same ↦ rw same (Tracks-drop_token key ks ks' ts f hs)
  | inr other ↦ rw other ((f k (ne_of_str_eq k key other) h), Tracks-drop_token key ks ks' ts f hs)
]

Tracks-weaken :
    (ks ks' : List String) (ts : List (String × String))
    → ((j : String) → contains j ks ≡ true → contains j ks' ≡ true)
    → Tracks ks ts
    → Tracks ks' ts
Tracks-weaken ks ks' [] f h = tt
Tracks-weaken ks ks' ((k, t) ∷ ts) f (h, hs) = (f k h, Tracks-weaken ks ks' ts f hs)

-- The index that `rememberTokenKey` writes has the keys read and the new one.
pub contains-remembered :
    (j key : String) (ks : List String)
    → contains j (distinct_from [] (ks ++ key ∷ [])) ≡ contains j (ks ++ key ∷ [])
contains-remembered j key ks = ground (arith, contains-distinct_from j [] (ks ++ key ∷ []))

pub token_keys-write_keys : (ks : List String) (d : Device) → token_keys true (write_keys ks d) ≡ ks
unfolding token_keys
token_keys-write_keys ks d = strings-to_items ks

save_token-IsTracked :
    (key token : String) (d : Device) → IsTracked d → IsTracked (save_token true key token d)
unfolding save_token
save_token-IsTracked key token d h =
    let ks = token_keys true d in
    subst (λ keys. Tracks keys ((key, token) ∷ drop_token key d.tokens))
      (sym (token_keys-write_keys (distinct_from [] (ks ++ key ∷ [])) (put_token key token d)))
      (
        contains-remembered key key ks ∙ contains-append_self key ks,
        Tracks-drop_token key ks (distinct_from [] (ks ++ key ∷ [])) d.tokens
            (λ j ne c. contains-remembered j key ks ∙ contains-append j key ks c) h,
      )

token_keys-put_or_delete :
    (ks : List String) (d : Device) → token_keys true (put_or_delete ks d) ≡ ks
unfolding token_keys
token_keys-put_or_delete [] d = refl
token_keys-put_or_delete (k ∷ ks) d = strings-to_items (k ∷ ks)

tokens-put_or_delete : (ks : List String) (d : Device) → (put_or_delete ks d).tokens ≡ d.tokens
tokens-put_or_delete [] d = refl
tokens-put_or_delete (k ∷ ks) d = refl

clear_token-IsTracked :
    (rejects : String → Bool) (key : String) (d : Device)
    → IsTracked d
    → IsTracked (clear_token (clears rejects) true key d)
unfolding clear_token
clear_token-IsTracked rejects key d h = elim (Bool-cases (rejects key)) [
  | inl rejected ↦ rw rejected h
  | inr granted ↦
      let ks = token_keys true d in
      let ks' = keep (λ item. not (str_eq item key)) ks in
      rw
        (
          granted,
          token_keys-put_or_delete ks' (take_token key d),
          tokens-put_or_delete ks' (take_token key d),
        )
        (Tracks-drop_token key ks ks' d.tokens (λ j ne c. contains-keep j key ks ne ∙ c) h)
]

-- After any calls, one after the other and with a readable store, the index holds every token's key, whichever
-- keys the provider refuses to clear.
pub apply_all-IsTracked :
    (rejects : String → Bool) (ops : List Op) (d : Device)
    → IsTracked d
    → IsTracked (apply_all rejects ops d)
unfolding apply_all
apply_all-IsTracked rejects [] d h = h
apply_all-IsTracked rejects (save key token ∷ ops) d h =
    apply_all-IsTracked rejects ops (save_token true key token d)
      (save_token-IsTracked key token d h)
apply_all-IsTracked rejects (clear key ∷ ops) d h =
    apply_all-IsTracked rejects ops (clear_token (clears rejects) true key d)
      (clear_token-IsTracked rejects key d h)

-- The tokens of the keys that are rejected.
abbrev pub rejected : (rejects : String → Bool) → List (String × String) → List (String × String)
rejected rejects tokens = keep (λ p. rejects p.0) tokens

rejected-drop_token :
    (rejects : String → Bool) (key : String) (ts : List (String × String))
    → rejects key ≡ false
    → rejected rejects (drop_token key ts) ≡ rejected rejects ts
unfolding drop_token
rejected-drop_token rejects key [] g = refl
rejected-drop_token rejects key ((k, t) ∷ ts) g =
    ground (arith, rejected-drop_token rejects key ts g, eq_iff k key, g)

-- Every token's key is rejected or still to be cleared.
abbrev Remains : (rejects : String → Bool) → List String → List (String × String) → Type 0
Remains rejects keys tokens = All (λ p. (rejects p.0 || contains p.0 keys) ≡ true) tokens

Remains-rejected :
    (rejects : String → Bool) (ts : List (String × String))
    → Remains rejects [] ts
    → ts ≡ rejected rejects ts
Remains-rejected rejects [] h = refl
Remains-rejected rejects ((k, t) ∷ ts) (h, hs) = ground (arith, Remains-rejected rejects ts hs, h)

Remains-drop_token :
    (rejects : String → Bool) (k : String) (ks : List String) (ts : List (String × String))
    → Remains rejects (k ∷ ks) ts
    → Remains rejects ks (drop_token k ts)
unfolding drop_token
Remains-drop_token rejects k ks [] h = tt
Remains-drop_token rejects k ks ((j, t) ∷ ts) (h, hs) = elim (Bool-cases (str_eq j k)) [
  | inl same ↦ rw same (Remains-drop_token rejects k ks ts hs)
  | inr other ↦
      rw other
        (ground (arith, h, other, eq_iff k j, eq_iff j k), Remains-drop_token rejects k ks ts hs)
]

Remains-weaken :
    (rejects : String → Bool) (k : String) (ks : List String) (ts : List (String × String))
    → rejects k ≡ true
    → Remains rejects (k ∷ ks) ts
    → Remains rejects ks ts
Remains-weaken rejects k ks [] g h = tt
Remains-weaken rejects k ks ((j, t) ∷ ts) g (h, hs) =
    (ground (arith, h, g, eq_iff k j), Remains-weaken rejects k ks ts g hs)

clear_all-rejected :
    (rejects : String → Bool) (ks : List String) (d : Device)
    → Remains rejects ks d.tokens
    → clear_all (clears rejects) ks d ≡ record d { tokens = rejected rejects d.tokens }
clear_all-rejected rejects [] d h =
    ap (λ (ts : List (String × String)). record { tokens = ts; entry = d.entry })
      (Remains-rejected rejects d.tokens h)
clear_all-rejected rejects (k ∷ ks) d h = elim (Bool-cases (rejects k)) [
  | inl kept ↦
      rw kept (clear_all-rejected rejects ks d (Remains-weaken rejects k ks d.tokens kept h))
  | inr granted ↦ rw granted (
      clear_all-rejected rejects ks (take_token k d) (Remains-drop_token rejects k ks d.tokens h)
      ∙ ap (λ (ts : List (String × String)). record { tokens = ts; entry = d.entry })
          (rejected-drop_token rejects k d.tokens granted))
]

Tracks-Remains :
    (rejects : String → Bool) (ks : List String) (ts : List (String × String))
    → Tracks ks ts
    → Remains rejects ks ts
Tracks-Remains rejects ks [] h = tt
Tracks-Remains rejects ks ((k, t) ∷ ts) (h, hs) =
    (ground (arith, h), Tracks-Remains rejects ks ts hs)

none_rejected :
    (rejects : String → Bool) (ks : List String) (k : String)
    → all (is_cleared (clears rejects)) ks ≡ true
    → contains k ks ≡ true
    → rejects k ≡ false
none_rejected rejects [] k a c = cc
none_rejected rejects (j ∷ ks) k a c = ground (arith, none_rejected rejects ks k, a, c, eq_iff j k)

rejected-none :
    (rejects : String → Bool) (ks : List String) (ts : List (String × String))
    → all (is_cleared (clears rejects)) ks ≡ true
    → Tracks ks ts
    → rejected rejects ts ≡ []
rejected-none rejects ks [] a h = refl
rejected-none rejects ks ((k, t) ∷ ts) a (h, hs) =
    rw (none_rejected rejects ks k a h) (rejected-none rejects ks ts a hs)

-- What is left of a device, and whether signing out ends without a failure.
abbrev pub signed_out : (rejects : String → Bool) (readable : Bool) → Device → Device × Bool
signed_out rejects false d = (record d { entry = none }, true)
signed_out rejects true d =
    if all (λ key. not (rejects key)) (token_keys true d)
    then (fresh, true)
    else (record d { tokens = rejected rejects d.tokens }, false)

-- Signing out of a device whose index holds every token's key, with a provider that can clear tokens. If the
-- index can be read and no clear of a key in it is rejected, it leaves no token and no index; if some are
-- rejected, it fails and leaves the tokens of the keys that are, and the index. If the index cannot be read, it
-- ends without a failure, leaves every token, and deletes the index.
pub clear_session_token_cache-eq :
    (rejects : String → Bool) (readable : Bool) (d : Device)
    → IsTracked d
    → clear_session_token_cache (clears rejects) readable d ≡ signed_out rejects readable d
unfolding clear_session_token_cache token_keys
clear_session_token_cache-eq rejects false d h = refl
clear_session_token_cache-eq rejects true d h =
    let ks = token_keys true d in
    let left = clear_all-rejected rejects ks d (Tracks-Remains rejects ks d.tokens h) in
    elim (Bool-cases (all (is_cleared (clears rejects)) ks)) [
      | inl granted ↦ rw (left, granted, rejected-none rejects ks d.tokens granted h) refl
      | inr refused ↦ rw (left, refused) refl
    ]
