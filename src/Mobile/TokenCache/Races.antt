-- ===== src/Mobile/TokenCache/Races.antt =====
-- What the index loses when two calls overlap, or when the store cannot be read.
use kall.Common.{
  Bool, all, String, ◌≡◌, refl, sym, ap, ◌∙◌, ◌≢◌, true, false, none, some, List, [], ◌∷◌, ◌++◌,
  arith, str_eq, eq_iff, eq_refl, if◌then◌else◌, any-append, contains,
}
use kall.Mobile.TokenCache.{
  Provider, absent, no_clear, clears, clear_one, is_cleared, delete_keys, Device, token_keys,
  write_keys, distinct_from, remember_with, drop_token, lookup_token, get_token, put_token,
  save_token, clear_all, clear_session_token_cache,
}
use kall.Mobile.TokenCache.Cleared.{contains-remembered, token_keys-write_keys}

-- Two overlapping calls of `saveToken`: both read the index before either writes it, and the second
-- writes last.
unfoldable pub save_both : (key token other token' : String) → Device → Device
unfolding remember_with
save_both key token other token' d =
    let read = token_keys true d in
    remember_with read other
      (remember_with read key (put_token other token' (put_token key token d)))

lookup_token-drop_token :
    (j key : String) (ts : List (String × String))
    → lookup_token j (drop_token key ts) ≡ (if str_eq key j then none else lookup_token j ts)
unfolding lookup_token drop_token
lookup_token-drop_token j key [] = ground arith
lookup_token-drop_token j key ((k, t) ∷ ts) =
    ground (arith, lookup_token-drop_token j key ts, eq_iff k key, eq_iff k j, eq_iff key j)

get_token-clear_one :
    (provider : Provider) (j k : String) (d : Device)
    → str_eq k j ≡ false
    → get_token j (clear_one provider k d) ≡ get_token j d
unfolding get_token
get_token-clear_one absent j k d h = refl
get_token-clear_one no_clear j k d h = refl
get_token-clear_one (clears rejects) j k d h =
    ground (arith, lookup_token-drop_token j k d.tokens, h)

-- Clearing by an index that misses a key leaves that key's token.
get_token-clear_all :
    (provider : Provider) (j : String) (ks : List String) (d : Device)
    → contains j ks ≡ false
    → get_token j (clear_all provider ks d) ≡ get_token j d
get_token-clear_all provider j [] d h = refl
get_token-clear_all provider j (k ∷ ks) d h =
    get_token-clear_all provider j ks (clear_one provider k d) (ground (arith, h))
    ∙ get_token-clear_one provider j k d (ground (arith, h))

get_token-if :
    (b : Bool) (j : String) (d : Device)
    → let left : Device × Bool = if b then (delete_keys d, true) else (d, false) in
      get_token j left.0 ≡ get_token j d
unfolding get_token
get_token-if true j d = refl
get_token-if false j d = refl

survives :
    (provider : Provider) (j : String) (d : Device)
    → contains j (token_keys true d) ≡ false
    → get_token j (clear_session_token_cache provider true d).0 ≡ get_token j d
unfolding clear_session_token_cache
survives absent j d h = refl
survives no_clear j d h =
    get_token-if (all (is_cleared no_clear) (token_keys true d)) j
      (clear_all no_clear (token_keys true d) d)
    ∙ get_token-clear_all no_clear j (token_keys true d) d h
survives (clears rejects) j d h =
    get_token-if (all (is_cleared (clears rejects)) (token_keys true d)) j
      (clear_all (clears rejects) (token_keys true d) d)
    ∙ get_token-clear_all (clears rejects) j (token_keys true d) d h

not_remembered :
    (j key : String) (ks : List String) (d : Device)
    → contains j ks ≡ false
    → j ≢ key
    → contains j (token_keys true (write_keys (distinct_from [] (ks ++ key ∷ [])) d)) ≡ false
not_remembered j key ks d h ne =
    ap (contains j) (token_keys-write_keys (distinct_from [] (ks ++ key ∷ [])) d)
    ∙ contains-remembered j key ks
    ∙ any-append (λ k. str_eq k j) ks (key ∷ [])
    ∙ ground (arith, eq_iff key j)

-- Of two tokens that are saved at the same time under new keys, the first stays in the provider's
-- cache after signing out, whatever it can clear: the second call's write has lost its key.
pub lost_update :
    (provider : Provider) (key token other token' : String) (d : Device)
    → contains key (token_keys true d) ≡ false
    → key ≢ other
    → get_token key (clear_session_token_cache provider true (save_both key token other token' d)).0
      ≡ some token
unfolding save_both get_token
lost_update provider key token other token' d new ne =
    survives provider key (save_both key token other token' d) (
      not_remembered key other (token_keys true d)
        (remember_with (token_keys true d) key (put_token other token' (put_token key token d))) new
        ne)
    ∙ ground (
      arith,
      eq_iff other key,
      eq_refl key,
      lookup_token-drop_token key other ((key, token) ∷ drop_token key d.tokens),
    )

-- A save while the store cannot be read overwrites the index with its own key alone: every other
-- token stays after signing out.
pub unreadable_save :
    (provider : Provider) (key token j t : String) (d : Device)
    → key ≢ j
    → get_token j d ≡ some t
    → get_token j (clear_session_token_cache provider true (save_token false key token d)).0
      ≡ some t
unfolding save_token get_token
unreadable_save provider key token j t d ne h =
    survives provider j (save_token false key token d)
      (not_remembered j key [] (put_token key token d) refl (λ e. ne (sym e)))
    ∙ ground (arith, eq_iff key j, lookup_token-drop_token j key d.tokens)
