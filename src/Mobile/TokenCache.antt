-- ===== src/Mobile/TokenCache.antt =====
-- The index of session tokens on the device: apps/mobile/src/auth/sessionTokenCache.ts. The session
-- provider's own cache and the secure store are the state; reads that throw, and what the provider's cache
-- can do and refuses, are arguments.
pub mod Cleared
pub mod Races
pub mod Tests
use kall.Common.{
  false, all, String, Bool, true, not, Option, none, some, List, [], ◌∷◌, ◌++◌, str_eq,
  if◌then◌else◌, keep, contains,
}
use kall.Common.Json.{Json, str, arr, Items, nil, cons, items}

-- The tokens in the provider's cache, and the entry of the secure store under the index' key: `none`
-- where there is none. Its text is kept as the JSON that it parses to.
pub record Device : Type 0 where
  pub tokens : List (String × String)
  pub entry : Option Json

abbrev pub strings : List Json → List String
strings [] = []
strings (str s ∷ vs) = s ∷ strings vs
strings (_ ∷ vs) = strings vs

abbrev keys_of : Option Json → List String
keys_of (some (arr vs)) = strings (items vs)
keys_of _ = []

-- `tokenKeys`; a read that throws gives no keys.
unfoldable pub token_keys : (readable : Bool) → Device → List String
token_keys readable d = if readable then keys_of d.entry else []

abbrev pub to_items : List String → Items
to_items [] = nil
to_items (k ∷ ks) = cons (str k) (to_items ks)

-- `setItemAsync(TOKEN_KEY_INDEX, JSON.stringify(keys))`
abbrev pub write_keys : List String → Device → Device
write_keys keys d = record d { entry = some (arr (to_items keys)) }

abbrev pub delete_keys : Device → Device
delete_keys d = record d { entry = none }

-- `[...new Set(keys)]`: the first of equal texts, in order.
unfoldable pub distinct_from : List String → List String → List String
distinct_from seen [] = []
distinct_from seen (k ∷ ks) =
    let fresh = k ∷ distinct_from (k ∷ seen) ks in
    let known = distinct_from seen ks in if contains k seen then known else fresh

-- The second half of `rememberTokenKey`, with the keys that it has read: `keys.add(key)`.
unfoldable pub remember_with : List String → String → Device → Device
unfolding distinct_from
remember_with read key d = write_keys (distinct_from [] (read ++ key ∷ [])) d

unfoldable pub remember_token_key : (readable : Bool) → String → Device → Device
unfolding token_keys remember_with
remember_token_key readable key d = remember_with (token_keys readable d) key d

-- The second half of `forgetTokenKey`
abbrev pub put_or_delete : List String → Device → Device
put_or_delete [] d = delete_keys d
put_or_delete (k ∷ ks) d = write_keys (k ∷ ks) d

unfoldable pub forget_token_key : (readable : Bool) → String → Device → Device
unfolding token_keys
forget_token_key readable key d =
    put_or_delete (keep (λ item. not (str_eq item key)) (token_keys readable d)) d

-- The provider's cache: one token for each key.
unfoldable pub drop_token : String → List (String × String) → List (String × String)
drop_token key [] = []
drop_token key ((k, t) ∷ ts) =
    if str_eq k key then drop_token key ts else (k, t) ∷ drop_token key ts

unfoldable pub lookup_token : String → List (String × String) → Option String
lookup_token key [] = none
lookup_token key ((k, t) ∷ ts) = if str_eq k key then some t else lookup_token key ts

abbrev pub put_token : String → String → Device → Device
put_token key token d = record d { tokens = (key, token) ∷ drop_token key d.tokens }

abbrev pub take_token : String → Device → Device
take_token key d = record d { tokens = drop_token key d.tokens }

unfoldable pub get_token : String → Device → Option String
unfolding lookup_token
get_token key d = lookup_token key d.tokens

unfoldable pub save_token : (readable : Bool) → String → String → Device → Device
unfolding remember_token_key drop_token
save_token readable key token d = remember_token_key readable key (put_token key token d)

-- The provider's cache on a platform: there is none, it has no `clearToken`, or it has one, which rejects some
-- keys and keeps their tokens.
pub data Provider : Type 0 where
  absent no_clear : Provider
  clears : (rejects : String → Bool) → Provider

-- `clearToken?.(key)`, and whether it ends without a failure.
abbrev pub clear_one : Provider → String → Device → Device
clear_one (clears rejects) key d = if rejects key then d else take_token key d
clear_one _ key d = d

abbrev pub is_cleared : Provider → String → Bool
is_cleared (clears rejects) key = not (rejects key)
is_cleared _ key = true

-- `clearToken` of the session: a clear that is rejected ends it. Where the platform has no cache there is no
-- such call.
unfoldable pub clear_token : Provider → (readable : Bool) → String → Device → Device
unfolding forget_token_key drop_token
clear_token absent readable key d = d
clear_token provider readable key d =
    if is_cleared provider key
    then forget_token_key readable key (clear_one provider key d)
    else clear_one provider key d

-- `Promise.all` of the clears: each of them is made, whatever becomes of the others.
abbrev pub clear_all : Provider → List String → Device → Device
clear_all provider [] d = d
clear_all provider (k ∷ ks) d = clear_all provider ks (clear_one provider k d)

-- `clearSessionTokenCache`, and whether it ends without a failure: the index is deleted only if no clear is
-- rejected.
unfoldable pub clear_session_token_cache : Provider → (readable : Bool) → Device → Device × Bool
unfolding token_keys drop_token
clear_session_token_cache absent readable d = (d, true)
clear_session_token_cache provider readable d =
    let keys = token_keys readable d in
    let cleared = clear_all provider keys d in
    if all (is_cleared provider) keys then (delete_keys cleared, true) else (cleared, false)

-- The calls that the session provider makes, one after the other, on a platform that can clear tokens.
pub data Op : Type 0 where
  save : (key token : String) → Op
  clear : (key : String) → Op

unfoldable pub apply : (rejects : String → Bool) → Op → Device → Device
unfolding save_token clear_token
apply rejects (save key token) d = save_token true key token d
apply rejects (clear key) d = clear_token (clears rejects) true key d

unfoldable pub apply_all : (rejects : String → Bool) → List Op → Device → Device
unfolding apply
apply_all rejects [] d = d
apply_all rejects (op ∷ ops) d = apply_all rejects ops (apply rejects op d)

abbrev pub fresh : Device
fresh = record { tokens = []; entry = none }
