-- ===== src/Mobile/TokenCache/Tests.antt =====
-- The index of session tokens at concrete calls.
use kall.Common.{
  Bool, false, String, str_eq, ◌≡◌, refl, true, false, some, List, [], ◌∷◌, arith, eq_iff, contains,
}
use kall.Mobile.TokenCache.{
  no_clear, clears, Device, token_keys, get_token, clear_session_token_cache, Op, save, clear,
  apply_all, fresh,
}
use kall.Mobile.TokenCache.Cleared.{
  IsTracked, apply_all-IsTracked, signed_out, clear_session_token_cache-eq,
}
use kall.Mobile.TokenCache.Races.{save_both, lost_update}

abbrev rejects : String → Bool
rejects key = str_eq key "client"

abbrev ops : List Op
ops = save "client" "t1" ∷ save "session" "t2" ∷ save "client" "t3" ∷ clear "session" ∷ []

after_ops :
    (get_token "client" (apply_all rejects ops fresh) ≡ some "t3")
    × (token_keys true (apply_all rejects ops fresh) ≡ "client" ∷ [])
unfolding apply_all get_token
after_ops = (refl, refl)

apply_all-IsTracked_example : IsTracked (apply_all rejects ops fresh)
apply_all-IsTracked_example = apply_all-IsTracked rejects ops fresh tt

-- The provider rejects the key of the client.
refused_clear :
    clear_session_token_cache (clears rejects) true (apply_all rejects ops fresh)
    ≡ (apply_all rejects ops fresh, false)
unfolding clear_session_token_cache apply_all
refused_clear = refl

clear_session_token_cache-eq_example :
    clear_session_token_cache (clears rejects) true (apply_all rejects ops fresh)
    ≡ signed_out rejects true (apply_all rejects ops fresh)
clear_session_token_cache-eq_example =
    clear_session_token_cache-eq rejects true (apply_all rejects ops fresh)
      (apply_all-IsTracked rejects ops fresh tt)

not_there : contains "a" (token_keys true fresh) ≡ false
unfolding token_keys
not_there = refl

lost_update_example :
    get_token "a" (clear_session_token_cache no_clear true (save_both "a" "t1" "b" "t2" fresh)).0
    ≡ some "t1"
lost_update_example =
    lost_update no_clear "a" "t1" "b" "t2" fresh not_there (λ e. ground (arith, eq_iff "a" "b"))

abbrev one_saved : Device
one_saved = apply_all rejects (save "a" "t1" ∷ []) fresh

one_there : get_token "a" one_saved ≡ some "t1"
unfolding apply_all get_token
one_there = refl
