-- ===== src/Consultation/Calendar/Roundtrip.antt =====
-- The state that is signed is the state that is verified, within its time.
use spottex_test.Common.{
  ℕ, ◌+◌, ◌≤◌, ◌≡◌, refl, subst, Bool, true, false, ◌||◌, Option, none, some, [], ◌∷◌, ◌++◌, ◌==◌,
  ltb, if◌then◌else◌, arith, ==_refl, inl, inr, Bool-cases,
}
use spottex_test.Consultation.Calendar.OauthState.{
  Text, dot, Claims, OauthState, max_safe, max_age_ms, is_empty, split_dots, same_text,
  accept_claims, judge_claims, sign_oauth_state, verify_oauth_state,
}

-- No character is a dot.
unfoldable pub has_dot : Text → Bool
has_dot [] = false
has_dot (c ∷ cs) = c == dot || has_dot cs

same_text_refl : (t : Text) → same_text t t ≡ true
unfolding same_text
same_text_refl [] = refl
same_text_refl (c ∷ cs) = ground (arith, ==_refl c, same_text_refl cs)

split_plain : (t : Text) → has_dot t ≡ false → split_dots t ≡ t ∷ []
unfolding has_dot split_dots
split_plain [] h = refl
split_plain (c ∷ cs) h = ground (arith, split_plain cs)

split_two :
    (p s : Text) → has_dot p ≡ false → has_dot s ≡ false → split_dots (p ++ dot ∷ s) ≡ p ∷ s ∷ []
unfolding has_dot split_dots
split_two [] s hp hs = ground (arith, split_plain s)
split_two (c ∷ cs) s hp hs = ground (arith, split_two cs s)

abbrev claims_of : OauthState → Claims
claims_of s = record {
  user_id = some s.user_id;
  issued_at = some s.issued_at;
  disconnect_epoch = some s.disconnect_epoch;
}

-- A state that is signed is verified as the same user, time and epoch for a quarter of an hour, and
-- not at all later. Of the encoding and the HMAC this needs that their texts are not empty and have
-- no dot, as base64url has none, and that safe integers are decoded as they were encoded.
pub verify-sign :
    (encode : OauthState → Text) (decode : Text → Option Claims) (signature : Text → Text)
    → ((s : OauthState) → (has_dot (encode s) ≡ false) × (is_empty (encode s) ≡ false))
    → ((t : Text) → (has_dot (signature t) ≡ false) × (is_empty (signature t) ≡ false))
    → ((s : OauthState)
        → s.user_id ≤ max_safe
        → s.issued_at ≤ max_safe
        → s.disconnect_epoch ≤ max_safe
        → decode (encode s) ≡ some (claims_of s))
    → (user_id epoch now later : ℕ) (value : Text) → now ≤ max_safe
    → sign_oauth_state encode decode signature user_id epoch now ≡ some value
    → now ≤ later
    → verify_oauth_state encode decode signature value later ≡ (
        if ltb (now + max_age_ms) later
        then none
        else some (record { user_id = user_id; issued_at = now; disconnect_epoch = epoch }))
unfolding sign_oauth_state verify_oauth_state judge_claims accept_claims
verify-sign encode decode signature plain signed decodes user_id epoch now later value safe h le =
    let s : OauthState = record { user_id = user_id; issued_at = now; disconnect_epoch = epoch } in
    let p = encode s in
    elim (Bool-cases (user_id == 0 || ltb max_safe user_id || ltb max_safe epoch)) [
      | inl e ↦ ground arith
      | inr e ↦
          let value_is : (p ++ dot ∷ signature p) ≡ value = ground arith in
          subst
            (λ v.
              verify_oauth_state encode decode signature v later
              ≡ (if ltb (now + max_age_ms) later then none else some s))
            value_is
            (rw
              (
                verify_oauth_state,
                split_two p (signature p) (plain s).0 (signed p).0,
                (plain s).1,
                (signed p).1,
                same_text_refl (signature p),
                decodes s (ground arith) safe (ground arith),
              )
              (ground arith))
    ]
