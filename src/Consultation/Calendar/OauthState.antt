-- ===== src/Consultation/Calendar/OauthState.antt =====
-- The signed state of the connection to Google: src/lib/consultation/oauth-state.ts. A text is a
-- list of character codes. The encoding of the claims (JSON in base64url), its decoding and the
-- HMAC are parameters.
use spottex_test.Common.{
  ℕ, ◌+◌, Bool, true, false, ◌&&◌, ◌||◌, Option, none, some, List, [], ◌∷◌, ◌++◌, ◌==◌, ltb,
  if◌then◌else◌,
}

abbrev pub Text : Type 0
Text = List ℕ

-- `.`
abbrev pub dot : ℕ
dot = 46

-- What is decoded: a field that is not a number of its kind is missing.
pub record Claims : Type 0 where
  pub user_id : Option ℕ
  pub issued_at : Option ℕ
  pub disconnect_epoch : Option ℕ

-- `GoogleOAuthState`.
pub record OauthState : Type 0 where
  pub user_id : ℕ
  pub issued_at : ℕ
  pub disconnect_epoch : ℕ

abbrev pub max_age_ms : ℕ
max_age_ms = 900000

-- `Number.isSafeInteger`, of a number that is not negative.
abbrev pub max_safe : ℕ
max_safe = 9007199254740991

abbrev push : ℕ → List Text → List Text
push c [] = (c ∷ []) ∷ []
push c (t ∷ ts) = (c ∷ t) ∷ ts

-- `value.split(".")`.
unfoldable pub split_dots : Text → List Text
split_dots [] = [] ∷ []
split_dots (c ∷ cs) = let rest = split_dots cs in if c == dot then [] ∷ rest else push c rest

-- Equal lengths and `timingSafeEqual`.
unfoldable pub same_text : Text → Text → Bool
same_text [] [] = true
same_text (a ∷ tail) (b ∷ bs) = a == b && same_text tail bs
same_text _ _ = false

abbrev pub is_empty : Text → Bool
is_empty [] = true
is_empty (c ∷ cs) = false

-- The checks of the decoded claims.
unfoldable pub accept_claims : ℕ → Claims → Option OauthState
accept_claims now c = elim c.user_id [
  | none ↦ none
  | some u ↦ elim c.issued_at [
    | none ↦ none
    | some t ↦ elim c.disconnect_epoch [
      | none ↦ none
      | some e ↦
          if u == 0
            || ltb max_safe u
            || ltb max_safe e
            || ltb (now + 60000) t
            || ltb (t + max_age_ms) now
          then none
          else some (record { user_id = u; issued_at = t; disconnect_epoch = e })
    ]
  ]
]

-- A payload that does not decode is refused.
unfoldable pub judge_claims : ℕ → Option Claims → Option OauthState
unfolding accept_claims
judge_claims now none = none
judge_claims now (some c) = accept_claims now c

-- `const [payload, suppliedSignature] = value.split(".")`.
abbrev parts_of : List Text → Text × Text
parts_of [] = ([], [])
parts_of (p ∷ []) = (p, [])
parts_of (p ∷ s ∷ ts) = (p, s)

module _ (encode : OauthState → Text) (decode : Text → Option Claims)
    (signature : Text → Text) where
  -- signOAuthState: `none` when it throws.
  unfoldable pub sign_oauth_state : ℕ → ℕ → ℕ → Option Text
  sign_oauth_state user_id epoch now =
      if user_id == 0 || ltb max_safe user_id || ltb max_safe epoch
      then none
      else let payload =
          encode (record { user_id = user_id; issued_at = now; disconnect_epoch = epoch }) in
        some (payload ++ dot ∷ signature payload)

  -- verifyOAuthState.
  unfoldable pub verify_oauth_state : Text → ℕ → Option OauthState
  unfolding split_dots same_text judge_claims
  verify_oauth_state value now =
      let (payload, supplied) = parts_of (split_dots value) in
      if is_empty payload || is_empty supplied
      then none
      else if same_text (signature payload) supplied
      then judge_claims now (decode payload)
      else none
