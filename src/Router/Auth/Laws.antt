-- ===== src/Router/Auth/Laws.antt =====
-- Who is let in, and what a refusal says.
use rescue_proxy.Cache.{address_eq}
use rescue_proxy.Prelude.{
  ◌≡◌, ◌≢◌, ◌↔◌, ◌⊎◌, Bytes, List, [], ◌∷◌, String, arith, inl, inr, refl, true, ◌||◌, Bool-cases,
}
use rescue_proxy.Prelude.Int.{ℤ, pos, ◌-ℤ◌, ◌+ℤ◌, ◌≤ℤ◌, ◌<ℤ◌, ltb_ℤ}
use rescue_proxy.Prelude.Exec.{Result, ok, err, Result-cases}
use rescue_proxy.Router.Auth.{
  authenticate, is_empty, time_sub, Config, Credential, unix, max_duration, AuthenticationError,
  unauthorized_401, unauthenticated, permission_denied,
}

-- The credential is what the two texts stand for, is signed, and is not older than the window.
pub record IsAdmitted (cfg : Config) (now : ℤ) (username password : Bytes) (ac : Credential)
    : Type 0 where
  pub username_given : username ≢ []
  pub password_given : password ≢ []
  pub decoded : cfg.manager.base64_url_decode username password ≡ ok ac
  pub verified : cfg.manager.verify ac ≡ ok tt
  pub recent : now ≤ℤ unix ac.timestamp +ℤ cfg.validity_window

module _ (cfg : Config)
    (sane : (pos 0 ≤ℤ cfg.validity_window) × (cfg.validity_window <ℤ pos max_duration)) (now : ℤ)
    (username password : Bytes) (m : List String) where
  IsAdmitted-sound :
      (ac : Credential)
      → (authenticate cfg now username password m).0 ≡ ok ac
      → IsAdmitted cfg now username password ac
  unfolding authenticate ◌-ℤ◌ ◌+ℤ◌
  IsAdmitted-sound ac h = ground arith

  admitted_complete :
      (ac : Credential)
      → IsAdmitted cfg now username password ac
      → (authenticate cfg now username password m).0 ≡ ok ac
  unfolding authenticate ◌-ℤ◌ ◌+ℤ◌
  admitted_complete ac h = ground arith

  -- Where the validity window is neither negative nor the longest duration there is: a credential is
  -- accepted exactly if both texts are given, they decode to it, it is signed, and it is not older than
  -- the window, by its timestamp as `time.Unix` reads it.
  pub authenticate_iff :
      (ac : Credential)
      → ((authenticate cfg now username password m).0 ≡ ok ac)
        ↔ IsAdmitted cfg now username password ac
  authenticate_iff ac = (IsAdmitted-sound ac, admitted_complete ac)

one_is_empty :
    {P : Type 0} (a b : Bytes) → is_empty a || is_empty b ≡ true → (a ≡ []) ⊎ (b ≡ []) ⊎ P
one_is_empty [] b h = inl refl
one_is_empty (x ∷ a) [] h = inr (inl refl)
one_is_empty (x ∷ a) (y ∷ b) h = absurd (ground (arith, h))

-- What a call refuses, by the kind of the refusal.
module _ (cfg : Config) (now : ℤ) (username password : Bytes) where
  pub record IsMalformed (e : AuthenticationError) : Type 0 where
    pub http : e.http_status ≡ unauthorized_401
    pub grpc : e.grpc_code ≡ unauthenticated
    pub cause :
        (username ≡ [])
        ⊎ (password ≡ [])
        ⊎ ((text : String) × (cfg.manager.base64_url_decode username password ≡ err text))

  pub record IsInvalid (e : AuthenticationError) : Type 0 where
    pub http : e.http_status ≡ unauthorized_401
    pub grpc : e.grpc_code ≡ unauthenticated
    pub ac : Credential
    pub decoded : cfg.manager.base64_url_decode username password ≡ ok ac
    pub text : String
    pub refused : cfg.manager.verify ac ≡ err text

  pub record IsExpired (e : AuthenticationError) : Type 0 where
    pub http : e.http_status ≡ unauthorized_401
    pub grpc : e.grpc_code ≡ permission_denied
    pub ac : Credential
    pub decoded : cfg.manager.base64_url_decode username password ≡ ok ac
    pub verified : cfg.manager.verify ac ≡ ok tt
    pub past : unix ac.timestamp <ℤ now
    pub older : cfg.validity_window <ℤ time_sub now (unix ac.timestamp)

  -- What a call has counted, from its result.
  abbrev pub Counted : List String → List String → Result AuthenticationError Credential → Type 0
  Counted before after (ok ac) =
      (after ≡ "valid" ∷ before)
      × (cfg.manager.base64_url_decode username password ≡ ok ac)
      × (cfg.manager.verify ac ≡ ok tt)
  Counted before after (err e) =
      ((after ≡ "malformed" ∷ before) × IsMalformed e)
      ⊎ ((after ≡ "invalid" ∷ before) × IsInvalid e)
      ⊎ ((after ≡ "expired" ∷ before) × IsExpired e)

  -- Every call counts once: "valid" if it returns the credential, which decodes and is signed;
  -- "malformed" if a text is missing or they do not decode; "invalid" if they decode to one that is
  -- not signed; and "expired" if they decode to one that is signed and older than the window. Each
  -- refusal is an HTTP 401, with the gRPC code PermissionDenied if it is expired and
  -- Unauthenticated if not.
  pub authenticate-Counted :
      (before : List String)
      → let call = authenticate cfg now username password before in Counted before call.1 call.0
  unfolding authenticate
  authenticate-Counted before = elim (Bool-cases (is_empty username || is_empty password)) [
    | inl missing ↦ rw missing (
        inl (
          refl,
          record { http = refl; grpc = refl; cause = one_is_empty username password missing },
        ))
    | inr given ↦ elim (Result-cases (cfg.manager.base64_url_decode username password)) [
      | inr (text, bad) ↦
          rw (given, bad)
            (inl (refl, record { http = refl; grpc = refl; cause = inr (inr (text, bad)) }))
      | inl (ac, good) ↦ elim (Result-cases (cfg.manager.verify ac)) [
        | inr (text, bad) ↦
            rw (given, good, bad)
              (inr (
                inl (
                  refl,
                  record {
                    http = refl;
                    grpc = refl;
                    ac = ac;
                    decoded = good;
                    text = text;
                    refused = bad;
                  },
                )))
        | inl (u, signed) ↦ elim (Bool-cases (ltb_ℤ (unix ac.timestamp) now)) [
          | inr future ↦ rw (given, good, signed, future) (refl, good, signed)
          | inl past ↦
              elim (Bool-cases (ltb_ℤ cfg.validity_window (time_sub now (unix ac.timestamp)))) [
                | inr recent ↦ rw (given, good, signed, past, recent) (refl, good, signed)
                | inl old ↦
                    rw (given, good, signed, past, old)
                      (inr (
                        inr (
                          refl,
                          record {
                            http = refl;
                            grpc = refl;
                            ac = ac;
                            decoded = good;
                            verified = signed;
                            past = ground (arith, past);
                            older = ground (arith, old);
                          },
                        )))
              ]
        ]
      ]
    ]
  ]
