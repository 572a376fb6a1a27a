-- ===== src/Router/Auth.antt =====
-- router/authentication.go. The credentials library is the parameter `Manager`; a credential is what
-- it decodes. Times are in nanoseconds since the epoch; `now` is a present time, as `time.Sub` is exact
-- up to its ends unless its difference of seconds wraps. `InitAuth` sets what `Config` holds.
pub mod Laws
use rescue_proxy.Cache.{address_eq}
use Prim.Native.String.{◌++◌}
use rescue_proxy.Prelude.{
  ℕ, ◌*◌, ◌-◌, ◌^◌, Bytes, Bool, true, false, List, [], ◌∷◌, String, ◌&&◌, ◌||◌, not, if◌then◌else◌,
  leb, length, ◌==◌, nat_eq, suc, ◌+◌,
}
use rescue_proxy.Prelude.Int.{ℤ, pos, negsuc, ◌+ℤ◌, ◌-ℤ◌, ltb_ℤ, int64_of_big}
use rescue_proxy.Prelude.Exec.{Exec, Result, ok, err, ◌>>=◌, ◌>>◌, pure, raise}

pub data HttpStatus : Type 0 where
  ok_200 bad_request_400 unauthorized_401 forbidden_403 conflict_409 internal_500 : HttpStatus

-- The codes of the package google.golang.org/grpc/codes that the router uses.
pub data GrpcCode : Type 0 where
  unimplemented unauthenticated permission_denied internal : GrpcCode

pub record AuthenticationError : Type 0 where
  pub msg : String
  pub http_status : HttpStatus
  pub grpc_code : GrpcCode

unfoldable pub malformed : String → AuthenticationError
malformed e = record {
  msg = "malformed credentials: " ++ e;
  http_status = unauthorized_401;
  grpc_code = unauthenticated;
}

unfoldable pub invalid : String → AuthenticationError
invalid e = record {
  msg = "invalid credentials: " ++ e;
  http_status = unauthorized_401;
  grpc_code = unauthenticated;
}

unfoldable pub expired : AuthenticationError
expired = record {
  msg = "expired credentials";
  http_status = unauthorized_401;
  grpc_code = permission_denied;
}

-- (*authenticationError).Error
unfoldable pub error_text : AuthenticationError → String
error_text a = "authentication failed, " ++ a.msg

-- `credentials.AuthenticatedCredential`; the timestamp is in seconds.
pub record Credential : Type 0 where
  pub node_id : Bytes
  pub timestamp : ℤ
  pub mac : Bytes

-- The credentials library: `Base64URLDecode` and `CredentialManager.Verify`, with the error's text.
pub record Manager : Type 0 where
  pub base64_url_decode : Bytes → Bytes → Result String Credential
  pub verify : Credential → Result String (Unit {0})

pub record Config : Type 0 where
  pub manager : Manager
  pub validity_window : ℤ

abbrev pub nanoseconds : ℤ → ℤ
nanoseconds (pos n) = pos (n * 1000000000)
nanoseconds (negsuc n) = negsuc (suc n * 1000000000 - 1)

-- The seconds from the year 1, which `time.Time` counts from, to 1970.
abbrev pub unix_to_internal : ℤ
unix_to_internal = pos 62135596800

-- The sum in time.Unix is one of int64, so the last seconds before 2^63 wrap to the far past.
unfoldable pub unix_seconds : ℤ → ℤ
unix_seconds seconds = int64_of_big (seconds +ℤ unix_to_internal) -ℤ unix_to_internal

-- time.Unix(seconds, 0)
abbrev pub unix : ℤ → ℤ
unix seconds = nanoseconds (unix_seconds seconds)

abbrev pub max_duration : ℕ
max_duration = 2 ^ 63 - 1

-- The ends of the 64-bit range, where `Time.Sub` stops.
abbrev pub saturate : ℤ → ℤ
saturate (pos n) = if leb n max_duration then pos n else pos max_duration
saturate (negsuc n) = if leb n max_duration then negsuc n else negsuc max_duration

-- now.Sub(ts)
unfoldable pub time_sub : ℤ → ℤ → ℤ
time_sub now ts = saturate (now -ℤ ts)

abbrev pub is_empty : Bytes → Bool
is_empty [] = true
is_empty (b ∷ bs) = false

-- The state is the registry's counts.
abbrev pub A : Type 0 → Type 0
A X = Exec (List String) AuthenticationError X

-- metricsRegistry.Counter(name).Inc(), then a return
abbrev pub counted : {X : Type 0} → String → Result AuthenticationError X → A X
counted name r m = (r, name ∷ m)

-- err != nil: count, and return what `wrap` makes of it
abbrev pub or_reject :
    {X : Type 0} → String → (String → AuthenticationError) → Result String X → A X
or_reject name wrap (ok x) m = (ok x, m)
or_reject name wrap (err e) m = (err (wrap e), name ∷ m)

unfoldable pub authenticate : Config → ℤ → Bytes → Bytes → A Credential
unfolding malformed invalid expired time_sub
authenticate cfg now username password =
    if is_empty username || is_empty password
    then counted "malformed" (err (malformed "username or password missing"))
    else do
      ac ← or_reject "malformed" malformed (cfg.manager.base64_url_decode username password)
      _ ← or_reject "invalid" invalid (cfg.manager.verify ac)
      let ts = unix ac.timestamp
      if ltb_ℤ ts now && ltb_ℤ cfg.validity_window (time_sub now ts)
          then counted "expired" (err expired)
          else counted "valid" (ok ac)
