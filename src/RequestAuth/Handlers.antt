-- ===== src/RequestAuth/Handlers.antt =====
-- What passes an `except` clause: a result that is a value is the result of the guarded call.
use byoda_python.Base.{
  ◌≡◌, Result, ok, raise, Exception, http, value_error, invalid_audience, missing_auth_info,
  on_value_error,
}
use byoda_python.RequestAuth.Tokens.{on_invalid, on_unverified}
use byoda_python.RequestAuth.Requests.{on_http, on_missing, on_any}

module _ {A : Type 0} where
  pub on_any-eq-ok : (r : Result A) {a : A} → on_any r ≡ ok a → r ≡ ok a
  on_any-eq-ok (ok a) h = h
  on_any-eq-ok (raise e) h = cc

  pub on_http-eq-ok : (r : Result A) {a : A} → on_http r ≡ ok a → r ≡ ok a
  on_http-eq-ok (ok a) h = h
  on_http-eq-ok (raise (http n)) h = cc
  on_http-eq-ok (raise _) h = cc

  pub on_missing-eq-ok : (r : Result A) {a : A} → on_missing r ≡ ok a → r ≡ ok a
  on_missing-eq-ok (ok a) h = h
  on_missing-eq-ok (raise missing_auth_info) h = cc
  on_missing-eq-ok (raise _) h = cc

  pub on_invalid-eq-ok : (r : Result A) {a : A} → on_invalid r ≡ ok a → r ≡ ok a
  on_invalid-eq-ok (ok a) h = h
  on_invalid-eq-ok (raise value_error) h = cc
  on_invalid-eq-ok (raise _) h = cc

  pub on_unverified-eq-ok : (r : Result A) {a : A} → on_unverified r ≡ ok a → r ≡ ok a
  on_unverified-eq-ok (ok a) h = h
  on_unverified-eq-ok (raise invalid_audience) h = cc
  on_unverified-eq-ok (raise _) h = cc

  pub on_value_error-eq-ok :
      (e : Exception) (r : Result A) {a : A} → on_value_error e r ≡ ok a → r ≡ ok a
  on_value_error-eq-ok e (ok a) h = h
  on_value_error-eq-ok e (raise value_error) h = cc
  on_value_error-eq-ok e (raise _) h = cc
