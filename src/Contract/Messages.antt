-- ===== src/Contract/Messages.antt =====
-- What `MessageSignature` reads and verifies.
use byoda_python.Base.{
  ℕ, ◌≡◌, refl, sym, ap, ◌∙◌, Bool, true, false, not, Option, none, some, ok, value_error,
  invalid_signature, require, ◌>>◌, Returns, Returns-ok, Returns-raise, Returns-require,
  Returns-bind, Returns-or_raise, require-eq-ok, >>=-eq-ok,
}
use byoda_python.Text.{Text, codes, text_eq}
use byoda_python.Contract.{
  Secret, Fields, Stored, Json, Crypto, MessageSignature, is_nil, from_dict, verify_message,
  checked_as,
}

-- A signature of that type that is good for a key.
pub record IsRead (crypto : Crypto) (stored : Stored) (key : ℕ) (message : Text) : Type 0 where
  pub dictionary : Fields
  pub is_stored : stored ≡ Stored.fields dictionary
  pub base64_signature : Text
  pub is_base64 : dictionary.signature ≡ some base64_signature
  pub signature : Text
  pub is_decoded : crypto.b64decode base64_signature ≡ ok signature
  pub is_signature : crypto.is_signature key message signature ≡ true

module _ (crypto : Crypto) where
  -- What `from_dict` gives.
  record IsParsed (stored : Stored) (own : Option Secret) (m : MessageSignature) : Type 0 where
    dictionary : Fields
    is_stored : stored ≡ Stored.fields dictionary
    base64_signature : Text
    is_base64 : dictionary.signature ≡ some base64_signature
    is_decoded : crypto.b64decode base64_signature ≡ ok m.signature
    is_own : m.data_secret ≡ own

  from_dict-IsParsed :
      (stored : Stored) (own : Option Secret)
      → Returns (IsParsed stored own) (from_dict crypto stored own)
  unfolding from_dict
  from_dict-IsParsed Stored.empty own = Returns-raise _
  from_dict-IsParsed (Stored.fields f) own =
      Returns-or_raise _ f.hash_algorithm _ λ hash_algorithm e.
        Returns-require (text_eq hash_algorithm (codes "SHA256")) _ _ λ h.
          Returns-or_raise _ f.signature _ λ base64_signature is_base64.
            Returns-bind (crypto.b64decode base64_signature) _ λ signature is_decoded.
              Returns-or_raise _ f.timestamp _ λ timestamp k.
                Returns-require (crypto.fromisoformat timestamp) _ _ λ t.
                  Returns-or_raise _ f.certificate _ λ certificate c. Returns-ok _ (record {
                    dictionary = f;
                    is_stored = refl;
                    base64_signature = base64_signature;
                    is_base64 = is_base64;
                    is_decoded = is_decoded;
                    is_own = refl;
                  })

  -- The secret that a message is verified with: the one that is given, or its own.
  abbrev pub or_its : Option Secret → Option Secret → Option Secret
  or_its none own = own
  or_its (some secret) own = some secret

  Good : MessageSignature → Text → Option Secret → Unit {0} → Type 0
  Good m message given done =
      (secret : Secret) × (or_its given m.data_secret ≡ some secret)
      × (crypto.is_signature secret.key message m.signature ≡ true)

  verify_message_lem :
      (m : MessageSignature) (message : Text) (given : Option Secret)
      → Returns (Good m message given) (verify_message crypto m message given)
  unfolding verify_message Good
  verify_message_lem m message none = Returns-or_raise _ m.data_secret _ λ secret is_secret.
      last (text_eq m.certificate_cn secret.common_name) (not (is_nil m.signature)) secret.has_cert
        secret is_secret
    where
      last :
          (a b c : Bool) (secret : Secret)
          → m.data_secret ≡ some secret
          → Returns (Good m message none) (
              require a value_error
              >> (require b value_error
                  >> (require c value_error
                      >> require
                          (crypto.is_signature secret.key message m.signature)
                          invalid_signature)))
      last true true true secret is_secret = record {
        at = λ done h. (secret, is_secret, require-eq-ok _ _ h);
      }
      last false b c secret is_secret = Returns-raise _
      last true false c secret is_secret = Returns-raise _
      last true true false secret is_secret = Returns-raise _
  verify_message_lem m message (some secret) =
      last (text_eq secret.common_name secret.common_name) (not (is_nil m.signature))
        secret.has_cert
    where
      last :
          (a b c : Bool)
          → Returns (Good m message (some secret)) (
              require a value_error
              >> (require b value_error
                  >> (require c value_error
                      >> require
                          (crypto.is_signature secret.key message m.signature)
                          invalid_signature)))
      last true true true = record { at = λ done h. (secret, refl, require-eq-ok _ _ h) }
      last false b c = Returns-raise _
      last true false c = Returns-raise _
      last true true false = Returns-raise _

  pub checked_lem :
      (stored : Stored) (own given : Option Secret) (json : Json)
      → (checked_as crypto json (from_dict crypto stored own) given).1 ≡ ok tt
      → (secret : Secret) × (or_its given own ≡ some secret)
        × IsRead crypto stored secret.key (crypto.dumps json)
  unfolding Good
  checked_lem stored own given json h =
      let (m, read, checked) = >>=-eq-ok (from_dict crypto stored own) _ h in
      let parsed : IsParsed stored own m = (from_dict-IsParsed stored own).at m read in
      let (secret, used, good) = (verify_message_lem m (crypto.dumps json) given).at tt checked in
      (
        secret,
        ap (or_its given) (sym parsed.is_own) ∙ used,
        record {
          dictionary = parsed.dictionary;
          is_stored = parsed.is_stored;
          base64_signature = parsed.base64_signature;
          is_base64 = parsed.is_base64;
          signature = m.signature;
          is_decoded = parsed.is_decoded;
          is_signature = good;
        },
      )
