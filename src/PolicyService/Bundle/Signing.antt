-- ===== src/PolicyService/Bundle/Signing.antt =====
-- Which signatures a key pair gives, and that Verify accepts what Sign signed.
use Prim.Native.Nat.{◌+◌}
use Prim.Native.String.{len}
use text.Mathlib.TextPositions.{len-append}
use mathlib.Core.Path.{subst}
use helmdeep.Base.{
  ℕ, String, true, ◌==◌, none, some, [], ◌∷◌, refl, sym, ◌∙◌, length, Result, ok, ◌≡◌, ◌≢◌, inl,
  inr, Bool-cases, Option-cases, Result-cases, ap, arith,
}
use helmdeep.Base.Text.{eqb}
use helmdeep.PolicyService.Bundle.{
  Bytes, Manifest, SignedPayload, Entries, Crypto, payload_of, inventory, key_id_of, verify, sign,
  public_key_size, private_key_size,
}
use helmdeep.PolicyService.Bundle.Laws.{verify_iff}
use helmdeep.PolicyService.Bundle.Files.{AreDistinct}

-- The documented behaviour of ed25519 and base64 on one key pair.
pub record IsKeyPair (crypto : Crypto) (key pub_key : Bytes) : Type 0 where
  pub public : crypto.public_of key ≡ some pub_key
  pub sized : length pub_key ≡ public_key_size
  pub confirms :
      (payload : Bytes)
      → crypto.ed25519_verify pub_key payload (crypto.ed25519_sign key payload) ≡ true
  pub decodes :
      (payload : Bytes)
      → crypto.base64_decode (crypto.base64_encode (crypto.ed25519_sign key payload))
        ≡ ok (crypto.ed25519_sign key payload)
  pub nonempty : (payload : Bytes) → crypto.base64_encode (crypto.ed25519_sign key payload) ≢ ""

module _ (crypto : Crypto) where
  -- What a manifest that Sign returned consists of.
  pub record Signed (bundle : Result String Entries) (m : Manifest) (key : Bytes) : Type 0 where
    pub pub_key : Bytes
    pub payload : Bytes
    pub listed : inventory crypto bundle ≡ ok m.files
    pub public : crypto.public_of key ≡ some pub_key
    pub identified : m.key_id ≡ key_id_of crypto pub_key
    pub marshalled : crypto.marshal_payload (payload_of m) ≡ ok payload
    pub signed : m.signature ≡ crypto.base64_encode (crypto.ed25519_sign key payload)

  sign-Signed :
      (bundle : Result String Entries) (version : String) (key : Bytes) (now : ℕ) (m : Manifest)
      → sign crypto bundle version key now ≡ ok m
      → Signed bundle m key
  unfolding sign
  sign-Signed bundle version key now m h = elim (Bool-cases (version == "")) [
    | inl empty ↦ let k = rw (empty, sign) at h in absurd cc
    | inr versioned ↦ elim (Bool-cases (eqb (length key) private_key_size)) [
      | inr size ↦ let k = rw (versioned, size, sign) at h in absurd cc
      | inl size ↦ elim (Result-cases (inventory crypto bundle)) [
        | inr (e, failed) ↦ let k = rw (versioned, size, failed, sign) at h in absurd cc
        | inl ([], listed) ↦ let k = rw (versioned, size, listed, sign) at h in absurd cc
        | inl (f ∷ files, listed) ↦ elim (Option-cases (crypto.public_of key)) [
          | inl unknown ↦ let k = rw (versioned, size, listed, unknown, sign) at h in absurd cc
          | inr (pub_key, public) ↦
              let content : SignedPayload = record {
                version = version;
                created_at = now;
                files = f ∷ files;
              } in
              elim (Result-cases (crypto.marshal_payload content)) [
                | inr (e, failed) ↦
                    let k = rw (versioned, size, listed, public, failed, sign) at h in absurd cc
                | inl (payload, marshalled) ↦
                    let k = rw (versioned, size, listed, public, marshalled, sign) at h in
                    let made : Manifest = record {
                      version = version;
                      created_at = now;
                      files = f ∷ files;
                      key_id = key_id_of crypto pub_key;
                      signature = crypto.base64_encode (crypto.ed25519_sign key payload);
                    } in
                    let same : made ≡ m = cc in
                    subst (λ m. Signed bundle m key) same
                      (record {
                        pub_key = pub_key;
                        payload = payload;
                        listed = listed;
                        public = public;
                        identified = refl;
                        marshalled = marshalled;
                        signed = refl;
                      })
              ]
        ]
      ]
    ]
  ]

  key_id-nonempty : (pub_key : Bytes) → key_id_of crypto pub_key ≢ ""
  key_id-nonempty pub_key h =
      let k : 7 + len (crypto.sha256_hex pub_key) ≡ 0 =
        sym (len-append "sha256:" (crypto.sha256_hex pub_key)) ∙ ap len h in
      omega arith

  -- Verify accepts the bundle that Sign signed under the public key of the signing key, as long as
  -- the bundle is the same and no path is listed twice.
  pub verify-sign :
      (bundle : Result String Entries) (version : String) (key pub_key : Bytes) (now : ℕ)
      (m : Manifest)
      → IsKeyPair crypto key pub_key
      → AreDistinct m.files
      → sign crypto bundle version key now ≡ ok m
      → verify crypto bundle m pub_key ≡ none
  verify-sign bundle version key pub_key now m pair distinct signed =
      let made = sign-Signed bundle version key now m signed in
      let same : made.pub_key ≡ pub_key = cc in
      (verify_iff crypto bundle m pub_key).1 (
        record {
          sized = pair.sized;
          identified = made.identified ∙ ap (key_id_of crypto) same;
          named = λ empty. key_id-nonempty made.pub_key (sym made.identified ∙ empty);
          signed = λ empty. pair.nonempty made.payload (sym made.signed ∙ empty);
          payload = made.payload;
          signature = crypto.ed25519_sign key made.payload;
          marshalled = made.marshalled;
          decoded = ap crypto.base64_decode made.signed ∙ pair.decodes made.payload;
          confirmed = pair.confirms made.payload;
        },
        (m.files, made.listed, distinct, distinct, λ path. refl),
      )
