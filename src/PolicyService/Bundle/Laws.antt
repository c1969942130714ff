-- ===== src/PolicyService/Bundle/Laws.antt =====
-- Which bundles Verify accepts.
use helmdeep.Base.{
  ℕ, String, true, false, ◌||◌, ◌==◌, eq_iff, none, List, [], length, Result, ok, ◌≡◌, ◌≢◌, ◌↔◌,
  sym, ◌∙◌, inl, inr, Bool-cases, Result-cases, arith,
}
use helmdeep.Base.Text.{eqb}
use helmdeep.PolicyService.Bundle.{
  Bytes, FileDigest, Manifest, Entries, Crypto, payload_of, index_files, inventory, key_id_of,
  verify_files, verify, public_key_size,
}
use helmdeep.PolicyService.Bundle.Files.{
  AreDistinct, AreSame, AreNew-nil, index_files-lookup, index_files_sound, index_files_complete,
  compare_files_sound, compare_files_complete,
}

eqb_sound : (a b : ℕ) → eqb a b ≡ true → a ≡ b
eqb_sound a b h = ground arith

eqb_self : (a : ℕ) → eqb a a ≡ true
eqb_self a = ground arith

module _ (crypto : Crypto) where
  -- The files on disk are exactly the files of the manifest.
  abbrev pub Matches : Manifest → Result String Entries → Type 0
  Matches m bundle =
      (on_disk : List FileDigest) × (inventory crypto bundle ≡ ok on_disk)
      × AreDistinct m.files
      × AreDistinct on_disk
      × AreSame m.files on_disk

  verify_files_iff :
      (m : Manifest) (bundle : Result String Entries)
      → (verify_files crypto m (inventory crypto bundle) ≡ none) ↔ Matches m bundle
  unfolding verify_files
  verify_files_iff m bundle = (
    λ h. elim (Result-cases (inventory crypto bundle)) [
      | inr (e, failed) ↦ let k = rw (failed, verify_files) at h in absurd cc
      | inl (on_disk, listed) ↦ elim (Result-cases (index_files m.files [])) [
        | inr (e, twice) ↦ let k = rw (listed, twice, verify_files) at h in absurd cc
        | inl (signed, indexed) ↦
            let (distinct, agree) =
              compare_files_sound on_disk signed (rw (listed, indexed, verify_files) at h) in
            (
              on_disk,
              listed,
              (index_files_sound m.files [] signed indexed).0,
              distinct,
              λ path. sym (index_files-lookup m.files [] signed path indexed) ∙ agree path,
            )
      ]
    ],
    λ (on_disk, listed, once, distinct, same).
        let (signed, indexed) = index_files_complete m.files [] once (AreNew-nil m.files) in
        rw (listed, indexed, verify_files)
          (compare_files_complete on_disk signed distinct
            (λ path. index_files-lookup m.files [] signed path indexed ∙ same path)),
  )

  -- The manifest carries a signature that the public key confirms, under the id of that key.
  pub record IsAuthentic (m : Manifest) (pub_key : Bytes) : Type 0 where
    pub sized : length pub_key ≡ public_key_size
    pub identified : m.key_id ≡ key_id_of crypto pub_key
    pub named : m.key_id ≢ ""
    pub signed : m.signature ≢ ""
    pub payload : Bytes
    pub signature : Bytes
    pub marshalled : crypto.marshal_payload (payload_of m) ≡ ok payload
    pub decoded : crypto.base64_decode m.signature ≡ ok signature
    pub confirmed : crypto.ed25519_verify pub_key payload signature ≡ true

  verify_sound :
      (bundle : Result String Entries) (m : Manifest) (pub_key : Bytes)
      → verify crypto bundle m pub_key ≡ none
      → IsAuthentic m pub_key × Matches m bundle
  unfolding verify
  verify_sound bundle m pub_key h = elim (Bool-cases (eqb (length pub_key) public_key_size)) [
    | inr size ↦ let k = rw (size, verify) at h in absurd cc
    | inl size ↦ elim (Bool-cases (m.key_id == "" || m.signature == "")) [
      | inl unset ↦ let k = rw (size, unset, verify) at h in absurd cc
      | inr set ↦ elim (Bool-cases (m.key_id == key_id_of crypto pub_key)) [
        | inr id ↦ let k = rw (size, set, id, verify) at h in absurd cc
        | inl id ↦ elim (Result-cases (crypto.base64_decode m.signature)) [
          | inr (e, coded) ↦ let k = rw (size, set, id, coded, verify) at h in absurd cc
          | inl (signature, coded) ↦ elim (Result-cases (crypto.marshal_payload (payload_of m))) [
            | inr (e, bytes) ↦ let k = rw (size, set, id, coded, bytes, verify) at h in absurd cc
            | inl (payload, bytes) ↦
                elim (Bool-cases (crypto.ed25519_verify pub_key payload signature)) [
                  | inr sound ↦
                      let k = rw (size, set, id, coded, bytes, sound, verify) at h in absurd cc
                  | inl sound ↦ (
                    record {
                      sized = eqb_sound (length pub_key) public_key_size size;
                      identified = (eq_iff m.key_id (key_id_of crypto pub_key)).0 id;
                      named = ground (arith, eq_iff m.key_id "", set);
                      signed = ground (arith, eq_iff m.signature "", set);
                      payload = payload;
                      signature = signature;
                      marshalled = bytes;
                      decoded = coded;
                      confirmed = sound;
                    },
                    (verify_files_iff m bundle).0
                        (rw (size, set, id, coded, bytes, sound, verify) at h),
                  )
                ]
          ]
        ]
      ]
    ]
  ]

  verify_complete :
      (bundle : Result String Entries) (m : Manifest) (pub_key : Bytes)
      → IsAuthentic m pub_key
      → Matches m bundle
      → verify crypto bundle m pub_key ≡ none
  unfolding verify
  verify_complete bundle m pub_key a same =
      let size : eqb (length pub_key) public_key_size ≡ true =
        rw a.sized (eqb_self public_key_size) in
      let set : (m.key_id == "" || m.signature == "") ≡ false =
        ground (arith, eq_iff m.key_id "", eq_iff m.signature "", a.named, a.signed) in
      let id : (m.key_id == key_id_of crypto pub_key) ≡ true = (eq_iff _ _).1 a.identified in
      rw (size, set, id, a.decoded, a.marshalled, a.confirmed, verify)
        ((verify_files_iff m bundle).1 same)

  pub verify_iff :
      (bundle : Result String Entries) (m : Manifest) (pub_key : Bytes)
      → (verify crypto bundle m pub_key ≡ none) ↔ (IsAuthentic m pub_key × Matches m bundle)
  verify_iff bundle m pub_key =
      (verify_sound bundle m pub_key, λ (a, same). verify_complete bundle m pub_key a same)
