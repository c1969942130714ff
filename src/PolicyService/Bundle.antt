-- ===== src/PolicyService/Bundle.antt =====
-- pkg/policyservice/policyservice.go: the manifest of a bundle, its inventory, Sign and Verify.
-- The texts of errors from the inventory are shortened.
pub mod Files
pub mod Laws
pub mod Signing
use Prim.Native.Nat.{Ordering}
use Prim.Native.String
use helmdeep.Base.{
  ℕ, String, Bool, true, false, ◌&&◌, ◌||◌, not, ◌==◌, if◌then◌else◌, Option, none, some, List, [],
  ◌∷◌, ◌++◌, length, Result, ok, err, Dict, lookup, insert, is_some, map,
}
use helmdeep.Base.Text.{◌+++◌, eqb}
use text.Mathlib.Text.{starts_with}

abbrev pub Bytes : Type 0
Bytes = List ℕ

pub record FileDigest : Type 0 where
  pub path : String
  pub sha256 : String

-- `created_at` is a time in UTC, in nanoseconds.
pub record Manifest : Type 0 where
  pub version : String
  pub created_at : ℕ
  pub files : List FileDigest
  pub key_id : String
  pub signature : String

pub record SignedPayload : Type 0 where
  pub version : String
  pub created_at : ℕ
  pub files : List FileDigest

-- What stands below the root of a bundle, each directory in the order in which WalkDir visits it: a
-- file with its bytes, or the error of reading it; a symbolic link, resolved by Stat and Open; a
-- directory, or the error of listing it.
mutual
  pub data Entry : Type 0 where
    file : Result String Bytes → Entry
    link : Target → Entry
    directory : Entries → Entry
    unreadable : String → Entry

  pub data Target : Type 0 where
    to_file : Result String Bytes → Target
    to_directory : Target
    dangling : String → Target

  pub data Entries : Type 0 where
    last : Entries
    entry : String → Entry → Entries → Entries

-- crypto/sha256, encoding/hex, encoding/json, encoding/base64 and crypto/ed25519.
pub record Crypto : Type 0 where
  pub sha256_hex : Bytes → String
  pub marshal_payload : SignedPayload → Result String Bytes
  pub base64_encode : Bytes → String
  pub base64_decode : String → Result String Bytes
  pub ed25519_verify : Bytes → Bytes → Bytes → Bool
  pub ed25519_sign : Bytes → Bytes → Bytes
  pub public_of : Bytes → Option Bytes

abbrev pub public_key_size : ℕ
public_key_size = 32

abbrev pub private_key_size : ℕ
private_key_size = 64

-- `<` on texts, by bytes.
abbrev pub before : String → String → Bool
before s t = elim (String.compare s t) [ Ordering.lt ↦ true | _ ↦ false ]

module _ {A : Type 0} (key : A → String) where
  abbrev insert_sorted : A → List A → List A
  insert_sorted a [] = a ∷ []
  insert_sorted a (b ∷ bs) = if before (key b) (key a) then b ∷ insert_sorted a bs else a ∷ b ∷ bs

  -- `sort.Slice` and `sort.Strings`; the keys differ.
  abbrev pub sort : List A → List A
  sort [] = []
  sort (a ∷ bs) = insert_sorted a (sort bs)

-- The errors of Verify and Sign, with what their texts name.
pub data BundleError : Type 0 where
  bad_key : BundleError
  unsigned : BundleError
  wrong_key : (manifest configured : String) → BundleError
  bad_encoding : String → BundleError
  no_payload : String → BundleError
  bad_signature : (key_id : String) → BundleError
  no_inventory : String → BundleError
  listed_twice : (path : String) → BundleError
  not_covered : (path : String) → BundleError
  changed : (path digest signed : String) → BundleError
  missing : List String → BundleError
  no_version : BundleError
  no_files : BundleError

abbrev pub payload_of : Manifest → SignedPayload
payload_of m = record { version = m.version; created_at = m.created_at; files = m.files }

-- The checks of the manifest's loop: its files as a map from paths to digests.
unfoldable pub index_files : List FileDigest → Dict String → Result String (Dict String)
index_files [] signed = ok signed
index_files (f ∷ fs) signed =
    if is_some (lookup f.path signed)
    then err f.path
    else index_files fs (insert f.path f.sha256 signed)

-- `delete(signed, path)`.
abbrev pub delete : String → Dict String → Dict String
delete k [] = []
delete k ((j, v) ∷ m) = if j == k then delete k m else (j, v) ∷ delete k m

abbrev pub keys : Dict String → List String
keys = map (λ p. p.0)

-- The loop of Verify over the files on disk, and what the manifest has beyond them.
unfoldable pub compare_files : List FileDigest → Dict String → Option BundleError
compare_files [] [] = none
compare_files [] ((path, digest) ∷ signed) = some (missing (sort (λ p. p) (path ∷ keys signed)))
compare_files (f ∷ fs) signed = elim (lookup f.path signed) [
  | none ↦ some (not_covered f.path)
  | some want ↦
      if want == f.sha256
      then compare_files fs (delete f.path signed)
      else some (changed f.path f.sha256 want)
]

module _ (crypto : Crypto) where
  abbrev digest_file : String → Result String Bytes → Result String (List FileDigest)
  digest_file path (err e) = err e
  digest_file path (ok contents) =
      ok (record { path = path; sha256 = crypto.sha256_hex contents } ∷ [])

  abbrev digest_link : String → Target → Result String (List FileDigest)
  digest_link path (to_file contents) = digest_file path contents
  digest_link path to_directory = err ("bundle entry " +++ path +++ " is a symlink to a directory")
  digest_link path (dangling e) = err e

  abbrev both :
      Result String (List FileDigest)
      → Result String (List FileDigest)
      → Result String (List FileDigest)
  both (err e) later = err e
  both (ok files) (err e) = err e
  both (ok files) (ok more) = ok (files ++ more)

  -- The callback of WalkDir on what stands below a directory, whose path is `prefix`, up to the
  -- first error. A name that starts with a dot is skipped, with all that stands below it.
  unfoldable mutual
    pub walk : String → Entries → Result String (List FileDigest)
    walk prefix last = ok []
    walk prefix (entry name e rest) =
        let later = walk prefix rest in
        let here = walk_entry (prefix +++ name) e in
        if starts_with name "." then later else both here later

    pub walk_entry : String → Entry → Result String (List FileDigest)
    walk_entry path (file contents) = digest_file path contents
    walk_entry path (link target) = digest_link path target
    walk_entry path (directory entries) = walk (path +++ "/") entries
    walk_entry path (unreadable e) = err e

  unfoldable pub inventory : Result String Entries → Result String (List FileDigest)
  inventory (err e) = err e
  inventory (ok entries) = elim (walk "" entries) [
    | err e ↦ err e
    | ok files ↦ ok (sort (λ f. f.path) files)
  ]

  -- `KeyID`.
  abbrev pub key_id_of : Bytes → String
  key_id_of pub_key = "sha256:" +++ crypto.sha256_hex pub_key

  unfoldable pub digest : Manifest → Result String String
  digest m = elim (crypto.marshal_payload (payload_of m)) [
    | err e ↦ err e
    | ok payload ↦ ok ("sha256:" +++ crypto.sha256_hex payload)
  ]

  -- Verify once the manifest is authenticated.
  unfoldable pub verify_files : Manifest → Result String (List FileDigest) → Option BundleError
  unfolding index_files compare_files
  verify_files m (err e) = some (no_inventory e)
  verify_files m (ok on_disk) = elim (index_files m.files []) [
    | err path ↦ some (listed_twice path)
    | ok signed ↦ compare_files on_disk signed
  ]

  unfoldable pub verify : Result String Entries → Manifest → Bytes → Option BundleError
  unfolding inventory verify_files
  verify bundle m pub_key =
      if not (eqb (length pub_key) public_key_size)
      then some bad_key
      else if m.key_id == "" || m.signature == ""
      then some unsigned
      else if not (m.key_id == key_id_of pub_key)
      then some (wrong_key m.key_id (key_id_of pub_key))
      else elim (crypto.base64_decode m.signature) [
        | err e ↦ some (bad_encoding e)
        | ok signature ↦ elim (crypto.marshal_payload (payload_of m)) [
          | err e ↦ some (no_payload e)
          | ok payload ↦
              if crypto.ed25519_verify pub_key payload signature
              then verify_files m (inventory bundle)
              else some (bad_signature m.key_id)
        ]
      ]

  -- Sign, with the time it reads.
  unfoldable pub sign : Result String Entries → String → Bytes → ℕ → Result BundleError Manifest
  unfolding inventory
  sign bundle version key now =
      if version == ""
      then err no_version
      else if not (eqb (length key) private_key_size)
      then err bad_key
      else elim (inventory bundle) [
        | err e ↦ err (no_inventory e)
        | ok [] ↦ err no_files
        | ok (f ∷ files) ↦ elim (crypto.public_of key) [
          | none ↦ err bad_key
          | some pub_key ↦
              let payload : SignedPayload = record {
                version = version;
                created_at = now;
                files = f ∷ files;
              } in
              elim (crypto.marshal_payload payload) [
                | err e ↦ err (no_payload e)
                | ok bytes ↦ ok (record {
                  version = version;
                  created_at = now;
                  files = f ∷ files;
                  key_id = key_id_of pub_key;
                  signature = crypto.base64_encode (crypto.ed25519_sign key bytes);
                })
              ]
        ]
      ]
