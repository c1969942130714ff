-- ===== src/PolicyService/Loader.antt =====
-- pkg/policyservice/loader.go and stamp.go: the loader that verifies a bundle before it compiles it,
-- and the store that names the active bundle in each record. The loader that compiles is a parameter
-- with the state `L`; `W` is the state of the file system.
pub mod Vouched
use helmdeep.Base.{String, Option, none, some, ◌==◌, ◌&&◌, if◌then◌else◌, Result, ok, err}
use helmdeep.Types.{ActionRecord, PolicyBundleRef}
use helmdeep.Audit.{Store}
use helmdeep.PolicyService.Bundle.{Bytes, Manifest, Entries, Crypto, BundleError, verify, digest}

-- What is read from the file system: a manifest, parsed, and a bundle.
pub record Files (W : Type 0) : Type 0 where
  pub read_manifest : String → W → Result String Manifest
  pub open_bundle : String → W → Result String Entries

pub data LoadError : Type 0 where
  bad_manifest : String → LoadError
  refused : BundleError → LoadError
  no_digest : String → LoadError
  not_compiled : String → LoadError
  not_loaded : LoadError

-- `Load` of a policy loader, with its error; it reads the file system at the time of the call.
abbrev pub Inner : Type 0 → Type 0 → Type 0
Inner W L = String → W → L → Option String × L

abbrev pub no_bundle : PolicyBundleRef
no_bundle = record { version = ""; digest = "" }

pub record VerifyingLoader (L : Type 0) : Type 0 where
  pub inner : L
  pub manifest_path : String
  pub pub_key : Bytes
  pub path : String
  pub active : PolicyBundleRef

abbrev pub new_verifying_loader : {L : Type 0} → L → String → Bytes → VerifyingLoader L
new_verifying_loader inner manifest_path pub_key = record {
  inner = inner;
  manifest_path = manifest_path;
  pub_key = pub_key;
  path = "";
  active = no_bundle;
}

module _ {W L : Type 0} (crypto : Crypto) (files : Files W) (compile : Inner W L) where
  unfoldable pub verify_bundle : VerifyingLoader L → String → W → Result LoadError PolicyBundleRef
  verify_bundle l path w = elim (files.read_manifest l.manifest_path w) [
    | err e ↦ err (bad_manifest e)
    | ok m ↦ elim (verify crypto (files.open_bundle path w) m l.pub_key) [
      | some e ↦ err (refused e)
      | none ↦ elim (digest crypto m) [
        | err e ↦ err (no_digest e)
        | ok sum ↦ ok (record { version = m.version; digest = sum })
      ]
    ]
  ]

  -- `Load` once the inner loader has answered.
  abbrev pub compiled :
      VerifyingLoader L
      → String
      → PolicyBundleRef
      → Option String × L
      → Option LoadError × VerifyingLoader L
  compiled l path ref (some e, inner) = (
    some (not_compiled e),
    record {
      inner = inner;
      manifest_path = l.manifest_path;
      pub_key = l.pub_key;
      path = l.path;
      active = l.active;
    },
  )
  compiled l path ref (none, inner) = (
    none,
    record {
      inner = inner;
      manifest_path = l.manifest_path;
      pub_key = l.pub_key;
      path = path;
      active = ref;
    },
  )

  -- The bundle is verified at the time `w`, and read again to be compiled at the time `w'`.
  unfoldable pub load :
      String → (w w' : W) → VerifyingLoader L → Option LoadError × VerifyingLoader L
  unfolding verify_bundle
  load path w w' l = elim (verify_bundle l path w) [
    | err e ↦ (some e, l)
    | ok ref ↦ compiled l path ref (compile path w' l.inner)
  ]

  unfoldable pub reload : (w w' : W) → VerifyingLoader L → Option LoadError × VerifyingLoader L
  unfolding load
  reload w w' l = if l.path == "" then (some not_loaded, l) else load l.path w w' l

abbrev pub stamp : PolicyBundleRef → Option PolicyBundleRef
stamp ref = if ref.version == "" && ref.digest == "" then none else some ref

-- `StampingStore`: whatever a record carries is replaced by the reference of the active bundle.
abbrev pub stamping_store : {W : Type 0} → Store W → (W → PolicyBundleRef) → Store W
stamping_store inner active = record {
  append = λ rec w.
      inner.append
        (record {
          timestamp = rec.timestamp;
          subject = rec.subject;
          action = rec.action;
          decision = rec.decision;
          outcome = rec.outcome;
          policy_bundle = stamp (active w);
          prev_hash = rec.prev_hash;
          hash = rec.hash;
        })
        w;
  verify = inner.verify;
}
