-- ===== src/PolicyService/Bundle/Files.antt =====
-- Lists of files with their digests, as Verify indexes and compares them.
use helmdeep.Base.{
  String, ◌==◌, eq_iff, eq_refl, if◌then◌else◌, Option, none, some, List, [], ◌∷◌, ok, Dict, lookup,
  insert, lookup-insert, ◌≡◌, ◌↔◌, refl, inl, inr, Bool-cases, Option-cases, arith, either,
}
use helmdeep.PolicyService.Bundle.{FileDigest, index_files, delete, compare_files, digest}

-- The digest of the first file with this path.
abbrev pub digest_of : String → List FileDigest → Option String
digest_of path [] = none
digest_of path (f ∷ fs) = if f.path == path then some f.sha256 else digest_of path fs

-- No path stands twice.
abbrev pub AreDistinct : List FileDigest → Type 0
AreDistinct [] = Unit
AreDistinct (f ∷ fs) = (digest_of f.path fs ≡ none) × AreDistinct fs

-- Two lists of files have the same paths, with the same digests.
abbrev pub AreSame : List FileDigest → List FileDigest → Type 0
AreSame fs gs = (path : String) → digest_of path fs ≡ digest_of path gs

abbrev pub AreNew : List FileDigest → Dict String → Type 0
AreNew [] m = Unit
AreNew (f ∷ fs) m = (lookup f.path m ≡ none) × AreNew fs m

pub AreNew-nil : (fs : List FileDigest) → AreNew fs []
AreNew-nil [] = tt
AreNew-nil (f ∷ fs) = (refl, AreNew-nil fs)

AreNew-insert :
    (path digest : String) (fs : List FileDigest) (m : Dict String)
    → AreNew fs (insert path digest m) ↔ (AreNew fs m × (digest_of path fs ≡ none))
AreNew-insert path digest [] m = ground arith
AreNew-insert path digest (f ∷ fs) m = ground (
  arith,
  AreNew-insert path digest fs m,
  lookup-insert path f.path digest m,
  eq_iff path f.path,
  eq_iff f.path path,
)

pub index_files-lookup :
    (fs : List FileDigest) (m m' : Dict String) (path : String)
    → index_files fs m ≡ ok m'
    → lookup path m' ≡ either (lookup path m) (digest_of path fs)
unfolding index_files
index_files-lookup [] m m' path h = ground arith
index_files-lookup (f ∷ fs) m m' path h = ground (
  arith,
  index_files-lookup fs (insert f.path f.sha256 m) m' path,
  lookup-insert f.path path f.sha256 m,
  eq_iff f.path path,
)

pub index_files_sound :
    (fs : List FileDigest) (m m' : Dict String)
    → index_files fs m ≡ ok m'
    → AreDistinct fs × AreNew fs m
unfolding index_files
index_files_sound [] m m' h = (tt, tt)
index_files_sound (f ∷ fs) m m' h =
    ground (
      arith,
      index_files_sound fs (insert f.path f.sha256 m) m',
      AreNew-insert f.path f.sha256 fs m,
    )

pub index_files_complete :
    (fs : List FileDigest) (m : Dict String)
    → AreDistinct fs
    → AreNew fs m
    → (m' : Dict String) × (index_files fs m ≡ ok m')
unfolding index_files
index_files_complete [] m d n = (_, refl)
index_files_complete (f ∷ fs) m (once, d) (fresh, n) =
    let (m', built) =
      index_files_complete fs (insert f.path f.sha256 m) d
        ((AreNew-insert f.path f.sha256 fs m).1 (n, once)) in
    (m', ground arith)

lookup-delete :
    (k j : String) (m : Dict String) → lookup j (delete k m) ≡ (if k == j then none else lookup j m)
lookup-delete k j [] = ground arith
lookup-delete k j ((i, v) ∷ m) =
    ground (arith, eq_iff k j, eq_iff i k, eq_iff i j, lookup-delete k j m)

pub compare_files_sound :
    (fs : List FileDigest) (m : Dict String)
    → compare_files fs m ≡ none
    → AreDistinct fs × ((path : String) → lookup path m ≡ digest_of path fs)
unfolding compare_files
compare_files_sound [] [] h = (tt, λ path. refl)
compare_files_sound [] ((p, d) ∷ m) h = cc
compare_files_sound (f ∷ fs) m h = elim (Option-cases (lookup f.path m)) [
  | inl absent ↦ let k = rw (absent, compare_files) at h in cc
  | inr (want, listed) ↦ elim (Bool-cases (want == f.sha256)) [
    | inr other ↦ let k = rw (listed, other, compare_files) at h in cc
    | inl equal ↦
        let rest : compare_files fs (delete f.path m) ≡ none =
          rw (listed, equal, compare_files) at h in
        let (distinct, agree) = compare_files_sound fs (delete f.path m) rest in
        (
          (ground (arith, agree f.path, lookup-delete f.path f.path m, eq_refl f.path), distinct),
          λ path. ground (
            arith,
            agree path,
            lookup-delete f.path path m,
            eq_iff f.path path,
            eq_iff want f.sha256,
            listed,
            equal,
          ),
        )
  ]
]

pub compare_files_complete :
    (fs : List FileDigest) (m : Dict String)
    → AreDistinct fs
    → ((path : String) → lookup path m ≡ digest_of path fs)
    → compare_files fs m ≡ none
unfolding compare_files
compare_files_complete [] [] d agree = refl
compare_files_complete [] ((p, v) ∷ m) d agree = ground (arith, agree p, eq_refl p)
compare_files_complete (f ∷ fs) m (once, d) agree =
    let listed : lookup f.path m ≡ some f.sha256 = ground (arith, agree f.path, eq_refl f.path) in
    rw (listed, eq_refl f.sha256, compare_files)
      (compare_files_complete fs (delete f.path m) d
        (λ path. ground (arith, agree path, lookup-delete f.path path m, eq_iff f.path path)))
