-- ===== src/Gateway/Obligations/Laws.antt =====
-- What a redaction hides, what it leaves alone, and when it does nothing.
use helmdeep.Base.{
  ℕ, zero, suc, String, Option, none, some, List, [], ◌∷◌, ◌==◌, eq_iff, ◌≡◌, ◌≢◌, refl, ap, sym,
  ◌∙◌, ◌⊎◌, inl, inr, if◌then◌else◌, arith, Option-cases,
}
use helmdeep.Base.Text.{atoi}
use helmdeep.Json.{Json, arr, obj, Elems, nil, cons, Fields, end, field}
use helmdeep.Gateway.Obligations.{
  field_at, set_field, elem_at, set_elem, index, child, with_child, set_at_path,
}

-- What a path leads to.
unfoldable pub get_at_path : Json → List String → Option Json
get_at_path root [] = some root
get_at_path root (seg ∷ rest) = elim (child root seg) [
  | none ↦ none
  | some inner ↦ get_at_path inner rest
]

field_at-set_field :
    (fs : Fields) (a b : String) (new old : Json)
    → field_at fs a ≡ some old
    → field_at (set_field fs a new) b ≡ (if a == b then some new else field_at fs b)
field_at-set_field end a b new old h = ground arith
field_at-set_field (field k v fs) a b new old h =
    ground (arith, field_at-set_field fs a b new old, eq_iff k a, eq_iff k b, eq_iff a b)

elem_at-set_elem_self :
    (vs : Elems) (i : ℕ) (new old : Json)
    → elem_at vs i ≡ some old
    → elem_at (set_elem vs i new) i ≡ some new
elem_at-set_elem_self nil i new old h = ground arith
elem_at-set_elem_self (cons v vs) zero new old h = refl
elem_at-set_elem_self (cons v vs) (suc i) new old h = elem_at-set_elem_self vs i new old h

elem_at-set_elem_ne :
    (vs : Elems) (i j : ℕ) (new : Json) → i ≢ j → elem_at (set_elem vs i new) j ≡ elem_at vs j
elem_at-set_elem_ne nil i j new h = refl
elem_at-set_elem_ne (cons v vs) zero zero new h = absurd (h refl)
elem_at-set_elem_ne (cons v vs) zero (suc j) new h = refl
elem_at-set_elem_ne (cons v vs) (suc i) zero new h = refl
elem_at-set_elem_ne (cons v vs) (suc i) (suc j) new h =
    elem_at-set_elem_ne vs i j new (λ e. h (ap suc e))

child-with_child :
    (v : Json) (seg : String) (new old : Json)
    → child v seg ≡ some old
    → child (with_child v seg new) seg ≡ some new
unfolding child with_child
child-with_child (obj fs) seg new old h =
    ground (arith, field_at-set_field fs seg seg new old, eq_iff seg seg)
child-with_child (arr vs) seg new old h = elim (Option-cases (index (atoi seg))) [
  | inl missing ↦ ground (arith, missing)
  | inr (i, found) ↦ ground (arith, found, elem_at-set_elem_self vs i new old)
]
child-with_child _ seg new old h = ground arith

-- The two segments name different entries of the container.
abbrev pub Different : Json → String → String → Type 0
Different (obj fs) a b = a ≢ b
Different (arr vs) a b = index (atoi a) ≢ index (atoi b)
Different _ a b = Unit

child-with_child_ne :
    (v : Json) (a b : String) (new old : Json)
    → child v a ≡ some old
    → Different v a b
    → child (with_child v a new) b ≡ child v b
unfolding child with_child
child-with_child_ne (obj fs) a b new old h d =
    ground (arith, field_at-set_field fs a b new old, eq_iff a b)
child-with_child_ne (arr vs) a b new old h d = elim (Option-cases (index (atoi a))) [
  | inl missing ↦ ground (arith, missing)
  | inr (i, found) ↦ elim (Option-cases (index (atoi b))) [
    | inl none_b ↦ ground (arith, found, none_b)
    | inr (j, found_b) ↦
        let ne : i ≢ j = λ e. d (found ∙ ap some e ∙ sym found_b) in
        ground (arith, found, found_b, elem_at-set_elem_ne vs i j new ne)
  ]
]
child-with_child_ne _ a b new old h d = refl

-- The paths part at some container: there their next segments name different entries.
abbrev pub Apart : Json → List String → List String → Type 0
Apart v [] q = ⊥
Apart v (a ∷ p) [] = ⊥
Apart v (a ∷ p) (b ∷ q) =
    Different v a b ⊎ ((inner : Json) × (a ≡ b) × (child v a ≡ some inner) × Apart inner p q)

-- The value after a replacement leads to the new entry at the path, and at every path that parts
-- from it to what it led to before.
pub record IsReplaced (v v' : Json) (p : List String) (new : Json) : Type 0 where
  pub reads : get_at_path v' p ≡ some new
  pub keeps : (q : List String) → Apart v p q → get_at_path v' q ≡ get_at_path v q

get_at_path-cons :
    (v inner : Json) (a : String) (p : List String)
    → child v a ≡ some inner
    → get_at_path v (a ∷ p) ≡ get_at_path inner p
unfolding get_at_path
get_at_path-cons v inner a p e = rw (e, get_at_path)

get_at_path-eq :
    (v v' : Json) (b : String) (q : List String)
    → child v' b ≡ child v b
    → get_at_path v' (b ∷ q) ≡ get_at_path v (b ∷ q)
unfolding get_at_path
get_at_path-eq v v' b q e = rw (e, get_at_path)

module _ (v inner inner' : Json) (a : String) (p : List String) (found : child v a ≡ some inner)
    (below : (q : List String) → Apart inner p q → get_at_path inner' q ≡ get_at_path inner q) where
  keeps_Apart :
      (q : List String)
      → Apart v (a ∷ p) q
      → get_at_path (with_child v a inner') q ≡ get_at_path v q
  keeps_Apart [] apart = absurd apart
  keeps_Apart (b ∷ q) (inl d) =
      get_at_path-eq v (with_child v a inner') b q (child-with_child_ne v a b inner' inner found d)
  keeps_Apart (b ∷ q) (inr (inner₁, same, found₁, apart)) =
      let one : inner₁ ≡ inner = cc in
      rw (← same) (
        get_at_path-cons (with_child v a inner') inner' a q
          (child-with_child v a inner' inner found)
        ∙ below q (rw one at apart)
        ∙ sym (get_at_path-cons v inner a q found))

pub set_at_path_lem :
    (v : Json) (a : String) (p : List String) (new old : Json)
    → get_at_path v (a ∷ p) ≡ some old
    → (v' : Json) × (set_at_path v (a ∷ p) new ≡ some v') × IsReplaced v v' (a ∷ p) new
unfolding get_at_path set_at_path
set_at_path_lem v a [] new old h = elim (Option-cases (child v a)) [
  | inl missing ↦ absurd (ground (arith, missing))
  | inr (inner, found) ↦ (
    with_child v a new,
    ground (arith, found),
    record {
      reads = rw (child-with_child v a new inner found, get_at_path);
      keeps = keeps_Apart v inner new a [] found (λ q apart. absurd apart);
    },
  )
]
set_at_path_lem v a (b ∷ p) new old h = elim (Option-cases (child v a)) [
  | inl missing ↦ absurd (ground (arith, missing))
  | inr (inner, found) ↦
      let (inner', set, replaced) =
        set_at_path_lem inner b p new old (sym (get_at_path-cons v inner a (b ∷ p) found) ∙ h) in
      (
        with_child v a inner',
        ground (arith, found, set),
        record {
          reads =
              get_at_path-cons (with_child v a inner') inner' a (b ∷ p)
                (child-with_child v a inner' inner found)
              ∙ replaced.reads;
          keeps = keeps_Apart v inner inner' a (b ∷ p) found replaced.keeps;
        },
      )
]

pub set_at_path-none :
    (v : Json) (p : List String) (new : Json) → get_at_path v p ≡ none → set_at_path v p new ≡ none
unfolding get_at_path set_at_path
set_at_path-none v [] new h = refl
set_at_path-none v (a ∷ []) new h = ground arith
set_at_path-none v (a ∷ b ∷ p) new h = elim (Option-cases (child v a)) [
  | inl missing ↦ ground (arith, missing)
  | inr (inner, found) ↦ ground (
    arith,
    found,
    set_at_path-none inner (b ∷ p) new (sym (get_at_path-cons v inner a (b ∷ p) found) ∙ h),
  )
]
