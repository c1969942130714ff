-- ===== src/ModelCatalog.antt =====
-- pkg/modelcatalog: the catalogue of approved pairs of a provider and a model.
pub mod Laws
use helmdeep.Base.{
  String, List, [], ◌∷◌, Bool, ◌&&◌, ◌||◌, Option, none, some, ◌==◌, if◌then◌else◌, is_some, Result,
  ok, err,
}

pub record Entry : Type 0 where
  pub provider : String
  pub model : String
  pub approved : Bool
  pub allowed_data_classes : List String
  pub residency : String

pub record Key : Type 0 where
  pub provider : String
  pub model : String

abbrev pub same_key : Key → Key → Bool
same_key k j = k.provider == j.provider && k.model == j.model

-- Go's map from pairs of texts, as Base/Maps.antt has it from texts.
abbrev pub lookup_key : Key → List (Key × Entry) → Option Entry
lookup_key k [] = none
lookup_key k ((j, e) ∷ m) = if same_key j k then some e else lookup_key k m

abbrev pub insert_key : Key → Entry → List (Key × Entry) → List (Key × Entry)
insert_key k e [] = (k, e) ∷ []
insert_key k e ((j, d) ∷ m) = if same_key j k then (k, e) ∷ m else (j, d) ∷ insert_key k e m

pub record Registry : Type 0 where
  pub by_key : List (Key × Entry)

-- The two errors of `New`, with what their texts name.
pub data NewError : Type 0 where
  empty_key : NewError
  duplicate : Key → NewError

abbrev pub key_of : Entry → Key
key_of e = record { provider = e.provider; model = e.model }

-- The loop of `New`.
register : List Entry → List (Key × Entry) → Result NewError Registry
register [] by_key = ok (record { by_key = by_key })
register (e ∷ es) by_key =
    if e.provider == "" || e.model == ""
    then err empty_key
    else if is_some (lookup_key (key_of e) by_key)
    then err (duplicate (key_of e))
    else register es (insert_key (key_of e) e by_key)

unfoldable pub new : List Entry → Result NewError Registry
unfolding register
new entries = register entries []

unfoldable pub find : Registry → String → String → Option Entry
find r provider model = lookup_key (record { provider = provider; model = model }) r.by_key
