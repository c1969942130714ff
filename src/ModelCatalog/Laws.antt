-- ===== src/ModelCatalog/Laws.antt =====
-- What a catalogue that `New` builds holds.
use helmdeep.Base.{
  String, List, [], ◌∷◌, true, Option, none, some, eq_iff, ◌≡◌, ◌↔◌, refl, if◌then◌else◌, ok, arith,
  either, ◌==◌, ◌&&◌,
}
use helmdeep.ModelCatalog.{
  Entry, Key, same_key, lookup_key, insert_key, Registry, key_of, register, new, find,
}

-- The first entry of a configuration for a provider and a model.
abbrev pub catalogued : (provider model : String) → List Entry → Option Entry
catalogued provider model [] = none
catalogued provider model (e ∷ es) =
    if e.provider == provider && e.model == model then some e else catalogued provider model es

pub same_key_iff : (k j : Key) → (same_key k j ≡ true) ↔ (k ≡ j)
same_key_iff k j = ground (arith, eq_iff k.provider j.provider, eq_iff k.model j.model)

lookup_key-insert_key :
    (k j : Key) (e : Entry) (m : List (Key × Entry))
    → lookup_key j (insert_key k e m) ≡ (if same_key k j then some e else lookup_key j m)
lookup_key-insert_key k j e [] = refl
lookup_key-insert_key k j e ((i, d) ∷ m) =
    ground
      (arith, same_key_iff k j, same_key_iff i k, same_key_iff i j, lookup_key-insert_key k j e m)

register-lookup :
    (es : List Entry) (m : List (Key × Entry)) (r : Registry) (k : Key)
    → register es m ≡ ok r
    → lookup_key k r.by_key ≡ either (lookup_key k m) (catalogued k.provider k.model es)
unfolding register
register-lookup [] m r k h = ground arith
register-lookup (e ∷ es) m r k h = ground (
  arith,
  register-lookup es (insert_key (key_of e) e m) r k,
  lookup_key-insert_key (key_of e) k e m,
  same_key_iff (key_of e) k,
)

-- The catalogue that New builds answers Lookup with the entry that declares this provider and this
-- model, and with nothing where no entry declares both.
pub find-new_catalog :
    (es : List Entry) (r : Registry) (provider model : String)
    → new es ≡ ok r
    → find r provider model ≡ catalogued provider model es
unfolding new find
find-new_catalog es r provider model h = register-lookup es [] r _ h
