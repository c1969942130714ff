-- ===== src/Json.antt =====
-- The values that encoding/json decodes into `any`: what internal/gateway walks in arguments, in
-- tool results and in redactions. Numbers are only passed on, so one is kept as its text.
use helmdeep.Base.{String, List, [], ◌∷◌, Bool, Result}

mutual
  pub data Json : Type 0 where
    null : Json
    bool : Bool → Json
    num : String → Json
    str : String → Json
    arr : Elems → Json
    obj : Fields → Json

  pub data Elems : Type 0 where
    nil : Elems
    cons : Json → Elems → Elems

  pub data Fields : Type 0 where
    end : Fields
    field : String → Json → Fields → Fields

abbrev pub elems : Elems → List Json
elems nil = []
elems (cons v vs) = v ∷ elems vs

abbrev pub fields : Fields → List (String × Json)
fields end = []
fields (field k v fs) = (k, v) ∷ fields fs

-- encoding/json on raw messages; the text of an error is kept.
pub record Codec : Type 0 where
  pub marshal : Json → Result String String
  pub unmarshal : String → Result String Json
