-- ===== src/Tests/Registries.antt =====
-- Runs on registries and the catalogue.
use helmdeep.Base.{List, [], ◌∷◌, true, ok, ◌≡◌, refl, ◌↔◌}
use helmdeep.ToolRegistry
use helmdeep.ToolRegistry.Laws
use helmdeep.ToolRegistry.Laws.{new-accepts_iff, find-new, tool_entry}
use helmdeep.ModelCatalog
use helmdeep.ModelCatalog.Laws.{find-new_catalog, catalogued}

abbrev search_tool : ToolRegistry.Entry
search_tool = record {
  tool_id = "kb.search";
  upstream = "kb";
  risk = "low";
  data_classes = [];
  scopes = [];
}

abbrev mail_tool : ToolRegistry.Entry
mail_tool = record {
  tool_id = "mail.send";
  upstream = "mail";
  risk = "high";
  data_classes = [];
  scopes = [];
}

abbrev two_tools : List ToolRegistry.Entry
two_tools = search_tool ∷ mail_tool ∷ []

abbrev two_by_id : ToolRegistry.Registry
two_by_id = record { by_id = ("kb.search", search_tool) ∷ ("mail.send", mail_tool) ∷ [] }

two_tools-new : ToolRegistry.new two_tools ≡ ok two_by_id
unfolding ToolRegistry.new
two_tools-new = refl

new-accepts_iff_example :
    ((r : ToolRegistry.Registry) × (ToolRegistry.new two_tools ≡ ok r))
    ↔ Laws.IsWellFormed two_tools
new-accepts_iff_example = new-accepts_iff two_tools

abbrev opus : ModelCatalog.Entry
opus = record {
  provider = "anthropic";
  model = "m-1";
  approved = true;
  allowed_data_classes = [];
  residency = "";
}

abbrev one_model : ModelCatalog.Registry
one_model = record { by_key = (record { provider = "anthropic"; model = "m-1" }, opus) ∷ [] }

one_model-new : ModelCatalog.new (opus ∷ []) ≡ ok one_model
unfolding ModelCatalog.new
one_model-new = refl

find-new_catalog_example :
    ModelCatalog.find one_model "anthropic" "m-1" ≡ catalogued "anthropic" "m-1" (opus ∷ [])
find-new_catalog_example = find-new_catalog (opus ∷ []) one_model "anthropic" "m-1" one_model-new
