-- ===== src/Properties/Zones.antt =====
-- src/properties/zone-adjacency.ts
use inmoagent.Prelude.{String, List, [], ◌∷◌, lookup, or_value}

abbrev zonas_aledanas : List (String × List String)
zonas_aledanas =
    ("villa crespo", "palermo" ∷ "caballito" ∷ [])
    ∷ ("colegiales", "belgrano" ∷ "palermo" ∷ [])
    ∷ ("nunez", "belgrano" ∷ [])
    ∷ ("coghlan", "belgrano" ∷ "villa urquiza" ∷ [])
    ∷ ("saavedra", "villa urquiza" ∷ "belgrano" ∷ [])
    ∷ ("flores", "caballito" ∷ [])
    ∷ ("almagro", "caballito" ∷ "palermo" ∷ [])
    ∷ ("parque chas", "villa urquiza" ∷ [])
    ∷ ("villa pueyrredon", "villa urquiza" ∷ [])
    ∷ ("chacarita", "palermo" ∷ "villa urquiza" ∷ [])
    ∷ ("recoleta", "palermo" ∷ [])
    ∷ ("boedo", "caballito" ∷ [])
    ∷ ("villa devoto", "villa urquiza" ∷ [])
    ∷ ("agronomia", "villa urquiza" ∷ "caballito" ∷ [])
    ∷ []

unfoldable pub get_adjacent_zones : String → List String
get_adjacent_zones zone = or_value (lookup zone zonas_aledanas) []
