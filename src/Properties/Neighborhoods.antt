-- ===== src/Properties/Neighborhoods.antt =====
-- src/properties/neighborhoods.ts: the zones and their other names, and whether a text mentions one.
use inmoagent.Prelude.{
  ℕ, String, Bool, true, false, not, ◌&&◌, ◌||◌, List, [], ◌∷◌, ◌++◌, leb, ◌==◌, if◌then◌else◌,
  length, filter, is_nonempty,
}
use inmoagent.Regex.{codes, within, is_digit}
use inmoagent.Properties.Levenshtein.{levenshtein}

unfoldable pub caba_neighborhoods : List String
caba_neighborhoods =
    "agronomia" ∷ "almagro" ∷ "balvanera" ∷ "barracas" ∷ "belgrano" ∷ "boedo" ∷ "caballito"
    ∷ "chacarita" ∷ "coghlan" ∷ "colegiales" ∷ "constitucion" ∷ "flores" ∷ "floresta" ∷ "la boca"
    ∷ "la paternal" ∷ "liniers" ∷ "mataderos" ∷ "monte castro" ∷ "monserrat" ∷ "nueva pompeya"
    ∷ "nunez" ∷ "palermo" ∷ "parque avellaneda" ∷ "parque chacabuco" ∷ "parque chas"
    ∷ "parque patricios" ∷ "puerto madero" ∷ "recoleta" ∷ "retiro" ∷ "saavedra" ∷ "san cristobal"
    ∷ "san nicolas" ∷ "san telmo" ∷ "velez sarsfield" ∷ "versalles" ∷ "villa crespo"
    ∷ "villa del parque" ∷ "villa devoto" ∷ "villa general mitre" ∷ "villa lugano" ∷ "villa luro"
    ∷ "villa ortuzar" ∷ "villa pueyrredon" ∷ "villa real" ∷ "villa riachuelo" ∷ "villa santa rita"
    ∷ "villa soldati" ∷ "villa urquiza" ∷ []

unfoldable pub gba_neighborhoods : List String
gba_neighborhoods =
    "san isidro" ∷ "vicente lopez" ∷ "olivos" ∷ "martinez" ∷ "acassuso" ∷ "beccar" ∷ "boulogne"
    ∷ "san fernando" ∷ "tigre" ∷ "nordelta" ∷ "pilar" ∷ "escobar" ∷ "moron" ∷ "ituzaingo"
    ∷ "hurlingham" ∷ "ramos mejia" ∷ "haedo" ∷ "castelar" ∷ "moreno" ∷ "merlo" ∷ "avellaneda"
    ∷ "lanus" ∷ "lomas de zamora" ∷ "banfield" ∷ "adrogue" ∷ "quilmes" ∷ "wilde" ∷ "berazategui"
    ∷ []

-- ALIASES, each with its zone
unfoldable pub aliases : List (String × String)
aliases =
    ("palermo soho", "palermo")
    ∷ ("palermo hollywood", "palermo")
    ∷ ("palermo chico", "palermo")
    ∷ ("palermo nuevo", "palermo")
    ∷ ("palermo botanico", "palermo")
    ∷ ("las canitas", "palermo")
    ∷ ("villa freud", "palermo")
    ∷ ("bajo palermo", "palermo")
    ∷ ("barrio norte", "recoleta")
    ∷ ("once", "balvanera")
    ∷ ("abasto", "balvanera")
    ∷ ("congreso", "balvanera")
    ∷ ("microcentro", "san nicolas")
    ∷ ("tribunales", "san nicolas")
    ∷ ("city sur", "san nicolas")
    ∷ ("catalinas", "retiro")
    ∷ ("bajo belgrano", "belgrano")
    ∷ ("belgrano chico", "belgrano")
    ∷ ("belgrano r", "belgrano")
    ∷ ("barrio chino", "belgrano")
    ∷ ("nunez", "nunez")
    ∷ ("parque centenario", "caballito")
    ∷ ("vte lopez", "vicente lopez")
    ∷ ("v lopez", "vicente lopez")
    ∷ ("s isidro", "san isidro")
    ∷ ("san isidro centro", "san isidro")
    ∷ ("ramos", "ramos mejia")
    ∷ ("lomas de zamora centro", "lomas de zamora")
    ∷ ("capital", "caba")
    ∷ ("capital federal", "caba")
    ∷ ("caba", "caba")
    ∷ ("ciudad de buenos aires", "caba")
    ∷ []

unfoldable pub units_eq : List ℕ → List ℕ → Bool
units_eq [] [] = true
units_eq (c ∷ s) (d ∷ t) = c == d && units_eq s t
units_eq [] (d ∷ t) = false
units_eq (c ∷ s) [] = false

unfoldable pub includes_text : List String → List ℕ → Bool
includes_text [] s = false
includes_text (t ∷ texts) s = units_eq (codes t) s || includes_text texts s

-- `ALIASES[normalized] ?? normalized`
unfoldable pub resolve_alias : List (String × String) → List ℕ → List ℕ
resolve_alias [] normalized = normalized
resolve_alias ((name, zone) ∷ others) normalized =
    if units_eq (codes name) normalized then codes zone else resolve_alias others normalized

unfoldable pub is_prefix : List ℕ → List ℕ → Bool
is_prefix [] s = true
is_prefix (c ∷ t) [] = false
is_prefix (c ∷ t) (d ∷ s) = c == d && is_prefix t s

-- `text.includes(target)`
unfoldable pub includes_units : List ℕ → List ℕ → Bool
includes_units target [] = is_prefix target []
includes_units target (c ∷ s) = is_prefix target (c ∷ s) || includes_units target s

abbrev pub push_word : ℕ → List (List ℕ) → List (List ℕ)
push_word c [] = (c ∷ []) ∷ []
push_word c (word ∷ words) = (c ∷ word) ∷ words

-- The parts between units that the test takes for separators, empty ones included.
unfoldable pub split_at_units : (ℕ → Bool) → List ℕ → List (List ℕ)
split_at_units separates [] = [] ∷ []
split_at_units separates (c ∷ s) =
    let parts = split_at_units separates s in if separates c then [] ∷ parts else push_word c parts

abbrev pub words_of : (ℕ → Bool) → List ℕ → List (List ℕ)
words_of separates s = filter is_nonempty (split_at_units separates s)

-- `[^a-z0-9]`
abbrev pub is_no_word : ℕ → Bool
is_no_word c = not (within b'a' b'z' c || is_digit c)

unfoldable pub max_typo_distance : List ℕ → ℕ
max_typo_distance word = if leb (length word) 5 then 1 else 2

unfoldable pub some_word : (List ℕ → Bool) → List (List ℕ) → Bool
some_word test [] = false
some_word test (word ∷ words) = test word || some_word test words

unfoldable pub every_word : (List ℕ → Bool) → List (List ℕ) → Bool
every_word test [] = true
every_word test (word ∷ words) = test word && every_word test words

-- `normalize_text` removes accents by the Unicode tables, which are a parameter.
module _ (normalize_text : List ℕ → List ℕ) where
  unfoldable pub normalize_neighborhood : List ℕ → List ℕ
  unfolding resolve_alias aliases units_eq
  normalize_neighborhood raw = resolve_alias aliases (normalize_text raw)

  unfoldable pub is_known_neighborhood : List ℕ → Bool
  unfolding normalize_neighborhood includes_text
  is_known_neighborhood raw =
      includes_text (caba_neighborhoods ++ gba_neighborhoods) (normalize_neighborhood raw)

  unfoldable pub text_mentions_neighborhood : List ℕ → List ℕ → Bool
  unfolding includes_units every_word some_word max_typo_distance split_at_units
  text_mentions_neighborhood turn_text neighborhood =
      let turn = normalize_text turn_text in
      let target = normalize_text neighborhood in
      includes_units target turn
      || every_word
          (λ target_word.
            some_word (λ word. leb (levenshtein word target_word) (max_typo_distance target_word))
              (words_of is_no_word turn))
          (words_of (λ c. c == 32) target)
