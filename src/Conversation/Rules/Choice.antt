-- ===== src/Conversation/Rules/Choice.antt =====
-- Does a text refer to a property that was shown: the expressions of src/conversation/filters.util.ts.
use inmoagent.Prelude.{ℕ, Bool, List, [], ◌∷◌, ◌||◌}
use inmoagent.Regex.{Regex, word_boundary, star, test, test_any}
use inmoagent.Regex.Syntax.{seq, alt, opt, plus, lit, one_of, space, digit, one_to_nine}
use inmoagent.Regex.Replace.{replace, replace_all}

unfoldable pub number_unit_pattern : Regex
number_unit_pattern = seq (
    word_boundary
    ∷ one_to_nine
    ∷ (opt digit)
    ∷ (star space)
    ∷ (alt (
        (seq ((lit "amb") ∷ word_boundary ∷ []))
        ∷ (seq ((lit "ambiente") ∷ (opt (lit "s")) ∷ []))
        ∷ (seq ((lit "dormitorio") ∷ (opt (lit "s")) ∷ []))
        ∷ (seq ((lit "habitacione") ∷ (opt (lit "s")) ∷ []))
        ∷ (seq ((lit "cuarto") ∷ (opt (lit "s")) ∷ []))
        ∷ (seq ((lit "ba") ∷ (one_of "ñn") ∷ (lit "o") ∷ (opt (lit "s")) ∷ []))
        ∷ (seq ((lit "persona") ∷ (opt (lit "s")) ∷ []))
        ∷ (seq ((lit "hij") ∷ (one_of "oa") ∷ (opt (lit "s")) ∷ []))
        ∷ (seq ((lit "nen") ∷ (one_of "ea") ∷ (opt (lit "s")) ∷ []))
        ∷ (seq ((lit "chic") ∷ (one_of "oa") ∷ (opt (lit "s")) ∷ []))
        ∷ (seq ((lit "a") ∷ (one_of "ñn") ∷ (lit "o") ∷ (opt (lit "s")) ∷ []))
        ∷ (seq ((lit "luca") ∷ (opt (lit "s")) ∷ []))
        ∷ (seq ((lit "luca") ∷ word_boundary ∷ []))
        ∷ (seq ((lit "palo") ∷ (opt (lit "s")) ∷ []))
        ∷ (seq ((lit "mil") ∷ word_boundary ∷ []))
        ∷ (seq ((lit "millon") ∷ (opt (lit "es")) ∷ []))
        ∷ (seq ((lit "k") ∷ word_boundary ∷ []))
        ∷ (seq ((lit "usd") ∷ word_boundary ∷ []))
        ∷ (seq ((lit "d") ∷ (one_of "oó") ∷ (lit "lare") ∷ (opt (lit "s")) ∷ []))
        ∷ (seq ((lit "peso") ∷ (opt (lit "s")) ∷ []))
        ∷ (seq ((lit "m2") ∷ word_boundary ∷ []))
        ∷ (seq ((lit "mt") ∷ (opt (lit "s")) ∷ word_boundary ∷ []))
        ∷ (seq ((lit "metro") ∷ (opt (lit "s")) ∷ []))
        ∷ (seq ((lit "cuadra") ∷ (opt (lit "s")) ∷ []))
        ∷ (seq ((lit "piso") ∷ (opt (lit "s")) ∷ []))
        ∷ (seq ((lit "auto") ∷ (opt (lit "s")) ∷ []))
        ∷ (seq ((lit "cochera") ∷ (opt (lit "s")) ∷ []))
        ∷ []))
    ∷ [])

-- numbers that name no property: "somos 2", "hasta 900"
unfoldable pub quantity_pattern : Regex
quantity_pattern = seq (
    word_boundary
    ∷ (alt (
        (lit "somos")
        ∷ (lit "para")
        ∷ (lit "con")
        ∷ (lit "tenemos")
        ∷ (lit "hasta")
        ∷ (seq ((lit "m") ∷ (one_of "aá") ∷ (lit "ximo") ∷ []))
        ∷ (lit "max")
        ∷ []))
    ∷ (plus space)
    ∷ one_to_nine
    ∷ (star digit)
    ∷ word_boundary
    ∷ [])

-- a number on its own
unfoldable pub number_pattern : Regex
number_pattern = seq (word_boundary ∷ one_to_nine ∷ word_boundary ∷ [])

unfoldable pub property_choice_patterns : List Regex
property_choice_patterns =
    (seq (
      word_boundary
      ∷ (alt (
          (lit "la")
          ∷ (lit "el")
          ∷ (seq ((lit "opci") ∷ (one_of "oó") ∷ (lit "n") ∷ []))
          ∷ (seq ((lit "n") ∷ (one_of "uú") ∷ (lit "mero") ∷ []))
          ∷ (seq ((lit "nro") ∷ (opt (lit ".")) ∷ []))
          ∷ []))
      ∷ (star space)
      ∷ one_to_nine
      ∷ word_boundary
      ∷ []))
    ∷ (seq (
        word_boundary
        ∷ (alt (
            (seq ((lit "primer") ∷ (opt (one_of "oa")) ∷ []))
            ∷ (seq ((lit "segund") ∷ (one_of "oa") ∷ []))
            ∷ (seq ((lit "tercer") ∷ (opt (one_of "oa")) ∷ []))
            ∷ (seq (
                (one_of "123")
                ∷ (star space)
                ∷ (alt (
                    (seq ((lit "er") ∷ (opt (one_of "oa")) ∷ []))
                    ∷ (seq ((lit "d") ∷ (one_of "oa") ∷ []))
                    ∷ (seq ((lit "r") ∷ (one_of "oa") ∷ []))
                    ∷ []))
                ∷ []))
            ∷ []))
        ∷ word_boundary
        ∷ []))
    ∷ (seq (
        word_boundary
        ∷ (alt (
            (seq ((lit "es") ∷ (one_of "ea") ∷ []))
            ∷ (seq ((lit "est") ∷ (one_of "ea") ∷ []))
            ∷ (seq ((lit "aquell") ∷ (one_of "ao") ∷ []))
            ∷ []))
        ∷ word_boundary
        ∷ []))
    ∷ (seq (
        (lit "me")
        ∷ (plus space)
        ∷ (alt (
            (lit "interesa")
            ∷ (lit "gusta")
            ∷ (lit "copa")
            ∷ (lit "encanta")
            ∷ (lit "cierra")
            ∷ (lit "sirve")
            ∷ (lit "convence")
            ∷ []))
        ∷ []))
    ∷ (seq (
        (lit "quiero")
        ∷ (plus space)
        ∷ (alt (
            (seq ((lit "verl") ∷ (one_of "oa") ∷ []))
            ∷ (seq ((lit "visitarl") ∷ (one_of "oa") ∷ []))
            ∷ (seq ((lit "conocerl") ∷ (one_of "oa") ∷ []))
            ∷ (seq ((lit "ir a verl") ∷ (one_of "oa") ∷ []))
            ∷ (lit "agendar")
            ∷ []))
        ∷ []))
    ∷ (seq (
        word_boundary
        ∷ (lit "visit")
        ∷ (opt (
            alt
              ((lit "a") ∷ (lit "as") ∷ (lit "ar") ∷ (lit "arla") ∷ (lit "arlo") ∷ (lit "o") ∷ [])))
        ∷ word_boundary
        ∷ []))
    ∷ (seq (
        word_boundary
        ∷ (lit "la")
        ∷ (plus space)
        ∷ (alt
            ((lit "quiero") ∷ (lit "veo") ∷ (lit "visito") ∷ (lit "alquilo") ∷ (lit "compro") ∷ []))
        ∷ word_boundary
        ∷ []))
    ∷ (seq (
        word_boundary
        ∷ (alt ((lit "el") ∷ (lit "la") ∷ []))
        ∷ (plus space)
        ∷ (alt (
            (seq ((lit "de") ∷ (opt (lit "l")) ∷ space ∷ []))
            ∷ (seq ((lit "de la") ∷ space ∷ []))
            ∷ (seq ((lit "con") ∷ space ∷ []))
            ∷ []))
        ∷ []))
    ∷ (seq (
        word_boundary
        ∷ (alt (
            (lit "first")
            ∷ (lit "second")
            ∷ (lit "third")
            ∷ (lit "that one")
            ∷ (lit "this one")
            ∷ []))
        ∷ word_boundary
        ∷ []))
    ∷ (seq (
        word_boundary
        ∷ (lit "i")
        ∷ (plus space)
        ∷ (alt ((lit "like") ∷ (lit "love") ∷ (lit "want") ∷ (lit "prefer") ∷ []))
        ∷ word_boundary
        ∷ []))
    ∷ []

unfoldable pub cleaned_text : List ℕ → List ℕ
unfolding replace replace_all
cleaned_text text =
    replace_all quantity_pattern (32 ∷ []) (replace number_unit_pattern (32 ∷ []) text)

unfoldable pub confirms_property_choice : List ℕ → Bool
confirms_property_choice text =
    test number_pattern (cleaned_text text) || test_any property_choice_patterns text
