-- ===== src/Conversation/Rules/Answers.antt =====
-- The expressions of src/conversation/filters.util.ts for a day, a yes and a choice left to the bot.
use inmoagent.Prelude.{ℕ, String, Bool, Option, none, some, List, [], ◌∷◌, if◌then◌else◌, trim}
use inmoagent.Regex.{Regex, word_boundary, start, star, test}
use inmoagent.Regex.Syntax.{seq, alt, opt, lit, one_of, space}

unfoldable pub saturday_pattern : Regex
saturday_pattern = seq (
    word_boundary ∷ (lit "s") ∷ (one_of "áa") ∷ (lit "bado") ∷ (opt (lit "s")) ∷ word_boundary ∷ [])

unfoldable pub weekday_pattern : Regex
weekday_pattern = alt (
    (lit "entre semana")
    ∷ (lit "lunes")
    ∷ (lit "martes")
    ∷ (seq ((lit "mi") ∷ (one_of "ée") ∷ (lit "rcoles") ∷ []))
    ∷ (lit "jueves")
    ∷ (lit "viernes")
    ∷ (lit "entre-semana")
    ∷ (lit "dia de semana")
    ∷ (lit "día de semana")
    ∷ [])

unfoldable pub extract_day_preference : List ℕ → Option String
extract_day_preference text =
    if test saturday_pattern text
    then some "sábado"
    else if test weekday_pattern text
    then some "entre semana"
    else none

unfoldable pub acceptance_pattern : Regex
acceptance_pattern = seq (
    start
    ∷ (star space)
    ∷ (alt (
        (lit "dale")
        ∷ (seq ((lit "s") ∷ (one_of "ií") ∷ []))
        ∷ (seq ((lit "si") ∷ word_boundary ∷ []))
        ∷ (lit "bueno")
        ∷ (lit "joya")
        ∷ (lit "de una")
        ∷ (seq ((lit "ok") ∷ (opt (lit "ay")) ∷ []))
        ∷ (seq ((lit "va") ∷ word_boundary ∷ []))
        ∷ (lit "genial")
        ∷ (lit "mostrame")
        ∷ (lit "mostrá")
        ∷ (lit "mostra")
        ∷ (lit "perfecto")
        ∷ (lit "buenisimo")
        ∷ (lit "buenísimo")
        ∷ (lit "listo")
        ∷ []))
    ∷ word_boundary
    ∷ [])

unfoldable pub accepts_zone_suggestion : List ℕ → Bool
accepts_zone_suggestion text = test acceptance_pattern (trim text)

unfoldable pub zone_delegation_pattern : Regex
zone_delegation_pattern = alt (
    (lit "me da igual")
    ∷ (seq (
        (lit "cualquier ")
        ∷ (alt ((lit "barrio") ∷ (lit "zona") ∷ (lit "lado") ∷ (lit "lugar") ∷ []))
        ∷ []))
    ∷ (lit "cualquiera me")
    ∷ (lit "donde sea")
    ∷ (lit "no tengo preferencia")
    ∷ (seq (
        (lit "no s")
        ∷ (one_of "ée")
        ∷ (lit " ")
        ∷ (opt (seq ((lit "qu") ∷ (one_of "ée") ∷ (lit " ") ∷ [])))
        ∷ (alt ((lit "barrio") ∷ (lit "zona") ∷ []))
        ∷ []))
    ∷ (seq (
        (lit "recomend")
        ∷ (alt
            ((lit "a") ∷ (lit "á") ∷ (lit "ame") ∷ (lit "ás") ∷ (lit "as") ∷ (lit "ame algo") ∷ []))
        ∷ []))
    ∷ (seq ((lit "vos qu") ∷ (one_of "ée") ∷ []))
    ∷ (seq ((lit "qu") ∷ (one_of "ée") ∷ (lit " me recomend") ∷ []))
    ∷ (seq ((lit "lo que ") ∷ (alt ((lit "haya") ∷ (lit "tengas") ∷ [])) ∷ []))
    ∷ (seq ((lit "donde ") ∷ (alt ((lit "haya") ∷ (lit "tengas") ∷ [])) ∷ []))
    ∷ (lit "el que sea")
    ∷ (lit "la que sea")
    ∷ [])

unfoldable pub delegates_zone_choice : List ℕ → Bool
delegates_zone_choice text = test zone_delegation_pattern text
