-- ===== src/Conversation/Rules/Guardrails.antt =====
-- The expressions of src/conversation/guardrails/guardrails.service.ts.
use inmoagent.Prelude.{ℕ, Bool, List, [], ◌∷◌, ◌||◌}
use inmoagent.Regex.{Regex, word_boundary, start, test, test_any}
use inmoagent.Regex.Syntax.{seq, alt, opt, plus, lit, one_of, space}

unfoldable pub opt_out_command : Regex
opt_out_command = seq (
    start
    ∷ (alt ((lit "baja") ∷ (lit "stop") ∷ (lit "no molestar") ∷ (lit "no me escribas") ∷ []))
    ∷ word_boundary
    ∷ [])

unfoldable pub opt_out_phrases : List Regex
opt_out_phrases =
    (seq (
      (lit "no ")
      ∷ (alt ((lit "me") ∷ (lit "nos") ∷ []))
      ∷ (lit " escrib")
      ∷ (alt ((lit "as") ∷ (lit "an") ∷ (lit "a") ∷ []))
      ∷ (lit " m")
      ∷ (one_of "aá")
      ∷ (lit "s")
      ∷ []))
    ∷ (seq (
        (lit "no ")
        ∷ (alt ((lit "quiero") ∷ (lit "queremos") ∷ []))
        ∷ (lit " que me escriban")
        ∷ []))
    ∷ (seq (
        (lit "no me mand")
        ∷ (alt ((lit "es") ∷ (lit "en") ∷ []))
        ∷ (lit " m")
        ∷ (one_of "aá")
        ∷ (lit "s")
        ∷ []))
    ∷ (seq (
        (lit "dej")
        ∷ (alt ((lit "a") ∷ (lit "en") ∷ (lit "ame") ∷ (lit "á") ∷ []))
        ∷ (lit " de escribir")
        ∷ (opt (alt ((lit "me") ∷ (lit "nos") ∷ [])))
        ∷ []))
    ∷ (seq ((lit "no quiero recibir m") ∷ (one_of "aá") ∷ (lit "s mensajes") ∷ []))
    ∷ (seq (
        (lit "borr")
        ∷ (alt ((lit "a") ∷ (lit "en") ∷ (lit "ame") ∷ (lit "áme") ∷ (lit "ame") ∷ []))
        ∷ (lit " ")
        ∷ (alt ((lit "de la lista") ∷ (lit "mis datos") ∷ []))
        ∷ []))
    ∷ (alt (
        (seq ((lit "dar") ∷ (opt (lit "me")) ∷ (lit " de baja") ∷ []))
        ∷ (lit "darme la baja")
        ∷ (lit "quiero la baja")
        ∷ []))
    ∷ []

unfoldable pub handoff_patterns : List Regex
handoff_patterns =
    (seq (
      (lit "hablar con ")
      ∷ (alt (
          (lit "una persona")
          ∷ (lit "un humano")
          ∷ (lit "alguien")
          ∷ (lit "un asesor")
          ∷ (lit "un agente")
          ∷ (lit "un vendedor")
          ∷ []))
      ∷ []))
    ∷ (seq ((lit "atend") ∷ (one_of "ée") ∷ (lit "me") ∷ word_boundary ∷ []))
    ∷ (seq (
        (lit "que me atienda ")
        ∷ (alt ((lit "una persona") ∷ (lit "un humano") ∷ (lit "alguien") ∷ []))
        ∷ []))
    ∷ (seq
        ((lit "quiero ") ∷ (alt ((lit "un") ∷ (lit "hablar con un") ∷ [])) ∷ (lit " asesor") ∷ []))
    ∷ (seq (
        (lit "pasa")
        ∷ (alt ((lit "me") ∷ (lit "rme") ∷ []))
        ∷ (lit " con ")
        ∷ (alt (
            (lit "alguien")
            ∷ (lit "una persona")
            ∷ (lit "un humano")
            ∷ (lit "un asesor")
            ∷ (lit "la oficina")
            ∷ []))
        ∷ []))
    ∷ (seq (
        (lit "comunica")
        ∷ (alt ((lit "me") ∷ (lit "rme") ∷ []))
        ∷ (lit " con ")
        ∷ (alt (
            (lit "alguien")
            ∷ (lit "una persona")
            ∷ (lit "un humano")
            ∷ (lit "un asesor")
            ∷ (lit "la oficina")
            ∷ []))
        ∷ []))
    ∷ (seq (
        (lit "contact")
        ∷ (alt ((lit "a") ∷ (lit "e") ∷ []))
        ∷ (opt (lit "n"))
        ∷ (opt (alt ((lit "me") ∷ (lit "rme") ∷ (lit "nos") ∷ [])))
        ∷ (plus space)
        ∷ (opt (seq ((lit "con") ∷ (plus space) ∷ [])))
        ∷ (alt (
            (lit "alguien")
            ∷ (lit "una persona")
            ∷ (lit "un humano")
            ∷ (lit "un asesor")
            ∷ (lit "un agente")
            ∷ (lit "un vendedor")
            ∷ (lit "la oficina")
            ∷ []))
        ∷ []))
    ∷ (seq ((lit "persona ") ∷ (alt ((lit "real") ∷ (lit "de carne y hueso") ∷ [])) ∷ []))
    ∷ (seq (
        (lit "no ")
        ∷ (alt ((lit "quiero") ∷ (lit "me gusta") ∷ []))
        ∷ (lit " hablar con ")
        ∷ (opt (alt ((lit "un ") ∷ (lit "el ") ∷ (lit "los ") ∷ [])))
        ∷ (alt (
            (seq ((lit "bot") ∷ (opt (lit "s")) ∷ []))
            ∷ (seq ((lit "robot") ∷ (opt (lit "s")) ∷ []))
            ∷ (seq ((lit "m") ∷ (one_of "aá") ∷ (lit "quina") ∷ (opt (lit "s")) ∷ []))
            ∷ (seq ((lit "asistente") ∷ (opt (lit "s")) ∷ (lit " virtuale") ∷ (opt (lit "s")) ∷ []))
            ∷ []))
        ∷ []))
    ∷ []

-- the conditions on the trimmed text
unfoldable pub asks_opt_out : List ℕ → Bool
asks_opt_out trimmed = test opt_out_command trimmed || test_any opt_out_phrases trimmed

unfoldable pub asks_handoff : List ℕ → Bool
asks_handoff trimmed = test_any handoff_patterns trimmed
