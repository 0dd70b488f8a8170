-- ===== src/Conversation/Rules/BuyingSignals.antt =====
-- src/conversation/buying-signals.util.ts.
use inmoagent.Prelude.{ℕ, Bool, List, [], ◌∷◌}
use inmoagent.Regex.{Regex, word_boundary, star, test_any}
use inmoagent.Regex.Syntax.{seq, opt, lit, one_of, space}

unfoldable pub buying_signal_patterns : List Regex
buying_signal_patterns =
    (lit "descuento")
    ∷ (seq (word_boundary ∷ (lit "contado") ∷ word_boundary ∷ []))
    ∷ (seq
        ((lit "cu") ∷ (one_of "aá") ∷ (lit "nto me lo dej") ∷ (one_of "aá") ∷ (opt (lit "s")) ∷ []))
    ∷ (lit "negociable")
    ∷ (seq ((lit "financia") ∷ (opt (seq ((lit "ci") ∷ (one_of "oó") ∷ (lit "n") ∷ []))) ∷ []))
    ∷ (lit "permuta")
    ∷ (seq (word_boundary ∷ (lit "se") ∷ (one_of "ñn") ∷ (lit "a") ∷ word_boundary ∷ []))
    ∷ (seq (word_boundary ∷ (lit "reserva") ∷ (opt (lit "r")) ∷ word_boundary ∷ []))
    ∷ (seq ((lit "escritura") ∷ (opt (seq ((lit "ci") ∷ (one_of "oó") ∷ (lit "n") ∷ []))) ∷ []))
    ∷ (seq ((lit "apto") ∷ (star space) ∷ (lit "cr") ∷ (one_of "eé") ∷ (lit "dito") ∷ []))
    ∷ (seq (word_boundary ∷ (lit "cuota") ∷ (opt (lit "s")) ∷ word_boundary ∷ []))
    ∷ (lit "anticipo")
    ∷ []

unfoldable pub has_buying_signal : List ℕ → Bool
has_buying_signal turn_text = test_any buying_signal_patterns turn_text
