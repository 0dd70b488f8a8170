-- ===== src/Conversation/Rules/Commands.antt =====
-- The commands that opt a lead out: OPT_OUT_COMMAND of src/conversation/guardrails/guardrails.service.ts.
use inmoagent.Prelude.{
  ℕ, ◌+◌, ◌≤◌, Bool, true, false, ◌&&◌, ◌||◌, Option, none, some, List, [], ◌∷◌, ◌++◌, ◌≡◌, ◌≢◌,
  ◌↔◌, ◌⊎◌, inl, inr, refl, sym, ◌∙◌, ap, arith, Elem, map, ltb, trim, ◌==◌, subst,
}
use inmoagent.Regex.{
  codes, Regex, Place, within, fold, is_start, at_boundary, word_before, word_behind,
}
use inmoagent.Regex.Syntax.{seq, alt, folded}
use inmoagent.Regex.Spec.{Matches, Inside, Occurs}
use inmoagent.Conversation.Rules.Guardrails.{opt_out_command, opt_out_phrases, asks_opt_out}
use inmoagent.Conversation.Rules.Laws.{asks_opt_out-iff-Occurs}
use inmoagent.Conversation.Rules.Source.{source_rules}
use inmoagent.Domain.Lead.{Lead, opted_out}
use inmoagent.Conversation.Guardrails.{evaluate, opt_out}
use inmoagent.Conversation.Guardrails.Laws.{evaluate-opt_out_iff}

abbrev pub opt_out_words : List (List ℕ)
opt_out_words = codes "baja" ∷ codes "stop" ∷ codes "no molestar" ∷ codes "no me escribas" ∷ []

-- A small letter may be written as its capital.
abbrev pub Spells : List ℕ → List ℕ → Type 0
Spells [] [] = Unit
Spells [] (c ∷ word) = ⊥
Spells (x ∷ written) [] = ⊥
Spells (x ∷ written) (c ∷ word) =
    ((x ≡ c) ⊎ ((97 ≤ c) × (c ≤ 122) × (x + 32 ≡ c))) × Spells written word

-- The text begins with a command, whole: the end, or no letter, digit or underscore, follows.
pub record Commands (text : List ℕ) : Type 0 where
  pub word : List ℕ
  pub written : List ℕ
  pub rest : List ℕ
  pub known : Elem word opt_out_words
  pub spelled : Spells written word
  pub begins : text ≡ written ++ rest
  pub ended : word_behind rest ≡ false

-- no capital, and of ASCII
abbrev plain : List ℕ → Bool
plain [] = true
plain (c ∷ word) = (ltb c 65 || (ltb 90 c && ltb c 128)) && plain word

abbrev letter_last : List ℕ → Bool
letter_last [] = false
letter_last (c ∷ []) = within 97 122 c
letter_last (c ∷ d ∷ word) = letter_last (d ∷ word)

abbrev last_of : Option ℕ → List ℕ → Option ℕ
last_of before [] = before
last_of before (x ∷ written) = last_of (some x) written

module _ (c : ℕ) (word : List ℕ) (h : plain (c ∷ word) ≡ true) (x : ℕ) where
  fold_sound : (fold x == fold c) ≡ true → (x ≡ c) ⊎ ((97 ≤ c) × (c ≤ 122) × (x + 32 ≡ c))
  fold_sound e = ground (arith, h, e)

  fold_complete : (x ≡ c) ⊎ ((97 ≤ c) × (c ≤ 122) × (x + 32 ≡ c)) → (fold x == fold c) ≡ true
  fold_complete e = ground (arith, h, e)

  plain-tail : plain word ≡ true
  plain-tail = ground (arith, h)

folded_sound :
    (word : List ℕ) (p q : Place)
    → plain word ≡ true
    → Matches (folded word) p q
    → (written : List ℕ) × Spells written word
      × (p.rest ≡ written ++ q.rest)
      × (q.before ≡ last_of p.before written)
unfolding folded
folded_sound [] p q h e =
    ([], tt, ap (λ (r : Place). r.rest) (sym e), ap (λ (r : Place). r.before) e)
folded_sound (c ∷ word) p q h (m, (x, e, here, behind), later) =
    let (written, spelled, rest, before) = folded_sound word m q (plain-tail c word h x) later in
    (
      x ∷ written,
      (fold_sound c word h x e, spelled),
      here ∙ ap (λ (l : List ℕ). x ∷ l) rest,
      before ∙ ap (λ (b : Option ℕ). last_of b written) behind,
    )

folded_complete :
    (word written rest : List ℕ) (before : Option ℕ)
    → plain word ≡ true
    → Spells written word
    → Matches
        (folded word)
        (record { before = before; rest = written ++ rest })
        (record { before = last_of before written; rest = rest })
unfolding folded
folded_complete [] [] rest before h s = refl
folded_complete [] (x ∷ written) rest before h s = absurd s
folded_complete (c ∷ word) [] rest before h s = absurd s
folded_complete (c ∷ word) (x ∷ written) rest before h (same, s) = (
  record { before = some x; rest = written ++ rest },
  (x, fold_complete c word h x same, refl, refl),
  folded_complete word written rest (some x) (plain-tail c word h x) s,
)

-- Behind a word that ends in a letter, the boundary is there exactly if no word unit follows.
last-is_word :
    (word written : List ℕ) (before : Option ℕ)
    → letter_last word ≡ true
    → Spells written word
    → word_before (last_of before written) ≡ true
last-is_word [] written before h s = absurd (cc h)
last-is_word (c ∷ word) [] before h s = absurd s
last-is_word (c ∷ []) (x ∷ []) before h (same, s) = ground (arith, h, same)
last-is_word (c ∷ []) (x ∷ y ∷ written) before h (same, s) = absurd s
last-is_word (c ∷ d ∷ word) (x ∷ written) before h (same, s) =
    last-is_word (d ∷ word) written (some x) h s

alt_sound :
    (words : List (List ℕ)) (p q : Place)
    → Matches (alt (map folded words)) p q
    → (word : List ℕ) × Elem word words × Matches (folded word) p q
unfolding alt
alt_sound [] p q (c, e, h, h') = absurd (cc e)
alt_sound (word ∷ words) p q (inl m) = (word, inl refl, m)
alt_sound (word ∷ words) p q (inr m) =
    let (w, there, found) = alt_sound words p q m in (w, inr there, found)

alt_complete :
    (words : List (List ℕ)) (word : List ℕ) (p q : Place)
    → Elem word words
    → Matches (folded word) p q
    → Matches (alt (map folded words)) p q
unfolding alt
alt_complete [] word p q h m = absurd h
alt_complete (w ∷ words) word p q (inl e) m = inl (subst (λ v. Matches (folded v) p q) e m)
alt_complete (w ∷ words) word p q (inr there) m = inr (alt_complete words word p q there m)

-- what holds of each of the commands
usable : (word : List ℕ) → Elem word opt_out_words → (plain word ≡ true) × (letter_last word ≡ true)
usable word (inl e) = rw e (refl, refl)
usable word (inr (inl e)) = rw e (refl, refl)
usable word (inr (inr (inl e))) = rw e (refl, refl)
usable word (inr (inr (inr (inl e)))) = rw e (refl, refl)
usable word (inr (inr (inr (inr e)))) = absurd e

Inside-later : (c : ℕ) (s : List ℕ) (p : Place) → Inside (some c) s p → is_start p.before ≡ false
Inside-later c [] p e = rw e refl
Inside-later c (x ∷ s) p (inl e) = rw e refl
Inside-later c (x ∷ s) p (inr h) = Inside-later x s p h

Inside-start :
    (s : List ℕ) (p : Place)
    → Inside none s p
    → is_start p.before ≡ true
    → p ≡ record { before = none; rest = s }
Inside-start [] p e h = e
Inside-start (x ∷ s) p (inl e) h = e
Inside-start (x ∷ s) p (inr i) h = absurd (cc (Inside-later x s p i, h))

command_sound : (text : List ℕ) → Occurs opt_out_command text → Commands text
unfolding opt_out_command seq
command_sound text (p, q, here, (m₀, (at_start, e₀), (m₁, words, (m₂, (boundary, e₂), e)))) =
    let (word, known, found) = alt_sound opt_out_words m₀ m₁ words in
    let (is_plain, letter) = usable word known in
    let (written, spelled, rest, before) = folded_sound word m₀ m₁ is_plain found in
    let first = e₀ ∙ Inside-start text p here at_start in
    record {
      word = word;
      written = written;
      rest = m₁.rest;
      known = known;
      spelled = spelled;
      begins = ap (λ (r : Place). r.rest) (sym first) ∙ rest;
      ended = ground (
        arith,
        boundary,
        ap word_before before,
        last-is_word word written m₀.before letter spelled,
      );
    }

Inside-first : (s : List ℕ) → Inside none s (record { before = none; rest = s })
Inside-first [] = refl
Inside-first (x ∷ s) = inl refl

command_complete : (text : List ℕ) → Commands text → Occurs opt_out_command text
unfolding opt_out_command seq
command_complete text c =
    let (is_plain, letter) = usable c.word c.known in
    let p : Place = record { before = none; rest = c.written ++ c.rest } in
    let q : Place = record { before = last_of none c.written; rest = c.rest } in
    let boundary : at_boundary q ≡ true =
      ground (arith, last-is_word c.word c.written none letter c.spelled, c.ended) in
    rw c.begins (
      p,
      q,
      Inside-first (c.written ++ c.rest),
      (
        p,
        (refl, refl),
        (
          q,
          alt_complete opt_out_words c.word p q c.known
              (folded_complete c.word c.written c.rest none is_plain c.spelled),
          (q, (boundary, refl), refl),
        ),
      ),
    )

-- A turn of a lead who has not opted out opts it out exactly where the trimmed text begins with "baja",
-- "stop", "no molestar" or "no me escribas", in small letters or capitals and as a whole word, or where
-- one of the phrases occurs in it.
pub evaluate-iff-Commands :
    (now : ℕ) (lead : Lead) (text : List ℕ)
    → lead.state ≢ opted_out
    → (evaluate source_rules now lead text ≡ opt_out) ↔ (
        Commands (trim text)
        ⊎ ((phrase : Regex) × Elem phrase opt_out_phrases × Occurs phrase (trim text)))
evaluate-iff-Commands now lead text active = (sound, complete)
  where
    Asked : Type 0
    Asked =
        Commands (trim text)
        ⊎ ((phrase : Regex) × Elem phrase opt_out_phrases × Occurs phrase (trim text))

    sound : evaluate source_rules now lead text ≡ opt_out → Asked
    sound h =
        let asked = ((evaluate-opt_out_iff source_rules now lead text).0 h).1 in
        elim ((asks_opt_out-iff-Occurs (trim text)).0 asked) as (λ _. Asked) [
          | inl o ↦ inl (command_sound (trim text) o)
          | inr o ↦ inr o
        ]

    found : Asked → asks_opt_out (trim text) ≡ true
    found (inl c) = (asks_opt_out-iff-Occurs (trim text)).1 (inl (command_complete (trim text) c))
    found (inr o) = (asks_opt_out-iff-Occurs (trim text)).1 (inr o)

    complete : Asked → evaluate source_rules now lead text ≡ opt_out
    complete h = (evaluate-opt_out_iff source_rules now lead text).1 (active, found h)
