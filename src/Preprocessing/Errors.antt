-- ===== src/Preprocessing/Errors.antt =====
-- The ways in which `process_args` of src/preprocessing.c fails.
use Prim.Native.String.{String}
use concurrent_request_orche.Base.{
  ◌≡◌, refl, ap, ◌∙◌, ◌⊎◌, inl, inr, Bool, true, false, Option, none, some, List, [], ◌∷◌, ◌++◌,
}
use concurrent_request_orche.Preprocessing.{
  Keyword, keyword, SimulationParameters, Outcome, reads_null, refused, accepted, Doubles,
  set_option, with_bounds, turn, process_args,
}

-- An option that takes a value.
abbrev pub is_valued : Keyword → Bool
is_valued Keyword.help = false
is_valued Keyword.debug = false
is_valued Keyword.unknown = false
is_valued _ = true

module _ (D : Doubles) where
  -- Which of the two it was that succeeded, by the word alone.
  turn-accepted :
      (k : Keyword) (switched valued : Outcome D.Double) (q : SimulationParameters D.Double)
      → turn D k switched valued ≡ accepted q
      → (((s v : Outcome D.Double) → turn D k s v ≡ s) × (switched ≡ accepted q))
        ⊎ (((s v : Outcome D.Double) → turn D k s v ≡ v) × (valued ≡ accepted q))
  unfolding turn
  turn-accepted Keyword.help switched valued q e = absurd (cc)
  turn-accepted Keyword.unknown switched valued q e = absurd (cc)
  turn-accepted Keyword.debug switched valued q e = inl (λ s v. refl, e)
  turn-accepted _ switched valued q e = inr (λ s v. refl, e)

  turn-valued :
      (k : Keyword) (switched valued : Outcome D.Double)
      → is_valued k ≡ true
      → turn D k switched valued ≡ valued
  unfolding turn
  turn-valued Keyword.help switched valued h = absurd (cc)
  turn-valued Keyword.unknown switched valued h = absurd (cc)
  turn-valued Keyword.debug switched valued h = absurd (cc)
  turn-valued _ switched valued h = refl

  valued-append :
      (args rest : List String) (q : SimulationParameters D.Double)
      (o : Option (SimulationParameters D.Double))
      → ((p : SimulationParameters D.Double)
          → process_args D args p ≡ accepted q
          → process_args D (args ++ rest) p ≡ process_args D rest q)
      → (elim o as (λ x. Outcome D.Double) [
        | none ↦ refused
        | some p ↦ process_args D args (with_bounds D p)
      ])
        ≡ accepted q
      → (elim o as (λ x. Outcome D.Double) [
        | none ↦ refused
        | some p ↦ process_args D (args ++ rest) (with_bounds D p)
      ])
        ≡ process_args D rest q
  valued-append args rest q none again e = absurd (cc)
  valued-append args rest q (some p) again e = again (with_bounds D p) e

  -- Arguments that are accepted are gone through, and the others are read from where they lead.
  pub process_args-append :
      (args rest : List String) (p q : SimulationParameters D.Double)
      → process_args D args p ≡ accepted q
      → process_args D (args ++ rest) p ≡ process_args D rest q
  unfolding process_args
  process_args-append [] rest p q e = (let same : p ≡ q = cc in ap (process_args D rest) same)
  process_args-append (a ∷ []) [] p q e = e
  process_args-append (a ∷ []) (v ∷ rest) p q e = elim (turn-accepted (keyword a) _ _ q e) [
    | inl (by_word, done) ↦
        (let same : with_bounds D (record p { g_debug = true }) ≡ q = cc in
          by_word _ _ ∙ ap (process_args D (v ∷ rest)) same)
    | inr (by_word, done) ↦ absurd (cc)
  ]
  process_args-append (a ∷ v ∷ args) rest p q e = elim (turn-accepted (keyword a) _ _ q e) [
    | inl (by_word, done) ↦
        by_word _ _
        ∙ process_args-append (v ∷ args) rest (with_bounds D (record p { g_debug = true })) q done
    | inr (by_word, done) ↦
        by_word _ _
        ∙ valued-append args rest q (set_option D (keyword a) v p)
            (λ p' e'. process_args-append args rest p' q e') done
  ]

  -- After arguments that are accepted, an option whose value is refused makes the whole command line
  -- refused, whatever follows; the same option at the end of the line reads past the arguments.
  pub process_args-error :
      (args rest : List String) (a v : String) (p q : SimulationParameters D.Double)
      → process_args D args p ≡ accepted q
      → is_valued (keyword a) ≡ true
      → set_option D (keyword a) v q ≡ none
      → (process_args D (args ++ a ∷ v ∷ rest) p ≡ refused)
        × (process_args D (args ++ a ∷ []) p ≡ reads_null)
  process_args-error args rest a v p q e valued bad = (
    process_args-append args (a ∷ v ∷ rest) p q e
        ∙ unfold process_args in (turn-valued (keyword a) _ _ valued ∙ refused_value),
    process_args-append args (a ∷ []) p q e
        ∙ unfold process_args in turn-valued (keyword a) _ _ valued,
  )
    where
      refused_value :
          (elim (set_option D (keyword a) v q) as (λ x. Outcome D.Double) [
            | none ↦ refused
            | some p' ↦ process_args D rest (with_bounds D p')
          ])
          ≡ refused
      refused_value = rw bad
