-- ===== src/Jconf/Parsing.antt =====
-- jconf.cpp, parse_config: what it accepts, and what its values are good for.
use mathlib.Core.Bool.{false≢true}
use epic_poold.Base.{
  ℕ, zero, suc, ◌+◌, ◌≡◌, refl, sym, ◌∙◌, ap, inl, inr, Bool, true, false, ◌&&◌, Option, none, some,
  List, [], ◌∷◌, ◌++◌, ◌==◌, get_elem?, All, Bool-cases, append-nil, append_assoc,
}
use epic_poold.Rpc.{Try, ok, JsonValues}
use epic_poold.Jconf.Table.{
  Kind, null_kind, false_kind, true_kind, object_kind, array_kind, string_kind, number_kind,
  ConfigEnum, index, ConfigVal, config_values, check_type,
}
use epic_poold.Jconf.{Config, LogLevel, invalid, config_string, accepts, check_values}

string_type : (k : Kind) → check_type k string_kind ≡ true → k ≡ string_kind
unfolding check_type
string_type string_kind e = refl
string_type null_kind e = absurd (false≢true e)
string_type false_kind e = absurd (false≢true e)
string_type true_kind e = absurd (false≢true e)
string_type object_kind e = absurd (false≢true e)
string_type array_kind e = absurd (false≢true e)
string_type number_kind e = absurd (false≢true e)

pub and_left : (a b : Bool) → (a && b) ≡ true → a ≡ true
and_left true b e = refl
and_left false b e = absurd (false≢true e)

pub and_right : (a b : Bool) → (a && b) ≡ true → b ≡ true
and_right true b e = e
and_right false b e = absurd (false≢true e)

-- The indices of the table from i on.
unfoldable pub in_order : List ConfigVal → ℕ → Bool
in_order [] i = true
in_order (entry ∷ entries) i = (index entry.name == i) && in_order entries (i + 1)

-- A getter that answers.
abbrev pub Works : {A : Type 0} → Try A → Type 0
Works {A = A} t = (a : A) × (t ≡ ok a)

module _ {V : Type 0} (json : JsonValues V) (get_type : V → Kind) where
  -- A value of the document that the entry accepts.
  abbrev pub Fits : V → ConfigVal → Type 0
  Fits doc entry =
      (v : V) × (json.find_member doc entry.key ≡ some v) × (accepts json get_type entry v ≡ true)

  -- The values of the entries, in order.
  abbrev pub Fitting : V → List ConfigVal → List V → Type 0
  Fitting doc [] [] = Unit
  Fitting doc (entry ∷ entries) (v ∷ values) =
      (json.find_member doc entry.key ≡ some v)
      × (accepts json get_type entry v ≡ true)
      × Fitting doc entries values
  Fitting doc _ _ = ⊥

  pub value_of :
      (doc : V) (entries : List ConfigVal) (values : List V) (k : ℕ) (entry : ConfigVal)
      → Fitting doc entries values
      → get_elem? entries k ≡ some entry
      → (v : V) × (get_elem? values k ≡ some v)
        × (json.find_member doc entry.key ≡ some v)
        × (accepts json get_type entry v ≡ true)
  value_of doc (first ∷ entries) (v ∷ values) zero entry (e, e', rest) h =
      let same : first ≡ entry = cc in (v, refl, rw (← same) e, rw (← same) e')
  value_of doc (first ∷ entries) (v ∷ values) (suc k) entry (e, e', rest) h =
      value_of doc entries values k entry rest h
  value_of doc [] values k entry fit h = cc
  value_of doc (first ∷ entries) [] k entry fit h = absurd fit

  -- The config with more values.
  abbrev pub with_values : Config V → List V → Config V
  with_values config values = record config { values = config.values ++ values }

  pub check_values-Fitting :
      (entries : List ConfigVal) (i : ℕ) (doc : V) (config : Config V)
      → (check_values json get_type entries i doc config).0 ≡ true
      → (values : List V) × (check_values json get_type entries i doc config
          ≡ (true, with_values config values))
        × Fitting doc entries values
  unfolding check_values
  check_values-Fitting [] i doc config e =
      ([], ap (λ l. (true, record config { values = l })) (sym (append-nil config.values)), tt)
  check_values-Fitting (entry ∷ entries) i doc config e =
      elim (Bool-cases (index entry.name == i)) [
        | inr other ↦ absurd (false≢true (rw other at e))
        | inl same ↦
            by_member (json.find_member doc entry.key) refl same
              (λ v e'. check_values-Fitting entries (i + 1) doc (with_values config (v ∷ [])) e')
      ]
    where
      by_member :
          (member : Option V)
          → json.find_member doc entry.key ≡ member
          → (index entry.name == i) ≡ true
          → ((v : V)
              → (check_values json get_type entries (i + 1) doc (with_values config (v ∷ []))).0
                ≡ true
              → (values : List V) × (check_values json get_type entries
                    (i + 1)
                    doc
                    (with_values config (v ∷ []))
                  ≡ (true, with_values (with_values config (v ∷ [])) values))
                × Fitting doc entries values)
          → (values : List V) × (check_values json get_type (entry ∷ entries) i doc config
              ≡ (true, with_values config values))
            × Fitting doc (entry ∷ entries) values
      by_member none found same ih = absurd (false≢true (rw (same, found) at e))
      by_member (some v) found same ih = elim (Bool-cases (accepts json get_type entry v)) [
        | inr refused ↦ absurd (false≢true (rw (same, found, refused) at e))
        | inl fits ↦
            let (values, e', fit) = ih v (rw (same, found, fits) at e) in
            (
              v ∷ values,
              rw (same, found, fits)
                  (e'
                    ∙ ap (λ l. (true, record config { values = l }))
                        (append_assoc config.values (v ∷ []) values)),
              (found, fits, fit),
            )
      ]

  -- A table in order accepts a document with values that fit.
  pub check_values-accepts :
      (entries : List ConfigVal) (i : ℕ) (doc : V) (config : Config V)
      → in_order entries i ≡ true
      → All (Fits doc) entries
      → (check_values json get_type entries i doc config).0 ≡ true
  unfolding check_values in_order
  check_values-accepts [] i doc config ordered fit = refl
  check_values-accepts (entry ∷ entries) i doc config ordered ((v, found, fits), rest) =
      let same : (index entry.name == i) ≡ true = and_left (index entry.name == i) _ ordered in
      let others : in_order entries (i + 1) ≡ true = and_right (index entry.name == i) _ ordered in
      rw (same, found, fits)
        (check_values-accepts entries (i + 1) doc (with_values config (v ∷ [])) others rest)

  abbrev pub fresh_config : Config V
  fresh_config = record { values = []; level = invalid }

  module _ (typed : (v : V) → get_type v ≡ string_kind → json.is_string v ≡ true) where
    pub string_works :
        (doc : V) (values : List V) (level : LogLevel) (name : ConfigEnum) (entry : ConfigVal)
        → Fitting doc config_values values
        → get_elem? config_values (index name) ≡ some entry
        → entry.type ≡ string_kind
        → (v : V) × (json.find_member doc entry.key ≡ some v)
          × (config_string json get_type (record { values = values; level = level }) name
              ≡ ok (json.get_string v))
    unfolding config_string accepts
    string_works doc values level name entry fit at is =
        let (v, there, found, fits) = value_of doc config_values values (index name) entry fit at in
        let kind : check_type (get_type v) string_kind ≡ true =
          rw is at (and_left (check_type (get_type v) entry.type) _ fits) in
        let text : json.is_string v ≡ true = typed v (string_type (get_type v) kind) in
        (v, found, rw (there, text) refl)
