-- ===== src/ModelControl/Redaction.antt =====
-- What an API client sees of a provider connection.
use wikipedia_rag.Common.{
  String, Bool, true, false, Option, none, some, contains, string_eq, ◌==◌, if◌then◌else◌, ◌≡◌,
  refl, ap, subst, sym, ◌∙◌, inl, inr, Bool-cases, eq_iff,
}
use wikipedia_rag.Json.{Value, Fields, bool, text, get, put, truthy}
use wikipedia_rag.Json.Dict.{get-put, get-put_other}
use wikipedia_rag.ModelControl.Payload.{pick_fields, shown_fields, redact_connection}
use wikipedia_rag.ModelControl.Protected.{get-pick_fields}

get-put_at :
    (k j : String) (u : Value) (fs : Fields)
    → get k (put j u fs) ≡ (if k == j then some u else get k fs)
get-put_at k j u fs = elim (Bool-cases (k == j)) [
  | inl e ↦
      rw e (subst (λ i. get i (put j u fs) ≡ some u) (sym ((eq_iff k j).0 e)) (get-put j u fs))
  | inr e ↦ rw e (get-put_other k j u fs e)
]

choose :
    (b : Bool) (o : Option Value) → elim b [ true ↦ o | false ↦ none ] ≡ (if b then o else none)
choose true o = refl
choose false o = refl

-- A redacted connection shows the listed fields as they are, whether there are credentials, and where they
-- come from, and nothing else: no other field of the connection reaches the client.
pub redact_connection-fields :
    (value : Fields) (k : String)
    → get k (redact_connection value) ≡ (
        if k == "credential_source"
        then some (elim (get "credential_source" value) [ none ↦ text "database" | some v ↦ v ])
        else if k == "has_credentials"
        then some (bool (elim (get "has_credentials" value) [ none ↦ false | some v ↦ truthy v ]))
        else if contains k shown_fields
        then get k value
        else none)
unfolding redact_connection
redact_connection-fields value k =
    let inner = pick_fields shown_fields value in
    let flag =
      bool
        (elim (get "has_credentials" value) as (λ _. Bool) [ none ↦ false | some v ↦ truthy v ]) in
    let origin = elim (get "credential_source" value) as (λ _. Value) [
      | none ↦ text "database"
      | some v ↦ v
    ] in
    get-put_at k "credential_source" origin (put "has_credentials" flag inner)
    ∙ ap (λ o. if k == "credential_source" then some origin else o)
        (get-put_at k "has_credentials" flag inner
          ∙ ap (λ o. if k == "has_credentials" then some flag else o)
              (get-pick_fields k shown_fields value
                ∙ choose (contains k shown_fields) (get k value)))
