-- ===== src/Resolver/Lookup/Laws.antt =====
-- The providers of a lookup: keetanetwork-anchor-client/src/resolver/mod.rs.
use mathlib.Core.List.{append_assoc, append-nil}
use anchor_rs.Prelude.{
  ◌≡◌, refl, sym, ap, ◌∙◌, Bool, Bool-cases, inl, inr, Option, none, some, Text, List, [], ◌∷◌,
  ◌++◌, filter_map, filter_some, and_then, any, text_eq, if◌then◌else◌,
}
use anchor_rs.Prelude.Outcomes.{success}
use anchor_rs.Json.{
  Value, null, bool, number, string, array, object, fields, get, get_key, as_object,
}
use anchor_rs.Resolver.Entries.{service_entries}
use anchor_rs.Resolver.Lookup.{is_seen, entries_of, project, visit_entries, visit_documents, lookup}

-- The fields of what is an object.
abbrev members : Option Value → List (Text × Value)
members (some (object fs)) = fields fs
members o = []

-- The entries under `services`, then `service`, of all documents, by priority.
abbrev pub all_entries : Text → List Value → List (Text × Value)
all_entries service [] = []
all_entries service (document ∷ documents) =
    members (and_then (get "services" document) (get_key service)) ++ all_entries service documents

-- The first entry of each identifier that is not among those seen.
abbrev pub merged : List Text → List (Text × Value) → List (Text × Value)
merged seen [] = []
merged seen ((id, entry) ∷ entries) =
    if any (text_eq id) seen then merged seen entries else (id, entry) ∷ merged (id ∷ seen) entries

-- The entries whose signature is acceptable.
abbrev pub signed_entries : (Value → Bool) → List (Text × Value) → List (Text × Value)
signed_entries signature_ok [] = []
signed_entries signature_ok ((id, entry) ∷ entries) =
    if signature_ok entry
    then (id, entry) ∷ signed_entries signature_ok entries
    else signed_entries signature_ok entries

service_entries-members :
    (service : Text) (document : Value)
    → entries_of (service_entries service document)
      ≡ members (and_then (get "services" document) (get_key service))
unfolding service_entries
service_entries-members service document =
    as_object-members (and_then (get "services" document) (get_key service))
  where
    as_object-members : (o : Option Value) → entries_of (and_then o as_object) ≡ members o
    as_object-members none = refl
    as_object-members (some null) = refl
    as_object-members (some (bool b)) = refl
    as_object-members (some (number n)) = refl
    as_object-members (some (string t)) = refl
    as_object-members (some (array vs)) = refl
    as_object-members (some (object fs)) = refl

push-kept :
    {P : Type 0} (o : Option P) (providers rest : List P)
    → (providers ++ filter_some o []) ++ rest ≡ providers ++ filter_some o rest
push-kept none providers rest = ap (λ ps. ps ++ rest) (append-nil providers)
push-kept (some p) providers rest = append_assoc providers (p ∷ []) rest

module _ {P : Type 0} (service : Text) (signature_ok : Value → Bool)
    (parse : Text → Value → Option P) where
  abbrev pub kept : List (Text × Value) → List P
  kept entries = filter_map (λ (id, entry). parse id entry) (signed_entries signature_ok entries)

  project-kept :
      (id : Text) (entry : Value) (entries : List (Text × Value))
      → filter_some (project service signature_ok parse id entry) (kept entries)
        ≡ kept ((id, entry) ∷ entries)
  project-kept id entry entries = elim (Bool-cases (signature_ok entry)) [
    | inl e ↦ rw e refl
    | inr e ↦ rw e refl
  ]

  visit-merged :
      (entries : List (Text × Value)) (seen : List Text) (providers : List P)
      → (visit_entries service signature_ok parse entries (seen, providers)).1
        ≡ providers ++ kept (merged seen entries)
  unfolding visit_entries
  visit-merged [] seen providers = sym (append-nil providers)
  visit-merged ((id, entry) ∷ entries) seen providers = elim (Bool-cases (is_seen seen id)) [
    | inl e ↦ rw (e, visit_entries) (visit-merged entries seen providers)
    | inr e ↦
        rw (e, visit_entries)
          (visit-merged entries (id ∷ seen)
              (providers ++ filter_some (project service signature_ok parse id entry) [])
            ∙ push-kept (project service signature_ok parse id entry) providers
                (kept (merged (id ∷ seen) entries))
            ∙ ap (λ ps. providers ++ ps) (project-kept id entry (merged (id ∷ seen) entries)))
  ]

  visit_entries-append :
      (xs ys : List (Text × Value)) (state : List Text × List P)
      → visit_entries service signature_ok parse (xs ++ ys) state
        ≡ visit_entries service signature_ok parse ys
            (visit_entries service signature_ok parse xs state)
  unfolding visit_entries
  visit_entries-append [] ys state = refl
  visit_entries-append ((id, entry) ∷ xs) ys (seen, providers) = visit_entries-append xs ys (
      if is_seen seen id
      then (seen, providers)
      else (id ∷ seen, providers ++ filter_some (project service signature_ok parse id entry) []))

  visit_documents-entries :
      (documents : List Value) (state : List Text × List P)
      → visit_documents service signature_ok parse documents state
        ≡ visit_entries service signature_ok parse (all_entries service documents) state
  unfolding visit_documents
  visit_documents-entries [] state = refl
  visit_documents-entries (document ∷ documents) state =
      visit_documents-entries documents (
        visit_entries service signature_ok parse (entries_of (service_entries service document))
          state)
      ∙ sym (
          visit_entries-append (entries_of (service_entries service document))
            (all_entries service documents) state)
      ∙ ap
          (λ entries.
            visit_entries service signature_ok parse (entries ++ all_entries service documents)
              state)
          (service_entries-members service document)

  -- A lookup over at least one document reads the entries of all of them in their order, keeps the first
  -- entry of each identifier, then those of them whose signature is acceptable, and returns the providers
  -- that the query takes from these, in order. So an identifier belongs to the first entry that carries
  -- it, even when that entry is dropped afterwards.
  pub lookup-merged :
      (document : Value) (documents : List Value)
      → lookup service signature_ok parse (document ∷ documents)
        ≡ success (kept (merged [] (all_entries service (document ∷ documents))))
  unfolding lookup
  lookup-merged document documents =
      ap (λ state. success (state.1)) (visit_documents-entries (document ∷ documents) ([], []))
      ∙ ap success (visit-merged (all_entries service (document ∷ documents)) [] [])
