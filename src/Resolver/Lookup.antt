-- ===== src/Resolver/Lookup.antt =====
-- `Resolver::lookup` of keetanetwork-anchor-client/src/resolver/mod.rs, on the documents that
-- `root_documents` gives.
pub mod Laws
use anchor_rs.Prelude.{
  Bool, true, false, ◌||◌, Option, none, some, Text, List, [], ◌∷◌, ◌++◌, text_eq, any, filter_some,
  if◌then◌else◌,
}
use anchor_rs.Prelude.Outcomes.{Outcome, success, failure}
use anchor_rs.Json.{Value, Fields, fields}
use anchor_rs.Resolver.Entries.{service_entries}

pub data ResolverError : Type 0 where
  no_root_metadata : ResolverError

-- The identifiers seen so far, as the set's members.
abbrev pub is_seen : List Text → Text → Bool
is_seen seen id = any (text_eq id) seen

abbrev pub entries_of : Option Fields → List (Text × Value)
entries_of none = []
entries_of (some entries) = fields entries

-- `parse` is `Q::parse` at the criteria, and `signature_ok` is `entry_signature_ok`.
module _ {P : Type 0} (service : Text) (signature_ok : Value → Bool)
    (parse : Text → Value → Option P) where
  -- The provider of one entry that was not seen before.
  abbrev pub project : Text → Value → Option P
  project id entry = if signature_ok entry then parse id entry else none

  -- The loop over the entries of one document: the identifiers seen and the providers pushed.
  unfoldable pub visit_entries : List (Text × Value) → List Text × List P → List Text × List P
  visit_entries [] (seen, providers) = (seen, providers)
  visit_entries ((id, entry) ∷ entries) (seen, providers) = visit_entries entries (
      if is_seen seen id
      then (seen, providers)
      else (id ∷ seen, providers ++ filter_some (project id entry) []))

  -- The loop over the documents.
  unfoldable pub visit_documents : List Value → List Text × List P → List Text × List P
  unfolding visit_entries
  visit_documents [] state = state
  visit_documents (document ∷ documents) state =
      visit_documents documents
        (visit_entries (entries_of (service_entries service document)) state)

  -- `lookup`
  unfoldable pub lookup : List Value → Outcome ResolverError (List P)
  unfolding visit_documents
  lookup [] = failure no_root_metadata
  lookup (document ∷ documents) = success (visit_documents (document ∷ documents) ([], [])).1
