-- ===== src/Config/Fetches.antt =====
-- pkg/config/consul/consul.go: fetch over the client's request, against a direct account of it.
use tsf_go.Base.{
  String, List, [], Option, none, some, Bool, true, false, if◌then◌else◌, nat_eqb, ◌≡◌, refl,
  Bool-cases, Option-cases, inl, inr, parse_int, nat_eqb_iff, pos,
}
use tsf_go.Http.{Response, do_request, read_response, read_body}
use tsf_go.Config.Fetch.{Fetched, Item, fetch, read_reply, read_items, index_of, items_of}

-- What the registry has at the path: nothing at a missing key, and nothing to go by on an error.
abbrev pub found : (String → Option (List Item) × Bool) → Response → Option (List Item)
found json r =
    if nat_eqb r.status 404
    then some []
    else if nat_eqb r.status 200
    then elim r.body [
      | none ↦ none
      | some text ↦ if (json text).1 then none else some (items_of (json text).0)
    ]
    else none

-- What fetch makes of it, with the index of the response.
abbrev pub taken : (String → Option String) → Response → Option (List Item) → Fetched
taken decode r none = record { res = []; index = pos 0; err = true }
taken decode r (some items) =
    let index = parse_int (index_of r.header) in
    if index.1
    then record { res = []; index = index.0; err = true }
    else record { res = read_items decode items; index = index.0; err = false }

-- fetch gets the decodable specs of the response and its index when the response has status 200 and a
-- body that decodes, no specs and the index when it has status 404, and an error, without specs,
-- otherwise, or when the index is no number.
pub fetch-do_request :
    (decode : String → Option String) (json : String → Option (List Item) × Bool) (r : Response)
    → fetch decode (do_request json true true (some r)) ≡ taken decode r (found json r)
unfolding fetch do_request read_response read_body read_reply read_items
fetch-do_request decode json r = elim (Bool-cases (nat_eqb r.status 404)) [
  | inl missing ↦ rw ((nat_eqb_iff r.status 404).0 missing) refl
  | inr other ↦ elim (Bool-cases (nat_eqb r.status 200)) [
    | inl good ↦ rw ((nat_eqb_iff r.status 200).0 good) (elim (Option-cases r.body) [
      | inl unread ↦ rw (unread) refl
      | inr read ↦ elim (Bool-cases (json read.0).1) [
        | inl bad ↦ rw (read.1, read_body, bad) refl
        | inr fine ↦ rw (read.1, read_body, fine) refl
      ]
    ])
    | inr bad ↦ rw (bad, other, if◌then◌else◌) refl
  ]
]
