-- ===== src/Route/Router/Watch.antt =====
-- route/router: which group a service has after a round of the watcher.
use tsf_go.Base.{
  String, List, [], ◌∷◌, Option, none, some, Bool, true, false, not, ◌≡◌, refl, ◌∙◌, ap, ◌==◌,
  text_comparable, if◌then◌else◌, ◌&&◌, Bool-cases, insert, lookup, lookup-insert, is_empty, arith,
  inl, inr, ◌⊎◌, sym, ◌↔◌, Each,
}
use tsf_go.Naming.{Service, new_service, ns_global, service_comparable}
use tsf_go.Route.Router.{RuleGroup, Services}
use tsf_go.Route.Router.Refresh.{store_group, read_specs, refresh, specs}

-- Whether the group is stored for the service: under its own namespace, and under the global one if it
-- belongs to another namespace than the environment's.
abbrev pub stores : String → RuleGroup → Service → Bool
stores own group svc =
    if not (group.namespace_id == "")
      && not (group.namespace_id == own)
      && svc == new_service own ns_global group.microservice_name
    then true
    else svc == new_service own group.namespace_id group.microservice_name

-- The last group of the specs that is stored for the service, or what stood there.
abbrev pub last_group :
    String → Service → List (Option (List RuleGroup)) → Option RuleGroup → Option RuleGroup
last_group own svc [] before = before
last_group own svc (none ∷ rest) before = last_group own svc rest before
last_group own svc (some [] ∷ rest) before = last_group own svc rest before
last_group own svc (some (group ∷ groups) ∷ rest) before =
    last_group own svc rest (if stores own group svc then some group else before)

lookup-store_group :
    (own : String) (group : RuleGroup) (svc : Service) (services : Services)
    → lookup svc (store_group own group services)
      ≡ (if stores own group svc then some group else lookup svc services)
unfolding store_group
lookup-store_group own group svc services =
    let home = new_service own group.namespace_id group.microservice_name in
    let global = new_service own ns_global group.microservice_name in
    let at_home = lookup-insert home svc group services in
    elim (Bool-cases (not (group.namespace_id == "") && not (group.namespace_id == own))) [
      | inl foreign ↦
          rw (store_group, foreign, if◌then◌else◌)
            (lookup-insert global svc group (insert home group services)
              ∙ rw at_home (ground arith))
      | inr own_one ↦ rw (store_group, own_one, if◌then◌else◌) at_home
    ]

-- After the loop over the specs a service has the last group that is stored for it, or what it had. A
-- spec that does not unmarshal, or holds no group, changes nothing.
lookup-read_specs :
    (own : String) (svc : Service) (ss : List (Option (List RuleGroup))) (services : Services)
    (err : Bool)
    → lookup svc (read_specs own ss services err).0 ≡ last_group own svc ss (lookup svc services)
unfolding read_specs
lookup-read_specs own svc [] services err = refl
lookup-read_specs own svc (none ∷ rest) services err = lookup-read_specs own svc rest services true
lookup-read_specs own svc (some [] ∷ rest) services err =
    lookup-read_specs own svc rest services false
lookup-read_specs own svc (some (group ∷ groups) ∷ rest) services err =
    lookup-read_specs own svc rest (store_group own group services) false
    ∙ ap (last_group own svc rest) (lookup-store_group own group svc services)

empty_lookup :
    (svc : Service) (m : Services) (err : Bool) → (is_empty m && err) ≡ true → lookup svc m ≡ none
unfolding lookup
empty_lookup svc [] err e = refl
empty_lookup svc (entry ∷ m) err e = absurd (cc)

-- No spec gives a group.
abbrev pub GivesNone : List (Option (List RuleGroup)) → Type 0
GivesNone = Each (λ spec. (spec ≡ none) ⊎ (spec ≡ some []))

-- The last spec does not unmarshal.
abbrev pub LastFails : List (Option (List RuleGroup)) → Type 0
LastFails [] = ⊥
LastFails (spec ∷ []) = spec ≡ none
LastFails (spec ∷ next ∷ rest) = LastFails (next ∷ rest)

insert_some :
    (svc : Service) (group : RuleGroup) (m : Services) → is_empty (insert svc group m) ≡ false
unfolding insert
insert_some svc group [] = refl
insert_some svc group (entry ∷ m) = elim (Bool-cases (svc == entry.0)) [
  | inl same ↦ rw (insert, same) refl
  | inr other ↦ rw (insert, other) refl
]

store_group_some :
    (own : String) (group : RuleGroup) (m : Services) → is_empty (store_group own group m) ≡ false
unfolding store_group
store_group_some own group m =
    elim (Bool-cases (not (group.namespace_id == "") && not (group.namespace_id == own))) [
      | inl foreign ↦ rw (store_group, foreign, if◌then◌else◌) (insert_some _ group _)
      | inr own_one ↦ rw (store_group, own_one, if◌then◌else◌) (insert_some _ group m)
    ]

-- A map with an entry keeps one.
read_specs_some :
    (own : String) (ss : List (Option (List RuleGroup))) (m : Services) (err : Bool)
    → is_empty m ≡ false
    → is_empty (read_specs own ss m err).0 ≡ false
unfolding read_specs
read_specs_some own [] m err some_entry = some_entry
read_specs_some own (none ∷ rest) m err some_entry = read_specs_some own rest m true some_entry
read_specs_some own (some [] ∷ rest) m err some_entry = read_specs_some own rest m false some_entry
read_specs_some own (some (group ∷ groups) ∷ rest) m err some_entry =
    read_specs_some own rest (store_group own group m) false (store_group_some own group m)

-- The map that is read is empty exactly if no spec gives a group.
read_specs_empty :
    (own : String) (ss : List (Option (List RuleGroup))) (err : Bool)
    → is_empty (read_specs own ss [] err).0 ≡ true ↔ GivesNone ss
unfolding read_specs
read_specs_empty own [] err = (λ e. tt, λ n. refl)
read_specs_empty own (none ∷ rest) err =
    let later = read_specs_empty own rest true in (λ e. (inl refl, later.0 e), λ n. later.1 n.1)
read_specs_empty own (some [] ∷ rest) err =
    let later = read_specs_empty own rest false in (λ e. (inr refl, later.0 e), λ n. later.1 n.1)
read_specs_empty own (some (group ∷ groups) ∷ rest) err =
    let full =
      read_specs_some own rest (store_group own group []) false (store_group_some own group []) in
    (λ e. absurd (cc), λ n. absurd (elim n.0 [ inl gives ↦ cc | inr gives ↦ cc ]))

-- The error that is left is the last spec's.
read_specs_err :
    (own : String) (spec : Option (List RuleGroup)) (ss : List (Option (List RuleGroup)))
    (m : Services) (err : Bool)
    → (read_specs own (spec ∷ ss) m err).1 ≡ true ↔ LastFails (spec ∷ ss)
unfolding read_specs
read_specs_err own none [] m err = (λ e. refl, λ l. refl)
read_specs_err own (some []) [] m err = (λ e. absurd (cc), λ l. absurd (cc))
read_specs_err own (some (group ∷ groups)) [] m err = (λ e. absurd (cc), λ l. absurd (cc))
read_specs_err own none (spec ∷ ss) m err = read_specs_err own spec ss m true
read_specs_err own (some []) (spec ∷ ss) m err = read_specs_err own spec ss m false
read_specs_err own (some (group ∷ groups)) (spec ∷ ss) m err =
    read_specs_err own spec ss (store_group own group m) false

keeps_iff :
    (own : String) (ss : List (Option (List RuleGroup)))
    → (is_empty (read_specs own ss [] false).0 && (read_specs own ss [] false).1) ≡ true
      ↔ (GivesNone ss × LastFails ss)
unfolding read_specs
keeps_iff own [] = (λ e. absurd (cc), λ k. absurd k.1)
keeps_iff own (spec ∷ ss) =
    let empty = read_specs_empty own (spec ∷ ss) false in
    let fails = read_specs_err own spec ss [] false in
    (
      λ e. (empty.0 (ground (arith, e)), fails.0 (ground (arith, e))),
      λ k. let one = empty.1 k.0 in let two = fails.1 k.1 in ground (arith, one, two),
    )

-- A round with specs keeps the old map if no spec gives a group and the last one does not unmarshal,
-- and then the specs hold no group for any service. Otherwise the router has the map in which each
-- service has the last group that the specs store for it, and no other group. The loop goes on.
pub refresh_lem :
    (own : String) (ss : List (Option (List RuleGroup))) (old : Option Services)
    → ((GivesNone ss × LastFails ss)
        × (refresh own (specs ss) old ≡ (old, true))
        × ((svc : Service) → last_group own svc ss none ≡ none))
      ⊎ ((¬ (GivesNone ss × LastFails ss))
          × ((new : Services) × (refresh own (specs ss) old ≡ (some new, true))
              × ((svc : Service) → lookup svc new ≡ last_group own svc ss none)))
unfolding refresh lookup
refresh_lem own ss old =
    let read = read_specs own ss [] false in
    let keeps = keeps_iff own ss in
    elim (Bool-cases (is_empty read.0 && read.1)) [
      | inl failing ↦ inl (
        keeps.0 failing,
        rw (refresh, failing, if◌then◌else◌) refl,
        λ svc. sym (lookup-read_specs own svc ss [] false) ∙ empty_lookup svc read.0 read.1 failing,
      )
      | inr good ↦ inr (
        λ k. let failing = keeps.1 k in cc,
        (
          read.0,
          rw (refresh, good, if◌then◌else◌) refl,
          λ svc. lookup-read_specs own svc ss [] false,
        ),
      )
    ]
