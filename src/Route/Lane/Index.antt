-- ===== src/Route/Lane/Index.antt =====
-- refreshLanes: its maps say exactly what the lanes' groups say.
use tsf_go.Base.{
  String, List, [], ◌∷◌, Bool, true, false, not, ◌≡◌, refl, ap, ◌∙◌, ◌==◌, text_comparable,
  if◌then◌else◌, ◌&&◌, Bool-cases, arith, lookup, insert, has_key, lookup-insert, has_key-insert,
  is_empty, values, inl, inr,
}
use tsf_go.Route.Lane.{Lane, LaneInfo, LaneGroup, Ids, ids_of}
use tsf_go.Route.Lane.Refresh.{
  Indexes, add_id, index_group, index_groups, index_lanes, refresh_lanes,
}

-- Whether the map has the id under the key, and whether it has any.
abbrev pub has_id : String → String → List (String × Ids) → Bool
has_id key id m = has_key id (ids_of (lookup key m))

abbrev pub has_ids : String → List (String × Ids) → Bool
has_ids key m = not (is_empty (ids_of (lookup key m)))

-- Read off the lanes: whether a group of the lane has this group id, and one that is no entrance this
-- namespace.
abbrev pub in_group : String → List LaneGroup → Bool
in_group key [] = false
in_group key (g ∷ rest) = if key == g.group_id then true else in_group key rest

abbrev pub in_namespace : String → List LaneGroup → Bool
in_namespace key [] = false
in_namespace key (g ∷ rest) =
    if not g.entrance && key == g.namespace_id then true else in_namespace key rest

-- Whether a lane of the list has the test, and one of this id.
abbrev pub some_lane : (List LaneGroup → Bool) → List LaneInfo → Bool
some_lane test [] = false
some_lane test (lane ∷ rest) = if test lane.group_list then true else some_lane test rest

abbrev pub some_lane_of : String → (List LaneGroup → Bool) → List LaneInfo → Bool
some_lane_of id test [] = false
some_lane_of id test (lane ∷ rest) =
    if id == lane.id && test lane.group_list then true else some_lane_of id test rest

insert_nonempty : (id : String) (ids : Ids) → is_empty (insert id tt ids) ≡ false
unfolding insert
insert_nonempty id [] = refl
insert_nonempty id (entry ∷ ids) = elim (Bool-cases (id == entry.0)) [
  | inl e ↦ rw (e, if◌then◌else◌) refl
  | inr e ↦ rw (e, if◌then◌else◌) refl
]

-- One more id in the map.
has_id-add_id :
    (key id k i : String) (m : List (String × Ids))
    → has_id k i (add_id key id m) ≡ (if k == key && i == id then true else has_id k i m)
unfolding add_id
has_id-add_id key id k i m =
    rw (lookup-insert key k (insert id tt (ids_of (lookup key m))) m)
      (elim (Bool-cases (k == key)) [
        | inl same ↦
            let at : lookup k m ≡ lookup key m =
              ap (λ s. lookup s m) ((text_comparable.same_iff k key).0 same) in
            rw (same, at, if◌then◌else◌) (has_key-insert id i tt (ids_of (lookup key m)))
        | inr other ↦ rw (other, if◌then◌else◌) refl
      ])

has_ids-add_id :
    (key id k : String) (m : List (String × Ids))
    → has_ids k (add_id key id m) ≡ (if k == key then true else has_ids k m)
unfolding add_id
has_ids-add_id key id k m =
    rw (lookup-insert key k (insert id tt (ids_of (lookup key m))) m)
      (elim (Bool-cases (k == key)) [
        | inl same ↦ rw (same, if◌then◌else◌) (ap not (insert_nonempty id (ids_of (lookup key m))))
        | inr other ↦ rw (other, if◌then◌else◌) refl
      ])

groups_id :
    (own : String) (lane : LaneInfo) (gs : List LaneGroup) (found : Indexes) (k i : String)
    → has_id k i (index_groups own lane gs found).by_group
      ≡ (if i == lane.id && in_group k gs then true else has_id k i found.by_group)
unfolding index_groups
groups_id own lane [] found k i = ground arith
groups_id own lane (g ∷ gs) found k i =
    groups_id own lane gs (index_group own lane g found) k i
    ∙ rw (index_group, has_id-add_id g.group_id lane.id k i found.by_group) (ground arith)

groups_ids :
    (own : String) (lane : LaneInfo) (gs : List LaneGroup) (found : Indexes) (k : String)
    → has_ids k (index_groups own lane gs found).by_group
      ≡ (if in_group k gs then true else has_ids k found.by_group)
unfolding index_groups
groups_ids own lane [] found k = refl
groups_ids own lane (g ∷ gs) found k =
    groups_ids own lane gs (index_group own lane g found) k
    ∙ rw (index_group, has_ids-add_id g.group_id lane.id k found.by_group) (ground arith)

namespace_step :
    (own : String) (lane : LaneInfo) (g : LaneGroup) (found : Indexes) (k : String)
    → has_ids k (index_group own lane g found).by_namespace
      ≡ (if not g.entrance && k == g.namespace_id then true else has_ids k found.by_namespace)
unfolding index_group
namespace_step own lane g found k = elim (Bool-cases g.entrance) [
  | inl e ↦ rw (e, if◌then◌else◌) refl
  | inr e ↦ rw (e, if◌then◌else◌) (has_ids-add_id g.namespace_id lane.id k found.by_namespace)
]

namespaces_ids :
    (own : String) (lane : LaneInfo) (gs : List LaneGroup) (found : Indexes) (k : String)
    → has_ids k (index_groups own lane gs found).by_namespace
      ≡ (if in_namespace k gs then true else has_ids k found.by_namespace)
unfolding index_groups
namespaces_ids own lane [] found k = refl
namespaces_ids own lane (g ∷ gs) found k =
    namespaces_ids own lane gs (index_group own lane g found) k
    ∙ rw (namespace_step own lane g found k) (ground arith)

-- What an index over the lanes says, on top of what stood there.
abbrev Indexed : List LaneInfo → Indexes → Indexes → Type 0
Indexed lanes before after =
    ((k i : String)
      → has_id k i after.by_group
        ≡ (if some_lane_of i (in_group k) lanes then true else has_id k i before.by_group))
    × ((k : String)
        → has_ids k after.by_group
          ≡ (if some_lane (in_group k) lanes then true else has_ids k before.by_group))
    × ((k : String)
        → has_ids k after.by_namespace
          ≡ (if some_lane (in_namespace k) lanes then true else has_ids k before.by_namespace))

index_lanes-Indexed :
    (own : String) (lanes : List LaneInfo) (found : Indexes)
    → Indexed lanes found (index_lanes own lanes found)
unfolding index_lanes
index_lanes-Indexed own [] found = (λ k i. refl, λ k. refl, λ k. refl)
index_lanes-Indexed own (lane ∷ lanes) found =
    let later = index_lanes-Indexed own lanes (index_groups own lane lane.group_list found) in
    (
      λ k i. later.0 k i ∙ rw (groups_id own lane lane.group_list found k i) (ground arith),
      λ k. later.1 k ∙ rw (groups_ids own lane lane.group_list found k) (ground arith),
      λ k. later.2 k ∙ rw (namespaces_ids own lane lane.group_list found k) (ground arith),
    )

-- The maps of the state say what the lanes say.
abbrev pub Refreshed : Lane → Type 0
Refreshed l =
    ((k i : String) → has_id k i l.groups ≡ some_lane_of i (in_group k) (values l.all_lanes))
    × ((k : String) → has_ids k l.groups ≡ some_lane (in_group k) (values l.all_lanes))
    × ((k : String) → has_ids k l.namespaces ≡ some_lane (in_namespace k) (values l.all_lanes))

or_false : (b : Bool) → (if b then true else false) ≡ b
or_false true = refl
or_false false = refl

-- After refreshLanes the map of groups has a lane's id under a group id exactly if a lane of this id
-- has a group of that id, it has some id there exactly if any lane has such a group, and the map of
-- namespaces has some id exactly if a lane has a group there that is no entrance.
pub refresh_lanes-Refreshed : (own : String) (l : Lane) → Refreshed (refresh_lanes own l)
unfolding refresh_lanes lookup has_key
refresh_lanes-Refreshed own l =
    let all =
      index_lanes-Indexed own (values l.all_lanes)
        (record { effective = []; by_namespace = []; by_group = [] }) in
    (
      λ k i. all.0 k i ∙ or_false (some_lane_of i (in_group k) (values l.all_lanes)),
      λ k. all.1 k ∙ or_false (some_lane (in_group k) (values l.all_lanes)),
      λ k. all.2 k ∙ or_false (some_lane (in_namespace k) (values l.all_lanes)),
    )
