-- ===== src/Scheduler/Region.antt =====
-- src/scheduler/cluster/region.rs, with the messages of proto/metapb.proto that it holds.
use aegisdb_core.Prelude.{
  ℕ, Bool, true, false, not, ◌&&◌, List, [], ◌∷◌, ◌++◌, Option, none, some, ◌==◌, if◌then◌else◌,
}
use aegisdb_core.Prelude.Bytes.{Bytes}

pub record Peer : Type 0 where
  pub id : ℕ
  pub store_id : ℕ

pub record RegionEpoch : Type 0 where
  pub conf_ver : ℕ
  pub version : ℕ

pub record Region : Type 0 where
  pub id : ℕ
  pub start_key : Bytes
  pub end_key : Bytes
  pub region_epoch : Option RegionEpoch
  pub peers : List Peer

pub record RegionInfo : Type 0 where
  pub region : Region
  pub leader : Option Peer
  pub pending_peers : List Peer
  pub approximate_size : ℕ

-- `RegionInfo::new`
abbrev pub new_region : Region → Option Peer → RegionInfo
new_region region leader = record {
  region = region;
  leader = leader;
  pending_peers = [];
  approximate_size = 1;
}

abbrev pub epoch : RegionInfo → RegionEpoch
epoch r = elim r.region.region_epoch [ none ↦ record { conf_ver = 0; version = 0 } | some e ↦ e ]

abbrev pub add_pending_peer : Peer → RegionInfo → RegionInfo
add_pending_peer p r = record r { pending_peers = r.pending_peers ++ (p ∷ []) }

abbrev retain_others : ℕ → List Peer → List Peer
retain_others id [] = []
retain_others id (p ∷ ps) =
    let rest = retain_others id ps in if not (p.id == id) then p ∷ rest else rest

abbrev pub remove_pending_peer : ℕ → RegionInfo → RegionInfo
remove_pending_peer id r = record r { pending_peers = retain_others id r.pending_peers }

abbrev pub store_ids : List Peer → List ℕ
store_ids [] = []
store_ids (p ∷ ps) = p.store_id ∷ store_ids ps

abbrev pub get_leader_store_id : RegionInfo → Option ℕ
get_leader_store_id r = elim r.leader [ none ↦ none | some p ↦ some p.store_id ]

-- `get_leader_store_id() == Some(store)`
abbrev pub leads_on : ℕ → RegionInfo → Bool
leads_on store r = elim r.leader [ none ↦ false | some p ↦ p.store_id == store ]

abbrev others_than : Option ℕ → List Peer → List ℕ
others_than leader [] = []
others_than leader (p ∷ ps) =
    let rest = others_than leader ps in
    elim leader [
      | none ↦ p.store_id ∷ rest
      | some s ↦ if not (p.store_id == s) then p.store_id ∷ rest else rest
    ]

abbrev pub get_follower_store_ids : RegionInfo → List ℕ
get_follower_store_ids r = others_than (get_leader_store_id r) r.region.peers

-- `is_healthy`, and `!has_pending_peers`
abbrev pub is_healthy : RegionInfo → Bool
is_healthy r = elim r.pending_peers [ [] ↦ true | p ∷ ps ↦ false ]

-- `peers().iter().any(|p| p.id == … && p.store_id == …)`
abbrev pub has_peer : ℕ → ℕ → List Peer → Bool
has_peer id store [] = false
has_peer id store (p ∷ ps) =
    let rest = has_peer id store ps in if p.id == id && p.store_id == store then true else rest

abbrev pub has_id : ℕ → List Peer → Bool
has_id id [] = false
has_id id (p ∷ ps) = let rest = has_id id ps in if p.id == id then true else rest

abbrev pub has_store : ℕ → List Peer → Bool
has_store store [] = false
has_store store (p ∷ ps) =
    let rest = has_store store ps in if p.store_id == store then true else rest

abbrev pub find_store : ℕ → List Peer → Option Peer
find_store store [] = none
find_store store (p ∷ ps) =
    let rest = find_store store ps in if p.store_id == store then some p else rest

abbrev pub get_peer_by_store_id : ℕ → RegionInfo → Option Peer
get_peer_by_store_id store r = find_store store r.region.peers
