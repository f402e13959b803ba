-- ===== src/Pd/Regions.antt =====
-- src/pd/state.rs: the region that a key is routed to.
use aegisdb_core.Prelude.{
  ℕ, ◌≡◌, ◌≢◌, refl, ap, ◌∙◌, true, false, ◌||◌, List, [], ◌∷◌, some, ok, All, Bool-cases, inl, inr,
  ◌==◌, arith,
}
use aegisdb_core.Prelude.Assoc.{Assoc, insert, values, nat_eq}
use aegisdb_core.Prelude.Bytes.{Bytes}
use aegisdb_core.Prelude.Order.{bytes_geb}
use aegisdb_core.Pd.{
  PdState, RegionHeartbeat, handle_region_heartbeat, reported, cluster_of, holds_key, find_holder,
  get_region_by_key, add_pending,
}
use aegisdb_core.Pd.Heartbeats.{IsComplete, heartbeat-cluster, reported-id}
use aegisdb_core.RaftStore.Range.{key_in_region, in_region_lem, is_empty}
use aegisdb_core.Scheduler.Cluster.Known.{put_region-regions}
use aegisdb_core.Scheduler.Region.{Region, RegionInfo, Peer, new_region, add_pending_peer}

start_lem : (key start : Bytes) → (is_empty start || bytes_geb key start) ≡ bytes_geb key start
unfolding bytes_geb
start_lem key [] = refl
start_lem key (b ∷ bs) = refl

-- The placement driver's test of a key and the store's agree.
holds_key_lem : (key : Bytes) (r : RegionInfo) → holds_key key r ≡ key_in_region key r.region
holds_key_lem key r = ground (arith, start_lem key r.region.start_key, in_region_lem key r.region)

-- The regions kept under other ids do not hold the key.
abbrev pub OthersLack : Bytes → ℕ → Assoc ℕ RegionInfo → Type 0
OthersLack key id = All (λ (e : ℕ × RegionInfo). e.0 ≢ id → key_in_region key e.1.region ≡ false)

find_holder-insert :
    (key : Bytes) (id : ℕ) (r : RegionInfo) (l : Assoc ℕ RegionInfo)
    → holds_key key r ≡ true
    → OthersLack key id l
    → find_holder key (values (insert id r l)) ≡ some r
unfolding find_holder insert
find_holder-insert key id r [] holds lack = rw holds refl
find_holder-insert key id r ((k, q) ∷ l) holds (lacks, lack) = elim (Bool-cases (k == id)) [
  | inl same ↦ rw (same, holds) refl
  | inr other ↦
      let not_q = holds_key_lem key q ∙ lacks (λ e. ground (arith, e, other)) in
      rw (other, not_q) (find_holder-insert key id r l holds lack)
]

leader_of : (ps : List Peer) (r : RegionInfo) → (add_pending ps r).leader ≡ r.leader
leader_of [] r = refl
leader_of (p ∷ ps) r = leader_of ps (add_pending_peer p r)

-- After a complete heartbeat of a region, a key that the region holds, and no region kept under another id,
-- is routed to that region and the leader that was reported.
pub routed_lem :
    (now : ℕ) (request : RegionHeartbeat) (s : PdState) (store_id : ℕ) (region : Region)
    (leader : Peer) (key : Bytes)
    → IsComplete request store_id region leader
    → key_in_region key region ≡ true
    → OthersLack key region.id (cluster_of s).regions
    → get_region_by_key key (handle_region_heartbeat now request s).1 ≡ ok (region, some leader)
unfolding get_region_by_key
routed_lem now request s store_id region leader key complete holds lack =
    let info = reported region leader request in
    let same = reported-id region leader request in
    let own : info.region.id ≡ region.id = ap (λ (r : Region). r.id) same in
    let it_holds : holds_key key info ≡ true =
      holds_key_lem key info ∙ ap (key_in_region key) same ∙ holds in
    let known =
      ap (λ c. c.regions) (heartbeat-cluster now request s store_id region leader complete)
      ∙ put_region-regions info (cluster_of s)
      ∙ ap (λ k. insert k info (cluster_of s).regions) own in
    let found =
      ap (λ l. find_holder key (values l)) known
      ∙ find_holder-insert key region.id info (cluster_of s).regions it_holds lack in
    rw found (λ i. ok (same i, leader_of request.pending_peers (new_region region (some leader)) i))
