-- ===== src/Pd/Heartbeats.antt =====
-- src/pd/state.rs: what a heartbeat of a region leaves.
use aegisdb_core.Prelude.{
  ℕ, ◌≡◌, refl, sym, ap, subst, ◌∙◌, some, Result, ok, err, ◌==◌, if◌then◌else◌, inl, inr,
  Bool-cases, List, [], ◌∷◌,
}
use aegisdb_core.Prelude.Assoc.{nat_eq}
use aegisdb_core.Pd.{
  PdState, RegionHeartbeat, handle_region_heartbeat, take_report, reported, cluster_of,
  with_cluster, answer_report, add_pending,
}
use aegisdb_core.Scheduler.Cluster.{member, get_region, put_region}
use aegisdb_core.Scheduler.Cluster.Index.{IsIndexed, put_region-IsIndexed}
use aegisdb_core.Scheduler.Cluster.Known.{get_region-put_region}
use aegisdb_core.Scheduler.Controller.{heartbeat}
use aegisdb_core.Scheduler.Controller.Frame.{dispatch-cluster}
use aegisdb_core.Scheduler.Region.{Region, RegionInfo, Peer, new_region, add_pending_peer}

add_pending-region : (ps : List Peer) (r : RegionInfo) → (add_pending ps r).region ≡ r.region
add_pending-region [] r = refl
add_pending-region (p ∷ ps) r = add_pending-region ps (add_pending_peer p r)

take_report-cluster :
    (now : ℕ) (info : RegionInfo) (s : PdState)
    → cluster_of (take_report now info s) ≡ put_region info (cluster_of s)
unfolding take_report
take_report-cluster now info s =
    dispatch-cluster now heartbeat info
      (with_cluster (put_region info (cluster_of s)) s).operator_controller

-- A heartbeat that has its sender, its region and its leader.
pub record IsComplete (request : RegionHeartbeat) (store_id : ℕ) (region : Region) (leader : Peer)
    : Type 0 where
  pub has_sender : request.sender ≡ some store_id
  pub has_region : request.region ≡ some region
  pub has_leader : request.leader ≡ some leader

pub complete_lem :
    (now : ℕ) (request : RegionHeartbeat) (s : PdState) (store_id : ℕ) (region : Region)
    (leader : Peer)
    → IsComplete request store_id region leader
    → handle_region_heartbeat now request s
      ≡ answer_report now store_id (reported region leader request) s
unfolding handle_region_heartbeat
complete_lem now request s store_id region leader h =
    rw (h.has_sender, h.has_region, h.has_leader) refl

answer_report-state :
    (now store_id : ℕ) (info : RegionInfo) (s : PdState)
    → (answer_report now store_id info s).1 ≡ take_report now info s
answer_report-state now store_id info s =
    elim (Bool-cases (member store_id (take_report now info s).heartbeat_streams)) [
      | inl bound ↦ rw bound refl
      | inr missing ↦ rw missing refl
    ]

take_report-streams :
    (now : ℕ) (info : RegionInfo) (s : PdState)
    → (take_report now info s).heartbeat_streams ≡ s.heartbeat_streams
unfolding take_report
take_report-streams now info s = refl

answered :
    (now store_id : ℕ) (info : RegionInfo) (s : PdState)
    → (answer_report now store_id info s).0
      ≡ (if member store_id s.heartbeat_streams then ok tt else err "heartbeat stream missing")
answered now store_id info s =
    let same = ap (member store_id) (take_report-streams now info s) in
    elim (Bool-cases (member store_id s.heartbeat_streams)) [
      | inl bound ↦ rw (same, bound) refl
      | inr missing ↦ rw (same, missing) refl
    ]

pub reported-id :
    (region : Region) (leader : Peer) (request : RegionHeartbeat)
    → (reported region leader request).region ≡ region
reported-id region leader request =
    add_pending-region request.pending_peers (new_region region (some leader))

-- The cluster after a complete heartbeat is the one before with the reported region put in.
pub heartbeat-cluster :
    (now : ℕ) (request : RegionHeartbeat) (s : PdState) (store_id : ℕ) (region : Region)
    (leader : Peer)
    → IsComplete request store_id region leader
    → cluster_of (handle_region_heartbeat now request s).1
      ≡ put_region (reported region leader request) (cluster_of s)
heartbeat-cluster now request s store_id region leader h =
    ap (λ (p : Result (Unit {0}) × PdState). cluster_of p.1)
      (complete_lem now request s store_id region leader h)
    ∙ ap cluster_of (answer_report-state now store_id (reported region leader request) s)
    ∙ take_report-cluster now (reported region leader request) s

-- A complete heartbeat puts the region as it was reported, leaves every other region, and keeps the indices
-- of the cluster; it succeeds exactly when a stream is bound to the store that sent it, and the region is
-- put either way.
pub heartbeat_lem :
    (now : ℕ) (request : RegionHeartbeat) (s : PdState) (store_id : ℕ) (region : Region)
    (leader : Peer)
    → IsComplete request store_id region leader
    → IsIndexed (cluster_of s)
    → let (result, after) = handle_region_heartbeat now request s in
      IsIndexed (cluster_of after)
      × ((id : ℕ)
          → get_region id (cluster_of after) ≡ (
              if region.id == id
              then some (reported region leader request)
              else get_region id (cluster_of s)))
      × (result
          ≡ (if member store_id s.heartbeat_streams then ok tt else err "heartbeat stream missing"))
heartbeat_lem now request s store_id region leader h indexed =
    let info = reported region leader request in
    let now_known = heartbeat-cluster now request s store_id region leader h in
    let own : info.region.id ≡ region.id =
      ap (λ (r : Region). r.id) (reported-id region leader request) in
    (
      subst IsIndexed (sym now_known) (put_region-IsIndexed info (cluster_of s) indexed),
      (λ id.
          ap (get_region id) now_known
          ∙ get_region-put_region info (cluster_of s) id
          ∙ ap (λ k. if k == id then some info else get_region id (cluster_of s)) own),
      ap (λ (p : Result (Unit {0}) × PdState). p.0)
            (complete_lem now request s store_id region leader h)
          ∙ answered now store_id info s,
    )
