-- ===== src/RaftStore/Admin/Refused.antt =====
-- src/raftstore/admin.rs: which commands change the store.
use aegisdb_core.Prelude.{
  ℕ, ◌≡◌, ◌⊎◌, inl, inr, refl, true, false, List, Option, none, some, Result, ok, err, panic,
  Bool-cases, arith, sym, ◌∙◌,
}
use aegisdb_core.RaftStore.Admin.{
  AdminRequest, SplitRequest, execute, execute_split, peers_for, is_key_in_range, AdminResponse,
  AdminCmdType, admin_cmd_type, invalid_admin, change_peer, compact_log, transfer_leader, split,
  execute_kind, created, store_split, split_requested,
}
use aegisdb_core.RaftStore.Admin.Parts.{in_range_lem}
use aegisdb_core.RaftStore.Admin.Split.{after_split}
use aegisdb_core.RaftStore.Range.{is_empty, key_in_region}
use aegisdb_core.RaftStore.StoreMeta.{StoreMeta}
use aegisdb_core.Scheduler.Region.{Region, Peer}

split_cmd : (n : ℕ) → admin_cmd_type n ≡ split → n ≡ 10
split_cmd n e = ground arith

module _ (store_id : ℕ) (allocate_peers : Region → Result (List Peer)) where
  -- A split that is carried out: its key is in the region, and there are peers for the new region.
  pub record IsCarriedOut (region : Region) (request : SplitRequest) (m : StoreMeta)
      (outcome : Result AdminResponse × StoreMeta) : Type 0 where
    pub peers : List Peer
    pub key_given : is_empty request.split_key ≡ false
    pub inside : key_in_region request.split_key region ≡ true
    pub given : peers_for store_id allocate_peers region request.new_peer_ids ≡ ok peers
    pub stored : outcome.1 ≡ after_split region request peers m

  -- An outcome that is an error and changes nothing, or a panic of the code that chooses stores.
  abbrev pub IsRefused : StoreMeta → Result AdminResponse × StoreMeta → Type 0
  IsRefused m (ok r, after) = ⊥
  IsRefused m (err e, after) = after ≡ m
  IsRefused m (panic, after) = after ≡ m

  outcome_cases :
      (region : Region) (request : SplitRequest) (m : StoreMeta) (o : Result (List Peer))
      → is_empty request.split_key ≡ false
      → key_in_region request.split_key region ≡ true
      → peers_for store_id allocate_peers region request.new_peer_ids ≡ o
      → let outcome = store_split region request m (created region request o) in
        IsRefused m outcome ⊎ IsCarriedOut region request m outcome
  outcome_cases region request m (ok peers) full inside e =
      inr (record { peers = peers; key_given = full; inside = inside; given = e; stored = refl })
  outcome_cases region request m (err e) full inside p = inl refl
  outcome_cases region request m panic full inside p = inl refl

  split_cases :
      (region : Region) (request : SplitRequest) (m : StoreMeta)
      → IsRefused m (execute_split store_id allocate_peers region request m)
        ⊎ IsCarriedOut region request m (execute_split store_id allocate_peers region request m)
  unfolding execute_split
  split_cases region request m = elim (Bool-cases (is_empty request.split_key)) [
    | inl empty ↦ rw empty (inl refl)
    | inr full ↦ elim (Bool-cases (is_key_in_range request.split_key region)) [
      | inr outside ↦ rw (full, outside) (inl refl)
      | inl within ↦
          let inside = sym (in_range_lem request.split_key region) ∙ within in
          rw (full, within)
            (outcome_cases region request m
              (peers_for store_id allocate_peers region request.new_peer_ids) full inside refl)
    ]
  ]

  command_cases :
      (region : Region) (request : AdminRequest) (m : StoreMeta) (o : Option SplitRequest)
      → o ≡ request.split_request
      → request.cmd_type ≡ 10
      → let outcome = split_requested store_id allocate_peers region o m in
        IsRefused m outcome
        ⊎ ((s : SplitRequest) × (request.cmd_type ≡ 10)
            × (request.split_request ≡ some s)
            × IsCarriedOut region s m outcome)
  command_cases region request m none e ten = inl refl
  command_cases region request m (some s) e ten = elim (split_cases region s m) [
    | inl refused ↦ inl refused
    | inr carried ↦ inr (s, ten, sym e, carried)
  ]

  kind_cases :
      (region : Region) (request : AdminRequest) (m : StoreMeta) (k : AdminCmdType)
      → admin_cmd_type request.cmd_type ≡ k
      → let outcome = execute_kind store_id allocate_peers k region request m in
        IsRefused m outcome
        ⊎ ((s : SplitRequest) × (request.cmd_type ≡ 10)
            × (request.split_request ≡ some s)
            × IsCarriedOut region s m outcome)
  kind_cases region request m split e =
      command_cases region request m request.split_request refl (split_cmd request.cmd_type e)
  kind_cases region request m change_peer e = inl refl
  kind_cases region request m transfer_leader e = inl refl
  kind_cases region request m compact_log e = inl refl
  kind_cases region request m invalid_admin e = inl refl

  -- A command either is refused, and then the store is as it was, or is a split with a key inside the
  -- region and with peers for the new region, and then its two parts are stored.
  pub execute_lem :
      (region : Region) (request : AdminRequest) (m : StoreMeta)
      → let outcome = execute store_id allocate_peers region request m in
        IsRefused m outcome
        ⊎ ((s : SplitRequest) × (request.cmd_type ≡ 10)
            × (request.split_request ≡ some s)
            × IsCarriedOut region s m outcome)
  unfolding execute
  execute_lem region request m = kind_cases region request m (admin_cmd_type request.cmd_type) refl
