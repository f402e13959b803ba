-- ===== src/RaftStore/Recovery/Own.antt =====
-- src/raftstore/recovery.rs: what the scan reads for one key.
use aegisdb_core.Prelude.{
  ℕ, ◌≡◌, ◌%◌, ◌/◌, ◌^◌, ◌≢◌, refl, ap, subst, ◌∙◌, inl, inr, true, false, not, ◌||◌, [], ◌∷◌, ◌++◌,
  Option, none, some, Result, ok, get_elem?-lt, length, err, panic, ◌>>=◌, ◌==◌, ltb, u64_mod,
  arith, Bool-cases, bind-ok,
}
use aegisdb_core.Prelude.Bytes.{Bytes}
use aegisdb_core.Mvcc.Codec.{to_be_bytes}
use aegisdb_core.Engine.{Db, key_with_cf}
use aegisdb_core.RaftStore.Meta.{
  Encoding, decoded, PeerState, normal, tombstone, RegionLocalState, get_region_local_state,
}
use aegisdb_core.RaftStore.Meta.Keys.{region_meta_prefix, decode_region_meta_key}
use aegisdb_core.RaftStore.RegionTask.{Scan}
use aegisdb_core.RaftStore.Recovery.{has_peer_on, if_own, is_tombstone, own_region, read_region}
use aegisdb_core.Scheduler.Region.{Region}

alive_lem : (x : PeerState) → is_tombstone x ≡ false → x ≡ normal
alive_lem normal h = refl
alive_lem tombstone h = cc

if_own_lem :
    (store_id : ℕ) (region r : Region)
    → if_own store_id region ≡ some r
    → (region ≡ r) × (has_peer_on store_id region.peers ≡ true)
if_own_lem store_id region r h = ground arith

pub decode_total : (k : Bytes) → decode_region_meta_key k ≢ panic
unfolding decode_region_meta_key
decode_total [] h = cc
decode_total (first ∷ rest) h =
    elim (Bool-cases (ltb (length rest) 9 || not (first == region_meta_prefix))) [
      | inl refused ↦ ground (arith, h, refused)
      | inr fine ↦
          let (suffix, there) = get_elem?-lt rest 8 (ground (arith, fine)) in
          ground (arith, h, fine, there)
    ]

wrapped_bytes : (n : ℕ) → to_be_bytes n ≡ to_be_bytes (n % u64_mod)
wrapped_bytes n =
    let at_56 : n % u64_mod / 2 ^ 56 % 256 ≡ n / 2 ^ 56 % 256 = omega arith in
    let at_48 : n % u64_mod / 2 ^ 48 % 256 ≡ n / 2 ^ 48 % 256 = omega arith in
    let at_40 : n % u64_mod / 2 ^ 40 % 256 ≡ n / 2 ^ 40 % 256 = omega arith in
    let at_32 : n % u64_mod / 2 ^ 32 % 256 ≡ n / 2 ^ 32 % 256 = omega arith in
    let at_24 : n % u64_mod / 2 ^ 24 % 256 ≡ n / 2 ^ 24 % 256 = omega arith in
    let at_16 : n % u64_mod / 2 ^ 16 % 256 ≡ n / 2 ^ 16 % 256 = omega arith in
    let at_8 : n % u64_mod / 2 ^ 8 % 256 ≡ n / 2 ^ 8 % 256 = omega arith in
    let at_0 : n % u64_mod % 256 ≡ n % 256 = omega arith in
    rw (at_56, at_48, at_40, at_32, at_24, at_16, at_8, at_0) refl

module _ (kv : Db) (scan : Scan kv) (bytes : Encoding Region)
    (local : Encoding RegionLocalState) where
  -- The state of region `region_id` holds the region, and a peer of it is on the store.
  abbrev pub IsOwn : ℕ → kv.State → ℕ → Region → Type 0
  IsOwn store_id s region_id r =
      (state : RegionLocalState) × (get_region_local_state kv local region_id s ≡ ok (some state))
      × (state.state ≡ normal)
      × (bytes.deserialize state.region_bytes ≡ ok r)
      × (has_peer_on store_id r.peers ≡ true)

  -- What is read for one key.
  Answers : ℕ → kv.State → Option Region → Type 0
  Answers store_id s found =
      (r : Region) → found ≡ some r → (region_id : ℕ) × IsOwn store_id s region_id r

  own_region_sound :
      (store_id region_id : ℕ) (s : kv.State) (r : Region) (read : Result (Option RegionLocalState))
      → get_region_local_state kv local region_id s ≡ read
      → own_region kv scan bytes local store_id read ≡ ok (some r)
      → IsOwn store_id s region_id r
  own_region_sound store_id region_id s r (ok (some state)) e h =
      let (alive, decoded) : (is_tombstone state.state ≡ false)
          × ((bytes.deserialize state.region_bytes >>= λ region. ok (if_own store_id region))
              ≡ ok (some r)) =
        ground arith in
      let (region, decodes, own) =
        bind-ok (bytes.deserialize state.region_bytes) (λ region. ok (if_own store_id region))
          (some r) decoded in
      let (same, peer) = if_own_lem store_id region r (cc) in
      (
        state,
        e,
        alive_lem state.state alive,
        decodes ∙ ap (λ t. ok t) same,
        subst (λ t. has_peer_on store_id t.peers ≡ true) same peer,
      )
  own_region_sound store_id region_id s r (ok none) e h = cc
  own_region_sound store_id region_id s r (err x) e h = cc
  own_region_sound store_id region_id s r panic e h = cc

  -- Reading a state does not panic, and the region of each state that is read can be decoded.
  abbrev pub IsReadable : kv.State → Type 0
  IsReadable s =
      (region_id : ℕ)
      → (get_region_local_state kv local region_id s ≢ panic)
        × ((state : RegionLocalState)
            → get_region_local_state kv local region_id s ≡ ok (some state)
            → (r : Region) × (bytes.deserialize state.region_bytes ≡ ok r))

  own_region_total :
      (store_id region_id : ℕ) (s : kv.State) (read : Result (Option RegionLocalState))
      → get_region_local_state kv local region_id s ≡ read
      → IsReadable s
      → (found : Option Region) × (own_region kv scan bytes local store_id read ≡ ok found)
  own_region_total store_id region_id s (ok (some state)) e readable =
      elim (Bool-cases (is_tombstone state.state)) [
        | inl dead ↦ (none, rw dead refl)
        | inr alive ↦
            let (r, decodes) = (readable region_id).1 state e in
            (if_own store_id r, rw (alive, decodes) refl)
      ]
  own_region_total store_id region_id s (ok none) e readable = (none, refl)
  own_region_total store_id region_id s (err x) e readable = (none, refl)
  own_region_total store_id region_id s panic e readable = absurd ((readable region_id).0 e)

  pub own_region_complete :
      (store_id region_id : ℕ) (s : kv.State) (r : Region)
      → IsOwn store_id s region_id r
      → own_region kv scan bytes local store_id (get_region_local_state kv local region_id s)
        ≡ ok (some r)
  own_region_complete store_id region_id s r (state, there, alive, decodes, own) =
      rw (there, alive, decodes, own) refl

  pub read_region_sound :
      (store_id : ℕ) (s : kv.State) (r : Region) (read : Result (ℕ × ℕ))
      → read_region kv scan bytes local store_id s read ≡ ok (some r)
      → (region_id : ℕ) × IsOwn store_id s region_id r
  read_region_sound store_id s r (ok (region_id, suffix)) h = (
    region_id,
    own_region_sound store_id region_id s r (get_region_local_state kv local region_id s) refl h,
  )
  read_region_sound store_id s r (err x) h = cc
  read_region_sound store_id s r panic h = cc

  pub read_total :
      (store_id : ℕ) (s : kv.State) (read : Result (ℕ × ℕ))
      → read ≢ panic
      → IsReadable s
      → (found : Option Region) × (read_region kv scan bytes local store_id s read ≡ ok found)
  read_total store_id s (ok (region_id, suffix)) fine readable =
      own_region_total store_id region_id s (get_region_local_state kv local region_id s) refl
        readable
  read_total store_id s (err x) fine readable = (none, refl)
  read_total store_id s panic fine readable = absurd (fine refl)

  -- Ids that agree modulo 2^64 have one state.
  pub wrapped-IsOwn :
      (store_id region_id : ℕ) (s : kv.State) (r : Region)
      → IsOwn store_id s region_id r
      → IsOwn store_id s (region_id % u64_mod) r
  unfolding get_region_local_state
  wrapped-IsOwn store_id region_id s r (state, there, alive, decodes, peer) = (
    state,
    subst
        (λ b.
          (kv.get s (key_with_cf [] (region_meta_prefix ∷ (b ++ (1 ∷ [])))) >>= decoded local)
          ≡ ok (some state))
        (wrapped_bytes region_id) there,
    alive,
    decodes,
    peer,
  )
