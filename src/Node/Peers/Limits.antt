-- ===== src/Node/Peers/Limits.antt =====
-- `PeerManager` of crates/taron-node/src/peer.rs: the counters of the connections and the limits on
-- them, over every sequence of calls.
use taron.Prelude.{
  ℕ, ◌+◌, ◌-◌, ◌≤◌, ◌≡◌, refl, ap, ◌∙◌, true, false, Option, none, some, List, [], ◌∷◌, ◌++◌,
  length, arith, ltb, leb, ◌==◌, if◌then◌else◌, ite, inl, inr, Bool-cases, Option-cases, or_else,
  is_some,
}
use taron.Prelude.Words.{Bytes, saturating_sub}
use taron.Prelude.Text.{bytes_dec}
use taron.Prelude.Dict.{
  Dict, lookup, insert, erase, sum, IsUnique, lookup-insert, lookup-erase, sum-insert,
  sum-insert_new, sum-erase, insert-IsUnique, erase-IsUnique,
}
use taron.Node.Peers.{
  IpAddr, SocketAddr, addr_dec, PeerInfo, PeerManager, PeerDirection, ban_duration, new_peers,
  is_banned, track_connection_attempt, penalize, add_peer, update_peer, remove_peer, update_hello,
  touch, set_broadcast_tx, take_broadcast_tx, new_peer_info, inbound_count, outbound_count,
  can_accept, connections, is_connected, is_inbound, is_outbound, max_inbound, max_outbound,
  max_connections_per_ip, inbound, outbound, recent_attempts, max_conn_rate_per_minute, sub_i32,
  lt_i32, score_ban_threshold,
}

-- 1 for a peer at the IP address.
abbrev pub at_ip : IpAddr → PeerInfo → ℕ
at_ip ip p = ite (bytes_dec p.addr.0 ip) 1 0

-- The connected peers of an IP address.
abbrev pub peers_at : IpAddr → PeerManager → ℕ
peers_at ip m = sum (at_ip ip) m.peers

pub record IsWithin (m : PeerManager) : Type 0 where
  pub unique : IsUnique addr_dec m.peers
  pub keyed :
      (addr : SocketAddr) (p : PeerInfo) → lookup addr_dec addr m.peers ≡ some p → p.addr ≡ addr
  pub counted : (ip : IpAddr) → connections ip m ≡ peers_at ip m
  pub per_ip : (ip : IpAddr) → connections ip m ≤ max_connections_per_ip
  pub inbound_limit : sum is_inbound m.peers ≤ max_inbound
  pub outbound_limit : sum is_outbound m.peers ≤ max_outbound

-- The tables that calls lead to.
pub data Reachable : PeerManager → Type 0 where
  start : Reachable new_peers
  ban_query :
      {m : PeerManager} (now : ℕ) (ip : IpAddr) → Reachable m → Reachable (is_banned now ip m).1
  attempt :
      {m : PeerManager} (now : ℕ) (ip : IpAddr)
      → Reachable m
      → Reachable (track_connection_attempt now ip m).1
  penalty :
      {m : PeerManager} (now : ℕ) (addr : SocketAddr) (points : ℕ)
      → Reachable m
      → Reachable (penalize now addr points m).1
  connect :
      {m : PeerManager} (now : ℕ) (addr : SocketAddr) (direction : PeerDirection)
      → Reachable m
      → Reachable (add_peer now addr direction m).1
  hello :
      {m : PeerManager} (now : ℕ) (addr : SocketAddr) (version : ℕ) (user_agent : Bytes)
      → Reachable m
      → Reachable (update_hello now addr version user_agent m)
  seen :
      {m : PeerManager} (now : ℕ) (addr : SocketAddr) → Reachable m → Reachable (touch now addr m)
  channel :
      {m : PeerManager} (addr : SocketAddr) (tx : ℕ)
      → Reachable m
      → Reachable (set_broadcast_tx addr tx m)
  channel_taken :
      {m : PeerManager} (addr : SocketAddr)
      → Reachable m
      → Reachable (update_peer addr (λ p. (take_broadcast_tx p).1) m)
  disconnect : {m : PeerManager} (addr : SocketAddr) → Reachable m → Reachable (remove_peer addr m)

-- A write to an entry that keeps its address and its direction.
write-IsWithin :
    (m : PeerManager) (addr : SocketAddr) (old new : PeerInfo)
    → lookup addr_dec addr m.peers ≡ some old
    → new.addr ≡ old.addr
    → new.direction ≡ old.direction
    → IsWithin m
    → IsWithin (record m { peers = insert addr_dec addr new m.peers })
write-IsWithin m addr old new e same_addr same_dir v = record {
  unique = insert-IsUnique addr_dec addr new m.peers v.unique;
  keyed = λ a p h. elim (addr_dec addr a) [
    | yes same ↦
        let written : p ≡ new = ground (arith, lookup-insert addr_dec a addr new m.peers) in
        let there : old.addr ≡ addr = v.keyed addr old e in
        ap (λ (q : PeerInfo). q.addr) written ∙ same_addr ∙ there ∙ same
    | no other ↦ v.keyed a p (ground (arith, lookup-insert addr_dec a addr new m.peers))
  ];
  counted = λ ip.
      let same : at_ip ip new ≡ at_ip ip old =
        ap (λ (a : SocketAddr). ite (bytes_dec a.0 ip) 1 0) same_addr in
      let total = sum-insert addr_dec (at_ip ip) addr new old m.peers e in
      let before = v.counted ip in omega (arith);
  per_ip = v.per_ip;
  inbound_limit =
      let same : is_inbound new ≡ is_inbound old =
        ap (λ (d : PeerDirection). elim d [ inbound ↦ 1 | outbound ↦ 0 ]) same_dir in
      let total = sum-insert addr_dec is_inbound addr new old m.peers e in
      let before = v.inbound_limit in omega arith;
  outbound_limit =
      let same : is_outbound new ≡ is_outbound old =
        ap (λ (d : PeerDirection). elim d [ inbound ↦ 0 | outbound ↦ 1 ]) same_dir in
      let total = sum-insert addr_dec is_outbound addr new old m.peers e in
      let before = v.outbound_limit in omega arith;
}

update_peer-IsWithin :
    (m : PeerManager) (addr : SocketAddr) (f : PeerInfo → PeerInfo)
    → ((p : PeerInfo) → (f p).addr ≡ p.addr)
    → ((p : PeerInfo) → (f p).direction ≡ p.direction)
    → IsWithin m
    → IsWithin (update_peer addr f m)
unfolding update_peer
update_peer-IsWithin m addr f keeps_addr keeps_dir v =
    elim (Option-cases (lookup addr_dec addr m.peers)) [
      | inl absent ↦ rw (update_peer, absent) v
      | inr (p, there) ↦
          rw (update_peer, there)
            (write-IsWithin m addr p (f p) there (keeps_addr p) (keeps_dir p) v)
    ]

-- A change of the bans or of the attempts.
other-IsWithin :
    (m : PeerManager) (banned : Dict IpAddr ℕ) (attempts : Dict IpAddr (List ℕ))
    → IsWithin m
    → IsWithin (record m { banned = banned; connection_attempts = attempts })
other-IsWithin m banned attempts v = record {
  unique = v.unique;
  keyed = v.keyed;
  counted = v.counted;
  per_ip = v.per_ip;
  inbound_limit = v.inbound_limit;
  outbound_limit = v.outbound_limit;
}

is_banned-IsWithin :
    (m : PeerManager) (now : ℕ) (ip : IpAddr) → IsWithin m → IsWithin (is_banned now ip m).1
unfolding is_banned
is_banned-IsWithin m now ip v = elim (Option-cases (lookup bytes_dec ip m.banned)) [
  | inl never ↦ rw (is_banned, never) v
  | inr (at, banned) ↦ elim (Bool-cases (ltb (saturating_sub now at) ban_duration)) [
    | inl active ↦ rw (is_banned, banned, active) v
    | inr expired ↦
        rw (is_banned, banned, expired)
          (other-IsWithin m (erase bytes_dec ip m.banned) m.connection_attempts v)
  ]
]

track_connection_attempt-IsWithin :
    (m : PeerManager) (now : ℕ) (ip : IpAddr)
    → IsWithin m
    → IsWithin (track_connection_attempt now ip m).1
unfolding track_connection_attempt
track_connection_attempt-IsWithin m now ip v =
    let earlier = or_else (lookup bytes_dec ip m.connection_attempts) [] in
    let attempts = recent_attempts now earlier ++ (now ∷ []) in
    let tracked = insert bytes_dec ip attempts m.connection_attempts in
    elim (Bool-cases (ltb max_conn_rate_per_minute (length attempts))) [
      | inl over ↦
          rw (track_connection_attempt, over)
            (other-IsWithin m (insert bytes_dec ip now m.banned) tracked v)
      | inr fine ↦ rw (track_connection_attempt, fine) (other-IsWithin m m.banned tracked v)
    ]

penalize-IsWithin :
    (m : PeerManager) (now : ℕ) (addr : SocketAddr) (points : ℕ)
    → IsWithin m
    → IsWithin (penalize now addr points m).1
unfolding penalize
penalize-IsWithin m now addr points v = elim (Option-cases (lookup addr_dec addr m.peers)) [
  | inl absent ↦ rw (penalize, absent) v
  | inr (p, there) ↦
      let score = sub_i32 p.score points in
      let v' = write-IsWithin m addr p (record p { score = score }) there refl refl v in
      elim (Bool-cases (lt_i32 score score_ban_threshold)) [
        | inr fine ↦ rw (penalize, there, fine) v'
        | inl low ↦
            rw (penalize, there, low)
              (other-IsWithin
                (record m { peers = insert addr_dec addr (record p { score = score }) m.peers })
                (insert bytes_dec addr.0 now m.banned) m.connection_attempts v')
      ]
]

-- The counter of an IP address after it is set to `n` the way `remove_peer` does.
lookup-set_or_erase :
    (ip at : IpAddr) (n : ℕ) (d : Dict IpAddr ℕ)
    → or_else
        (lookup bytes_dec ip (if n == 0 then erase bytes_dec at d else insert bytes_dec at n d))
        0
      ≡ ite (bytes_dec at ip) n (or_else (lookup bytes_dec ip d) 0)
lookup-set_or_erase ip at n d = elim (Bool-cases (n == 0)) [
  | inl none_left ↦ rw none_left (ground (arith, lookup-erase bytes_dec ip at d))
  | inr some_left ↦ rw some_left (ground (arith, lookup-insert bytes_dec ip at n d))
]

remove_peer-IsWithin :
    (m : PeerManager) (addr : SocketAddr) → IsWithin m → IsWithin (remove_peer addr m)
unfolding remove_peer
remove_peer-IsWithin m addr v = elim (Option-cases (lookup addr_dec addr m.peers)) [
  | inl absent ↦ rw (remove_peer, absent) v
  | inr (p, there) ↦
      rw (remove_peer, there)
        (record {
          unique = erase-IsUnique addr_dec addr m.peers v.unique;
          keyed = λ a q h. v.keyed a q (ground (arith, lookup-erase addr_dec a addr m.peers));
          counted = λ ip.
              let n = connections addr.0 m - 1 in
              let counter = lookup-set_or_erase ip addr.0 n m.connections_per_ip in
              let total = sum-erase addr_dec (at_ip ip) addr p m.peers v.unique there in
              let own : at_ip ip p ≡ ite (bytes_dec addr.0 ip) 1 0 =
                ap (λ (a : SocketAddr). ite (bytes_dec a.0 ip) 1 0) (v.keyed addr p there) in
              let before = v.counted ip in
              counter ∙ elim (bytes_dec addr.0 ip) [
                | yes same ↦
                    let here : connections addr.0 m ≡ connections ip m =
                      ap (λ i. connections i m) same in
                    ground arith
                | no other ↦ ground arith
              ];
          per_ip = λ ip.
              let counter =
                lookup-set_or_erase ip addr.0 (connections addr.0 m - 1) m.connections_per_ip in
              let before = v.per_ip ip in let here = v.per_ip addr.0 in ground arith;
          inbound_limit =
              let total = sum-erase addr_dec is_inbound addr p m.peers v.unique there in
              let before = v.inbound_limit in omega arith;
          outbound_limit =
              let total = sum-erase addr_dec is_outbound addr p m.peers v.unique there in
              let before = v.outbound_limit in omega arith;
        })
]

inbound_fits :
    (m : PeerManager) (now : ℕ) (addr : SocketAddr) (direction : PeerDirection)
    → lookup addr_dec addr m.peers ≡ none
    → can_accept direction m ≡ true
    → sum is_inbound m.peers ≤ max_inbound
    → sum is_inbound (insert addr_dec addr (new_peer_info now addr direction) m.peers) ≤ max_inbound
unfolding can_accept inbound_count
inbound_fits m now addr inbound new accepts h =
    ground (arith, sum-insert_new addr_dec is_inbound addr (new_peer_info now addr inbound) m.peers)
inbound_fits m now addr outbound new accepts h =
    ground
      (arith, sum-insert_new addr_dec is_inbound addr (new_peer_info now addr outbound) m.peers)

outbound_fits :
    (m : PeerManager) (now : ℕ) (addr : SocketAddr) (direction : PeerDirection)
    → lookup addr_dec addr m.peers ≡ none
    → can_accept direction m ≡ true
    → sum is_outbound m.peers ≤ max_outbound
    → sum is_outbound (insert addr_dec addr (new_peer_info now addr direction) m.peers)
      ≤ max_outbound
unfolding can_accept outbound_count
outbound_fits m now addr inbound new accepts h =
    ground
      (arith, sum-insert_new addr_dec is_outbound addr (new_peer_info now addr inbound) m.peers)
outbound_fits m now addr outbound new accepts h =
    ground
      (arith, sum-insert_new addr_dec is_outbound addr (new_peer_info now addr outbound) m.peers)

admit-IsWithin :
    (m : PeerManager) (now : ℕ) (addr : SocketAddr) (direction : PeerDirection)
    → leb max_connections_per_ip (connections addr.0 m) ≡ false
    → lookup addr_dec addr m.peers ≡ none
    → can_accept direction m ≡ true
    → IsWithin m
    → IsWithin (record m {
      peers = insert addr_dec addr (new_peer_info now addr direction) m.peers;
      connections_per_ip = insert bytes_dec addr.0 (connections addr.0 m + 1) m.connections_per_ip;
    })
admit-IsWithin m now addr direction room new accepts v = record {
  unique = insert-IsUnique addr_dec addr (new_peer_info now addr direction) m.peers v.unique;
  keyed = λ a q h. elim (addr_dec addr a) [
    | yes same ↦
        ground (arith, lookup-insert addr_dec a addr (new_peer_info now addr direction) m.peers)
    | no other ↦
        v.keyed a q
          (ground (arith, lookup-insert addr_dec a addr (new_peer_info now addr direction) m.peers))
  ];
  counted = λ ip.
      let counter =
        lookup-insert bytes_dec ip addr.0 (connections addr.0 m + 1) m.connections_per_ip in
      let total =
        sum-insert_new addr_dec (at_ip ip) addr (new_peer_info now addr direction) m.peers new in
      let before = v.counted ip in
      elim (bytes_dec addr.0 ip) [
        | yes same ↦
            let here : connections addr.0 m ≡ connections ip m = ap (λ i. connections i m) same in
            ground arith
        | no other ↦ ground arith
      ];
  per_ip = λ ip.
      let counter =
        lookup-insert bytes_dec ip addr.0 (connections addr.0 m + 1) m.connections_per_ip in
      let before = v.per_ip ip in ground arith;
  inbound_limit = inbound_fits m now addr direction new accepts v.inbound_limit;
  outbound_limit = outbound_fits m now addr direction new accepts v.outbound_limit;
}

is_some-none : {A : Type 0} (o : Option A) → is_some o ≡ false → o ≡ none
is_some-none none e = refl
is_some-none (some a) e = absurd (ground arith)

add_peer-IsWithin :
    (m : PeerManager) (now : ℕ) (addr : SocketAddr) (direction : PeerDirection)
    → IsWithin m
    → IsWithin (add_peer now addr direction m).1
unfolding add_peer is_connected
add_peer-IsWithin m now addr direction v =
    let m' = (is_banned now addr.0 m).1 in
    let v' : IsWithin m' = is_banned-IsWithin m now addr.0 v in
    elim (Bool-cases (is_banned now addr.0 m).0) [
      | inl ban ↦ rw (add_peer, ban) v'
      | inr free ↦ elim (Bool-cases (leb max_connections_per_ip (connections addr.0 m'))) [
        | inl full ↦ rw (add_peer, free, full) v'
        | inr room ↦ elim (Bool-cases (is_connected addr m')) [
          | inl known ↦ rw (add_peer, free, room, known) v'
          | inr new ↦ elim (Bool-cases (can_accept direction m')) [
            | inr refused ↦ rw (add_peer, free, room, new, refused) v'
            | inl accepts ↦
                rw (add_peer, free, room, new, accepts)
                  (admit-IsWithin m' now addr direction room
                    (is_some-none (lookup addr_dec addr m'.peers) new) accepts v')
          ]
        ]
      ]
    ]

-- Over every sequence of calls, the counter of an IP address is the number of its connected peers,
-- no IP address has more than 2, at most 1024 peers are inbound and at most 16 outbound.
pub Reachable-IsWithin : (m : PeerManager) → Reachable m → IsWithin m
unfolding lookup new_peers update_hello touch set_broadcast_tx take_broadcast_tx
Reachable-IsWithin m start = record {
  unique = tt;
  keyed = λ a p h. absurd (cc);
  counted = λ ip. refl;
  per_ip = λ ip. omega arith;
  inbound_limit = omega arith;
  outbound_limit = omega arith;
}
Reachable-IsWithin m (ban_query {m = m₀} now ip r) =
    is_banned-IsWithin m₀ now ip (Reachable-IsWithin m₀ r)
Reachable-IsWithin m (attempt {m = m₀} now ip r) =
    track_connection_attempt-IsWithin m₀ now ip (Reachable-IsWithin m₀ r)
Reachable-IsWithin m (penalty {m = m₀} now addr points r) =
    penalize-IsWithin m₀ now addr points (Reachable-IsWithin m₀ r)
Reachable-IsWithin m (connect {m = m₀} now addr direction r) =
    add_peer-IsWithin m₀ now addr direction (Reachable-IsWithin m₀ r)
Reachable-IsWithin m (hello {m = m₀} now addr version agent r) =
    update_peer-IsWithin m₀ addr
      (λ p. record p { version = version; user_agent = agent; last_seen = now }) (λ p. refl)
      (λ p. refl) (Reachable-IsWithin m₀ r)
Reachable-IsWithin m (seen {m = m₀} now addr r) =
    update_peer-IsWithin m₀ addr (λ p. record p { last_seen = now }) (λ p. refl) (λ p. refl)
      (Reachable-IsWithin m₀ r)
Reachable-IsWithin m (channel {m = m₀} addr tx r) =
    update_peer-IsWithin m₀ addr (λ p. record p { broadcast_tx = some tx }) (λ p. refl) (λ p. refl)
      (Reachable-IsWithin m₀ r)
Reachable-IsWithin m (channel_taken {m = m₀} addr r) =
    update_peer-IsWithin m₀ addr (λ p. record p { broadcast_tx = none }) (λ p. refl) (λ p. refl)
      (Reachable-IsWithin m₀ r)
Reachable-IsWithin m (disconnect {m = m₀} addr r) =
    remove_peer-IsWithin m₀ addr (Reachable-IsWithin m₀ r)
